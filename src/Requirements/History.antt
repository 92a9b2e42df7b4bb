-- ===== src/Requirements/History.antt =====
-- internal/requirements/evaluator.go: what an entry of the debounce map says of the past calls.
use nightjar.Prelude.{
  ℕ, ◌+◌, ◌≤◌, ◌≡◌, ◌⊎◌, inl, inr, refl, String, Bool, Option, Option-cases, none, some, List, [],
  ◌∷◌, arith, string_eq, eq_iff, ◌∈◌, ◌∙◌, sym, All, ◌↔◌, subst,
}
use nightjar.Prelude.Dict.{
  Dict, HasDistinctKeys, lookup, kept, lookup-retain, erase-HasDistinctKeys, insert-HasDistinctKeys,
  retain-HasDistinctKeys,
}
use nightjar.Types.{Constraint}
use nightjar.Requirements.Evaluator.{
  Workload, Found, error, constraints, RequirementRule, Evaluator, run_rule, run_rules, evaluate,
  cleanup_stale_entries, debounce_key, debounced,
}
use nightjar.Requirements.Debounce.{
  or_now, FoundBy, HasDistinctNames, lookup-run_rule, run_rules_iff,
}

-- A call at a time: `Evaluate` on a workload, or a tick of the cleanup.
pub data Call : Type 0 where
  evaluates : Workload → Call
  cleans : Call

-- The state after a history whose last call stands first.
unfoldable pub after : List (ℕ × Call) → Evaluator → Evaluator
after [] e = e
after ((now, evaluates w) ∷ past) e = (evaluate now (some w) (after past e)).0
after ((now, cleans) ∷ past) e = cleanup_stale_entries now (after past e)

abbrev pub HasSome : Found → Type 0
HasSome (error _) = ⊥
HasSome (constraints []) = ⊥
HasSome (constraints (c ∷ cs)) = Unit {0}

-- Some rule of this key found something on the workload; some rule of this key found nothing.
abbrev pub Finds : String → ℕ → Workload → List RequirementRule → Type 0
Finds key now w [] = ⊥
Finds key now w (r ∷ rs) =
    ((debounce_key w r ≡ key) × HasSome (r.evaluate now w)) ⊎ Finds key now w rs

abbrev pub FindsNone : String → ℕ → Workload → List RequirementRule → Type 0
FindsNone key now w [] = ⊥
FindsNone key now w (r ∷ rs) =
    ((debounce_key w r ≡ key) × (r.evaluate now w ≡ constraints [])) ⊎ FindsNone key now w rs

-- A rule of the key found something at `t`, and since then none of the key found nothing.
abbrev pub MissingSince : List RequirementRule → String → ℕ → List (ℕ × Call) → Type 0
MissingSince rules key t [] = ⊥
MissingSince rules key t ((now, evaluates w) ∷ past) =
    ((t ≡ now) × Finds key now w rules)
    ⊎ (MissingSince rules key t past × ¬ FindsNone key now w rules)
MissingSince rules key t ((now, cleans) ∷ past) = MissingSince rules key t past

module _ (key : String) (now duration : ℕ) (w : Workload) where
  -- An entry after a run of a rule is new, or the rule did not find nothing.
  entry_of_rule :
      (rule : RequirementRule) (seen : Dict String ℕ) (t : ℕ)
      → lookup key (run_rule now duration w rule seen).0 ≡ some t
      → ((t ≡ now) × ((debounce_key w rule ≡ key) × HasSome (rule.evaluate now w)))
        ⊎ ((lookup key seen ≡ some t)
            × ¬ ((debounce_key w rule ≡ key) × (rule.evaluate now w ≡ constraints [])))
  entry_of_rule rule seen t h =
      ground (arith, lookup-run_rule now duration w key rule seen, eq_iff (debounce_key w rule) key)

  entry_of_rules :
      (rules : List RequirementRule) (seen : Dict String ℕ) (t : ℕ)
      → lookup key (run_rules now duration w rules seen).0 ≡ some t
      → ((t ≡ now) × Finds key now w rules)
        ⊎ ((lookup key seen ≡ some t) × ¬ FindsNone key now w rules)
  unfolding run_rules
  entry_of_rules [] seen t h = inr (h, λ e. e)
  entry_of_rules (rule ∷ rules) seen t h =
      elim (entry_of_rules rules (run_rule now duration w rule seen).0 t h) [
        | inl (e, f) ↦ inl (e, inr f)
        | inr (e, f) ↦ elim (entry_of_rule rule seen t e) [
          | inl (e', f') ↦ inl (e', inl f')
          | inr (e', f') ↦ inr (e', λ d. elim d [ inl a ↦ f' a | inr b ↦ f b ])
        ]
      ]

rules-after : (past : List (ℕ × Call)) (e : Evaluator) → (after past e).rules ≡ e.rules
unfolding after evaluate cleanup_stale_entries
rules-after [] e = refl
rules-after ((now, evaluates w) ∷ past) e = rules-after past e
rules-after ((now, cleans) ∷ past) e = rules-after past e

duration-after :
    (past : List (ℕ × Call)) (e : Evaluator)
    → (after past e).debounce.duration ≡ e.debounce.duration
unfolding after evaluate cleanup_stale_entries
duration-after [] e = refl
duration-after ((now, evaluates w) ∷ past) e = duration-after past e
duration-after ((now, cleans) ∷ past) e = duration-after past e

run_rules-HasDistinctKeys :
    (now duration : ℕ) (w : Workload) (rules : List RequirementRule) (seen : Dict String ℕ)
    → HasDistinctKeys seen
    → HasDistinctKeys (run_rules now duration w rules seen).0
unfolding run_rules
run_rules-HasDistinctKeys now duration w [] seen d = d
run_rules-HasDistinctKeys now duration w (rule ∷ rules) seen d =
    run_rules-HasDistinctKeys now duration w rules (run_rule now duration w rule seen).0 (
      unfold run_rule debounced in
      ground (
        arith,
        erase-HasDistinctKeys (debounce_key w rule) seen d,
        insert-HasDistinctKeys (debounce_key w rule) now seen d,
      ))

after-HasDistinctKeys :
    (past : List (ℕ × Call)) (e : Evaluator)
    → HasDistinctKeys e.debounce.first_seen
    → HasDistinctKeys (after past e).debounce.first_seen
unfolding after evaluate cleanup_stale_entries
after-HasDistinctKeys [] e d = d
after-HasDistinctKeys ((now, evaluates w) ∷ past) e d =
    run_rules-HasDistinctKeys now _ w (after past e).rules _ (after-HasDistinctKeys past e d)
after-HasDistinctKeys ((now, cleans) ∷ past) e d =
    retain-HasDistinctKeys _ _ (after-HasDistinctKeys past e d)

kept-some : (p : ℕ → Bool) (o : Option ℕ) {t : ℕ} → kept p o ≡ some t → o ≡ some t
kept-some p o h = ground arith

-- From an empty map, after any history, an entry is a time since when something has been missing.
entry-MissingSince :
    (past : List (ℕ × Call)) (e : Evaluator) (key : String) (t : ℕ)
    → e.debounce.first_seen ≡ []
    → lookup key (after past e).debounce.first_seen ≡ some t
    → MissingSince e.rules key t past
unfolding after evaluate cleanup_stale_entries
entry-MissingSince [] e key t empty h = unfold lookup in cc (empty)
entry-MissingSince ((now, evaluates w) ∷ past) e key t empty h =
    let before = after past e in
    elim (entry_of_rules key now before.debounce.duration w before.rules before.debounce.first_seen
      t h) [
        | inl (same, f) ↦ inl (same, subst (Finds key now w) (rules-after past e) f)
        | inr (old, f) ↦ inr (
          entry-MissingSince past e key t empty old,
          subst (λ rules. ¬ FindsNone key now w rules) (rules-after past e) f,
        )
      ]
entry-MissingSince ((now, cleans) ∷ past) e key t empty h =
    let distinct = after-HasDistinctKeys past e (subst HasDistinctKeys (sym empty) tt) in
    entry-MissingSince past e key t empty
      (kept-some _ _ (sym (lookup-retain _ key (after past e).debounce.first_seen distinct) ∙ h))

-- With distinct names of rules and from an empty debounce map: after any history, whatever
-- `Evaluate` returns at a time was found then by one of the rules, and, if the duration is not 0,
-- the history holds a time at least the duration earlier since when something has been missing: a
-- rule of that key found something then, and none has found nothing after.
pub evaluate-missing :
    (past : List (ℕ × Call)) (e : Evaluator) (now : ℕ) (w : Workload) (c : Constraint)
    → HasDistinctNames e.rules
    → e.debounce.first_seen ≡ []
    → c ∈ (evaluate now (some w) (after past e)).1
    → (rule : RequirementRule) × (rule ∈ e.rules)
      × ((cs : List Constraint) × (rule.evaluate now w ≡ constraints cs) × (c ∈ cs))
      × ((e.debounce.duration ≡ 0)
          ⊎ ((t : ℕ) × MissingSince e.rules (debounce_key w rule) t past
              × (t + e.debounce.duration ≤ now)))
unfolding evaluate
evaluate-missing past e now w c names empty m =
    let before = after past e in
    let (rule, member, (cs, found, here, due)) =
      (run_rules_iff now before.debounce.duration w c before.rules before.debounce.first_seen
          (subst HasDistinctNames (sym (rules-after past e)) names)).0
        m in
    (
      rule,
      subst (λ rules. rule ∈ rules) (rules-after past e) member,
      (cs, found, here),
      elim (Option-cases (lookup (debounce_key w rule) before.debounce.first_seen)) [
        | inl fresh ↦ inl (ground (arith, duration-after past e))
        | inr (t, old) ↦ inr (
          t,
          entry-MissingSince past e (debounce_key w rule) t empty old,
          ground (arith, duration-after past e),
        )
      ],
    )

MissingSince-le :
    (rules : List RequirementRule) (key : String) (t now : ℕ) (past : List (ℕ × Call))
    → All (λ p. p.0 ≤ now) past
    → MissingSince rules key t past
    → t ≤ now
MissingSince-le rules key t now [] before since = absurd since
MissingSince-le rules key t now ((time, evaluates w) ∷ past) (le, before) (inl (same, finds)) =
    subst (λ n. n ≤ now) (sym same) le
MissingSince-le rules key t now ((time, evaluates w) ∷ past) (le, before) (inr (since, f)) =
    MissingSince-le rules key t now past before since
MissingSince-le rules key t now ((time, cleans) ∷ past) (le, before) since =
    MissingSince-le rules key t now past before since

or_now-le :
    (now duration : ℕ) (entry : Option ℕ)
    → ((t : ℕ) → entry ≡ some t → t ≤ now)
    → duration ≡ 0
    → or_now now entry + duration ≤ now
or_now-le now duration none earlier zero = omega (arith, zero)
or_now-le now duration (some t) earlier zero = omega (arith, zero, earlier t refl)

-- With distinct names of rules, a debounce of 0 and from an empty debounce map: after any history
-- that is not in the future, `Evaluate` returns a constraint exactly if some rule finds it.
pub evaluate-at_once :
    (past : List (ℕ × Call)) (e : Evaluator) (now : ℕ) (w : Workload) (c : Constraint)
    → HasDistinctNames e.rules
    → e.debounce.first_seen ≡ []
    → e.debounce.duration ≡ 0
    → All (λ p. p.0 ≤ now) past
    → (c ∈ (evaluate now (some w) (after past e)).1)
      ↔ ((rule : RequirementRule) × (rule ∈ e.rules) × FoundBy now w c rule)
unfolding evaluate
evaluate-at_once past e now w c names empty zero before =
    let state = after past e in
    let (to, from) =
      run_rules_iff now state.debounce.duration w c state.rules state.debounce.first_seen
        (subst HasDistinctNames (sym (rules-after past e)) names) in
    (
      λ m.
          let (rule, member, (cs, finds, here, due)) = to m in
          (rule, subst (λ rules. rule ∈ rules) (rules-after past e) member, (cs, finds, here)),
      λ (rule, member, (cs, finds, here)).
          let due =
            or_now-le now state.debounce.duration
              (lookup (debounce_key w rule) state.debounce.first_seen)
              (λ t seen.
                MissingSince-le e.rules (debounce_key w rule) t now past before
                  (entry-MissingSince past e (debounce_key w rule) t empty seen))
              (duration-after past e ∙ zero) in
          from (
            rule,
            subst (λ rules. rule ∈ rules) (sym (rules-after past e)) member,
            (cs, finds, here, due),
          ),
    )
