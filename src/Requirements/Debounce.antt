-- ===== src/Requirements/Debounce.antt =====
-- internal/requirements/evaluator.go: one round of the loop over the rules, and whole rounds.
use text.Mathlib.TextLemmas.{append_cancel_left, append_cancel_right}
use nightjar.Prelude.{
  ℕ, ◌+◌, ◌≤◌, ◌≡◌, ◌≢◌, inl, inr, refl, ◌↔◌, String, Option, none, some, List, [], ◌∷◌, arith,
  string_eq, eq_iff, ◌==◌, if◌then◌else◌, ◌∈◌, All, mem-append, All-mem, subst,
}
use nightjar.Prelude.Dict.{Dict, lookup, lookup-insert, lookup-erase}
use nightjar.Types.{Constraint}
use nightjar.Requirements.Evaluator.{
  Workload, Found, error, constraints, RequirementRule, debounced, run_rule, run_rules,
  debounce_key, workload_uid,
}

-- What a run of a rule makes of the entry of its key.
abbrev pub entry_after : ℕ → Found → Option ℕ → Option ℕ
entry_after now (error _) o = o
entry_after now (constraints []) o = none
entry_after now (constraints (c ∷ cs)) none = some now
entry_after now (constraints (c ∷ cs)) (some first) = some first

abbrev pub or_now : ℕ → Option ℕ → ℕ
or_now now none = now
or_now now (some first) = first

-- The rule finds the constraint now, and has found something since a whole duration.
abbrev pub IsDue : ℕ → ℕ → Workload → Dict String ℕ → Constraint → RequirementRule → Type 0
IsDue now duration w seen c rule =
    (cs : List Constraint) × (rule.evaluate now w ≡ constraints cs)
    × (c ∈ cs)
    × (or_now now (lookup (debounce_key w rule) seen) + duration ≤ now)

-- The rule finds the constraint.
abbrev pub FoundBy : ℕ → Workload → Constraint → RequirementRule → Type 0
FoundBy now w c rule = (cs : List Constraint) × (rule.evaluate now w ≡ constraints cs) × (c ∈ cs)

abbrev pub HasDistinctNames : List RequirementRule → Type 0
HasDistinctNames [] = Unit {0}
HasDistinctNames (r ∷ rs) = All (λ s. r.name ≢ s.name) rs × HasDistinctNames rs

key_names :
    (w : Workload) (r s : RequirementRule) → debounce_key w r ≡ debounce_key w s → r.name ≡ s.name
key_names w r s h =
    append_cancel_right r.name s.name ""
      (append_cancel_left ":" _ _ (append_cancel_left (workload_uid w) _ _ h))

module _ (now duration : ℕ) (w : Workload) where
  pub lookup-run_rule :
      (k : String) (rule : RequirementRule) (seen : Dict String ℕ)
      → lookup k (run_rule now duration w rule seen).0 ≡ (
          if debounce_key w rule == k
          then entry_after now (rule.evaluate now w) (lookup k seen)
          else lookup k seen)
  unfolding run_rule debounced
  lookup-run_rule k rule seen = ground (
    arith,
    eq_iff (debounce_key w rule) k,
    lookup-erase (debounce_key w rule) k seen,
    lookup-insert (debounce_key w rule) k now seen,
  )

  run_rule_iff :
      (c : Constraint) (rule : RequirementRule) (seen : Dict String ℕ)
      → (c ∈ (run_rule now duration w rule seen).1) ↔ IsDue now duration w seen c rule
  unfolding run_rule debounced
  run_rule_iff c rule seen = ground arith

  -- A rule of another name leaves the entry of this rule.
  later_entry :
      (rule s : RequirementRule) (seen : Dict String ℕ)
      → rule.name ≢ s.name
      → lookup (debounce_key w s) (run_rule now duration w rule seen).0
        ≡ lookup (debounce_key w s) seen
  later_entry rule s seen other = ground (
    arith,
    lookup-run_rule (debounce_key w s) rule seen,
    eq_iff (debounce_key w rule) (debounce_key w s),
    key_names w rule s,
  )

  later-IsDue :
      (c : Constraint) (rule s : RequirementRule) (seen : Dict String ℕ)
      → rule.name ≢ s.name
      → IsDue now duration w (run_rule now duration w rule seen).0 c s
        ↔ IsDue now duration w seen c s
  later-IsDue c rule s seen other = rw (later_entry rule s seen other) ((λ h. h), (λ h. h))

  -- Where the names of the rules are distinct, a constraint is among those that the loop over the
  -- rules collects exactly if some rule finds it now, and the time since that rule's first sight of
  -- something missing, or now where it has none, is at least the duration.
  pub run_rules_iff :
      (c : Constraint) (rules : List RequirementRule) (seen : Dict String ℕ)
      → HasDistinctNames rules
      → (c ∈ (run_rules now duration w rules seen).1)
        ↔ ((rule : RequirementRule) × (rule ∈ rules) × IsDue now duration w seen c rule)
  unfolding run_rules
  run_rules_iff c [] seen d = (λ h. absurd h, λ h. absurd h.1)
  run_rules_iff c (rule ∷ rules) seen (fresh, d) =
      let after = (run_rule now duration w rule seen).0 in
      let rest = run_rules_iff c rules after d in
      let here = run_rule_iff c rule seen in
      let parts =
        mem-append c (run_rule now duration w rule seen).1
          (run_rules now duration w rules after).1 in
      (
        λ h. elim (parts.0 h) [
          | inl m ↦ (rule, inl refl, here.0 m)
          | inr m ↦
              let (s, member, due) = rest.0 m in
              (
                s,
                inr member,
                (later-IsDue c rule s seen (All-mem (λ s. rule.name ≢ s.name) rules fresh member)).0
                    due,
              )
        ],
        λ h. elim h.1 [
          | inl e ↦ parts.1 (inl (here.1 (subst (IsDue now duration w seen c) e h.2)))
          | inr m ↦ parts.1 (
              inr (
                rest.1 (
                  h.0,
                  m,
                  (later-IsDue c rule h.0 seen (All-mem (λ s. rule.name ≢ s.name) rules fresh m)).1
                      h.2,
                )))
        ],
      )
