-- ===== src/Requirements/Restarts.antt =====
-- internal/requirements/evaluator.go: what the cleanup of the debounce map does to a rule that still
-- finds something.
use nightjar.Prelude.{
  ℕ, ◌+◌, ◌*◌, ◌≤◌, ◌<◌, ◌≡◌, String, Option, none, some, [], ◌∷◌, arith, string_eq, ◌∈◌, ◌∙◌, ap,
  concat, not, ltb,
}
use nightjar.Prelude.Dict.{HasDistinctKeys, lookup, retain, lookup-retain}
use nightjar.Types.{Constraint}
use nightjar.Requirements.Evaluator.{
  Workload, RequirementRule, Evaluator, evaluate, cleanup_stale_entries, debounce_key, workload_uid,
}
use nightjar.Requirements.Debounce.{or_now, FoundBy, HasDistinctNames, run_rules_iff}

debounce_key-name :
    (w : Workload) (r s : RequirementRule) → r.name ≡ s.name → debounce_key w r ≡ debounce_key w s
debounce_key-name w r s h = ap (λ name. concat (workload_uid w ∷ ":" ∷ name ∷ [])) h

too_soon :
    (now duration : ℕ) (entry : Option ℕ)
    → entry ≡ none
    → 0 < duration
    → or_now now entry + duration ≤ now
    → ⊥
too_soon now duration entry fresh positive due = ground arith

-- With distinct names of rules, distinct keys and a positive debounce: where a rule has found
-- something on a workload since before twice the debounce, and still finds a constraint which no rule
-- of another name finds, an `Evaluate` returns the constraint, but does not when a cleanup comes
-- before it.
pub cleanup_restarts :
    (e : Evaluator) (rule : RequirementRule) (w : Workload) (first now later : ℕ) (c : Constraint)
    → rule ∈ e.rules
    → HasDistinctNames e.rules
    → HasDistinctKeys e.debounce.first_seen
    → lookup (debounce_key w rule) e.debounce.first_seen ≡ some first
    → first + 2 * e.debounce.duration < now
    → now ≤ later
    → 0 < e.debounce.duration
    → FoundBy later w c rule
    → ((other : RequirementRule)
        → other ∈ e.rules
        → FoundBy later w c other
        → other.name ≡ rule.name)
    → (c ∈ (evaluate later (some w) e).1)
      × ¬ (c ∈ (evaluate later (some w) (cleanup_stale_entries now e)).1)
unfolding evaluate cleanup_stale_entries
cleanup_restarts e rule w first now later c member names distinct found old order positive
      (cs, missing, here) alone =
    let seen = e.debounce.first_seen in
    let test = λ (_ : String) (t : ℕ). not (ltb (t + 2 * e.debounce.duration) now) in
    let cleaned : lookup (debounce_key w rule) (retain test seen) ≡ none =
      lookup-retain test (debounce_key w rule) seen distinct ∙ rw found (ground arith) in
    (
      (run_rules_iff later e.debounce.duration w c e.rules seen names).1
          (rule, member, (cs, missing, here, rw found (omega arith))),
      λ m.
          let (other, there, (cs', finds, among, due)) =
            (run_rules_iff later e.debounce.duration w c e.rules (retain test seen) names).0 m in
          let same = debounce_key-name w other rule (alone other there (cs', finds, among)) in
          let fresh = ap (λ k. lookup k (retain test seen)) same ∙ cleaned in
          too_soon later e.debounce.duration _ fresh positive due,
    )
