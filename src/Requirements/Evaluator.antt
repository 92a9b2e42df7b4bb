-- ===== src/Requirements/Evaluator.antt =====
-- internal/requirements/evaluator.go: the rules run on a workload, and the debounce of what they
-- find. A rule is its name and its `Evaluate` at a time, since it reads the cluster; an error is a
-- text. `now.Sub(firstSeen) >= duration` is `firstSeen + duration <= now`, and
-- `now.Sub(firstSeen) > cutoff` is `firstSeen + cutoff < now`.
use nightjar.Prelude.{
  ℕ, ◌+◌, ◌*◌, String, not, Option, none, some, List, [], ◌∷◌, ◌++◌, if◌then◌else◌, ltb, leb, ◌==◌,
  string_eq, concat,
}
use nightjar.Prelude.Dict.{Dict, lookup, insert, erase, retain}
use nightjar.Types.{Constraint}
use nightjar.Util.{Unstructured}

abbrev pub Workload : Type 0
Workload = Unstructured

-- `([]types.Constraint, error)`
pub data Found : Type 0 where
  error : String → Found
  constraints : List Constraint → Found

pub record RequirementRule : Type 0 where
  pub name : String
  pub evaluate : ℕ → Workload → Found

pub record DebounceState : Type 0 where
  pub duration : ℕ
  pub first_seen : Dict String ℕ

pub record Evaluator : Type 0 where
  pub rules : List RequirementRule
  pub debounce : DebounceState

-- 120 seconds, in nanoseconds
abbrev pub default_debounce_duration : ℕ
default_debounce_duration = 120 * 1000000000

unfoldable pub new_evaluator : Evaluator
new_evaluator = record {
  rules = [];
  debounce = record { duration = default_debounce_duration; first_seen = [] };
}

unfoldable pub set_debounce_duration : ℕ → Evaluator → Evaluator
set_debounce_duration d e = record e { debounce = record e.debounce { duration = d } }

unfoldable pub register_rule : RequirementRule → Evaluator → Evaluator
register_rule rule e = record e { rules = e.rules ++ rule ∷ [] }

unfoldable pub workload_uid : Workload → String
workload_uid w = if w.uid == "" then concat (w.namespace ∷ "/" ∷ w.name ∷ []) else w.uid

abbrev pub debounce_key : Workload → RequirementRule → String
debounce_key w rule = concat (workload_uid w ∷ ":" ∷ rule.name ∷ [])

-- The body of the loop after the rule ran without error: the new entries, and what is reported.
unfoldable pub debounced :
    ℕ → ℕ → String → List Constraint → Dict String ℕ → Dict String ℕ × List Constraint
debounced now duration key [] seen = (erase key seen, [])
debounced now duration key (c ∷ cs) seen = elim (lookup key seen) [
  | none ↦ (insert key now seen, if leb (now + duration) now then c ∷ cs else [])
  | some first ↦ (seen, if leb (first + duration) now then c ∷ cs else [])
]

-- One round of the loop over the rules.
unfoldable pub run_rule :
    ℕ → ℕ → Workload → RequirementRule → Dict String ℕ → Dict String ℕ × List Constraint
run_rule now duration w rule seen = elim (rule.evaluate now w) [
  | error _ ↦ (seen, [])
  | constraints cs ↦ debounced now duration (debounce_key w rule) cs seen
]

unfoldable pub run_rules :
    ℕ → ℕ → Workload → List RequirementRule → Dict String ℕ → Dict String ℕ × List Constraint
run_rules now duration w [] seen = (seen, [])
run_rules now duration w (rule ∷ rules) seen =
    let (seen', found) = run_rule now duration w rule seen in
    let (last, others) = run_rules now duration w rules seen' in (last, found ++ others)

-- `Evaluate` on a workload, which may be nil.
unfoldable pub evaluate : ℕ → Option Workload → Evaluator → Evaluator × List Constraint
evaluate now none e = (e, [])
evaluate now (some w) e =
    let (seen, found) = run_rules now e.debounce.duration w e.rules e.debounce.first_seen in
    (record e { debounce = record e.debounce { first_seen = seen } }, found)

unfoldable pub cleanup_stale_entries : ℕ → Evaluator → Evaluator
cleanup_stale_entries now e = record e {
  debounce = record e.debounce {
    first_seen =
        retain (λ _ first. not (ltb (first + 2 * e.debounce.duration) now)) e.debounce.first_seen;
  };
}
