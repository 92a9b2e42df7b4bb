-- ===== src/Mcp/Queries.antt =====
-- HandleQuery of internal/mcp/handlers.go: which constraints it answers with, and in what order.
use nightjar.Prelude.{
  String, ◌≡◌, ◌≢◌, ◌↔◌, ◌⊎◌, inl, inr, refl, Bool, true, false, ◌&&◌, Option, some, List, [], ◌∷◌,
  ◌==◌, string_eq, arith, length, map, eq_iff, All, ◌≤◌, keep, subst,
}
use mathlib.Core.List.{Perm}
use nightjar.Prelude.Sorting.{Sorting, IsSorting, IsOrdered}
use nightjar.Types.{Constraint, DetailLevel, LabelSelector}
use nightjar.Indexer.{Indexer, by_namespace, by_labels, matches_namespace, all}
use nightjar.Indexer.Queries.{Affects, matches_namespace_iff}
use nightjar.Notifier.Steps.{RemediationBuilder}
use nightjar.Reports.Entries.{severity_order}
use nightjar.Mcp.Results.{ConstraintResult}
use nightjar.Mcp.Messages.{QueryParams}
use nightjar.Mcp.Handlers.{passes, filter_constraints, constraints_for, result_of, handle_query}
use nightjar.Mcp.Answers.{Answered}

-- What a query asks for: a constraint that affects the namespace, whose workload selector matches
-- the labels if some are given, and of the type and the severity that are given.
abbrev pub Asked :
    (Option LabelSelector → List (String × String) → Bool) → QueryParams → Constraint → Type 0
Asked matches_labels params c =
    Affects c params.namespace
    × ((params.workload_labels ≡ [])
        ⊎ (matches_labels c.workload_selector params.workload_labels ≡ true))
    × ((params.constraint_type ≡ "") ⊎ (c.constraint_type ≡ params.constraint_type))
    × ((params.severity ≡ "") ⊎ (c.severity ≡ params.severity))

-- The first severity is at least as high as the second.
abbrev pub IsAtLeast : String → String → Type 0
IsAtLeast s t =
    (s ≡ "Critical")
    ⊎ ((t ≢ "Critical") × ((s ≡ "Warning") ⊎ ((t ≢ "Warning") × ((s ≡ "Info") ⊎ (t ≢ "Info")))))

-- No result stands behind one of a lower severity.
abbrev pub IsBySeverity : List ConstraintResult → Type 0
IsBySeverity [] = Unit {0}
IsBySeverity (r ∷ rs) = All (λ s. IsAtLeast r.severity s.severity) rs × IsBySeverity rs

severity_order_iff : (s t : String) → (severity_order s ≤ severity_order t) ↔ IsAtLeast s t
unfolding severity_order
severity_order_iff s t = ground (
  arith,
  eq_iff s "Critical",
  eq_iff s "Warning",
  eq_iff s "Info",
  eq_iff t "Critical",
  eq_iff t "Warning",
  eq_iff t "Info",
)

behind :
    (r : ConstraintResult) (rs : List ConstraintResult)
    → All (λ s. severity_order r.severity ≤ severity_order s.severity) rs
    → All (λ s. IsAtLeast r.severity s.severity) rs
behind r [] h = tt
behind r (s ∷ rs) h = ((severity_order_iff r.severity s.severity).0 h.0, behind r rs h.1)

ordered-IsBySeverity :
    (rs : List ConstraintResult) → IsOrdered (λ r. severity_order r.severity) rs → IsBySeverity rs
ordered-IsBySeverity [] h = tt
ordered-IsBySeverity (r ∷ rs) h = (behind r rs h.0, ordered-IsBySeverity rs h.1)

module _ (matches_labels : Option LabelSelector → List (String × String) → Bool) where
  abbrev is_labelled : List (String × String) → Constraint → Bool
  is_labelled [] c = true
  is_labelled (l ∷ ls) c = matches_labels c.workload_selector (l ∷ ls)

  -- The tests of a query in one.
  abbrev is_asked : QueryParams → List (String × String) → Constraint → Bool
  is_asked params labels c =
      matches_namespace c params.namespace
      && (is_labelled labels c
          && (passes params.constraint_type c.constraint_type && passes params.severity c.severity))

  is_labelled_iff :
      (labels : List (String × String)) (c : Constraint)
      → (is_labelled labels c ≡ true)
        ↔ ((labels ≡ []) ⊎ (matches_labels c.workload_selector labels ≡ true))
  is_labelled_iff [] c = (λ h. inl refl, λ h. refl)
  is_labelled_iff (l ∷ ls) c = (λ h. inr h, λ h. elim h [ inl e ↦ cc | inr m ↦ m ])

  is_asked_iff :
      (params : QueryParams) (c : Constraint)
      → (is_asked params params.workload_labels c ≡ true) ↔ Asked matches_labels params c
  is_asked_iff params c = ground (
    arith,
    matches_namespace_iff c params.namespace,
    is_labelled_iff params.workload_labels c,
    eq_iff params.constraint_type "",
    eq_iff c.constraint_type params.constraint_type,
    eq_iff params.severity "",
    eq_iff c.severity params.severity,
  )

  keep-keep :
      (p q r : Constraint → Bool) (cs : List Constraint)
      → ((c : Constraint) → r c ≡ (p c && q c))
      → keep q (keep p cs) ≡ keep r cs
  unfolding keep
  keep-keep p q r [] h = refl
  keep-keep p q r (c ∷ cs) h = ground (arith, h c, keep-keep p q r cs h)

  found_asked :
      (idx : Indexer) (params : QueryParams) (labels : List (String × String))
      → filter_constraints (constraints_for matches_labels idx params.namespace labels) params
        ≡ keep (is_asked params labels) (all idx)
  unfolding filter_constraints constraints_for by_namespace by_labels all
  found_asked idx params [] = keep-keep _ _ _ _ (λ c. ground arith)
  found_asked idx params (l ∷ ls) = keep-keep _ _ _ _ (λ c. ground arith)

  -- A query of a namespace answers with one result for each constraint of the index that affects
  -- the namespace, matches the labels of the workload if some are given, and is of the type and of
  -- the severity that are given; with their number; no result behind one of a lower severity,
  -- where Critical is above Warning, Warning above Info, and Info above all others.
  pub handle_query_lem :
      (sorting : Sorting) (rb : RemediationBuilder) (now : String) (idx : Indexer)
      (level : DetailLevel) (params : QueryParams)
      → IsSorting sorting
      → params.namespace ≢ ""
      → Answered
          (λ r.
            IsBySeverity r.constraints
            × (r.total ≡ length r.constraints)
            × ((wanted : Constraint → Bool) × ((c : Constraint)
                  → (wanted c ≡ true) ↔ Asked matches_labels params c)
                × Perm r.constraints (
                    map
                      (result_of rb now idx level params.include_remediation params.namespace)
                      (keep wanted (all idx)))))
          (handle_query rb now idx level sorting matches_labels (some params))
  unfolding handle_query
  handle_query_lem sorting rb now idx level params sorts named =
      let wanted =
        filter_constraints
          (constraints_for matches_labels idx params.namespace params.workload_labels) params in
      let results =
        map (result_of rb now idx level params.include_remediation params.namespace) wanted in
      let order = λ (r : ConstraintResult). severity_order r.severity in
      let present : (params.namespace == "") ≡ false = ground (arith, eq_iff params.namespace "") in
      rw (present, handle_query)
        (
          ordered-IsBySeverity _ (sorts.slice_ordered ConstraintResult order results),
          refl,
          (
            is_asked params params.workload_labels,
            is_asked_iff params,
            subst
                (λ cs.
                  Perm (sorting.slice ConstraintResult order results) (
                    map (result_of rb now idx level params.include_remediation params.namespace)
                      cs))
                (found_asked idx params params.workload_labels)
                (sorts.slice_perm ConstraintResult order results),
          ),
        )
