-- ===== src/Mcp/Matching.antt =====
-- internal/mcp/handlers.go: the constraints that explain an error message, and those that block a
-- manifest.
use nightjar.Prelude.{
  ℕ, ◌+◌, ◌&&◌, ap, if◌then◌else◌, [], ◌≤◌, String, ◌≡◌, ◌≢◌, ◌↔◌, ◌⊎◌, inl, inr, refl, ◌∙◌, sym,
  Bool, true, false, Option, some, List, [], ◌∷◌, ◌==◌, string_eq, arith, any, length, map,
  length-map, keep, eq_iff, Bool-cases, List-cases,
}
use nightjar.Prelude.Strings.{contains, to_lower, capitalize, cut_suffix}
use nightjar.Types.{Constraint, DetailLevel, LabelSelector, GroupVersionResource}
use nightjar.Types.Value.{Object}
use nightjar.Util.{Unstructured}
use nightjar.Indexer.{Indexer, by_labels}
use nightjar.Notifier.Steps.{RemediationBuilder}
use nightjar.Requirements.Evaluator.{Evaluator}
use nightjar.Reports.Entries.{gvr_to_kind_name, generic_kind}
use nightjar.Mcp.Results.{to_constraint_result, mcp_gvr_to_kind}
use nightjar.Mcp.Explain.{
  match_patterns, network_patterns, admission_patterns, quota_patterns, is_network, is_admission,
  is_quota, first_match, match_error_to_constraints,
}
use nightjar.Mcp.Checks.{
  is_blocking, is_warning, check_constraints, handle_check, is_nonempty, check_warning,
  manifest_namespace, manifest_labels,
}
use nightjar.Mcp.Answers.{Answered}

-- A pattern of the category occurs in the message, and some constraint is of the category.
abbrev pub explains : List String → String → (Constraint → Bool) → List Constraint → Bool
explains patterns message wanted cs =
    any (λ pattern. contains pattern message) patterns && any wanted cs

match_patterns_lem :
    (patterns : List String) (message : String) (wanted : Constraint → Bool) (cs : List Constraint)
    → match_patterns patterns message wanted cs
      ≡ (if any (λ pattern. contains pattern message) patterns then keep wanted cs else [])
unfolding match_patterns any
match_patterns_lem [] message wanted cs = refl
match_patterns_lem (p ∷ patterns) message wanted cs =
    ground (arith, match_patterns_lem patterns message wanted cs)

keep-test : (p : Constraint → Bool) (cs : List Constraint) → is_nonempty (keep p cs) ≡ any p cs
unfolding keep any
keep-test p [] = refl
keep-test p (c ∷ cs) = ground (arith, keep-test p cs)

-- A category explains the message, and its loop collects some constraints, all of the category; or
-- it does not, and its loop collects none.
abbrev Category : List String → String → (Constraint → Bool) → List Constraint → Type 0
Category patterns message wanted cs =
    ((c : Constraint) × ((rest : List Constraint) × (match_patterns patterns message wanted cs
          ≡ c ∷ rest)
        × (keep wanted cs ≡ c ∷ rest)
        × (explains patterns message wanted cs ≡ true)))
    ⊎ ((match_patterns patterns message wanted cs ≡ [])
        × (explains patterns message wanted cs ≡ false))

category :
    (patterns : List String) (message : String) (wanted : Constraint → Bool) (cs : List Constraint)
    → Category patterns message wanted cs
category patterns message wanted cs =
    let occurs = any (λ pattern. contains pattern message) patterns in
    let loop = match_patterns_lem patterns message wanted cs in
    let of_some = keep-test wanted cs in
    elim (Bool-cases occurs) [
      | inr silent ↦ inr (loop ∙ rw (silent) refl, rw (silent) refl)
      | inl spoken ↦ elim (List-cases (keep wanted cs)) [
        | inr (c, rest, e) ↦
            inl (c, (rest, loop ∙ rw (spoken) e, e, rw (spoken) (sym of_some ∙ ap is_nonempty e)))
        | inl e ↦ inr (loop ∙ rw (spoken) e, rw (spoken) (sym of_some ∙ ap is_nonempty e))
      ]
    ]

-- What is answered of the first category that explains the message, or of none.
abbrev pub answer_of : String → List Constraint → List Constraint × String
answer_of error_message cs =
    let message = to_lower error_message in
    if explains network_patterns message is_network cs
    then (keep is_network cs, "high")
    else if explains admission_patterns message is_admission cs
    then (keep is_admission cs, "high")
    else if explains quota_patterns message is_quota cs
    then (keep is_quota cs, "high")
    else (cs, "low")

-- An explanation has high confidence and all constraints of a category, the first of network,
-- admission and quotas of which the list has a constraint and a pattern occurs in the message in
-- lower case; where there is no such category, it has low confidence and all constraints.
pub match_error_to_constraints_lem :
    (error_message : String) (cs : List Constraint)
    → (
      (match_error_to_constraints error_message cs).matches,
      (match_error_to_constraints error_message cs).confidence,
    )
      ≡ answer_of error_message cs
unfolding match_error_to_constraints first_match
match_error_to_constraints_lem error_message cs =
    let message = to_lower error_message in
    elim (category network_patterns message is_network cs) [
      | inl (c, (rest, e, all, first)) ↦ rw (e, first, all, first_match) refl
      | inr (e, not_first) ↦ elim (category admission_patterns message is_admission cs) [
        | inl (c, (rest, f, all, second)) ↦ rw (e, not_first, f, second, all, first_match) refl
        | inr (f, not_second) ↦ elim (category quota_patterns message is_quota cs) [
          | inl (c, (rest, g, all, third)) ↦
              rw (e, not_first, f, not_second, g, third, all, first_match) refl
          | inr (g, not_third) ↦ rw (e, not_first, f, not_second, g, not_third, first_match) refl
        ]
      ]
    ]

kind_of_pods : generic_kind "pods" ≡ "Pod"
unfolding generic_kind capitalize cut_suffix
kind_of_pods = refl

kind_of_deployments : generic_kind "deployments" ≡ "Deployment"
unfolding generic_kind capitalize cut_suffix
kind_of_deployments = refl

kind_of_statefulsets : generic_kind "statefulsets" ≡ "Statefulset"
unfolding generic_kind capitalize cut_suffix
kind_of_statefulsets = refl

spelled_apart : ◌≢◌ {A = String} "Statefulset" "StatefulSet"
spelled_apart same = let test = (eq_iff "Statefulset" "StatefulSet").1 same in cc

-- Both tables of kinds give one name to a resource, unless it is "statefulsets": a report says
-- "StatefulSet" and a tool "Statefulset".
pub mcp_gvr_to_kind_agrees :
    (gvr : GroupVersionResource)
    → (mcp_gvr_to_kind gvr ≡ gvr_to_kind_name gvr) ↔ (gvr.resource ≢ "statefulsets")
unfolding mcp_gvr_to_kind gvr_to_kind_name
mcp_gvr_to_kind_agrees gvr = elim (Bool-cases (gvr.resource == "statefulsets")) [
  | inl e ↦
      let is = (eq_iff gvr.resource "statefulsets").0 e in
      rw (is) (λ same h. spelled_apart (sym kind_of_statefulsets ∙ same), λ h. absurd (h refl))
  | inr e ↦ (
    λ same is. ground (arith, eq_iff gvr.resource "statefulsets"),
    λ h. ground (
      arith,
      kind_of_pods,
      kind_of_deployments,
      eq_iff gvr.resource "pods",
      eq_iff gvr.resource "deployments",
    ),
  )
]

split-length :
    (cs : List Constraint) → length (keep is_blocking cs) + length (keep is_warning cs) ≤ length cs
unfolding keep
split-length [] = omega arith
split-length (c ∷ cs) = ground (arith, split-length cs)

nonempty-map : {A B : Type 0} (f : A → B) (l : List A) → is_nonempty (map f l) ≡ is_nonempty l
nonempty-map f [] = refl
nonempty-map f (a ∷ rest) = refl

module _ (rb : RemediationBuilder) (now : String) (idx : Indexer) (level : DetailLevel) where
  -- A manifest that the decoder accepts is checked against the constraints of its namespace, or of
  -- "default", that select its labels: it would be blocked exactly when one of them is a critical
  -- admission policy; and none of them both blocks and warns.
  pub handle_check_lem :
      (matches_labels : Option LabelSelector → List (String × String) → Bool)
      (unmarshal : String → Option Object) (accessors : Object → Unstructured) (time : ℕ)
      (evaluator : Option Evaluator) (text : String) (manifest : Object)
      → text ≢ ""
      → unmarshal text ≡ some manifest
      → let cs =
          by_labels matches_labels idx (manifest_namespace manifest) (manifest_labels manifest) in
        Answered
          (λ r.
            (r.would_block ≡ any is_blocking cs)
            × (length r.blocking_constraints ≡ length (keep is_blocking cs))
            × (length r.blocking_constraints + length r.warnings ≤ length cs))
          (handle_check rb now idx level matches_labels unmarshal accessors time evaluator
            (some text)).1
  unfolding handle_check check_constraints
  handle_check_lem matches_labels unmarshal accessors time evaluator text manifest given decoded =
      let present : (text == "") ≡ false = ground (arith, eq_iff text "") in
      let namespace = manifest_namespace manifest in
      let cs = by_labels matches_labels idx namespace (manifest_labels manifest) in
      let blocking =
        length-map (λ c. to_constraint_result now c level namespace) (keep is_blocking cs) in
      rw (present, decoded, handle_check)
        (
          nonempty-map (λ c. to_constraint_result now c level namespace) (keep is_blocking cs)
              ∙ keep-test is_blocking cs,
          blocking,
          omega (
            arith,
            blocking,
            length-map (check_warning rb now idx level namespace) (keep is_warning cs),
            split-length cs,
          ),
        )
