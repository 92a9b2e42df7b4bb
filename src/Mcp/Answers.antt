-- ===== src/Mcp/Answers.antt =====
-- internal/mcp/handlers.go: what the tools answer.
use nightjar.Prelude.{
  String, ◌≡◌, ◌≢◌, ◌↔◌, ◌⊎◌, refl, ◌∙◌, sym, ap, true, false, ◌&&◌, ◌||◌, Option, none, some, List,
  [], ◌∷◌, if◌then◌else◌, ◌==◌, string_eq, arith, any, ◌∈◌, mem-keep, eq_iff,
}
use nightjar.Prelude.Dict.{lookup}
use nightjar.Types.{
  Constraint, DetailLevel, GroupVersionResource, constraint_type_resource_limit,
  detail_level_summary,
}
use nightjar.Indexer.{Indexer, by_namespace, matches_namespace, all}
use nightjar.Notifier.Steps.{RemediationBuilder}
use nightjar.Notifier.Remediation.{build, generate_summary}
use nightjar.Notifier.Privacy.{build-summary}
use nightjar.Reports.Triggers.{listed_in, any-append}
use nightjar.Mcp.Results.{
  RemediationResult, mcp_gvr_to_api_version, ConstraintResult, to_constraint_result,
  to_constraint_result_with_remediation, mcp_scoped_constraint_name, mcp_can_show_namespace,
  mcp_gvr_to_kind, remediation_result,
}
use nightjar.Mcp.Messages.{Reply, refused, answered}
use nightjar.Mcp.Namespaces.{or_empty, group_constraints}
use nightjar.Mcp.Summaries.{mem-group_constraints}

-- The answer is a value with the property.
abbrev pub Answered : {A : Type 0} → (A → Type 0) → Reply A → Type 0
Answered P (refused message status) = ⊥
Answered P (answered a) = P a

abbrev summary_of : Option RemediationResult → String
summary_of none = ""
summary_of (some r) = r.summary

abbrev with_remediation : RemediationResult → ConstraintResult → ConstraintResult
with_remediation remedy r = record r { remediation = some remedy }

-- All that a viewer of another namespace is shown at summary level.
abbrev outsider_view :
    String → String → String → String → GroupVersionResource → List String → ConstraintResult
outsider_view now type severity effect source tags = record {
  name = "redacted";
  namespace = "";
  constraint_type = type;
  severity = severity;
  source_kind = mcp_gvr_to_kind source;
  source_api_version = mcp_gvr_to_api_version source;
  effect = effect;
  affected_workloads = [];
  remediation = none;
  metrics = [];
  tags = tags;
  detail_level = detail_level_summary;
  last_observed = now;
}

to_constraint_result-outsider :
    (now viewer : String) (c : Constraint)
    → c.namespace ≢ viewer
    → to_constraint_result now c detail_level_summary viewer
      ≡ outsider_view now c.constraint_type c.severity c.effect c.source c.tags
unfolding to_constraint_result mcp_scoped_constraint_name mcp_can_show_namespace
to_constraint_result-outsider now viewer c h =
    let outside : (c.namespace == viewer) ≡ false = ground (arith, eq_iff c.namespace viewer) in
    let hidden : ((c.namespace == "") || true) ≡ true = ground arith in
    let bare : ((c.constraint_type == constraint_type_resource_limit) && false) ≡ false =
      ground arith in
    rw (outside, hidden, bare) refl

-- At summary level the results of two constraints of other namespaces are equal when they agree on
-- type, severity, effect, source and tags; and a result with remediation is the same but for the
-- remediation that is added, which is the one that `Build` makes.
pub to_constraint_result-private :
    (rb : RemediationBuilder) (now viewer : String) (c d : Constraint)
    → c.namespace ≢ viewer
    → d.namespace ≢ viewer
    → c.constraint_type ≡ d.constraint_type
    → c.severity ≡ d.severity
    → c.effect ≡ d.effect
    → c.source ≡ d.source
    → c.tags ≡ d.tags
    → (to_constraint_result now c detail_level_summary viewer
        ≡ to_constraint_result now d detail_level_summary viewer)
      × (to_constraint_result_with_remediation rb now c detail_level_summary viewer
          ≡ record (to_constraint_result now d detail_level_summary viewer) {
            remediation = some (remediation_result (build rb c));
          })
unfolding to_constraint_result_with_remediation
to_constraint_result-private rb now viewer c d hc hd type severity effect source tags =
    let same =
      to_constraint_result-outsider now viewer c hc
      ∙ ap (λ t. outsider_view now t c.severity c.effect c.source c.tags) type
      ∙ ap (λ t. outsider_view now d.constraint_type t c.effect c.source c.tags) severity
      ∙ ap (λ t. outsider_view now d.constraint_type d.severity t c.source c.tags) effect
      ∙ ap (λ t. outsider_view now d.constraint_type d.severity d.effect t c.tags) source
      ∙ ap (λ t. outsider_view now d.constraint_type d.severity d.effect d.source t) tags
      ∙ sym (to_constraint_result-outsider now viewer d hd) in
    (same, ap (with_remediation (remediation_result (build rb c))) same)

-- A hint is the summary of the remediation.
build-hint :
    (rb : RemediationBuilder) (c : Constraint)
    → c.remediation_hint ≢ ""
    → (build rb c).summary ≡ c.remediation_hint
unfolding generate_summary
build-hint rb c h =
    let hinted : (c.remediation_hint == "") ≡ false =
      ground (arith, eq_iff c.remediation_hint "") in
    build-summary rb c ∙ rw (hinted) refl

-- The remediation that is added tells a hint, whatever the detail level and the viewer: results of
-- constraints with different hints differ.
to_constraint_result_leak :
    (rb : RemediationBuilder) (now viewer : String) (level : DetailLevel) (c d : Constraint)
    → c.remediation_hint ≢ ""
    → d.remediation_hint ≢ ""
    → c.remediation_hint ≢ d.remediation_hint
    → to_constraint_result_with_remediation rb now c level viewer
      ≢ to_constraint_result_with_remediation rb now d level viewer
unfolding to_constraint_result_with_remediation remediation_result
to_constraint_result_leak rb now viewer level c d nc nd differ same =
    differ (sym (build-hint rb c nc) ∙ ap (λ r. summary_of r.remediation) same ∙ build-hint rb d nd)

-- The summary of a namespace sees exactly those constraints that a query of the namespace finds, less
-- the constraints of the cluster that do not list it as affected.
pub group_constraints-by_namespace :
    (idx : Indexer) (ns : String) (c : Constraint)
    → (c ∈ or_empty (lookup ns (group_constraints (all idx) []))) ↔ (
        (c ∈ by_namespace idx ns)
        × ((c.namespace ≢ "") ⊎ (listed_in ns c.affected_namespaces ≡ true)))
unfolding by_namespace all matches_namespace any
group_constraints-by_namespace idx ns c = ground (
  arith,
  mem-group_constraints c ns (all idx),
  mem-keep (λ d. matches_namespace d ns) c (all idx),
  any-append ns c.affected_namespaces (if c.namespace == "" then [] else c.namespace ∷ []),
  eq_iff c.namespace "",
  eq_iff c.namespace ns,
)
