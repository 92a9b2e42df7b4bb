-- ===== src/Mcp/Results.antt =====
-- internal/mcp/types.go and the conversions of internal/mcp/handlers.go: what an agent is told of a
-- constraint. A nil pointer to a remediation is `none`.
use nightjar.Prelude.{
  String, Bool, true, not, ◌&&◌, ◌||◌, Option, none, some, List, [], ◌∷◌, if◌then◌else◌, ◌==◌,
  string_eq, map, concat,
}
use nightjar.Prelude.Dict.{Dict, insert}
use nightjar.Prelude.Strings.{has_suffix, contains}
use nightjar.Types.{
  GroupVersionResource, Constraint, ConstraintType, DetailLevel, RemediationStep,
  constraint_type_network_ingress, constraint_type_network_egress, constraint_type_admission,
  constraint_type_resource_limit, constraint_type_mesh_policy, constraint_type_missing,
  detail_level_summary, detail_level_detailed, detail_level_full,
}
use nightjar.Types.Value.{Object, field, end, lookup_field, as_object}
use nightjar.Util.{Unstructured}
use nightjar.Notifier.Steps.{RemediationInfo, RemediationBuilder, string_detail}
use nightjar.Notifier.Remediation.{build}
use nightjar.Notifier.EventBuilder.{MetricDataPoint, percent}
use nightjar.Reports.Entries.{generic_kind, kind_of}

-- `RemediationStep` of this package: the steps of internal/types, and whether an agent may run it.
pub record McpRemediationStep : Type 0 where
  pub type : String
  pub description : String
  pub command : String
  pub patch : String
  pub template : String
  pub url : String
  pub contact : String
  pub requires_privilege : String
  pub automated : Bool

pub record RemediationResult : Type 0 where
  pub summary : String
  pub steps : List McpRemediationStep

-- `MetricValue` has the fields of `MetricDataPoint`.
pub record ConstraintResult : Type 0 where
  pub name : String
  pub namespace : String
  pub constraint_type : String
  pub severity : String
  pub source_kind : String
  pub source_api_version : String
  pub effect : String
  pub affected_workloads : List String
  pub remediation : Option RemediationResult
  pub metrics : Dict String MetricDataPoint
  pub tags : List String
  pub detail_level : String
  pub last_observed : String

pub record MissingResource : Type 0 where
  pub expected_kind : String
  pub expected_api_version : String
  pub reason : String
  pub severity : String
  pub for_workload : String
  pub remediation : Option RemediationResult

unfoldable pub mcp_scoped_constraint_name : Constraint → DetailLevel → String → String
mcp_scoped_constraint_name c level viewer_namespace =
    if (level == detail_level_summary)
      && ((c.namespace == "") || not (c.namespace == viewer_namespace))
    then "redacted"
    else c.name

unfoldable pub mcp_can_show_namespace : Constraint → DetailLevel → String → Bool
mcp_can_show_namespace c level viewer_namespace =
    if level == detail_level_summary
    then c.namespace == viewer_namespace
    else if level == detail_level_detailed
    then (c.namespace == "") || (c.namespace == viewer_namespace)
    else true

unfoldable pub mcp_gvr_to_kind : GroupVersionResource → String
mcp_gvr_to_kind gvr =
    if gvr.resource == "networkpolicies"
    then "NetworkPolicy"
    else if gvr.resource == "resourcequotas"
    then "ResourceQuota"
    else if gvr.resource == "limitranges"
    then "LimitRange"
    else if gvr.resource == "validatingwebhookconfigurations"
    then "ValidatingWebhookConfiguration"
    else if gvr.resource == "mutatingwebhookconfigurations"
    then "MutatingWebhookConfiguration"
    else if gvr.resource == "ciliumnetworkpolicies"
    then "CiliumNetworkPolicy"
    else if gvr.resource == "ciliumclusterwidenetworkpolicies"
    then "CiliumClusterwideNetworkPolicy"
    else generic_kind gvr.resource

unfoldable pub mcp_gvr_to_api_version : GroupVersionResource → String
mcp_gvr_to_api_version gvr =
    if gvr.group == "" then gvr.version else concat (gvr.group ∷ "/" ∷ gvr.version ∷ [])

unfoldable pub mcp_generic_summary : ConstraintType → String
mcp_generic_summary ct =
    if ct == constraint_type_network_ingress
    then "Inbound network traffic is restricted"
    else if ct == constraint_type_network_egress
    then "Outbound network traffic is restricted"
    else if ct == constraint_type_admission
    then "An admission policy may reject resources"
    else if ct == constraint_type_resource_limit
    then "Resource quotas or limits apply"
    else if ct == constraint_type_mesh_policy
    then "Service mesh policies apply"
    else if ct == constraint_type_missing
    then "A required resource may be missing"
    else "A policy constraint applies"

unfoldable pub mcp_guess_unit : String → String
mcp_guess_unit name =
    if (name == "cpu") || has_suffix ".cpu" name
    then "cores"
    else if (name == "memory") || has_suffix ".memory" name
    then "bytes"
    else if contains "storage" name
    then "bytes"
    else "count"

unfoldable pub mcp_metric : String → Object → MetricDataPoint
mcp_metric name info = record {
  hard = string_detail "hard" info;
  used = string_detail "used" info;
  unit = mcp_guess_unit name;
  percent_used = percent (lookup_field "percent" info);
}

-- The loop over the resources, a Go map: each name occurs once.
unfoldable pub mcp_metrics_of : Object → Dict String MetricDataPoint
mcp_metrics_of end = []
mcp_metrics_of (field name v rest) =
    let others = mcp_metrics_of rest in
    elim (as_object v) [ none ↦ others | some info ↦ insert name (mcp_metric name info) others ]

unfoldable pub mcp_extract_metrics : Constraint → Dict String MetricDataPoint
mcp_extract_metrics c = elim (lookup_field "resources" c.details) [
  | none ↦ []
  | some v ↦ elim (as_object v) [ none ↦ [] | some resources ↦ mcp_metrics_of resources ]
]

-- `observed` is the clock's reading in RFC 3339.
unfoldable pub to_constraint_result : String → Constraint → DetailLevel → String → ConstraintResult
to_constraint_result observed c level viewer_namespace = record {
  name = mcp_scoped_constraint_name c level viewer_namespace;
  namespace = if mcp_can_show_namespace c level viewer_namespace then c.namespace else "";
  constraint_type = c.constraint_type;
  severity = c.severity;
  source_kind = mcp_gvr_to_kind c.source;
  source_api_version = mcp_gvr_to_api_version c.source;
  effect = c.effect;
  affected_workloads = [];
  remediation = none;
  metrics =
      if (c.constraint_type == constraint_type_resource_limit)
        && ((level == detail_level_detailed) || (level == detail_level_full))
      then mcp_extract_metrics c
      else [];
  tags = c.tags;
  detail_level = level;
  last_observed = observed;
}

unfoldable pub step_result : RemediationStep → McpRemediationStep
step_result step = record {
  type = step.type;
  description = step.description;
  command = step.command;
  patch = step.patch;
  template = step.template;
  url = step.url;
  contact = step.contact;
  requires_privilege = step.requires_privilege;
  automated = (step.type == "kubectl") || (step.type == "annotation");
}

unfoldable pub remediation_result : RemediationInfo → RemediationResult
remediation_result r = record { summary = r.summary; steps = map step_result r.steps }

-- The section's parameter is the builder of remediations.
module _ (rb : RemediationBuilder) where
  unfoldable pub to_constraint_result_with_remediation :
      String → Constraint → DetailLevel → String → ConstraintResult
  to_constraint_result_with_remediation observed c level namespace =
      record (to_constraint_result observed c level namespace) {
        remediation = some (remediation_result (build rb c));
      }

  abbrev pub workload_path : Unstructured → String
  workload_path w =
      if w.namespace == ""
      then concat (kind_of w ∷ "/" ∷ w.name ∷ [])
      else concat (w.namespace ∷ "/" ∷ kind_of w ∷ "/" ∷ w.name ∷ [])

  unfoldable pub constraint_to_missing_resource : Constraint → Unstructured → MissingResource
  constraint_to_missing_resource c w = record {
    expected_kind = string_detail "expectedKind" c.details;
    expected_api_version = string_detail "expectedAPIVersion" c.details;
    reason = string_detail "reason" c.details;
    severity = c.severity;
    for_workload = workload_path w;
    remediation = some (remediation_result (build rb c));
  }
