-- ===== src/Reports/Entries.antt =====
-- internal/notifier/report_reconciler.go and api/v1alpha1/types.go: the entries of a report. The
-- options of the reconciler are its detail level; a time is the number of metav1.Time.
use nightjar.Prelude.{
  ℕ, String, Bool, not, ◌&&◌, none, some, List, [], ◌∷◌, if◌then◌else◌, ◌==◌, string_eq, concat,
}
use nightjar.Prelude.Dict.{Dict}
use nightjar.Prelude.Strings.{capitalize, cut_suffix}
use nightjar.Types.{
  GroupVersionResource, Constraint, DetailLevel, constraint_type_resource_limit,
  detail_level_summary,
}
use nightjar.Util.{Unstructured, safe_string_from_map}
use nightjar.Notifier.Steps.{RemediationInfo, RemediationBuilder, string_detail}
use nightjar.Notifier.Remediation.{build}
use nightjar.Notifier.EventBuilder.{MetricDataPoint, generic_summary, extract_metrics}

pub record ConstraintEntry : Type 0 where
  pub name : String
  pub type : String
  pub severity : String
  pub message : String
  pub source : String
  pub last_seen : ℕ

pub record ObjectReference : Type 0 where
  pub api_version : String
  pub kind : String
  pub name : String
  pub namespace : String

-- v1alpha1.ResourceMetric has the fields of `MetricDataPoint`.
pub record MachineConstraintEntry : Type 0 where
  pub uid : String
  pub name : String
  pub constraint_type : String
  pub severity : String
  pub effect : String
  pub source_ref : ObjectReference
  pub remediation : RemediationInfo
  pub metrics : Dict String MetricDataPoint
  pub tags : List String
  pub last_observed : ℕ

pub record MissingResourceEntry : Type 0 where
  pub expected_kind : String
  pub expected_api_version : String
  pub reason : String
  pub severity : String
  pub workload_kind : String
  pub workload_name : String
  pub remediation : RemediationInfo

unfoldable pub severity_order : String → ℕ
severity_order severity =
    if severity == "Critical"
    then 0
    else if severity == "Warning"
    then 1
    else if severity == "Info"
    then 2
    else 3

unfoldable pub gvr_to_api_version : GroupVersionResource → String
gvr_to_api_version gvr =
    if gvr.group == "" then gvr.version else concat (gvr.group ∷ "/" ∷ gvr.version ∷ [])

-- The default of `gvrToKindName`. Subtracting 32 is `capitalize` on a resource, which begins with a
-- lower-case letter.
unfoldable pub generic_kind : String → String
generic_kind resource =
    if resource == "s"
    then capitalize resource
    else capitalize (elim (cut_suffix "s" resource) [ none ↦ resource | some front ↦ front ])

unfoldable pub gvr_to_kind_name : GroupVersionResource → String
gvr_to_kind_name gvr =
    if gvr.resource == "networkpolicies"
    then "NetworkPolicy"
    else if gvr.resource == "resourcequotas"
    then "ResourceQuota"
    else if gvr.resource == "limitranges"
    then "LimitRange"
    else if gvr.resource == "validatingwebhookconfigurations"
    then "ValidatingWebhookConfiguration"
    else if gvr.resource == "mutatingwebhookconfigurations"
    then "MutatingWebhookConfiguration"
    else if gvr.resource == "ciliumnetworkpolicies"
    then "CiliumNetworkPolicy"
    else if gvr.resource == "ciliumclusterwidenetworkpolicies"
    then "CiliumClusterwideNetworkPolicy"
    else if gvr.resource == "pods"
    then "Pod"
    else if gvr.resource == "deployments"
    then "Deployment"
    else if gvr.resource == "statefulsets"
    then "StatefulSet"
    else generic_kind gvr.resource

-- `extractResourceMetrics`, which reads the details as the event builder does.
abbrev pub extract_resource_metrics : Constraint → Dict String MetricDataPoint
extract_resource_metrics c = extract_metrics c

module _ (level : DetailLevel) where
  -- In another namespace than the viewer's, at summary level.
  unfoldable pub is_hidden : Constraint → String → Bool
  is_hidden c viewer_namespace =
      (level == detail_level_summary)
      && (not (c.namespace == "") && not (c.namespace == viewer_namespace))

  unfoldable pub scoped_name : Constraint → String → String
  scoped_name c viewer_namespace = if is_hidden c viewer_namespace then "cluster-policy" else c.name

  unfoldable pub scoped_message : Constraint → String → String
  scoped_message c viewer_namespace =
      if is_hidden c viewer_namespace
      then generic_summary c.constraint_type
      else if not (c.summary == "")
      then c.summary
      else generic_summary c.constraint_type

  unfoldable pub constraint_entry : ℕ → String → Constraint → ConstraintEntry
  constraint_entry now namespace c = record {
    name = scoped_name c namespace;
    type = c.constraint_type;
    severity = c.severity;
    message = scoped_message c namespace;
    source = c.source.resource;
    last_seen = now;
  }

  -- `observed` is the clock's reading for the entry.
  unfoldable pub build_machine_entry :
      RemediationBuilder → ℕ → Constraint → String → MachineConstraintEntry
  build_machine_entry rb observed c viewer_namespace = record {
    uid = c.uid;
    name = scoped_name c viewer_namespace;
    constraint_type = c.constraint_type;
    severity = c.severity;
    effect = c.effect;
    source_ref = record {
      api_version = gvr_to_api_version c.source;
      kind = gvr_to_kind_name c.source;
      name = c.name;
      namespace = c.namespace;
    };
    remediation = build rb c;
    metrics =
        if c.constraint_type == constraint_type_resource_limit
        then extract_resource_metrics c
        else [];
    tags = c.tags;
    last_observed = observed;
  }

-- `workload.GetKind()`
abbrev pub kind_of : Unstructured → String
kind_of w = safe_string_from_map (some w.content) "kind"

unfoldable pub constraint_to_missing_resource_entry :
    RemediationBuilder → Constraint → Unstructured → MissingResourceEntry
constraint_to_missing_resource_entry rb c w = record {
  expected_kind = string_detail "expectedKind" c.details;
  expected_api_version = string_detail "expectedAPIVersion" c.details;
  reason = string_detail "reason" c.details;
  severity = c.severity;
  workload_kind = kind_of w;
  workload_name = w.name;
  remediation = build rb c;
}
