-- ===== src/Notifier/EventBuilder.antt =====
-- internal/notifier/event_builder.go: Kubernetes events with annotations for agents. The clock, as
-- metav1.Time and in RFC 3339, and json.Marshal, which may fail, are parameters.
use nightjar.Prelude.{
  ℕ, String, Bool, true, not, ◌&&◌, ◌||◌, Option, none, some, List, [], ◌∷◌, if◌then◌else◌, ◌==◌,
  string_eq, concat,
}
use nightjar.Prelude.Dict.{Dict, insert}
use nightjar.Prelude.Strings.{capitalize, cut_suffix, has_suffix, contains}
use nightjar.Types.{
  GroupVersionResource, Constraint, RemediationStep, ConstraintType, Severity, DetailLevel,
  constraint_type_network_ingress, constraint_type_network_egress, constraint_type_admission,
  constraint_type_resource_limit, constraint_type_mesh_policy, constraint_type_missing,
  severity_critical, severity_warning, detail_level_summary, detail_level_detailed,
  detail_level_full,
}
use nightjar.Types.Value.{
  Value, Object, field, end, integer, negative, float, lookup_field, as_object,
}
use nightjar.Notifier.Steps.{RemediationInfo, string_detail}

-- `MetricDataPoint`; a percentage is the number that the details hold, an int or a float64.
pub record MetricDataPoint : Type 0 where
  pub hard : String
  pub used : String
  pub unit : String
  pub percent_used : Value

-- The pointer to the remediation is never nil.
pub record EventStructuredData : Type 0 where
  pub schema_version : String
  pub constraint_uid : String
  pub constraint_name : String
  pub constraint_namespace : String
  pub constraint_type : String
  pub severity : String
  pub effect : String
  pub source_gvr : String
  pub source_kind : String
  pub source_name : String
  pub source_namespace : String
  pub workload_kind : String
  pub workload_name : String
  pub workload_namespace : String
  pub summary : String
  pub remediation : RemediationInfo
  pub metrics : Dict String MetricDataPoint
  pub tags : List String
  pub detail_level : String
  pub observed_at : String

pub record WorkloadRef : Type 0 where
  pub api_version : String
  pub kind : String
  pub name : String
  pub namespace : String
  pub uid : String

-- The fields of corev1.Event that `BuildEvent` sets.
pub record Event : Type 0 where
  pub generate_name : String
  pub namespace : String
  pub labels : Dict String String
  pub annotations : Dict String String
  pub involved_object : WorkloadRef
  pub reason : String
  pub message : String
  pub type : String
  pub source_component : String
  pub first_timestamp : ℕ
  pub last_timestamp : ℕ
  pub count : ℕ
  pub reporting_controller : String
  pub reporting_instance : String

-- What the outside provides.
pub record Outside : Type 0 where
  pub now : ℕ
  pub observed_at : String
  pub marshal : EventStructuredData → Option String

unfoldable pub event_type : Severity → String
event_type severity =
    if severity == severity_critical
    then "Warning"
    else if severity == severity_warning
    then "Warning"
    else "Normal"

unfoldable pub format_gvr : GroupVersionResource → String
format_gvr gvr =
    if gvr.group == ""
    then concat ("core/" ∷ gvr.version ∷ "/" ∷ gvr.resource ∷ [])
    else concat (gvr.group ∷ "/" ∷ gvr.version ∷ "/" ∷ gvr.resource ∷ [])

unfoldable pub gvr_to_kind : GroupVersionResource → String
gvr_to_kind gvr = capitalize (elim (cut_suffix "ies" gvr.resource) [
  | some front ↦ concat (front ∷ "y" ∷ [])
  | none ↦ elim (cut_suffix "s" gvr.resource) [ some front ↦ front | none ↦ gvr.resource ]
])

unfoldable pub generic_summary : ConstraintType → String
generic_summary ct =
    if ct == constraint_type_network_ingress
    then "Inbound network traffic is restricted by a network policy"
    else if ct == constraint_type_network_egress
    then "Outbound network traffic is restricted by a network policy"
    else if ct == constraint_type_admission
    then "An admission policy may reject your resources"
    else if ct == constraint_type_resource_limit
    then "Resource quotas or limits apply to this namespace"
    else if ct == constraint_type_mesh_policy
    then "Service mesh policies affect this workload"
    else if ct == constraint_type_missing
    then "A required companion resource may be missing"
    else "A policy constraint affects this workload"

unfoldable pub guess_unit : String → String
guess_unit name =
    if (name == "cpu") || has_suffix ".cpu" name
    then "cores"
    else if (name == "memory") || has_suffix ".memory" name
    then "bytes"
    else if name == "pods"
    then "count"
    else if name == "services"
    then "count"
    else if contains "storage" name
    then "bytes"
    else "count"

unfoldable pub scoped_constraint_name : Constraint → DetailLevel → String → String
scoped_constraint_name c level viewer_namespace =
    if (level == detail_level_summary)
      && ((c.namespace == "") || not (c.namespace == viewer_namespace))
    then "redacted"
    else c.name

unfoldable pub can_show_namespace : Constraint → DetailLevel → String → Bool
can_show_namespace c level viewer_namespace =
    if level == detail_level_summary
    then c.namespace == viewer_namespace
    else if level == detail_level_detailed
    then (c.namespace == "") || (c.namespace == viewer_namespace)
    else true

unfoldable pub scoped_summary : Constraint → DetailLevel → String
scoped_summary c level =
    if level == detail_level_full
    then c.summary
    else if level == detail_level_detailed
    then c.summary
    else generic_summary c.constraint_type

unfoldable pub scope_step : DetailLevel → RemediationStep → RemediationStep
scope_step level step =
    if (level == detail_level_summary)
      && ((step.type == "kubectl") && (step.requires_privilege == "cluster-admin"))
    then record step { command = ""; description = "Contact your platform team for this step" }
    else step

unfoldable pub scope_steps : DetailLevel → List RemediationStep → List RemediationStep
scope_steps level [] = []
scope_steps level (s ∷ ss) = scope_step level s ∷ scope_steps level ss

unfoldable pub scope_remediation : RemediationInfo → DetailLevel → RemediationInfo
scope_remediation r level = record { summary = r.summary; steps = scope_steps level r.steps }

-- `info["percent"]` as an int or a float64; the zero value otherwise.
unfoldable pub percent : Option Value → Value
percent (some (integer n)) = integer n
percent (some (negative n)) = negative n
percent (some (float x)) = float x
percent _ = integer 0

unfoldable pub metric : String → Object → MetricDataPoint
metric name info = record {
  hard = string_detail "hard" info;
  used = string_detail "used" info;
  unit = guess_unit name;
  percent_used = percent (lookup_field "percent" info);
}

-- The loop over the resources, a Go map: each name occurs once.
unfoldable pub metrics_of : Object → Dict String MetricDataPoint
metrics_of end = []
metrics_of (field name v rest) =
    let others = metrics_of rest in
    elim (as_object v) [ none ↦ others | some info ↦ insert name (metric name info) others ]

unfoldable pub extract_metrics : Constraint → Dict String MetricDataPoint
extract_metrics c = elim (lookup_field "resources" c.details) [
  | none ↦ []
  | some v ↦ elim (as_object v) [ none ↦ [] | some resources ↦ metrics_of resources ]
]
