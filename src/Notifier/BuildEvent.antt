-- ===== src/Notifier/BuildEvent.antt =====
-- internal/notifier/event_builder.go: the labels, annotations and structured data of an event.
use nightjar.Prelude.{
  String, Bool, not, ◌&&◌, ◌||◌, Option, none, some, List, [], ◌∷◌, if◌then◌else◌, ◌==◌, string_eq,
}
use nightjar.Prelude.Dict.{Dict, insert}
use nightjar.Prelude.Strings.{to_lower, to_kebab_case}
use nightjar.Types.{
  Constraint, RemediationStep, DetailLevel, constraint_type_resource_limit, detail_level_detailed,
  detail_level_full,
}
use nightjar.Notifier.Steps.{RemediationInfo, RemediationBuilder}
use nightjar.Notifier.Remediation.{build}
use nightjar.Notifier.EventBuilder.{
  EventStructuredData, WorkloadRef, Event, Outside, event_type, format_gvr, gvr_to_kind,
  scoped_constraint_name, can_show_namespace, scoped_summary, scope_remediation, extract_metrics,
}

-- internal/annotations/keys.go: the keys and the value that events use.
abbrev pub managed_by : String
managed_by = "nightjar.io/managed-by"

abbrev pub managed_by_value : String
managed_by_value = "nightjar"

abbrev pub event_constraint_type : String
event_constraint_type = "nightjar.io/constraint-type"

abbrev pub event_constraint_name : String
event_constraint_name = "nightjar.io/constraint-name"

abbrev pub event_constraint_namespace : String
event_constraint_namespace = "nightjar.io/constraint-namespace"

abbrev pub event_source_gvr : String
event_source_gvr = "nightjar.io/source-gvr"

abbrev pub event_severity : String
event_severity = "nightjar.io/severity"

abbrev pub event_effect : String
event_effect = "nightjar.io/effect"

abbrev pub event_detail_level : String
event_detail_level = "nightjar.io/detail-level"

abbrev pub event_remediation_type : String
event_remediation_type = "nightjar.io/remediation-type"

abbrev pub event_remediation_contact : String
event_remediation_contact = "nightjar.io/remediation-contact"

abbrev pub event_structured_data : String
event_structured_data = "nightjar.io/structured-data"

unfoldable pub build_labels : Constraint → Dict String String
build_labels c =
    (managed_by, managed_by_value)
    ∷ (event_severity, to_lower c.severity)
    ∷ (event_constraint_type, to_kebab_case c.constraint_type)
    ∷ []

-- The level shows the source and the metrics.
abbrev pub is_detailed : DetailLevel → Bool
is_detailed level = (level == detail_level_detailed) || (level == detail_level_full)

unfoldable pub build_structured_data :
    Outside → Constraint → DetailLevel → WorkloadRef → RemediationInfo → EventStructuredData
build_structured_data outside c level workload remediation = record {
  schema_version = "1";
  constraint_uid = c.uid;
  constraint_name = scoped_constraint_name c level workload.namespace;
  constraint_namespace = if can_show_namespace c level workload.namespace then c.namespace else "";
  constraint_type = c.constraint_type;
  severity = c.severity;
  effect = c.effect;
  source_gvr = format_gvr c.source;
  source_kind = gvr_to_kind c.source;
  source_name = if is_detailed level then c.name else "";
  source_namespace = if is_detailed level then c.namespace else "";
  workload_kind = workload.kind;
  workload_name = workload.name;
  workload_namespace = workload.namespace;
  summary = scoped_summary c level;
  remediation = scope_remediation remediation level;
  metrics =
      if (c.constraint_type == constraint_type_resource_limit) && is_detailed level
      then extract_metrics c
      else [];
  tags = c.tags;
  detail_level = level;
  observed_at = outside.observed_at;
}

-- `annots[key] = value` under a condition
abbrev pub put_if : Bool → String → String → Dict String String → Dict String String
put_if condition key value annots = if condition then insert key value annots else annots

abbrev pub put_remediation : List RemediationStep → Dict String String → Dict String String
put_remediation [] annots = annots
put_remediation (s ∷ ss) annots =
    put_if (not (s.contact == "")) event_remediation_contact s.contact
      (insert event_remediation_type s.type annots)

abbrev pub put_data : Option String → Dict String String → Dict String String
put_data none annots = annots
put_data (some json) annots = insert event_structured_data json annots

-- The section's parameters are the outside and the receiver's remediation builder.
module _ (outside : Outside) (rb : RemediationBuilder) where
  unfoldable pub build_annotations : Constraint → DetailLevel → WorkloadRef → Dict String String
  build_annotations c level workload =
      let core = insert event_detail_level level (
        insert event_effect c.effect (
          insert event_severity c.severity (
            insert event_constraint_type c.constraint_type
              (insert managed_by managed_by_value [])))) in
      let named =
        insert event_constraint_name (scoped_constraint_name c level workload.namespace) core in
      let placed =
        put_if (not (c.namespace == "") && can_show_namespace c level workload.namespace)
          event_constraint_namespace c.namespace named in
      let sourced = insert event_source_gvr (format_gvr c.source) placed in
      let remediation = build rb c in
      put_data (outside.marshal (build_structured_data outside c level workload remediation))
        (put_remediation remediation.steps sourced)

  unfoldable pub build_event : Constraint → DetailLevel → WorkloadRef → String → Event
  build_event c level workload message = record {
    generate_name = "nightjar-";
    namespace = workload.namespace;
    labels = build_labels c;
    annotations = build_annotations c level workload;
    involved_object = workload;
    reason = "ConstraintNotification";
    message = message;
    type = event_type c.severity;
    source_component = "nightjar-controller";
    first_timestamp = outside.now;
    last_timestamp = outside.now;
    count = 1;
    reporting_controller = "nightjar.io/controller";
    reporting_instance = "nightjar";
  }
