-- ===== src/Types.antt =====
-- internal/types/constraint.go: the normalized constraint that every component exchanges.
-- The Go string types (`ConstraintType`, `Severity`, `DetailLevel`) hold any string, so they are
-- strings here, with the source's constants. A nil slice or map is the empty list.
pub mod Value
use nightjar.Prelude.{
  String, ◌≡◌, ◌↔◌, Bool, true, ◌&&◌, Option, none, List, [], arith, Comparable, eq_iff, ◌==◌,
  string_eq,
}
use Value.{Object}

-- schema.GroupVersionResource: three strings, compared field by field.
pub record GroupVersionResource : Type 0 where
  pub group : String
  pub version : String
  pub resource : String

abbrev pub gvr_eqb : GroupVersionResource → GroupVersionResource → Bool
gvr_eqb a b = (a.group == b.group) && ((a.version == b.version) && (a.resource == b.resource))

pub gvr_eqb_iff : (a b : GroupVersionResource) → (gvr_eqb a b ≡ true) ↔ (a ≡ b)
gvr_eqb_iff a b =
    ground (arith, eq_iff a.group b.group, eq_iff a.version b.version, eq_iff a.resource b.resource)

instance abbrev pub gvr_eq : Comparable GroupVersionResource
gvr_eq = record { same = gvr_eqb; same_iff = gvr_eqb_iff }

abbrev pub ConstraintType : Type 0
ConstraintType = String

abbrev pub constraint_type_network_ingress : ConstraintType
constraint_type_network_ingress = "NetworkIngress"

abbrev pub constraint_type_network_egress : ConstraintType
constraint_type_network_egress = "NetworkEgress"

abbrev pub constraint_type_admission : ConstraintType
constraint_type_admission = "Admission"

abbrev pub constraint_type_resource_limit : ConstraintType
constraint_type_resource_limit = "ResourceLimit"

abbrev pub constraint_type_mesh_policy : ConstraintType
constraint_type_mesh_policy = "MeshPolicy"

abbrev pub constraint_type_missing : ConstraintType
constraint_type_missing = "MissingResource"

abbrev pub constraint_type_unknown : ConstraintType
constraint_type_unknown = "Unknown"

abbrev pub Severity : Type 0
Severity = String

abbrev pub severity_critical : Severity
severity_critical = "Critical"

abbrev pub severity_warning : Severity
severity_warning = "Warning"

abbrev pub severity_info : Severity
severity_info = "Info"

abbrev pub DetailLevel : Type 0
DetailLevel = String

abbrev pub detail_level_summary : DetailLevel
detail_level_summary = "summary"

abbrev pub detail_level_detailed : DetailLevel
detail_level_detailed = "detailed"

abbrev pub detail_level_full : DetailLevel
detail_level_full = "full"

-- metav1.LabelSelectorRequirement and metav1.LabelSelector
pub record LabelSelectorRequirement : Type 0 where
  pub key : String
  pub operator : String
  pub requirement_values : List String

pub record LabelSelector : Type 0 where
  pub match_labels : List (String × String)
  pub match_expressions : List LabelSelectorRequirement

pub record RemediationStep : Type 0 where
  pub type : String
  pub description : String
  pub command : String
  pub patch : String
  pub template : String
  pub url : String
  pub contact : String
  pub requires_privilege : String

pub record ResourceTarget : Type 0 where
  pub api_groups : List String
  pub resources : List String

pub record Constraint : Type 0 where
  pub uid : String
  pub source : GroupVersionResource
  pub name : String
  pub namespace : String
  pub affected_namespaces : List String
  pub namespace_selector : Option LabelSelector
  pub workload_selector : Option LabelSelector
  pub resource_targets : List ResourceTarget
  pub constraint_type : ConstraintType
  pub effect : String
  pub severity : Severity
  pub details : Object
  pub summary : String
  pub remediation_hint : String
  pub remediation : List RemediationStep
  pub tags : List String
  pub raw_object : Option Object

-- `Constraint{}`, the zero value.
abbrev pub zero_constraint : Constraint
zero_constraint = record {
  uid = "";
  source = record { group = ""; version = ""; resource = "" };
  name = "";
  namespace = "";
  affected_namespaces = [];
  namespace_selector = none;
  workload_selector = none;
  resource_targets = [];
  constraint_type = "";
  effect = "";
  severity = "";
  details = Value.end;
  summary = "";
  remediation_hint = "";
  remediation = [];
  tags = [];
  raw_object = none;
}
