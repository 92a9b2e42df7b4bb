-- ===== src/Notifier/Steps.antt =====
-- internal/notifier/remediation.go: remediation steps, and what they are made from.
use nightjar.Prelude.{
  String, Bool, ◌||◌, none, some, List, [], ◌∷◌, if◌then◌else◌, ◌==◌, string_eq, concat,
}
use nightjar.Prelude.Strings.{before_last}
use nightjar.Types.{Constraint, RemediationStep}
use nightjar.Types.Value.{Object, lookup_field, as_string}

-- v1alpha1.RemediationInfo, whose steps have the fields of those of internal/types.
pub record RemediationInfo : Type 0 where
  pub summary : String
  pub steps : List RemediationStep

pub record RemediationBuilder : Type 0 where
  pub default_contact : String

unfoldable pub new_remediation_builder : String → RemediationBuilder
new_remediation_builder contact = record {
  default_contact = if contact == "" then "your platform team" else contact;
}

-- `v1alpha1.RemediationStep{}` with its type, description and privilege.
abbrev pub step : String → String → String → RemediationStep
step type description privilege = record {
  type = type;
  description = description;
  command = "";
  patch = "";
  template = "";
  url = "";
  contact = "";
  requires_privilege = privilege;
}

abbrev pub kubectl_step : String → String → String → RemediationStep
kubectl_step description command privilege = record (step "kubectl" description privilege) {
  command = command;
}

abbrev pub manual_step : String → String → String → RemediationStep
manual_step description contact privilege = record (step "manual" description privilege) {
  contact = contact;
}

abbrev pub link_step : String → String → RemediationStep
link_step description url = record (step "link" description "developer") { url = url }

-- `details[key].(string)`; the zero value where there is none.
unfoldable pub string_detail : String → Object → String
unfolding lookup_field as_string
string_detail key details = elim (lookup_field key details) [
  | none ↦ ""
  | some v ↦ elim (as_string v) [ none ↦ "" | some s ↦ s ]
]

unfoldable pub is_network_policy_source : Constraint → Bool
is_network_policy_source c =
    (c.source.resource == "networkpolicies")
    || ((c.source.resource == "ciliumnetworkpolicies")
        || (c.source.resource == "ciliumclusterwidenetworkpolicies"))

unfoldable pub is_resource_quota_source : Constraint → Bool
is_resource_quota_source c =
    (c.source.resource == "resourcequotas") || (c.source.resource == "limitranges")

unfoldable pub is_webhook_source : Constraint → Bool
is_webhook_source c =
    (c.source.resource == "validatingwebhookconfigurations")
    || (c.source.resource == "mutatingwebhookconfigurations")

-- the output columns of the pod listing
abbrev pub pod_columns : String
pod_columns = concat (
    " -o custom-columns='NAME:.metadata.name,CPU_REQ:.spec.containers[*].resources"
    ∷ ".requests.cpu,MEM_REQ:.spec.containers[*].resources.requests.memory'" ∷ [])

-- The name up to its last dash, unless the dash is the first character.
unfoldable pub config_name : String → String
unfolding before_last
config_name name = elim (before_last 45 name) [
  | none ↦ name
  | some front ↦ if front == "" then name else front
]

unfoldable pub webhook_kind : Constraint → String
webhook_kind c =
    if c.source.resource == "mutatingwebhookconfigurations"
    then "mutatingwebhookconfigurations"
    else "validatingwebhookconfigurations"
