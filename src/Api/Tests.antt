-- ===== src/Api/Tests.antt =====
-- Witnesses and runs of the endpoint.
use nightjar.Prelude.{String, true, none, [], ◌∷◌}
use nightjar.Prelude.Strings.{trim_prefix}
use nightjar.Types.{Constraint, zero_constraint, severity_critical}
use nightjar.Indexer.{Indexer}
use nightjar.Webhook.Admission.{AdmissionRequest, Codec}

abbrev quota : Constraint
quota = record zero_constraint {
  uid = "q";
  namespace = "team";
  severity = severity_critical;
  summary = "Quota";
  remediation_hint = "Ask";
}

abbrev store : Indexer
store = record { by_uid = ("q", quota) ∷ []; on_change = true }

abbrev request : AdmissionRequest
request = record {
  uid = "u";
  group = "apps";
  kind = "Deployment";
  namespace = "team";
  object = none;
}

abbrev codec : Codec
codec = record { decode = λ body. none; labels_of = λ raw. none; marshal = λ review. none }

-- The value behind the path, as it stands.
abbrev value_of : String → String
value_of url = trim_prefix "/api/v1/constraints?namespace=" url
