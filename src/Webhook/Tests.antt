-- ===== src/Webhook/Tests.antt =====
-- Witnesses and runs of the webhook.
use nightjar.Prelude.{
  String, ◌≡◌, refl, none, some, [], ◌∷◌, if◌then◌else◌, true, false, nat_eqb, length, any, decimal,
}
use nightjar.Prelude.Strings.{to_lower, has_prefix}
use nightjar.Types.{Constraint, zero_constraint, severity_critical, severity_info}
use nightjar.Webhook.Admission.{
  AdmissionRequest, AdmissionReview, HttpRequest, QueryResult, constraints, Codec, Labels, read_all,
  take, build_warnings, format_warning, constraint_applies, target_applies, query, received, failed,
}
use nightjar.Webhook.Answers.{Answered, handle_warns}

abbrev request : AdmissionRequest
request = record {
  uid = "u";
  group = "apps";
  kind = "Deployment";
  namespace = "team";
  object = some (1 ∷ []);
}

abbrev review : AdmissionReview
review = record { api_version = ""; kind = ""; request = some request; response = none }

-- A body of two bytes is the review, and an answer is marshalled to one byte.
abbrev codec : Codec
codec = record {
  decode = λ body. if nat_eqb (length body) 2 then some review else none;
  labels_of = λ raw. some (some (("app", "web") ∷ []));
  marshal = λ r. some (7 ∷ []);
}

abbrev quota : Constraint
quota = record zero_constraint {
  severity = severity_critical;
  summary = "Quota";
  remediation_hint = "Ask";
  resource_targets = record { api_groups = "apps" ∷ []; resources = "deployments" ∷ [] } ∷ [];
}

abbrev pods : Constraint
pods = record quota { resource_targets = record { api_groups = []; resources = "pods" ∷ [] } ∷ [] }

abbrev ask : String → Labels → QueryResult
ask ns labels = constraints (quota ∷ pods ∷ record quota { severity = severity_info } ∷ [])

abbrev post : HttpRequest
post = record {
  method = "POST";
  content_type = "application/json";
  body = 1 ∷ 2 ∷ [];
  body_fails = false;
}

readable : read_all post ≡ some (1 ∷ 2 ∷ [])
unfolding read_all take
readable = refl

json : has_prefix "application/json" post.content_type ≡ true
unfolding has_prefix
json = refl

handle_warns_example : Answered codec ask post review request
handle_warns_example =
    handle_warns codec ask post (1 ∷ 2 ∷ []) review request refl json readable refl refl

one_warning :
    build_warnings request (quota ∷ pods ∷ record quota { severity = severity_info } ∷ [])
    ≡ "[CRITICAL] Quota - Ask" ∷ []
unfolding build_warnings to_lower format_warning constraint_applies target_applies any
one_warning = refl

refused :
    query
      (λ s. s)
      (λ url. received (record { status = 503; body = "down"; decoded = failed "" }))
      "http://c"
      "team"
      none
    ≡ failed "controller returned status 503: down"
unfolding query decimal
refused = refl
