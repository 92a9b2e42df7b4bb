-- ===== src/Webhook/Admission.antt =====
-- cmd/webhook/admission.go: the handler of admission reviews and the client that it queries. Bytes
-- are numbers. What net/http, encoding/json and the decoder of apimachinery do with them is the
-- parameter `Codec`, and the exchange with the controller is an argument of `query`.
use nightjar.Prelude.{
  ℕ, zero, suc, String, Bool, true, false, not, ◌&&◌, ◌||◌, Option, none, some, List, [], ◌∷◌,
  if◌then◌else◌, ◌==◌, string_eq, nat_eqb, ltb, any, length, concat, decimal,
}
use nightjar.Prelude.Strings.{to_lower, has_prefix}
use nightjar.Types.{Constraint, ResourceTarget, severity_warning, severity_critical}

abbrev pub Bytes : Type 0
Bytes = List ℕ

-- A Go map of labels, `none` where it is nil.
abbrev pub Labels : Type 0
Labels = Option (List (String × String))

-- admissionv1.AdmissionRequest, with the fields that the handler reads; `group` and `kind` are of
-- `Kind`, and `object` is `Object.Raw`.
pub record AdmissionRequest : Type 0 where
  pub uid : String
  pub group : String
  pub kind : String
  pub namespace : String
  pub object : Option Bytes

-- admissionv1.AdmissionResponse; `message` is that of `Result`.
pub record AdmissionResponse : Type 0 where
  pub uid : String
  pub allowed : Bool
  pub message : Option String
  pub warnings : List String

pub record AdmissionReview : Type 0 where
  pub api_version : String
  pub kind : String
  pub request : Option AdmissionRequest
  pub response : Option AdmissionResponse

-- http.Request: what its body delivers, and whether an error follows.
pub record HttpRequest : Type 0 where
  pub method : String
  pub content_type : String
  pub body : Bytes
  pub body_fails : Bool

pub data Answer : Type 0 where
  http_error : ℕ → String → Answer
  written : ℕ → Bytes → Answer

-- The two results of `Query`.
pub data QueryResult : Type 0 where
  failed : String → QueryResult
  constraints : List Constraint → QueryResult

-- `deserializer.Decode`, `json.Unmarshal` into the struct of labels, `json.Marshal`.
pub record Codec : Type 0 where
  pub decode : Bytes → Option AdmissionReview
  pub labels_of : Bytes → Option Labels
  pub marshal : AdmissionReview → Option Bytes

abbrev pub max_body_size : ℕ
max_body_size = 1048576

unfoldable pub take : ℕ → Bytes → Bytes
take n [] = []
take zero (x ∷ xs) = []
take (suc n) (x ∷ xs) = x ∷ take n xs

-- `io.ReadAll(io.LimitReader(body, maxBodySize))`: an error behind the limit is not met.
unfoldable pub read_all : HttpRequest → Option Bytes
unfolding take
read_all r =
    if r.body_fails && ltb (length r.body) max_body_size
    then none
    else some (take max_body_size r.body)

unfoldable pub extract_labels : Codec → AdmissionRequest → Labels
extract_labels codec req = elim req.object [
  | none ↦ none
  | some raw ↦ elim (codec.labels_of raw) [ none ↦ none | some labels ↦ labels ]
]

-- One round of the loop over the targets.
unfoldable pub target_applies : String → String → ResourceTarget → Bool
target_applies group resource t =
    if nat_eqb (length t.api_groups) 0 || any (λ g. g == "*" || g == group) t.api_groups
    then any (λ r. r == "*" || r == resource) t.resources
    else false

unfoldable pub constraint_applies : AdmissionRequest → Constraint → Bool
constraint_applies req c =
    if nat_eqb (length c.resource_targets) 0
    then true
    else any (λ t. target_applies req.group (concat (to_lower req.kind ∷ "s" ∷ [])) t)
        c.resource_targets

unfoldable pub format_warning : Constraint → String
format_warning c =
    let severity_prefix = if c.severity == severity_critical then "[CRITICAL]" else "[WARNING]" in
    concat (severity_prefix ∷ " " ∷ c.summary ∷ " - " ∷ c.remediation_hint ∷ [])

unfoldable pub build_warnings : AdmissionRequest → List Constraint → List String
build_warnings req [] = []
build_warnings req (c ∷ cs) =
    let rest = build_warnings req cs in
    if not (c.severity == severity_warning) && not (c.severity == severity_critical)
    then rest
    else if not (constraint_applies req c)
    then rest
    else format_warning c ∷ rest

module _ (codec : Codec) (ask : String → Labels → QueryResult) where
  unfoldable pub process_request : Option AdmissionRequest → AdmissionResponse
  process_request none = record { uid = ""; allowed = true; message = none; warnings = [] }
  process_request (some req) =
      let response : AdmissionResponse = record {
        uid = req.uid;
        allowed = true;
        message = none;
        warnings = [];
      } in
      elim (ask req.namespace (extract_labels codec req)) [
        | failed error ↦ response
        | constraints cs ↦ record response { warnings = build_warnings req cs }
      ]

  unfoldable pub send_response : AdmissionReview → Answer
  send_response review =
      let typed : AdmissionReview = record review {
        api_version = "admission.k8s.io/v1";
        kind = "AdmissionReview";
      } in
      elim (codec.marshal typed) [
        | none ↦ http_error 500 "Failed to marshal response"
        | some bytes ↦ written 200 bytes
      ]

  -- The review that answers a body.
  unfoldable pub review_of : Bytes → AdmissionReview
  review_of body = elim (codec.decode body) [
    | none ↦ record {
      api_version = "admission.k8s.io/v1";
      kind = "AdmissionReview";
      request = none;
      response = some (record {
        uid = "";
        allowed = true;
        message = some "Failed to decode request, allowing by default";
        warnings = [];
      });
    }
    | some review ↦ record review { response = some (process_request review.request) }
  ]

  unfoldable pub handle : HttpRequest → Answer
  handle r =
      if not (r.method == "POST")
      then http_error 405 "Method not allowed"
      else if not (has_prefix "application/json" r.content_type)
      then http_error 415 "Content-Type must be application/json"
      else elim (read_all r) [
        | none ↦ http_error 400 "Failed to read body"
        | some body ↦ send_response (review_of body)
      ]

-- http.Response: the status, what can be read of the body, and what the JSON decoder makes of it.
pub record HttpResponse : Type 0 where
  pub status : ℕ
  pub body : String
  pub decoded : QueryResult

-- What `NewRequestWithContext` and `Do` give for a URL.
pub data Exchange : Type 0 where
  not_created : String → Exchange
  not_sent : String → Exchange
  received : HttpResponse → Exchange

-- `ConstraintClient.Query`, which does not use the labels; `query_escape` is that of net/url.
unfoldable pub query :
    (String → String) → (String → Exchange) → String → String → Labels → QueryResult
query query_escape exchange base_url namespace labels =
    elim (exchange
      (concat (base_url ∷ "/api/v1/constraints?namespace=" ∷ query_escape namespace ∷ []))) [
        | not_created err ↦ failed (concat ("failed to create request: " ∷ err ∷ []))
        | not_sent err ↦ failed (concat ("failed to query controller: " ∷ err ∷ []))
        | received resp ↦
            if not (nat_eqb resp.status 200)
            then failed (
                concat
                  ("controller returned status " ∷ decimal resp.status ∷ ": " ∷ resp.body ∷ []))
            else elim resp.decoded [
              | failed err ↦ failed (concat ("failed to decode response: " ∷ err ∷ []))
              | constraints cs ↦ constraints cs
            ]
      ]
