-- ===== src/Webhook/Answers.antt =====
-- cmd/webhook/admission.go: what the webhook answers.
use nightjar.Prelude.{
  String, Option, Option-cases, Bool-cases, ◌≡◌, refl, ◌↔◌, ◌⊎◌, inl, inr, true, none, some, List,
  [], ◌∷◌, arith, eq_iff, ◌==◌, ◌||◌, string_eq, any, Any, ◌∈◌, length, concat, nat_eqb,
}
use nightjar.Prelude.Strings.{to_lower, has_prefix}
use nightjar.Types.{Constraint, ResourceTarget, severity_warning, severity_critical}
use nightjar.Webhook.Admission.{
  AdmissionRequest, AdmissionResponse, AdmissionReview, HttpRequest, Answer, http_error, written,
  QueryResult, failed, constraints, Codec, Labels, Bytes, read_all, extract_labels, target_applies,
  constraint_applies, format_warning, build_warnings, process_request, send_response, review_of,
  handle,
}

any_star :
    (v : String) (l : List String)
    → (any (λ g. g == "*" || g == v) l ≡ true) ↔ (("*" ∈ l) ⊎ (v ∈ l))
unfolding any
any_star v [] = ground arith
any_star v (g ∷ l) = ground (arith, eq_iff g "*", eq_iff g v, any_star v l)

-- The target names the group, or all groups, or none, and the resource, or all resources.
abbrev pub Targets : String → String → ResourceTarget → Type 0
Targets group resource t =
    ((t.api_groups ≡ []) ⊎ ("*" ∈ t.api_groups) ⊎ (group ∈ t.api_groups))
    × (("*" ∈ t.resources) ⊎ (resource ∈ t.resources))

-- The constraint names no target, or one of the kind of the request, in lower case with an `s`.
abbrev pub Concerns : AdmissionRequest → Constraint → Type 0
Concerns req c =
    (c.resource_targets ≡ [])
    ⊎ Any (Targets req.group (concat (to_lower req.kind ∷ "s" ∷ []))) c.resource_targets

is_nil : {A : Type 0} (l : List A) → (nat_eqb (length l) 0 ≡ true) ↔ (l ≡ [])
is_nil [] = ground arith
is_nil (x ∷ l) = ground arith

target_applies_iff :
    (group resource : String) (t : ResourceTarget)
    → (target_applies group resource t ≡ true) ↔ Targets group resource t
unfolding target_applies
target_applies_iff group resource t =
    ground (arith, is_nil t.api_groups, any_star group t.api_groups, any_star resource t.resources)

any_target_iff :
    (group resource : String) (l : List ResourceTarget)
    → (any (λ t. target_applies group resource t) l ≡ true) ↔ Any (Targets group resource) l
unfolding any
any_target_iff group resource [] = ground arith
any_target_iff group resource (t ∷ l) =
    ground (arith, target_applies_iff group resource t, any_target_iff group resource l)

constraint_applies_iff :
    (req : AdmissionRequest) (c : Constraint) → (constraint_applies req c ≡ true) ↔ Concerns req c
unfolding constraint_applies
constraint_applies_iff req c = ground (
  arith,
  is_nil c.resource_targets,
  any_target_iff req.group (concat (to_lower req.kind ∷ "s" ∷ [])) c.resource_targets,
)

-- The text is that of a serious constraint of the list that concerns the request.
abbrev pub IsWarning : AdmissionRequest → List Constraint → String → Type 0
IsWarning req cs text =
    Any
      (λ c.
        ((c.severity ≡ severity_warning) ⊎ (c.severity ≡ severity_critical))
        × Concerns req c
        × (text ≡ format_warning c))
      cs

build_warnings_iff :
    (req : AdmissionRequest) (text : String) (cs : List Constraint)
    → (text ∈ build_warnings req cs) ↔ IsWarning req cs text
unfolding build_warnings
build_warnings_iff req text [] = ground arith
build_warnings_iff req text (c ∷ cs) = ground (
  arith,
  eq_iff c.severity severity_warning,
  eq_iff c.severity severity_critical,
  constraint_applies_iff req c,
  build_warnings_iff req text cs,
)

-- The response allows, bears the UID of the request, and has exactly these warnings.
abbrev pub Warns : AdmissionRequest → List Constraint → AdmissionResponse → Type 0
Warns req cs r =
    (r.allowed ≡ true)
    × (r.uid ≡ req.uid)
    × ((text : String) → (text ∈ r.warnings) ↔ IsWarning req cs text)

module _ (codec : Codec) (ask : String → Labels → QueryResult) where
  -- The answer of `Query` for the request.
  abbrev pub answer_for : AdmissionRequest → QueryResult
  answer_for req = ask req.namespace (extract_labels codec req)

  -- The constraints that a request is compared with: none where the query failed.
  abbrev pub found : QueryResult → List Constraint
  found (failed _) = []
  found (constraints cs) = cs

  response_of :
      (req : AdmissionRequest) (result : QueryResult)
      → answer_for req ≡ result
      → Warns req (found result) (process_request codec ask (some req))
  unfolding process_request
  response_of req (failed e) h =
      rw (process_request, h) (refl, refl, λ text. (λ m. absurd m, λ m. absurd m))
  response_of req (constraints cs) h =
      rw (process_request, h) (refl, refl, λ text. build_warnings_iff req text cs)

  abbrev pub AllowsWith : Option AdmissionResponse → Type 0
  AllowsWith none = ⊥
  AllowsWith (some r) = r.allowed ≡ true

  -- What is written is a review that allows. An HTTP error carries no review.
  abbrev pub Allows : Answer → Type 0
  Allows (http_error n text) = Unit {0}
  Allows (written n bytes) =
      (review : AdmissionReview) × (codec.marshal review ≡ some bytes) × AllowsWith review.response

  marshalled :
      (review : AdmissionReview) (o : Option Bytes)
      → codec.marshal review ≡ o
      → AllowsWith review.response
      → Allows (elim o as (λ x. Answer) [
        | none ↦ http_error 500 "Failed to marshal response"
        | some bytes ↦ written 200 bytes
      ])
  marshalled review none h k = tt
  marshalled review (some bytes) h k = (review, h, k)

  process_request_allows :
      (o : Option AdmissionRequest) → (process_request codec ask o).allowed ≡ true
  unfolding process_request
  process_request_allows none = refl
  process_request_allows (some req) = (response_of req (answer_for req) refl).0

  review_allows : (body : Bytes) → AllowsWith (review_of codec ask body).response
  unfolding review_of
  review_allows body = elim (Option-cases (codec.decode body)) [
    | inl e ↦ rw (review_of, e) refl
    | inr (review, e) ↦ rw (review_of, e) (process_request_allows review.request)
  ]

  send_response-Allows :
      (body : Bytes) → Allows (send_response codec ask (review_of codec ask body))
  unfolding send_response
  send_response-Allows body = marshalled _ _ refl (review_allows body)

  read-Allows :
      (o : Option Bytes)
      → Allows (elim o as (λ x. Answer) [
        | none ↦ http_error 400 "Failed to read body"
        | some body ↦ send_response codec ask (review_of codec ask body)
      ])
  read-Allows none = tt
  read-Allows (some body) = send_response-Allows body

  -- Whatever the request, the decoder and the query, `Handle` writes a review only if it allows.
  pub handle_never_rejects : (r : HttpRequest) → Allows (handle codec ask r)
  unfolding handle
  handle_never_rejects r = elim (Bool-cases (r.method == "POST")) [
    | inr e ↦ rw (handle, e) tt
    | inl e ↦ elim (Bool-cases (has_prefix "application/json" r.content_type)) [
      | inr f ↦ rw (handle, e, f) tt
      | inl f ↦ rw (handle, e, f) (read-Allows (read_all r))
    ]
  ]

  -- The review goes out with a response that allows and warns of what the query returns.
  abbrev pub Answered : HttpRequest → AdmissionReview → AdmissionRequest → Type 0
  Answered r review req =
      (response : AdmissionResponse) × (handle codec ask r
        ≡ send_response codec ask (record review { response = some response }))
      × Warns req (found (answer_for req)) response

  -- A POST of JSON whose body can be read and decodes to a request is answered with a response
  -- that allows, bears the UID of the request, and warns exactly of the serious constraints that
  -- the query returns and that concern the request; of none where the query fails.
  pub handle_warns :
      (r : HttpRequest) (body : Bytes) (review : AdmissionReview) (req : AdmissionRequest)
      → r.method ≡ "POST"
      → has_prefix "application/json" r.content_type ≡ true
      → read_all r ≡ some body
      → codec.decode body ≡ some review
      → review.request ≡ some req
      → Answered r review req
  unfolding handle review_of
  handle_warns r body review req post json readable decodes asks = (
    process_request codec ask (some req),
    rw (handle, (eq_iff r.method "POST").1 post, json, readable, review_of, decodes, asks) refl,
    response_of req (answer_for req) refl,
  )
