-- ===== src/Api/Served.antt =====
-- cmd/webhook/admission.go against internal/api/constraints.go: what the webhook learns of the index.
-- Between the two stand net/url, net/http and encoding/json, which are parameters: the escape of a
-- query's value and its reading, and the text of some constraints and its reading. `wire` is what a
-- constraint becomes on the way; its details may change, since JSON knows floats only.
use nightjar.Prelude.{String, ◌≡◌, Option, List, string_eq}
use nightjar.Types.{Constraint}
use nightjar.Indexer.{Indexer}
use nightjar.Webhook.Admission.{QueryResult, Labels, Exchange, received, query}
use nightjar.Api.Constraints.{Served, http_error, encoded, serve_http}

-- The fields that a warning is made from stay.
pub record KeepsWarnings (f : Constraint → Constraint) : Type 0 where
  pub severity_kept : (c : Constraint) → (f c).severity ≡ c.severity
  pub summary_kept : (c : Constraint) → (f c).summary ≡ c.summary
  pub hint_kept : (c : Constraint) → (f c).remediation_hint ≡ c.remediation_hint
  pub targets_kept : (c : Constraint) → (f c).resource_targets ≡ c.resource_targets

-- `encode` is the text of some constraints, `decode` what the client makes of that text, and
-- `decode_error` what it makes of another text.
module _ (query_escape namespace_param : String → String) (encode : List Constraint → String)
    (decode : List Constraint → QueryResult) (decode_error : String → QueryResult)
    (base_url : String) where
  -- What the client receives of an answer.
  abbrev pub respond : Served → Exchange
  respond (http_error message status) =
      received (record { status = status; body = message; decoded = decode_error message })
  respond (encoded cs) = received (record { status = 200; body = encode cs; decoded = decode cs })

  abbrev pub ask_controller : Option Indexer → String → Labels → QueryResult
  ask_controller indexer namespace labels =
      query query_escape (λ url. respond (serve_http indexer "GET" (namespace_param url))) base_url
        namespace labels
