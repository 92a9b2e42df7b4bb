-- ===== src/Requirements/Tests.antt =====
-- Witnesses and runs of the evaluator.
use nightjar.Prelude.{
  subst, sym, ◌∙◌, ap, Any, true, ℕ, ◌+◌, ◌*◌, inr, any, ◌≤◌, ◌≡◌, ◌≢◌, ◌↔◌, inl, refl, some, List,
  [], ◌∷◌, arith, ◌∈◌, string_eq,
}
use nightjar.Prelude.Dict
use nightjar.Prelude.Dict.{HasDistinctKeys, lookup}
use nightjar.Types.Value.{
  Object, field, object, text, items, cons, nil, end, as_object, as_items, as_string, lookup_field,
  to_list,
}
use nightjar.Util.Concrete.{concrete, walk}
use nightjar.Requirements.Context.{
  Client, get_error, listed, list_by_gvr, find_matching_resources, matching, get_namespace,
}
use nightjar.Requirements.Issuers.{
  cert_issuer_rule, make_cert_constraint, evaluate_cert_issuer, named, check_issuer,
}
use nightjar.Requirements.Monitors.{
  evaluate_prometheus_monitor, missing_monitor, has_metrics_port, pod_labels,
}
use nightjar.Requirements.Monitored.{Selects, missing_monitor_iff}
use nightjar.Requirements.Registered.{
  reconciler_evaluator, mcp_evaluator, IsMissingFor, registered-evaluate, mcp-evaluate,
  registered-HasDistinctNames,
}
use nightjar.Requirements.Debounce.{FoundBy}
use nightjar.Requirements.Restarts.{cleanup_restarts}
use nightjar.Types.{Constraint, zero_constraint}
use nightjar.Requirements.Evaluator.{
  Workload, Found, error, constraints, RequirementRule, Evaluator, run_rules, run_rule, debounced,
  evaluate, cleanup_stale_entries, workload_uid, debounce_key, register_rule, new_evaluator,
}
use nightjar.Util.{
  elements, safe_nested_slice, safe_nested_map, safe_string_from_map, string_entries,
}
use nightjar.Requirements.Istio.{evaluate_istio_mtls, evaluate_istio_routing}
use nightjar.Requirements.Monitors.{
  containers_of, exposes_metrics, is_metrics_port, pod_template_labels, unless_listed,
}
use nightjar.Requirements.History.{Call, evaluates, cleans, after, MissingSince}

-- An object with one container, which has a port for metrics, and with labels of its pods.
abbrev port_of_metrics : Object
port_of_metrics =
    field "spec"
      (object (
        field "template"
          (object (
            field "metadata" (object (field "labels" (object (field "app" (text "web") end)) end)) (
              field "spec"
                (object (
                  field "containers"
                    (items (
                      cons
                        (object (
                          field "ports"
                            (items (cons (object (field "name" (text "metrics") end)) nil)) end))
                        nil))
                    end))
                end)))
          end))
      end

-- A cluster that lists nothing.
abbrev empty_cluster : Client
empty_cluster = record { get = λ gvr name. get_error "not found"; list = λ gvr ns. listed [] }

abbrev web : Workload
web = record {
  uid = "u";
  name = "web";
  namespace = "team-a";
  labels = [];
  annotations = ("cert-manager.io/cluster-issuer", "corp-ca") ∷ [];
  content = port_of_metrics;
}

abbrev no_mtls : Constraint
no_mtls = record zero_constraint { uid = "missing:istio-mtls:team-a/web" }

-- Finds the same constraint at each time.
abbrev mtls : RequirementRule
mtls = record { name = "istio-mtls"; evaluate = λ _ _. constraints (no_mtls ∷ []) }

abbrev broken : RequirementRule
broken = record { name = "cert-issuer"; evaluate = λ _ _. error "forbidden" }

abbrev start : Evaluator
start = record { rules = mtls ∷ broken ∷ []; debounce = record { duration = 120; first_seen = [] } }

abbrev seen_at_ten : List (ℕ × Call)
seen_at_ten = (60, cleans) ∷ (10, evaluates web) ∷ []

reported : no_mtls ∈ (evaluate 130 (some web) (after seen_at_ten start)).1
unfolding evaluate after run_rules run_rule debounced cleanup_stale_entries workload_uid Dict.lookup
    Dict.insert Dict.erase Dict.retain
reported = inl refl

-- A workload without ports.
abbrev plain : Workload
plain = record web { content = end }

-- The reconciler's evaluator, where the rule of issuers has found something at 10.
abbrev waiting : Evaluator
waiting = record (reconciler_evaluator concrete (λ now. empty_cluster)) {
  debounce = record { duration = 120 * 1000000000; first_seen = ("u:cert-issuer", 10) ∷ [] };
}

distinct : HasDistinctKeys waiting.debounce.first_seen
unfolding Dict.lookup
distinct = (refl, tt)

abbrev cert_rule : RequirementRule
cert_rule = cert_issuer_rule (λ now. empty_cluster)

registers_cert : cert_rule ∈ waiting.rules
unfolding register_rule new_evaluator
registers_cert = inr (inr (inr (inl refl)))

seen_first : lookup (debounce_key plain cert_rule) waiting.debounce.first_seen ≡ some 10
unfolding workload_uid Dict.lookup
seen_first = refl

abbrev no_issuer : Constraint
no_issuer = make_cert_constraint "web" "team-a" "ClusterIssuer" "corp-ca"

finds_issuer : FoundBy 250000000000 plain no_issuer cert_rule
unfolding evaluate_cert_issuer named check_issuer list_by_gvr Dict.lookup any
finds_issuer = (no_issuer ∷ [], refl, inl refl)

abbrev found_in : Found → List Constraint
found_in (error _) = []
found_in (constraints cs) = cs

none_found :
    (r : RequirementRule) (other : RequirementRule)
    → other ≡ r
    → found_in (r.evaluate 250000000000 plain) ≡ []
    → FoundBy 250000000000 plain no_issuer other
    → ⊥
none_found r other e quiet (cs, finds, here) =
    let same : [] ≡ cs =
      sym quiet ∙ ap found_in (sym (ap (λ s. s.evaluate 250000000000 plain) e) ∙ finds) in
    subst (λ l. no_issuer ∈ l) (sym same) here

only_cert :
    (other : RequirementRule)
    → other ∈ waiting.rules
    → FoundBy 250000000000 plain no_issuer other
    → other.name ≡ cert_rule.name
unfolding register_rule new_evaluator evaluate_prometheus_monitor evaluate_istio_mtls
    evaluate_istio_routing get_namespace Dict.lookup has_metrics_port any elements containers_of
    safe_nested_slice walk as_object as_items lookup_field to_list
only_cert other (inl e) found = absurd (none_found _ other e refl found)
only_cert other (inr (inl e)) found = absurd (none_found _ other e refl found)
only_cert other (inr (inr (inl e))) found = absurd (none_found _ other e refl found)
only_cert other (inr (inr (inr (inl e)))) found = ap (λ r. r.name) e
only_cert other (inr (inr (inr (inr e)))) found = absurd e

cleanup_restarts_example :
    (no_issuer ∈ (evaluate 250000000000 (some plain) waiting).1)
    × ¬ (
        no_issuer
        ∈ (evaluate 250000000000 (some plain) (cleanup_stale_entries 250000000000 waiting)).1)
cleanup_restarts_example =
    cleanup_restarts waiting cert_rule plain 10 250000000000 250000000000 no_issuer registers_cert
      (registered-HasDistinctNames concrete (λ now. empty_cluster)) distinct seen_first
      (omega arith) (omega arith) (omega arith) finds_issuer only_cert

missing_monitor_iff_example :
    (evaluate_prometheus_monitor concrete empty_cluster web
      ≡ constraints (missing_monitor web ∷ []))
    ↔ ((has_metrics_port concrete web ≡ true)
        × (web.namespace ≢ "")
        × (pod_labels concrete web ≢ [])
        × (¬ Any (Selects concrete (pod_labels concrete web)) [])
        × (¬ Any (Selects concrete (pod_labels concrete web)) []))
missing_monitor_iff_example = missing_monitor_iff concrete empty_cluster web [] [] refl refl

exposes : has_metrics_port concrete web ≡ true
unfolding has_metrics_port any elements containers_of safe_nested_slice exposes_metrics
    is_metrics_port safe_string_from_map walk as_object as_items as_string lookup_field to_list
exposes = refl

-- The issuer has been missing for two minutes.
issuer_reported :
    make_cert_constraint "web" "team-a" "ClusterIssuer" "corp-ca"
    ∈ (evaluate 120000000010
        (some web)
        (after ((10, evaluates web) ∷ []) (reconciler_evaluator concrete (λ now. empty_cluster)))).1
unfolding evaluate after run_rules run_rule debounced register_rule new_evaluator workload_uid
    evaluate_cert_issuer named check_issuer list_by_gvr evaluate_prometheus_monitor pod_labels
    pod_template_labels safe_nested_map string_entries unless_listed find_matching_resources
    matching evaluate_istio_mtls get_namespace evaluate_istio_routing Dict.lookup Dict.insert
    Dict.erase has_metrics_port any elements containers_of safe_nested_slice exposes_metrics
    is_metrics_port safe_string_from_map walk as_object as_items as_string lookup_field to_list
issuer_reported = inr (inl refl)

registered-evaluate_example :
    IsMissingFor web (make_cert_constraint "web" "team-a" "ClusterIssuer" "corp-ca")
    × ((rule : RequirementRule) × (rule
          ∈ (reconciler_evaluator concrete (λ now. empty_cluster)).rules)
        × FoundBy 120000000010 web
            (make_cert_constraint "web" "team-a" "ClusterIssuer" "corp-ca")
            rule
        × ((t : ℕ) × MissingSince
              (reconciler_evaluator concrete (λ now. empty_cluster)).rules
              (debounce_key web rule)
              t
              ((10, evaluates web) ∷ [])
            × (t + 120 * 1000000000 ≤ 120000000010)))
registered-evaluate_example =
    registered-evaluate concrete (λ now. empty_cluster) ((10, evaluates web) ∷ []) 120000000010 web
      (make_cert_constraint "web" "team-a" "ClusterIssuer" "corp-ca") issuer_reported

mcp-evaluate_example :
    (make_cert_constraint "web" "team-a" "ClusterIssuer" "corp-ca"
      ∈ (evaluate 20
          (some web)
          (after ((10, evaluates web) ∷ []) (mcp_evaluator concrete (λ now. empty_cluster)))).1)
    ↔ ((rule : RequirementRule) × (rule
          ∈ (reconciler_evaluator concrete (λ now. empty_cluster)).rules)
        × FoundBy 20 web (make_cert_constraint "web" "team-a" "ClusterIssuer" "corp-ca") rule)
mcp-evaluate_example =
    mcp-evaluate concrete (λ now. empty_cluster) ((10, evaluates web) ∷ []) 20 web
      (make_cert_constraint "web" "team-a" "ClusterIssuer" "corp-ca") (omega arith, tt)
