-- ===== src/Requirements/Monitors.antt =====
-- internal/requirements/rule_prometheus_monitor.go: a workload with a metrics port needs a monitor.
use nightjar.Prelude.{
  ℕ, String, Bool, false, not, ◌||◌, Option, none, some, List, [], ◌∷◌, if◌then◌else◌, ◌==◌,
  string_eq, concat, any, length, nat_eqb,
}
use nightjar.Types.{
  Constraint, GroupVersionResource, zero_constraint, constraint_type_missing, severity_warning,
}
use nightjar.Types.Value.{Value, Items, text, field, end, as_object}
use nightjar.Util.{
  Library, Unstructured, safe_nested_slice, safe_nested_map, safe_string_from_map, elements,
  string_entries,
}
use nightjar.Requirements.Evaluator.{Found, error, constraints, RequirementRule}
use nightjar.Requirements.Context.{Client, Listing, list_error, listed, find_matching_resources}

abbrev pub service_monitor_gvr : GroupVersionResource
service_monitor_gvr = record {
  group = "monitoring.coreos.com";
  version = "v1";
  resource = "servicemonitors";
}

abbrev pub pod_monitor_gvr : GroupVersionResource
pod_monitor_gvr = record {
  group = "monitoring.coreos.com";
  version = "v1";
  resource = "podmonitors";
}

unfoldable pub missing_monitor : Unstructured → Constraint
missing_monitor w = record zero_constraint {
  uid = concat ("missing:prometheus-monitor:" ∷ w.namespace ∷ "/" ∷ w.name ∷ []);
  name = concat ("missing-prometheus-monitor-" ∷ w.name ∷ []);
  namespace = w.namespace;
  affected_namespaces = w.namespace ∷ [];
  constraint_type = constraint_type_missing;
  effect = "missing";
  severity = severity_warning;
  summary = "Workload exposes a metrics port but has no ServiceMonitor or PodMonitor";
  details = field "expectedKind" (text "ServiceMonitor") (
      field "expectedAPIVersion" (text "monitoring.coreos.com/v1") (
        field "reason"
          (text
            "Workload has a port named metrics or http-metrics but no Prometheus monitor targets it")
          end));
  tags = "prometheus" ∷ "monitoring" ∷ "missing-resource" ∷ [];
}

-- A round of the inner loop.
unfoldable pub is_metrics_port : Value → Bool
is_metrics_port p = elim (as_object p) [
  | none ↦ false
  | some m ↦
      let port_name = safe_string_from_map (some m) "name" in
      (port_name == "metrics") || (port_name == "http-metrics")
]

module _ (lib : Library) where
  unfoldable pub containers_of : Unstructured → Option Items
  containers_of w =
      elim (safe_nested_slice lib (some w.content)
        ("spec" ∷ "template" ∷ "spec" ∷ "containers" ∷ [])) [
          | some l ↦ some l
          | none ↦ safe_nested_slice lib (some w.content) ("spec" ∷ "containers" ∷ [])
        ]

  unfoldable pub exposes_metrics : Value → Bool
  exposes_metrics c = elim (as_object c) [
    | none ↦ false
    | some m ↦ any is_metrics_port (elements lib (safe_nested_slice lib (some m) ("ports" ∷ [])))
  ]

  unfoldable pub has_metrics_port : Unstructured → Bool
  has_metrics_port w = any exposes_metrics (elements lib (containers_of w))

  unfoldable pub pod_template_labels : Unstructured → List (String × String)
  pod_template_labels w =
      elim (safe_nested_map lib (some w.content)
        ("spec" ∷ "template" ∷ "metadata" ∷ "labels" ∷ [])) [
          | none ↦ []
          | some raw ↦ string_entries raw
        ]

  unfoldable pub pod_labels : Unstructured → List (String × String)
  pod_labels w =
      let labels = pod_template_labels w in if nat_eqb (length labels) 0 then w.labels else labels

  -- What a listing of monitors leads to, where `rest` is what follows without one.
  unfoldable pub unless_listed : Listing → Found → Found
  unless_listed (list_error err) rest = error err
  unless_listed (listed []) rest = rest
  unless_listed (listed (obj ∷ objs)) rest = constraints []

  unfoldable pub evaluate_prometheus_monitor : Client → Unstructured → Found
  evaluate_prometheus_monitor client w =
      let monitors = λ (gvr : GroupVersionResource).
        find_matching_resources lib client gvr w.namespace (pod_labels w) in
      if not (has_metrics_port w)
      then constraints []
      else if w.namespace == ""
      then constraints []
      else if nat_eqb (length (pod_labels w)) 0
      then constraints []
      else unless_listed (monitors service_monitor_gvr)
          (unless_listed (monitors pod_monitor_gvr) (constraints (missing_monitor w ∷ [])))

  abbrev pub prometheus_monitor_rule : (ℕ → Client) → RequirementRule
  prometheus_monitor_rule client = record {
    name = "prometheus-monitor";
    evaluate = λ now w. evaluate_prometheus_monitor (client now) w;
  }
