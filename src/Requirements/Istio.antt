-- ===== src/Requirements/Istio.antt =====
-- internal/requirements: rule_istio_mtls.go and rule_istio_routing.go.
use nightjar.Prelude.{
  ℕ, String, Bool, true, false, not, ◌&&◌, ◌||◌, Option, none, some, List, [], ◌∷◌, if◌then◌else◌,
  ◌==◌, string_eq, concat, any,
}
use nightjar.Prelude.Dict.{lookup}
use nightjar.Prelude.Strings.{trim_space}
use nightjar.Types.{
  Constraint, GroupVersionResource, zero_constraint, constraint_type_missing, severity_warning,
}
use nightjar.Types.Value.{Value, Object, text, field, end, as_object}
use nightjar.Util.{
  Library, Unstructured, safe_nested_slice, safe_nested_map, safe_nested_string, elements,
}
use nightjar.Requirements.Evaluator.{Found, error, constraints, RequirementRule}
use nightjar.Requirements.Context.{
  Client, Listing, list_error, listed, get_error, fetched, get_namespace, list_by_gvr,
}

abbrev pub peer_authentication_gvr : GroupVersionResource
peer_authentication_gvr = record {
  group = "security.istio.io";
  version = "v1";
  resource = "peerauthentications";
}

abbrev pub virtual_service_gvr : GroupVersionResource
virtual_service_gvr = record {
  group = "networking.istio.io";
  version = "v1";
  resource = "virtualservices";
}

abbrev pub destination_rule_gvr : GroupVersionResource
destination_rule_gvr = record {
  group = "networking.istio.io";
  version = "v1";
  resource = "destinationrules";
}

unfoldable pub missing_peer_authentication : Unstructured → Constraint
missing_peer_authentication w = record zero_constraint {
  uid = concat ("missing:istio-mtls:" ∷ w.namespace ∷ "/" ∷ w.name ∷ []);
  name = concat ("missing-peer-authentication-" ∷ w.namespace ∷ []);
  namespace = w.namespace;
  affected_namespaces = w.namespace ∷ [];
  constraint_type = constraint_type_missing;
  effect = "missing";
  severity = severity_warning;
  summary = "Namespace has Istio injection enabled but no PeerAuthentication policy";
  details = field "expectedKind" (text "PeerAuthentication") (
      field "expectedAPIVersion" (text "security.istio.io/v1") (
        field "reason"
          (text
            "Namespace has istio-injection=enabled label but no mTLS policy; using mesh-wide defaults")
          end));
  tags = "istio" ∷ "mtls" ∷ "security" ∷ "missing-resource" ∷ [];
}

unfoldable pub missing_routing : Unstructured → Constraint
missing_routing w = record zero_constraint {
  uid = concat ("missing:istio-routing:" ∷ w.namespace ∷ "/" ∷ w.name ∷ []);
  name = concat ("missing-istio-routing-" ∷ w.name ∷ []);
  namespace = w.namespace;
  affected_namespaces = w.namespace ∷ [];
  constraint_type = constraint_type_missing;
  effect = "missing";
  severity = severity_warning;
  summary = "Workload has Istio sidecar but no VirtualService or DestinationRule";
  details = field "expectedKind" (text "VirtualService") (
      field "expectedAPIVersion" (text "networking.istio.io/v1") (
        field "reason" (text "Workload has sidecar.istio.io/status annotation but no routing rules")
          end));
  tags = "istio" ∷ "routing" ∷ "missing-resource" ∷ [];
}

unfoldable pub host_matches_workload : String → String → String → Bool
host_matches_workload host workload_name namespace =
    let trimmed = trim_space host in
    if host == ""
    then false
    else (trimmed == workload_name)
      || ((trimmed == concat (workload_name ∷ "." ∷ namespace ∷ []))
          || (trimmed == concat (workload_name ∷ "." ∷ namespace ∷ ".svc.cluster.local" ∷ [])))

-- `len(m) == 0` of a map that may be nil.
abbrev pub has_no_field : Option Object → Bool
has_no_field none = true
has_no_field (some end) = true
has_no_field (some (field k v rest)) = false

abbrev pub is_empty_map : Option Object → Bool
is_empty_map none = false
is_empty_map (some o) = has_no_field (some o)

module _ (lib : Library) where
  unfoldable pub has_mesh_wide_pa : List Unstructured → Bool
  has_mesh_wide_pa pas =
      any
        (λ pa.
          has_no_field (safe_nested_map lib (some pa.content) ("spec" ∷ "selector" ∷ []))
          || is_empty_map
              (safe_nested_map lib (some pa.content) ("spec" ∷ "selector" ∷ "matchLabels" ∷ [])))
        pas

  -- Whether the list of the mesh's namespace could be read and covers the mesh.
  unfoldable pub covers_mesh : Listing → Bool
  covers_mesh (list_error err) = false
  covers_mesh (listed pas) = has_mesh_wide_pa pas

  unfoldable pub check_peer_authentications : Client → Unstructured → Found
  check_peer_authentications client w =
      elim (list_by_gvr client peer_authentication_gvr w.namespace) [
        | list_error err ↦ error err
        | listed (pa ∷ pas) ↦ constraints []
        | listed [] ↦
            if not (w.namespace == "istio-system")
              && covers_mesh (list_by_gvr client peer_authentication_gvr "istio-system")
            then constraints []
            else constraints (missing_peer_authentication w ∷ [])
      ]

  unfoldable pub evaluate_istio_mtls : Client → Unstructured → Found
  evaluate_istio_mtls client w =
      if w.namespace == "" then constraints [] else elim (get_namespace client w.namespace) [
        | get_error err ↦ error err
        | fetched ns ↦ elim (lookup "istio-injection" ns.labels) [
          | none ↦ constraints []
          | some v ↦
              if not (v == "enabled") then constraints [] else check_peer_authentications client w
        ]
      ]

  -- A destination of a route, and a route of a list of routes.
  unfoldable pub destination_matches : String → String → Value → Bool
  destination_matches name namespace route = elim (as_object route) [
    | none ↦ false
    | some rm ↦
        host_matches_workload (safe_nested_string lib (some rm) ("destination" ∷ "host" ∷ [])) name
          namespace
  ]

  unfoldable pub route_matches : String → String → Value → Bool
  route_matches name namespace r = elim (as_object r) [
    | none ↦ false
    | some m ↦
        any (destination_matches name namespace)
          (elements lib (safe_nested_slice lib (some m) ("route" ∷ [])))
  ]

  unfoldable pub vs_routes_to_host : Unstructured → String → String → Bool
  vs_routes_to_host vs name namespace =
      any
        (λ kind.
          any (route_matches name namespace)
            (elements lib (safe_nested_slice lib (some vs.content) ("spec" ∷ kind ∷ []))))
        ("http" ∷ "tcp" ∷ "tls" ∷ [])

  unfoldable pub vs_matches_workload : List Unstructured → String → String → Bool
  vs_matches_workload vss name namespace = any (λ vs. vs_routes_to_host vs name namespace) vss

  unfoldable pub dr_matches_workload : List Unstructured → String → String → Bool
  dr_matches_workload drs name namespace =
      any
        (λ dr.
          host_matches_workload (safe_nested_string lib (some dr.content) ("spec" ∷ "host" ∷ []))
            name namespace)
        drs

  -- The two listings of the rule in turn.
  unfoldable pub check_routing : Listing → Listing → Unstructured → Found
  check_routing (list_error err) drs w = error err
  check_routing (listed vss) drs w =
      if vs_matches_workload vss w.name w.namespace then constraints [] else elim drs [
        | list_error err ↦ error err
        | listed l ↦
            if dr_matches_workload l w.name w.namespace
            then constraints []
            else constraints (missing_routing w ∷ [])
      ]

  unfoldable pub evaluate_istio_routing : Client → Unstructured → Found
  evaluate_istio_routing client w = elim (lookup "sidecar.istio.io/status" w.annotations) [
    | none ↦ constraints []
    | some status ↦
        if w.namespace == ""
        then constraints []
        else check_routing (list_by_gvr client virtual_service_gvr w.namespace)
            (list_by_gvr client destination_rule_gvr w.namespace) w
  ]

  abbrev pub istio_mtls_rule : (ℕ → Client) → RequirementRule
  istio_mtls_rule client = record {
    name = "istio-mtls";
    evaluate = λ now w. evaluate_istio_mtls (client now) w;
  }

  abbrev pub istio_routing_rule : (ℕ → Client) → RequirementRule
  istio_routing_rule client = record {
    name = "istio-routing";
    evaluate = λ now w. evaluate_istio_routing (client now) w;
  }
