-- ===== src/Requirements/Issuers.antt =====
-- internal/requirements/rule_cert_issuer.go: the issuer that an annotation names must exist.
use nightjar.Prelude.{
  ℕ, String, not, Option, none, some, [], ◌∷◌, if◌then◌else◌, ◌==◌, string_eq, concat, any,
}
use nightjar.Prelude.Dict.{lookup}
use nightjar.Prelude.Strings.{to_lower}
use nightjar.Types.{
  Constraint, GroupVersionResource, zero_constraint, constraint_type_missing, severity_critical,
}
use nightjar.Types.Value.{text, field, end}
use nightjar.Util.{Unstructured}
use nightjar.Requirements.Evaluator.{Found, error, constraints, RequirementRule}
use nightjar.Requirements.Context.{Client, Listing, list_error, listed, list_by_gvr}

abbrev pub cluster_issuer_gvr : GroupVersionResource
cluster_issuer_gvr = record {
  group = "cert-manager.io";
  version = "v1";
  resource = "clusterissuers";
}

abbrev pub issuer_gvr : GroupVersionResource
issuer_gvr = record { group = "cert-manager.io"; version = "v1"; resource = "issuers" }

unfoldable pub make_cert_constraint : String → String → String → String → Constraint
make_cert_constraint workload_name namespace issuer_kind issuer_name =
    let ns = if namespace == "" then "cluster" else namespace in
    record zero_constraint {
      uid = concat (
          "missing:cert-issuer:"
          ∷ ns
          ∷ "/"
          ∷ workload_name
          ∷ ":"
          ∷ to_lower issuer_kind
          ∷ "/"
          ∷ issuer_name
          ∷ []);
      name = concat ("missing-" ∷ to_lower issuer_kind ∷ "-" ∷ issuer_name ∷ []);
      namespace = namespace;
      affected_namespaces = namespace ∷ [];
      constraint_type = constraint_type_missing;
      effect = "missing";
      severity = severity_critical;
      summary =
          concat (issuer_kind ∷ " " ∷ issuer_name ∷ " referenced by workload does not exist" ∷ []);
      details = field "expectedKind" (text issuer_kind) (
          field "expectedAPIVersion" (text "cert-manager.io/v1") (
            field "reason"
              (text (
                concat (
                  "Workload annotation references " ∷ issuer_kind ∷ " " ∷ issuer_name
                  ∷ " which does not exist" ∷ [])))
              (field "issuerName" (text issuer_name) end)));
      tags = "cert-manager" ∷ "tls" ∷ "missing-resource" ∷ [];
    }

-- What follows from whether the listing has an issuer of the name.
unfoldable pub check_issuer : Listing → Unstructured → String → String → Found
check_issuer (list_error err) w kind name = error err
check_issuer (listed objs) w kind name =
    if not (any (λ obj. obj.name == name) objs)
    then constraints (make_cert_constraint w.name w.namespace kind name ∷ [])
    else constraints []

-- `annotations[key]`, where it is there and not empty.
unfoldable pub named : String → Unstructured → Option String
named key w = elim (lookup key w.annotations) [
  | none ↦ none
  | some v ↦ if v == "" then none else some v
]

unfoldable pub evaluate_cert_issuer : Client → Unstructured → Found
evaluate_cert_issuer client w = elim (named "cert-manager.io/cluster-issuer" w) [
  | some name ↦ check_issuer (list_by_gvr client cluster_issuer_gvr "") w "ClusterIssuer" name
  | none ↦ elim (named "cert-manager.io/issuer-name" w) [
    | none ↦ constraints []
    | some name ↦
        if w.namespace == ""
        then constraints []
        else check_issuer (list_by_gvr client issuer_gvr w.namespace) w "Issuer" name
  ]
]

-- The rule, where `client` is the cluster at a time.
abbrev pub cert_issuer_rule : (ℕ → Client) → RequirementRule
cert_issuer_rule client = record {
  name = "cert-issuer";
  evaluate = λ now w. evaluate_cert_issuer (client now) w;
}
