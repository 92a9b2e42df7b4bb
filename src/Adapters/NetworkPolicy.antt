-- ===== src/Adapters/NetworkPolicy.antt =====
-- internal/adapters/networkpolicy/adapter.go: a NetworkPolicy becomes a constraint for each of its
-- directions. The accessors of unstructured objects are the section's parameter.
use nightjar.Prelude.{
  String, Bool, true, ◌||◌, Option, none, some, List, [], ◌∷◌, ◌++◌, if◌then◌else◌, ◌==◌, string_eq,
  any, length, nat_eqb, decimal, concat, suc,
}
use nightjar.Prelude.Strings.{quote}
use nightjar.Types.{
  GroupVersionResource, Constraint, ConstraintType, LabelSelector, zero_constraint,
  constraint_type_network_ingress, constraint_type_network_egress, severity_warning,
}
use nightjar.Types.Value.{
  Value, Object, Items, integer, negative, float, text, boolean, items, end, field, nil, cons,
  lookup_field, as_object, to_list,
}
use nightjar.Util.{
  Library, Unstructured, safe_nested_map, safe_nested_slice, safe_nested_string_slice,
  safe_nested_label_selector, safe_string_from_map, elements, unique_strings,
}
use nightjar.Adapters.{Parsed, error, parsed}

abbrev pub gvr : GroupVersionResource
gvr = record { group = "networking.k8s.io"; version = "v1"; resource = "networkpolicies" }

unfoldable pub contains_policy_type : List String → String → Bool
contains_policy_type policy_types target = any (λ t. t == target) policy_types

-- A `[]string` inside a map.
unfoldable pub text_items : List String → Items
text_items [] = nil
text_items (s ∷ ss) = cons (text s) (text_items ss)

abbrev put_strings : String → List String → Object → Object
put_strings key l rest =
    if nat_eqb (length l) 0 then rest else field key (items (text_items (unique_strings l))) rest

module _ (lib : Library) where
  unfoldable pub extract_policy_types : Object → List String
  extract_policy_types spec = safe_nested_string_slice lib (some spec) ("policyTypes" ∷ [])

  unfoldable pub extract_label_selector : Object → String → Option LabelSelector
  extract_label_selector spec name = safe_nested_label_selector lib (some spec) (name ∷ [])

  rule_list : String → Object → List Value
  rule_list direction spec = elements lib (safe_nested_slice lib (some spec) (direction ∷ []))

  unfoldable pub build_ingress_summary : String → Object → String
  unfolding rule_list
  build_ingress_summary name spec =
      let rules = rule_list "ingress" spec in
      if nat_eqb (length rules) 0
      then concat ("NetworkPolicy " ∷ quote name ∷ " denies all ingress traffic" ∷ [])
      else concat (
          "NetworkPolicy "
          ∷ quote name
          ∷ " restricts ingress to "
          ∷ decimal (length rules)
          ∷ " rule(s)"
          ∷ [])

  unfoldable pub build_egress_summary : String → Object → String
  unfolding rule_list
  build_egress_summary name spec =
      let rules = rule_list "egress" spec in
      if nat_eqb (length rules) 0
      then concat ("NetworkPolicy " ∷ quote name ∷ " denies all egress traffic" ∷ [])
      else concat (
          "NetworkPolicy "
          ∷ quote name
          ∷ " restricts egress to "
          ∷ decimal (length rules)
          ∷ " rule(s)"
          ∷ [])

  -- The port as a text, from a number or a text; the empty text where it is neither.
  unfoldable pub port_text : Option Value → String
  port_text (some (integer n)) = decimal n
  port_text (some (negative n)) = concat ("-" ∷ decimal (suc n) ∷ [])
  port_text (some (float x)) = lib.int_text x
  port_text (some (text s)) = s
  port_text _ = ""

  port_entry : Object → List String
  unfolding port_text
  port_entry port =
      let named = safe_string_from_map (some port) "protocol" in
      let protocol = if named == "" then "TCP" else named in
      let number = port_text (lookup_field "port" port) in
      if number == "" then [] else concat (number ∷ "/" ∷ protocol ∷ []) ∷ []

  port_entries : List Value → List String
  unfolding port_entry
  port_entries [] = []
  port_entries (v ∷ vs) =
      let others = port_entries vs in
      elim (as_object v) [ none ↦ others | some port ↦ port_entry port ++ others ]

  unfoldable pub extract_ports : Object → List String
  unfolding port_entries
  extract_ports rule =
      port_entries (elements lib (safe_nested_slice lib (some rule) ("ports" ∷ [])))

  cidr_entry : Object → List String
  cidr_entry peer =
      let cidr = safe_string_from_map (safe_nested_map lib (some peer) ("ipBlock" ∷ [])) "cidr" in
      if cidr == "" then [] else cidr ∷ []

  cidr_entries : List Value → List String
  unfolding cidr_entry
  cidr_entries [] = []
  cidr_entries (v ∷ vs) =
      let others = cidr_entries vs in
      elim (as_object v) [ none ↦ others | some peer ↦ cidr_entry peer ++ others ]

  unfoldable pub extract_cidrs_from_rule : Object → String → List String
  unfolding cidr_entries
  extract_cidrs_from_rule rule direction =
      cidr_entries (elements lib (safe_nested_slice lib (some rule) (direction ∷ [])))

  ports_of_rules : List Value → List String
  ports_of_rules [] = []
  ports_of_rules (v ∷ vs) =
      let others = ports_of_rules vs in
      elim (as_object v) [ none ↦ others | some rule ↦ extract_ports rule ++ others ]

  cidrs_of_rules : String → List Value → List String
  cidrs_of_rules direction [] = []
  cidrs_of_rules direction (v ∷ vs) =
      let others = cidrs_of_rules direction vs in
      elim (as_object v) [
        | none ↦ others
        | some rule ↦ extract_cidrs_from_rule rule direction ++ others
      ]

  -- `extractIngressDetails` and `extractEgressDetails`, by the key of the rules and that of their
  -- peers.
  unfoldable pub extract_details : String → String → Object → Object
  unfolding ports_of_rules cidrs_of_rules
  extract_details rules_key peers_key spec =
      elim (safe_nested_slice lib (some spec) (rules_key ∷ [])) [
        | none ↦ field "ruleCount" (integer 0) (field "deniesAll" (boolean true) end)
        | some rules ↦
            let l = to_list rules in
            field "ruleCount" (integer (length l)) (
              put_strings "allowedPorts" (ports_of_rules l)
                (put_strings "allowedCIDRs" (cidrs_of_rules peers_key l) end))
      ]

  unfoldable pub direction_constraint :
      Unstructured → Object → ConstraintType → String → Object → Constraint
  direction_constraint obj spec direction summary details = record zero_constraint {
    uid = obj.uid;
    source = gvr;
    name = obj.name;
    namespace = obj.namespace;
    affected_namespaces = obj.namespace ∷ [];
    workload_selector = extract_label_selector spec "podSelector";
    constraint_type = direction;
    effect = "restrict";
    severity = severity_warning;
    summary = summary;
    remediation_hint = concat (
        "Review NetworkPolicy " ∷ obj.namespace ∷ "/" ∷ obj.name ∷ " or contact your platform team"
        ∷ []);
    details = details;
    raw_object = some obj.content;
  }

  unfoldable pub ingress_constraint : Unstructured → Object → Constraint
  unfolding direction_constraint
  ingress_constraint obj spec =
      direction_constraint obj spec constraint_type_network_ingress
        (build_ingress_summary obj.name spec) (extract_details "ingress" "from" spec)

  unfoldable pub egress_constraint : Unstructured → Object → Constraint
  unfolding direction_constraint
  egress_constraint obj spec =
      direction_constraint obj spec constraint_type_network_egress
        (build_egress_summary obj.name spec) (extract_details "egress" "to" spec)

  unfoldable pub parse : Unstructured → Parsed
  parse obj = elim (safe_nested_map lib (some obj.content) ("spec" ∷ [])) [
    | none ↦
        error (concat ("networkpolicy " ∷ obj.namespace ∷ "/" ∷ obj.name ∷ ": missing spec" ∷ []))
    | some spec ↦
        let types = extract_policy_types spec in
        parsed (
          (if contains_policy_type types "Ingress" || nat_eqb (length types) 0
            then ingress_constraint obj spec ∷ []
            else [])
          ++ (if contains_policy_type types "Egress" then egress_constraint obj spec ∷ [] else []))
  ]
