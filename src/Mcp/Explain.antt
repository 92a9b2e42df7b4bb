-- ===== src/Mcp/Explain.antt =====
-- internal/mcp/handlers.go: the constraints that may explain an error message.
use nightjar.Prelude.{String, Bool, ◌||◌, List, [], ◌∷◌, if◌then◌else◌, ◌==◌, string_eq, keep}
use nightjar.Prelude.Strings.{to_lower, contains}
use nightjar.Types.{
  Constraint, constraint_type_network_ingress, constraint_type_network_egress,
  constraint_type_admission, constraint_type_resource_limit,
}

abbrev pub network_patterns : List String
network_patterns =
    "connection refused" ∷ "connection timed out" ∷ "network unreachable" ∷ "no route to host"
    ∷ "dial tcp" ∷ "i/o timeout" ∷ "egress" ∷ "ingress" ∷ []

abbrev pub admission_patterns : List String
admission_patterns =
    "denied" ∷ "rejected" ∷ "forbidden" ∷ "admission" ∷ "webhook" ∷ "not allowed"
    ∷ "policy violation" ∷ "constraint" ∷ []

abbrev pub quota_patterns : List String
quota_patterns =
    "exceeded quota" ∷ "resource quota" ∷ "limit exceeded" ∷ "insufficient" ∷ "cpu" ∷ "memory"
    ∷ "storage" ∷ []

abbrev pub is_network : Constraint → Bool
is_network c =
    (c.constraint_type == constraint_type_network_ingress)
    || (c.constraint_type == constraint_type_network_egress)

abbrev pub is_admission : Constraint → Bool
is_admission c = c.constraint_type == constraint_type_admission

abbrev pub is_quota : Constraint → Bool
is_quota c = c.constraint_type == constraint_type_resource_limit

-- One of the three loops: the first pattern that occurs collects the constraints, and ends it.
unfoldable pub match_patterns :
    List String → String → (Constraint → Bool) → List Constraint → List Constraint
match_patterns [] message wanted cs = []
match_patterns (pattern ∷ patterns) message wanted cs =
    let others = match_patterns patterns message wanted cs in
    if contains pattern message then keep wanted cs else others

pub record Matched : Type 0 where
  pub matches : List Constraint
  pub confidence : String
  pub explanation : String

abbrev pub matched : String → List Constraint → Matched
matched explanation matches = record {
  matches = matches;
  confidence = "high";
  explanation = explanation;
}

-- The first of the three with a match; or all constraints, with low confidence.
unfoldable pub first_match :
    List Constraint → List Constraint → List Constraint → List Constraint → Matched
first_match (c ∷ network) admission quota all =
    matched
      "This error appears to be network-related. The following network policies may be blocking traffic."
      (c ∷ network)
first_match [] (c ∷ admission) quota all =
    matched
      "This error appears to be from an admission controller. The following admission policies may be rejecting the request."
      (c ∷ admission)
first_match [] [] (c ∷ quota) all =
    matched
      "This error appears to be quota-related. The following resource quotas may be limiting resources."
      (c ∷ quota)
first_match [] [] [] all = record {
  matches = all;
  confidence = "low";
  explanation =
      "Could not determine the specific cause. Here are all constraints in the namespace that might be relevant.";
}

unfoldable pub match_error_to_constraints : String → List Constraint → Matched
match_error_to_constraints error_message cs =
    let message = to_lower error_message in
    first_match (match_patterns network_patterns message is_network cs)
      (match_patterns admission_patterns message is_admission cs)
      (match_patterns quota_patterns message is_quota cs) cs
