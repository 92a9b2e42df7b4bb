-- ===== src/Mcp/Namespaces.antt =====
-- internal/mcp/handlers.go: the constraints grouped by namespace, and the summary of a namespace.
-- The entries of a Go map are visited in the order of the list.
use nightjar.Prelude.{
  ℕ, suc, String, Bool, true, ◌||◌, Option, none, some, List, [], ◌∷◌, ◌++◌, if◌then◌else◌, ◌==◌,
  string_eq, any, length,
}
use nightjar.Prelude.Dict.{Dict, lookup, insert, size}
use nightjar.Types.{Constraint, severity_critical, severity_warning, severity_info}

pub record NamespaceSummary : Type 0 where
  pub namespace : String
  pub total : ℕ
  pub critical_count : ℕ
  pub warning_count : ℕ
  pub info_count : ℕ
  pub top_constraint : String

abbrev pub or_empty : Option (List Constraint) → List Constraint
or_empty none = []
or_empty (some cs) = cs

-- `nsMap[ns] = append(nsMap[ns], c)`
unfoldable pub append_to :
    String → Constraint → Dict String (List Constraint) → Dict String (List Constraint)
append_to ns c m = insert ns (or_empty (lookup ns m) ++ (c ∷ [])) m

-- The namespaces under which a constraint is put.
abbrev pub namespaces_of : Constraint → List String
namespaces_of c = c.affected_namespaces ++ (if c.namespace == "" then [] else c.namespace ∷ [])

unfoldable pub append_all :
    List String → Constraint → Dict String (List Constraint) → Dict String (List Constraint)
append_all [] c m = m
append_all (ns ∷ nss) c m = append_all nss c (append_to ns c m)

unfoldable pub group_constraints :
    List Constraint → Dict String (List Constraint) → Dict String (List Constraint)
group_constraints [] m = m
group_constraints (c ∷ cs) m = group_constraints cs (append_all (namespaces_of c) c m)

-- `seen` holds the UIDs so far.
unfoldable pub unique_by_uid : List String → List Constraint → List Constraint
unique_by_uid seen [] = []
unique_by_uid seen (c ∷ cs) =
    let first = c ∷ unique_by_uid (c.uid ∷ seen) cs in
    let again = unique_by_uid seen cs in if any (λ uid. uid == c.uid) seen then again else first

-- The loop's state: `topSeverity` and the summary. Where the severity is none of the three, nothing
-- changes.
unfoldable pub count_one : Constraint → String → NamespaceSummary → String × NamespaceSummary
count_one c top s =
    if c.severity == severity_critical
    then (let counted = record s { critical_count = suc s.critical_count } in
        if top == ""
        then (c.severity, record counted { top_constraint = c.name })
        else (top, counted))
    else if c.severity == severity_warning
    then (let counted = record s { warning_count = suc s.warning_count } in
        if (top == "") || (top == severity_info)
        then (c.severity, record counted { top_constraint = c.name })
        else (top, counted))
    else if c.severity == severity_info
    then (let counted = record s { info_count = suc s.info_count } in
        if top == ""
        then (c.severity, record counted { top_constraint = c.name })
        else (top, counted))
    else (top, s)

unfoldable pub count_all : List Constraint → String → NamespaceSummary → NamespaceSummary
count_all [] top s = s
count_all (c ∷ cs) top s = let (top', s') = count_one c top s in count_all cs top' s'

-- The body of the loop over the namespaces
unfoldable pub namespace_summary : String → List Constraint → NamespaceSummary
namespace_summary ns cs =
    let unique = unique_by_uid [] cs in
    count_all unique "" (record {
      namespace = ns;
      total = length unique;
      critical_count = 0;
      warning_count = 0;
      info_count = 0;
      top_constraint = "";
    })

unfoldable pub summaries_of : Dict String (List Constraint) → List NamespaceSummary
summaries_of [] = []
summaries_of ((ns, cs) ∷ m) = namespace_summary ns cs ∷ summaries_of m

-- The map used as a set of namespaces, and the number of its keys.
unfoldable pub mark_all : List String → Dict String Bool → Dict String Bool
mark_all [] m = m
mark_all (ns ∷ nss) m = mark_all nss (insert ns true m)

unfoldable pub mark_namespaces : List Constraint → Dict String Bool → Dict String Bool
mark_namespaces [] m = m
mark_namespaces (c ∷ cs) m = mark_namespaces cs (mark_all (namespaces_of c) m)

unfoldable pub namespace_count : List Constraint → ℕ
namespace_count cs = size (mark_namespaces cs [])

abbrev pub or_no_count : Option ℕ → ℕ
or_no_count none = 0
or_no_count (some n) = n

-- `typeCount[string(c.ConstraintType)]++`
unfoldable pub count_types : List Constraint → Dict String ℕ → Dict String ℕ
count_types [] m = m
count_types (c ∷ cs) m =
    count_types cs (insert c.constraint_type (suc (or_no_count (lookup c.constraint_type m))) m)
