-- ===== src/Mcp/Summaries.antt =====
-- internal/mcp/handlers.go: what the summary of a namespace counts, and which constraints it sees.
use nightjar.Prelude.{
  suc, ◌+◌, String, ◌≡◌, ◌↔◌, ◌⊎◌, refl, ◌∙◌, sym, subst, true, false, List, [], ◌∷◌, ◌++◌,
  if◌then◌else◌, ◌==◌, string_eq, arith, any, length, ◌∈◌, mem-append, eq_iff,
}
use nightjar.Prelude.Dict.{Dict, lookup, lookup-insert}
use nightjar.Types.{Constraint, severity_critical, severity_warning, severity_info}
use nightjar.Reports.Status.{count_severity}
use nightjar.Reports.Triggers.{listed_in}
use nightjar.Mcp.Namespaces.{
  NamespaceSummary, or_empty, append_to, namespaces_of, append_all, group_constraints,
  unique_by_uid, count_one, count_all, namespace_summary,
}

-- A constraint adds one to the counter of its severity.
count_one-counts :
    (c : Constraint) (top : String) (s : NamespaceSummary)
    → let r = (count_one c top s).1 in
      (r.critical_count ≡ s.critical_count + (if c.severity == severity_critical then 1 else 0))
      × (r.warning_count ≡ s.warning_count + (if c.severity == severity_warning then 1 else 0))
      × (r.info_count ≡ s.info_count + (if c.severity == severity_info then 1 else 0))
      × (r.total ≡ s.total)
unfolding count_one
count_one-counts c top s = ground (
  arith,
  eq_iff c.severity "Critical",
  eq_iff c.severity "Warning",
  eq_iff c.severity "Info",
  eq_iff "Critical" "Warning",
  eq_iff "Critical" "Info",
  eq_iff "Warning" "Info",
)

-- The loop adds the numbers of constraints with each severity.
count_all-counts :
    (cs : List Constraint) (top : String) (s : NamespaceSummary)
    → let r = count_all cs top s in
      (r.critical_count ≡ s.critical_count + count_severity severity_critical cs)
      × (r.warning_count ≡ s.warning_count + count_severity severity_warning cs)
      × (r.info_count ≡ s.info_count + count_severity severity_info cs)
      × (r.total ≡ s.total)
unfolding count_all count_severity
count_all-counts [] top s = (omega arith, omega arith, omega arith, refl)
count_all-counts (c ∷ cs) top s =
    let one = count_one-counts c top s in
    let rest = count_all-counts cs (count_one c top s).0 (count_one c top s).1 in
    (
      omega (arith, one.0, rest.0),
      omega (arith, one.1, rest.1),
      omega (arith, one.2, rest.2),
      rest.3 ∙ one.3,
    )

-- Each UID once.
abbrev pub HasUniqueUids : List Constraint → Type 0
HasUniqueUids [] = Unit {0}
HasUniqueUids (c ∷ cs) = (any (λ d. d.uid == c.uid) cs ≡ false) × HasUniqueUids cs

unique-absent :
    (uid : String) (seen : List String) (cs : List Constraint)
    → listed_in uid seen ≡ true
    → any (λ d. d.uid == uid) (unique_by_uid seen cs) ≡ false
unfolding unique_by_uid any
unique-absent uid seen [] h = refl
unique-absent uid seen (c ∷ cs) h = ground (
  arith,
  eq_iff uid c.uid,
  eq_iff c.uid uid,
  unique-absent uid seen cs,
  unique-absent uid (c.uid ∷ seen) cs,
)

unique_by_uid-HasUniqueUids :
    (seen : List String) (cs : List Constraint) → HasUniqueUids (unique_by_uid seen cs)
unfolding unique_by_uid any
unique_by_uid-HasUniqueUids seen [] = tt
unique_by_uid-HasUniqueUids seen (c ∷ cs) = ground (
  arith,
  eq_iff c.uid c.uid,
  unique_by_uid-HasUniqueUids seen cs,
  unique_by_uid-HasUniqueUids (c.uid ∷ seen) cs,
  unique-absent c.uid (c.uid ∷ seen) cs,
)

-- The summary counts each UID once: its total is the number of constraints that are left, and its
-- counters are those of the severities among them.
pub namespace_summary_lem :
    (ns : String) (cs : List Constraint)
    → let s = namespace_summary ns cs in
      let unique = unique_by_uid [] cs in
      HasUniqueUids unique
      × (s.total ≡ length unique)
      × (s.critical_count ≡ count_severity severity_critical unique)
      × (s.warning_count ≡ count_severity severity_warning unique)
      × (s.info_count ≡ count_severity severity_info unique)
unfolding namespace_summary
namespace_summary_lem ns cs =
    let unique = unique_by_uid [] cs in
    let start : NamespaceSummary = record {
      namespace = ns;
      total = length unique;
      critical_count = 0;
      warning_count = 0;
      info_count = 0;
      top_constraint = "";
    } in
    let counted = count_all-counts unique "" start in
    (
      unique_by_uid-HasUniqueUids [] cs,
      counted.3,
      omega (arith, counted.0),
      omega (arith, counted.1),
      omega (arith, counted.2),
    )

-- A severity that stays on top
abbrev IsTop : String → Type 0
IsTop top = (top ≡ severity_warning) ⊎ (top ≡ severity_critical)

count_one-top :
    (c : Constraint) (top : String) (s : NamespaceSummary)
    → IsTop top
    → ((count_one c top s).0 ≡ top) × ((count_one c top s).1.top_constraint ≡ s.top_constraint)
unfolding count_one
count_one-top c top s h = ground (
  arith,
  eq_iff top "",
  eq_iff top "Info",
  eq_iff "Warning" "",
  eq_iff "Critical" "",
  eq_iff "Critical" "Info",
  eq_iff "Warning" "Info",
)

count_all-top :
    (cs : List Constraint) (top : String) (s : NamespaceSummary)
    → IsTop top
    → (count_all cs top s).top_constraint ≡ s.top_constraint
unfolding count_all
count_all-top [] top s h = refl
count_all-top (c ∷ cs) top s h =
    let one = count_one-top c top s h in
    count_all-top cs (count_one c top s).0 (count_one c top s).1 (subst IsTop (sym one.0) h) ∙ one.1

count_one-first :
    (c : Constraint) (s : NamespaceSummary)
    → IsTop c.severity
    → ((count_one c "" s).0 ≡ c.severity) × ((count_one c "" s).1.top_constraint ≡ c.name)
unfolding count_one
count_one-first c s h =
    ground (
      arith,
      eq_iff c.severity "Critical",
      eq_iff c.severity "Warning",
      eq_iff "Critical" "Warning",
    )

-- A first constraint with severity Warning or Critical is the top constraint, whatever follows: a
-- warning stays on top of every critical constraint after it.
pub namespace_summary-top :
    (ns : String) (c : Constraint) (cs : List Constraint)
    → (c.severity ≡ severity_warning) ⊎ (c.severity ≡ severity_critical)
    → (namespace_summary ns (c ∷ cs)).top_constraint ≡ c.name
unfolding namespace_summary unique_by_uid any count_all
namespace_summary-top ns c cs h =
    let rest = unique_by_uid (c.uid ∷ []) cs in
    let start : NamespaceSummary = record {
      namespace = ns;
      total = suc (length rest);
      critical_count = 0;
      warning_count = 0;
      info_count = 0;
      top_constraint = "";
    } in
    let one = count_one-first c start h in
    count_all-top rest (count_one c "" start).0 (count_one c "" start).1 (subst IsTop (sym one.0) h)
    ∙ one.1

-- What a namespace's group holds: what was there, and the constraints that are put under it.
module _ (x : Constraint) (ns : String) where
  abbrev Grouped : Dict String (List Constraint) → Type 0
  Grouped m = x ∈ or_empty (lookup ns m)

  mem-append_to :
      (n : String) (c : Constraint) (m : Dict String (List Constraint))
      → Grouped (append_to n c m) ↔ (Grouped m ⊎ (((n == ns) ≡ true) × (x ≡ c)))
  unfolding append_to
  mem-append_to n c m = ground (
    arith,
    lookup-insert n ns (or_empty (lookup n m) ++ (c ∷ [])) m,
    eq_iff n ns,
    mem-append x (or_empty (lookup n m)) (c ∷ []),
  )

  mem-append_all :
      (nss : List String) (c : Constraint) (m : Dict String (List Constraint))
      → Grouped (append_all nss c m) ↔ (Grouped m ⊎ ((listed_in ns nss ≡ true) × (x ≡ c)))
  unfolding append_all any
  mem-append_all [] c m = ground arith
  mem-append_all (n ∷ nss) c m =
      ground (arith, mem-append_to n c m, mem-append_all nss c (append_to n c m))

  mem-group_constraints_from :
      (cs : List Constraint) (m : Dict String (List Constraint))
      → Grouped (group_constraints cs m)
        ↔ (Grouped m ⊎ ((listed_in ns (namespaces_of x) ≡ true) × (x ∈ cs)))
  unfolding group_constraints
  mem-group_constraints_from [] m = ground arith
  mem-group_constraints_from (c ∷ cs) m = ground (
    arith,
    mem-append_all (namespaces_of c) c m,
    mem-group_constraints_from cs (append_all (namespaces_of c) c m),
  )

  -- A constraint is summarised under a namespace exactly when it is in the store, and it is of the
  -- namespace or lists it as affected.
  pub mem-group_constraints :
      (cs : List Constraint)
      → (x ∈ or_empty (lookup ns (group_constraints cs [])))
        ↔ ((listed_in ns (namespaces_of x) ≡ true) × (x ∈ cs))
  mem-group_constraints cs = unfold lookup in ground (arith, mem-group_constraints_from cs [])
