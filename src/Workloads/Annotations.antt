-- ===== src/Workloads/Annotations.antt =====
-- internal/notifier/workload_annotator.go and internal/annotations: the annotations of a workload.
-- A patch is the map of the annotations; `none` is the JSON null, which removes one. json.Marshal of
-- the summaries and the clock in RFC 3339 are parameters; the error of json.Marshal is ignored.
use nightjar.Prelude.{
  ℕ, suc, String, Option, none, some, List, [], ◌∷◌, ◌++◌, if◌then◌else◌, ◌==◌, string_eq, map,
  length, nat_eqb, decimal, concat, ltb,
}
use nightjar.Prelude.Dict.{Dict}
use nightjar.Types.{
  Constraint, GroupVersionResource, severity_critical, severity_warning, severity_info,
}

abbrev pub workload_status : String
workload_status = "nightjar.io/status"

abbrev pub workload_constraints : String
workload_constraints = "nightjar.io/constraints"

abbrev pub workload_max_severity : String
workload_max_severity = "nightjar.io/max-severity"

abbrev pub workload_critical_count : String
workload_critical_count = "nightjar.io/critical-count"

abbrev pub workload_warning_count : String
workload_warning_count = "nightjar.io/warning-count"

abbrev pub workload_info_count : String
workload_info_count = "nightjar.io/info-count"

abbrev pub workload_last_evaluated : String
workload_last_evaluated = "nightjar.io/last-evaluated"

pub record ConstraintSummary : Type 0 where
  pub type : String
  pub severity : String
  pub name : String
  pub source : String

-- The variables of the loop over the constraints
pub record SeverityCounts : Type 0 where
  pub critical_count : ℕ
  pub warning_count : ℕ
  pub info_count : ℕ
  pub max_severity : String

abbrev pub no_counts : SeverityCounts
no_counts = record { critical_count = 0; warning_count = 0; info_count = 0; max_severity = "none" }

unfoldable pub count_constraint : Constraint → SeverityCounts → SeverityCounts
count_constraint c s =
    if c.severity == severity_critical
    then record s { critical_count = suc s.critical_count; max_severity = "critical" }
    else if c.severity == severity_warning
    then record s {
      warning_count = suc s.warning_count;
      max_severity = if s.max_severity == "critical" then s.max_severity else "warning";
    }
    else if c.severity == severity_info
    then record s {
      info_count = suc s.info_count;
      max_severity = if s.max_severity == "none" then "info" else s.max_severity;
    }
    else s

unfoldable pub count_constraints : List Constraint → SeverityCounts → SeverityCounts
count_constraints [] s = s
count_constraints (c ∷ cs) s = count_constraints cs (count_constraint c s)

unfoldable pub summarize : Constraint → ConstraintSummary
summarize c = record {
  type = c.constraint_type;
  severity = c.severity;
  name = c.name;
  source = c.source.resource;
}

-- The texts with ", " between them
unfoldable pub join_with_comma : List String → String
join_with_comma [] = ""
join_with_comma (part ∷ []) = part
join_with_comma (part ∷ next ∷ parts) = concat (part ∷ ", " ∷ join_with_comma (next ∷ parts) ∷ [])

abbrev pub counted_part : ℕ → String → List String
counted_part n severity = if ltb 0 n then concat (decimal n ∷ " " ∷ severity ∷ []) ∷ [] else []

unfoldable pub build_status_string : ℕ → ℕ → ℕ → String
build_status_string total critical warning =
    if nat_eqb total 0
    then "No constraints"
    else elim (counted_part critical "critical" ++ counted_part warning "warning") [
      | [] ↦ concat (decimal total ∷ " constraints" ∷ [])
      | part ∷ parts ↦
          concat (decimal total ∷ " constraints (" ∷ join_with_comma (part ∷ parts) ∷ ")" ∷ [])
    ]

abbrev pub Patch : Type 0
Patch = Dict String (Option String)

abbrev pub removal : Patch
removal =
    (workload_status, none)
    ∷ (workload_constraints, none)
    ∷ (workload_max_severity, none)
    ∷ (workload_critical_count, none)
    ∷ (workload_warning_count, none)
    ∷ (workload_info_count, none)
    ∷ (workload_last_evaluated, none)
    ∷ []

module _ (marshal : List ConstraintSummary → String) (evaluated : String) where
  unfoldable pub build_annotation_patch : List Constraint → Patch
  build_annotation_patch [] = removal
  build_annotation_patch (c ∷ cs) =
      let counts = count_constraints (c ∷ cs) no_counts in
      (
        workload_status,
        some (build_status_string (length (c ∷ cs)) counts.critical_count counts.warning_count),
      )
      ∷ (workload_constraints, some (marshal (map summarize (c ∷ cs))))
      ∷ (workload_max_severity, some counts.max_severity)
      ∷ (workload_critical_count, some (decimal counts.critical_count))
      ∷ (workload_warning_count, some (decimal counts.warning_count))
      ∷ (workload_info_count, some (decimal counts.info_count))
      ∷ (workload_last_evaluated, some evaluated)
      ∷ []

-- The error is that of an unsupported kind.
unfoldable pub kind_to_gvr : String → Option GroupVersionResource
kind_to_gvr kind =
    if kind == "Deployment"
    then some (record { group = "apps"; version = "v1"; resource = "deployments" })
    else if kind == "StatefulSet"
    then some (record { group = "apps"; version = "v1"; resource = "statefulsets" })
    else if kind == "DaemonSet"
    then some (record { group = "apps"; version = "v1"; resource = "daemonsets" })
    else if kind == "ReplicaSet"
    then some (record { group = "apps"; version = "v1"; resource = "replicasets" })
    else if kind == "Job"
    then some (record { group = "batch"; version = "v1"; resource = "jobs" })
    else if kind == "CronJob"
    then some (record { group = "batch"; version = "v1"; resource = "cronjobs" })
    else if kind == "Pod"
    then some (record { group = ""; version = "v1"; resource = "pods" })
    else none
