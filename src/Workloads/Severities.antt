-- ===== src/Workloads/Severities.antt =====
-- internal/notifier/workload_annotator.go: what the annotations say of the constraints.
use nightjar.Prelude.{
  ◌+◌, String, ◌≡◌, refl, ◌∙◌, ap, Bool, false, ◌||◌, some, List, [], ◌∷◌, if◌then◌else◌, ◌==◌,
  string_eq, arith, eq_iff, any, decimal,
}
use nightjar.Prelude.Dict.{lookup}
use nightjar.Types.{Constraint, Severity, severity_critical, severity_warning, severity_info}
use nightjar.Reports.Status.{count_severity}
use nightjar.Workloads.Annotations.{
  ConstraintSummary, SeverityCounts, no_counts, count_constraint, count_constraints,
  build_annotation_patch, workload_max_severity, workload_critical_count, workload_warning_count,
  workload_info_count,
}

-- The highest of the severities that occur.
abbrev pub highest : Bool → Bool → Bool → String
highest critical warning info =
    if critical then "critical" else if warning then "warning" else if info then "info" else "none"

abbrev pub occurs : Severity → List Constraint → Bool
occurs severity cs = any (λ c. c.severity == severity) cs

count_constraint-max :
    (c : Constraint) (s : SeverityCounts) (critical warning info : Bool)
    → s.max_severity ≡ highest critical warning info
    → (count_constraint c s).max_severity
      ≡ highest
          (critical || (c.severity == severity_critical))
          (warning || (c.severity == severity_warning))
          (info || (c.severity == severity_info))
unfolding count_constraint
count_constraint-max c s critical warning info h = ground (
  arith,
  eq_iff c.severity "Critical",
  eq_iff c.severity "Warning",
  eq_iff c.severity "Info",
  eq_iff "Critical" "Warning",
  eq_iff "Critical" "Info",
  eq_iff "Warning" "Info",
  eq_iff s.max_severity "critical",
  eq_iff s.max_severity "none",
  eq_iff "critical" "warning",
  eq_iff "critical" "info",
  eq_iff "critical" "none",
  eq_iff "warning" "none",
  eq_iff "info" "none",
)

count_constraint-counts :
    (c : Constraint) (s : SeverityCounts)
    → let r = count_constraint c s in
      (r.critical_count ≡ s.critical_count + (if c.severity == severity_critical then 1 else 0))
      × (r.warning_count ≡ s.warning_count + (if c.severity == severity_warning then 1 else 0))
      × (r.info_count ≡ s.info_count + (if c.severity == severity_info then 1 else 0))
unfolding count_constraint
count_constraint-counts c s = ground (
  arith,
  eq_iff c.severity "Critical",
  eq_iff c.severity "Warning",
  eq_iff c.severity "Info",
  eq_iff "Critical" "Warning",
  eq_iff "Critical" "Info",
  eq_iff "Warning" "Info",
)

or_assoc : (a b c : Bool) → ((a || b) || c) ≡ (a || (b || c))
or_assoc a b c = ground arith

-- The loop keeps the highest severity so far.
count_constraints-max :
    (cs : List Constraint) (s : SeverityCounts) (critical warning info : Bool)
    → s.max_severity ≡ highest critical warning info
    → (count_constraints cs s).max_severity
      ≡ highest
          (critical || occurs severity_critical cs)
          (warning || occurs severity_warning cs)
          (info || occurs severity_info cs)
unfolding count_constraints any
count_constraints-max [] s critical warning info h = ground arith
count_constraints-max (c ∷ cs) s critical warning info h =
    count_constraints-max cs (count_constraint c s) (critical || (c.severity == severity_critical))
      (warning || (c.severity == severity_warning)) (info || (c.severity == severity_info))
      (count_constraint-max c s critical warning info h)
    ∙ ground arith

count_constraints-counts :
    (cs : List Constraint) (s : SeverityCounts)
    → let r = count_constraints cs s in
      (r.critical_count ≡ s.critical_count + count_severity severity_critical cs)
      × (r.warning_count ≡ s.warning_count + count_severity severity_warning cs)
      × (r.info_count ≡ s.info_count + count_severity severity_info cs)
unfolding count_constraints count_severity
count_constraints-counts [] s = (omega arith, omega arith, omega arith)
count_constraints-counts (c ∷ cs) s =
    let one = count_constraint-counts c s in
    let rest = count_constraints-counts cs (count_constraint c s) in
    (omega (arith, one.0, rest.0), omega (arith, one.1, rest.1), omega (arith, one.2, rest.2))

-- The annotations of a workload under some constraints say the highest severity that occurs among
-- them, in whatever order they come, and how many have each severity.
pub build_annotation_patch_lem :
    (marshal : List ConstraintSummary → String) (evaluated : String) (c : Constraint)
    (cs : List Constraint)
    → let patch = build_annotation_patch marshal evaluated (c ∷ cs) in
      (lookup workload_max_severity patch
        ≡ some (
            some (
              highest
                (occurs severity_critical (c ∷ cs))
                (occurs severity_warning (c ∷ cs))
                (occurs severity_info (c ∷ cs)))))
      × (lookup workload_critical_count patch
          ≡ some (some (decimal (count_severity severity_critical (c ∷ cs)))))
      × (lookup workload_warning_count patch
          ≡ some (some (decimal (count_severity severity_warning (c ∷ cs)))))
      × (lookup workload_info_count patch
          ≡ some (some (decimal (count_severity severity_info (c ∷ cs)))))
unfolding build_annotation_patch lookup
build_annotation_patch_lem marshal evaluated c cs =
    let counts = count_constraints-counts (c ∷ cs) no_counts in
    let top = count_constraints-max (c ∷ cs) no_counts false false false refl in
    (
      ap (λ t. some (some t)) top,
      ap (λ n. some (some (decimal n))) (omega (arith, counts.0)),
      ap (λ n. some (some (decimal n))) (omega (arith, counts.1)),
      ap (λ n. some (some (decimal n))) (omega (arith, counts.2)),
    )
