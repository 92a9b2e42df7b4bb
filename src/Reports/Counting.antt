-- ===== src/Reports/Counting.antt =====
-- What a report's status says: its counters against its entries, and what its entries tell of a
-- constraint of another namespace.
use nightjar.Prelude.{
  ℕ, String, ◌≡◌, ◌≢◌, refl, sym, ap, ◌∙◌, true, List, [], ◌∷◌, ◌==◌, string_eq, arith, map, length,
  keep, length-map,
}
use mathlib.Core.List.{Perm}
use nightjar.Prelude.Sorting.{Sorting, IsSorting, IsOrdered, length-keep-perm, length-perm}
use nightjar.Types.{Constraint, DetailLevel, severity_critical, severity_warning, severity_info}
use nightjar.Notifier.Steps.{RemediationBuilder}
use nightjar.Reports.Entries.{
  ConstraintEntry, MachineConstraintEntry, MissingResourceEntry, severity_order, is_hidden,
  scoped_name, scoped_message, constraint_entry, build_machine_entry,
}
use nightjar.Reports.Status.{ConstraintReportStatus, count_severity, build_report_status}

abbrev pub entries_of : String → List ConstraintEntry → ℕ
entries_of severity entries = length (keep (λ e. e.severity == severity) entries)

abbrev pub machine_entries_of : String → List MachineConstraintEntry → ℕ
machine_entries_of severity entries = length (keep (λ e. e.severity == severity) entries)

-- The counter of a severity is the number of entries with it, in both lists.
abbrev pub Counts : String → ℕ → ConstraintReportStatus → Type 0
Counts severity n status =
    (n ≡ entries_of severity status.constraints)
    × (n ≡ machine_entries_of severity status.machine_readable.constraints)

-- A status over the entries of the constraints, human-readable and machine-readable.
abbrev pub IsFaithful :
    List ConstraintEntry → List MachineConstraintEntry → ConstraintReportStatus → Type 0
IsFaithful entries machine_entries status =
    (Counts severity_critical status.critical_count status
      × Counts severity_warning status.warning_count status
      × Counts severity_info status.info_count status)
    × (status.constraint_count ≡ length status.constraints)
    × (status.constraint_count ≡ length status.machine_readable.constraints)
    × Perm status.constraints entries
    × Perm status.machine_readable.constraints machine_entries
    × IsOrdered (λ e. severity_order e.severity) status.constraints
    × IsOrdered (λ e. severity_order e.severity) status.machine_readable.constraints

module _ {A : Type 0} (severity_of : A → String) (entry : Constraint → A)
    (same : (c : Constraint) → severity_of (entry c) ≡ c.severity) (severity : String) where
  -- An entry has the severity of its constraint.
  count_severity_lem :
      (cs : List Constraint)
      → length (keep (λ e. severity_of e == severity) (map entry cs)) ≡ count_severity severity cs
  unfolding count_severity keep
  count_severity_lem [] = refl
  count_severity_lem (c ∷ cs) = ground (arith, count_severity_lem cs, same c)

module _ (sorting : Sorting) (sorts : IsSorting sorting) (rb : RemediationBuilder)
    (level : DetailLevel) (now : ℕ) (observed : Constraint → ℕ) (cs : List Constraint)
    (namespace : String) (missing : List MissingResourceEntry) where
  abbrev status : ConstraintReportStatus
  status = build_report_status sorting rb level now observed cs namespace missing

  abbrev machine : Constraint → MachineConstraintEntry
  machine c = build_machine_entry level rb (observed c) c namespace

  build_report_status-Counts :
      (severity : String) → Counts severity (count_severity severity cs) status
  unfolding build_report_status constraint_entry build_machine_entry
  build_report_status-Counts severity = (
    sym (
        length-keep-perm (λ e. e.severity == severity)
          (sorts.slice_perm ConstraintEntry (λ e. severity_order e.severity)
            (map (constraint_entry level now namespace) cs))
        ∙ count_severity_lem (λ e. e.severity) (constraint_entry level now namespace) (λ c. refl)
            severity cs),
    sym (
        length-keep-perm (λ e. e.severity == severity)
          (sorts.slice_perm MachineConstraintEntry (λ e. severity_order e.severity)
            (map machine cs))
        ∙ count_severity_lem (λ e. e.severity) machine (λ c. refl) severity cs),
  )

  -- The three counters are the numbers of entries with the severity, in both lists; the total is the
  -- length of both; both lists rearrange the entries of the constraints, and stand in the order
  -- Critical, Warning, Info, others.
  pub build_report_status_lem :
      IsFaithful
        (map (constraint_entry level now namespace) cs)
        (map machine cs)
        (build_report_status sorting rb level now observed cs namespace missing)
  unfolding build_report_status
  build_report_status_lem =
      let human =
        sorts.slice_perm ConstraintEntry (λ e. severity_order e.severity)
          (map (constraint_entry level now namespace) cs) in
      let read =
        sorts.slice_perm MachineConstraintEntry (λ e. severity_order e.severity) (map machine cs) in
      (
        (
          build_report_status-Counts severity_critical,
          build_report_status-Counts severity_warning,
          build_report_status-Counts severity_info,
        ),
        sym (length-perm human ∙ length-map (constraint_entry level now namespace) cs),
        sym (length-perm read ∙ length-map machine cs),
        human,
        read,
        sorts.slice_ordered ConstraintEntry (λ e. severity_order e.severity)
            (map (constraint_entry level now namespace) cs),
        sorts.slice_ordered MachineConstraintEntry (λ e. severity_order e.severity)
            (map machine cs),
      )

-- At summary level, two constraints of other namespaces with one type, severity and source resource
-- have equal human-readable entries, whatever their names, summaries and details; but their
-- machine-readable entries differ when their names do.
pub build_machine_entry_leak :
    (level : DetailLevel) (rb : RemediationBuilder) (now : ℕ) (viewer : String) (c d : Constraint)
    → is_hidden level c viewer ≡ true
    → is_hidden level d viewer ≡ true
    → c.constraint_type ≡ d.constraint_type
    → c.severity ≡ d.severity
    → c.source ≡ d.source
    → c.name ≢ d.name
    → (constraint_entry level now viewer c ≡ constraint_entry level now viewer d)
      × (build_machine_entry level rb now c viewer ≢ build_machine_entry level rb now d viewer)
unfolding constraint_entry build_machine_entry scoped_name scoped_message
build_machine_entry_leak level rb now viewer c d hc hd type severity source differ =
    (rw (hc, hd, type, severity, source) refl, λ same. differ (ap (λ e. e.source_ref.name) same))
