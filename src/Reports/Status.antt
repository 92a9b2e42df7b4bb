-- ===== src/Reports/Status.antt =====
-- internal/notifier/report_reconciler.go: the status of a report. The section's parameters are the
-- package sort, the builder of remediations, the detail level, and the clock: the reading that the
-- status has, and those of the entries.
use nightjar.Prelude.{
  ℕ, ◌+◌, String, Option, none, some, List, [], ◌∷◌, ◌++◌, if◌then◌else◌, ◌==◌, string_eq, map,
  length,
}
use nightjar.Prelude.Sorting.{Sorting}
use nightjar.Types.{
  Constraint, GroupVersionResource, DetailLevel, severity_critical, severity_warning, severity_info,
}
use nightjar.Util.{Unstructured, unique_strings}
use nightjar.Requirements.Context.{Listing, list_error, listed}
use nightjar.Requirements.Evaluator.{Evaluator, evaluate}
use nightjar.Notifier.Steps.{RemediationBuilder}
use nightjar.Reports.Entries.{
  ConstraintEntry, MachineConstraintEntry, MissingResourceEntry, severity_order, constraint_entry,
  build_machine_entry, constraint_to_missing_resource_entry,
}

pub record MachineReadableReport : Type 0 where
  pub schema_version : String
  pub generated_at : ℕ
  pub detail_level : String
  pub constraints : List MachineConstraintEntry
  pub missing_resources : List MissingResourceEntry
  pub tags : List String

pub record ConstraintReportStatus : Type 0 where
  pub constraint_count : ℕ
  pub critical_count : ℕ
  pub warning_count : ℕ
  pub info_count : ℕ
  pub constraints : List ConstraintEntry
  pub machine_readable : MachineReadableReport
  pub last_updated : ℕ

-- How often the loop meets the severity.
unfoldable pub count_severity : String → List Constraint → ℕ
count_severity severity [] = 0
count_severity severity (c ∷ cs) =
    (if c.severity == severity then 1 else 0) + count_severity severity cs

unfoldable pub all_tags : List Constraint → List String
all_tags [] = []
all_tags (c ∷ cs) = c.tags ++ all_tags cs

abbrev pub workload_gvrs : List GroupVersionResource
workload_gvrs =
    record { group = "apps"; version = "v1"; resource = "deployments" }
    ∷ record { group = "apps"; version = "v1"; resource = "statefulsets" }
    ∷ record { group = "apps"; version = "v1"; resource = "daemonsets" }
    ∷ []

module _ (rb : RemediationBuilder) (now : ℕ) where
  -- The inner loop, over the listed workloads.
  unfoldable pub evaluate_workloads :
      List Unstructured → Evaluator → Evaluator × List MissingResourceEntry
  evaluate_workloads [] e = (e, [])
  evaluate_workloads (w ∷ ws) e =
      let (e', found) = evaluate now (some w) e in
      let (last, others) = evaluate_workloads ws e' in
      (last, map (λ c. constraint_to_missing_resource_entry rb c w) found ++ others)

  -- The loop over the kinds of workloads; `list` lists at most 100 of a kind in the namespace.
  unfoldable pub evaluate_kinds :
      (GroupVersionResource → Listing)
      → List GroupVersionResource
      → Evaluator
      → Evaluator × List MissingResourceEntry
  evaluate_kinds list [] e = (e, [])
  evaluate_kinds list (gvr ∷ gvrs) e = elim (list gvr) [
    | list_error err ↦ evaluate_kinds list gvrs e
    | listed ws ↦
        let (e', found) = evaluate_workloads ws e in
        let (last, others) = evaluate_kinds list gvrs e' in (last, found ++ others)
  ]

  -- Without an evaluator or a client there is nothing to evaluate.
  unfoldable pub evaluate_missing_resources :
      Option (GroupVersionResource → String → Listing)
      → String
      → Option Evaluator
      → Option Evaluator × List MissingResourceEntry
  evaluate_missing_resources client namespace none = (none, [])
  evaluate_missing_resources none namespace (some e) = (some e, [])
  evaluate_missing_resources (some list) namespace (some e) =
      let (e', found) = evaluate_kinds (λ gvr. list gvr namespace) workload_gvrs e in
      (some e', found)

module _ (sorting : Sorting) (rb : RemediationBuilder) (level : DetailLevel) (now : ℕ)
    (observed : Constraint → ℕ) where
  unfoldable pub build_report_status :
      List Constraint → String → List MissingResourceEntry → ConstraintReportStatus
  build_report_status cs namespace missing = record {
    constraint_count = length cs;
    critical_count = count_severity severity_critical cs;
    warning_count = count_severity severity_warning cs;
    info_count = count_severity severity_info cs;
    constraints =
        sorting.slice ConstraintEntry (λ e. severity_order e.severity)
          (map (constraint_entry level now namespace) cs);
    machine_readable = record {
      schema_version = "1";
      generated_at = now;
      detail_level = level;
      constraints =
          sorting.slice MachineConstraintEntry (λ e. severity_order e.severity)
            (map (λ c. build_machine_entry level rb (observed c) c namespace) cs);
      missing_resources = missing;
      tags = sorting.strings (unique_strings (all_tags cs));
    };
    last_updated = now;
  }
