-- ===== src/Reports/Tests.antt =====
-- Witnesses and runs of the reports.
use nightjar.Prelude.{
  ℕ, String, ◌≡◌, refl, true, false, inl, none, [], ◌∷◌, string_eq, eq_iff, map, any,
}
use nightjar.Prelude.Dict.{lookup}
use nightjar.Prelude.Sorting.{insertion, insertion-IsSorting}
use nightjar.Types.{Constraint, zero_constraint, severity_critical, severity_warning}
use nightjar.Indexer.{Indexer, IndexEvent, matches_namespace}
use nightjar.Notifier.Steps.{RemediationBuilder}
use nightjar.Reports.Entries.{constraint_entry, build_machine_entry}
use nightjar.Reports.Status.{build_report_status}
use nightjar.Reports.Counting.{IsFaithful, build_report_status_lem}
use nightjar.Reports.Reconciler.{
  ReportClient, ReportReconciler, not_found, on_index_change, new_report_reconciler,
}
use nightjar.Reports.Triggers.{Triggered, on_index_change-Triggered, on_index_change_missed}
use nightjar.Reports.Histories.{Step, ticks}

abbrev platform : RemediationBuilder
platform = record { default_contact = "your platform team" }

abbrev quota : Constraint
quota = record zero_constraint {
  uid = "q";
  name = "compute";
  namespace = "team-a";
  severity = severity_warning;
}

abbrev policy : Constraint
policy = record zero_constraint {
  uid = "p";
  name = "deny-all";
  affected_namespaces = "team-b" ∷ [];
  severity = severity_critical;
}

abbrev quota_change : IndexEvent
quota_change = record { type = "upsert"; constraint = quota }

abbrev policy_change : IndexEvent
policy_change = record { type = "upsert"; constraint = policy }

-- The warning is listed after the critical constraint.
build_report_status_lem_example :
    IsFaithful
      (map (constraint_entry "summary" 5 "team-a") (quota ∷ policy ∷ []))
      (map (λ c. build_machine_entry "summary" platform 5 c "team-a") (quota ∷ policy ∷ []))
      (build_report_status insertion platform "summary" 5
        (λ c. 5)
        (quota ∷ policy ∷ [])
        "team-a"
        [])
build_report_status_lem_example =
    build_report_status_lem insertion insertion-IsSorting platform "summary" 5 (λ c. 5)
      (quota ∷ policy ∷ []) "team-a" []

on_index_change-Triggered_example :
    Triggered "team-a" (on_index_change quota_change (new_report_reconciler none))
on_index_change-Triggered_example =
    on_index_change-Triggered "team-a" quota_change (new_report_reconciler none)
      (inl (λ e. let named = (eq_iff "team-a" "").1 e in cc)) (unfold matches_namespace in refl)

on_index_change_missed_example :
    (matches_namespace policy "team-a" ≡ true)
    × (lookup "team-a" (on_index_change policy_change (new_report_reconciler none)).pending_triggers
        ≡ lookup "team-a" (new_report_reconciler none).pending_triggers)
    × ((on_index_change policy_change (new_report_reconciler none)).cluster_wide_triggered
        ≡ (new_report_reconciler none).cluster_wide_triggered)
unfolding any
on_index_change_missed_example =
    on_index_change_missed "team-a" policy_change (new_report_reconciler none) refl (λ e. cc) refl

abbrev store : Indexer
store = record { by_uid = ("q", quota) ∷ []; on_change = true }

abbrev cluster : ReportClient
cluster = record {
  get = λ ns. not_found;
  create = λ ns status. none;
  update_status = λ ns status. none;
}

-- The report of team-a was written at 100, and a change came since.
abbrev waiting : ReportReconciler
waiting = record {
  evaluator = none;
  last_reconcile = ("team-a", 100) ∷ [];
  pending_triggers = ("team-a", true) ∷ [];
  cluster_wide_triggered = false;
}

abbrev at : ℕ → String → ℕ
at time ns = time

abbrev round_at : ℕ → Step
round_at time = ticks (record {
  idx = store;
  client = cluster;
  listed = none;
  checked = at time;
  now = at time;
  done = at time;
})
