-- ===== src/Reports/Reconciler.antt =====
-- internal/notifier/report_reconciler.go: which namespaces are due, and the writing of their
-- reports. The client of the cluster is a parameter: what a Get answers, and the error of a Create
-- or a status Update. A round processes each namespace at most once, so the clock's readings are
-- functions of the namespace; `range` visits the map in the order of its list. A namespace that is
-- absent from `lastReconcile` has the zero time, which is long past.
use nightjar.Prelude.{
  ℕ, ◌+◌, String, Bool, true, false, Option, none, some, List, [], ◌∷◌, ◌++◌, if◌then◌else◌, ◌==◌,
  string_eq, ltb,
}
use nightjar.Prelude.Dict.{Dict, lookup, insert, keys}
use nightjar.Prelude.Sorting.{Sorting}
use nightjar.Types.{Constraint, DetailLevel, GroupVersionResource}
use nightjar.Indexer.{Indexer, IndexEvent, by_namespace}
use nightjar.Notifier.Steps.{RemediationBuilder}
use nightjar.Requirements.Context.{Listing}
use nightjar.Requirements.Evaluator.{Evaluator}
use nightjar.Reports.Status.{
  ConstraintReportStatus, evaluate_missing_resources, build_report_status,
}

-- The answer of a Get: the resource version of the report, which may be empty.
pub data Fetched : Type 0 where
  get_failed : String → Fetched
  not_found : Fetched
  fetched : String → Fetched

pub record ReportClient : Type 0 where
  pub get : String → Fetched
  pub create : String → ConstraintReportStatus → Option String
  pub update_status : String → ConstraintReportStatus → Option String

-- The listing of all namespaces
pub data Names : Type 0 where
  names_failed : String → Names
  names : List String → Names

pub record ReportReconciler : Type 0 where
  pub evaluator : Option Evaluator
  pub last_reconcile : Dict String ℕ
  pub pending_triggers : Dict String Bool
  pub cluster_wide_triggered : Bool

unfoldable pub new_report_reconciler : Option Evaluator → ReportReconciler
new_report_reconciler evaluator = record {
  evaluator = evaluator;
  last_reconcile = [];
  pending_triggers = [];
  cluster_wide_triggered = false;
}

-- `for _, ns := range namespaces { triggers[ns] = true }`
unfoldable pub trigger_all : List String → Dict String Bool → Dict String Bool
trigger_all [] triggers = triggers
trigger_all (ns ∷ nss) triggers = trigger_all nss (insert ns true triggers)

abbrev pub event_namespaces : Constraint → List String
event_namespaces c = c.affected_namespaces ++ (if c.namespace == "" then [] else c.namespace ∷ [])

-- Without a namespace all of them are due.
unfoldable pub mark_due : List String → ReportReconciler → ReportReconciler
mark_due [] rr = record rr { cluster_wide_triggered = true }
mark_due (ns ∷ nss) rr = record rr {
  pending_triggers = trigger_all nss (insert ns true rr.pending_triggers);
}

unfoldable pub on_index_change : IndexEvent → ReportReconciler → ReportReconciler
on_index_change event rr = mark_due (event_namespaces event.constraint) rr

-- What `ReconcileNamespace` does: the error of the Get, or a write and its error.
pub data Reconciled : Type 0 where
  unread : String → Reconciled
  created : ConstraintReportStatus → Option String → Reconciled
  updated : ConstraintReportStatus → Option String → Reconciled

unfoldable pub error_of : Reconciled → Option String
error_of (unread err) = some err
error_of (created status err) = err
error_of (updated status err) = err

-- `time.Since(lastReconcile) < DebounceDuration`
abbrev pub is_debounced : ℕ → ℕ → Option ℕ → Bool
is_debounced debounce checked none = false
is_debounced debounce checked (some last) = ltb checked (last + debounce)

-- The first loop of a round: a failed listing is logged.
abbrev pub cluster_triggers : Bool → Option Names → Dict String Bool → Dict String Bool
cluster_triggers false listed triggers = triggers
cluster_triggers true none triggers = triggers
cluster_triggers true (some (names_failed err)) triggers = triggers
cluster_triggers true (some (names nss)) triggers = trigger_all nss triggers

module _ (sorting : Sorting) (rb : RemediationBuilder) (level : DetailLevel)
    (list : Option (GroupVersionResource → String → Listing)) (observed : Constraint → ℕ)
    (idx : Indexer) (client : ReportClient) where
  -- `now` is the clock's reading for the status and for the evaluation of the workloads.
  unfoldable pub reconcile_namespace : ℕ → String → Option Evaluator → Option Evaluator × Reconciled
  reconcile_namespace now namespace evaluator =
      let (evaluator', missing) = evaluate_missing_resources rb now list namespace evaluator in
      let status =
        build_report_status sorting rb level now observed (by_namespace idx namespace) namespace
          missing in
      elim (client.get namespace) [
        | get_failed err ↦ (evaluator, unread err)
        | not_found ↦ (evaluator', created status (client.create namespace status))
        | fetched version ↦
            if version == ""
            then (evaluator', created status (client.create namespace status))
            else (evaluator', updated status (client.update_status namespace status))
      ]

  -- The readings of the clock in a round: at the test, at the status, and after a success.
  module _ (debounce : ℕ) (checked now done : String → ℕ) where
    -- One namespace that is not debounced.
    unfoldable pub reconcile_trigger : String → ReportReconciler → ReportReconciler × Reconciled
    reconcile_trigger ns rr =
        let (evaluator, result) = reconcile_namespace (now ns) ns rr.evaluator in
        elim (error_of result) [
          | some err ↦ (record rr { evaluator = evaluator }, result)
          | none ↦ (
            record rr {
              evaluator = evaluator;
              last_reconcile = insert ns (done ns) rr.last_reconcile;
            },
            result,
          )
        ]

    -- The loop over the triggers.
    unfoldable pub process_triggers :
        List String → ReportReconciler → ReportReconciler × List (String × Reconciled)
    process_triggers [] rr = (rr, [])
    process_triggers (ns ∷ nss) rr =
        elim (is_debounced debounce (checked ns) (lookup ns rr.last_reconcile)) [
          | true ↦
              process_triggers nss
                (record rr { pending_triggers = insert ns true rr.pending_triggers })
          | false ↦
              let (rr', result) = reconcile_trigger ns rr in
              let (last, results) = process_triggers nss rr' in (last, (ns, result) ∷ results)
        ]

    -- `listed` is what the listing of the namespaces answers, or none without a dynamic client.
    unfoldable pub process_pending_triggers :
        Option Names → ReportReconciler → ReportReconciler × List (String × Reconciled)
    process_pending_triggers listed rr =
        process_triggers
          (keys (cluster_triggers rr.cluster_wide_triggered listed rr.pending_triggers))
          (record rr { pending_triggers = []; cluster_wide_triggered = false })
