-- ===== src/Reports/Histories.antt =====
-- internal/notifier/report_reconciler.go: histories of the reconciler. Between two rounds of its
-- ticker any number of changes of the index arrive.
use nightjar.Prelude.{ℕ, String, ◌≡◌, false, Option, none, List, [], ◌∷◌, ◌++◌, Any, string_eq}
use nightjar.Prelude.Sorting.{Sorting}
use nightjar.Types.{Constraint, DetailLevel, GroupVersionResource}
use nightjar.Indexer.{Indexer, IndexEvent}
use nightjar.Notifier.Steps.{RemediationBuilder}
use nightjar.Requirements.Context.{Listing}
use nightjar.Requirements.Evaluator.{Evaluator}
use nightjar.Reports.Reconciler.{
  ReportClient, Names, ReportReconciler, Reconciled, on_index_change, error_of, reconcile_namespace,
  is_debounced, process_pending_triggers,
}

-- What a round meets: the index, the cluster and the clock.
pub record Round : Type 0 where
  pub idx : Indexer
  pub client : ReportClient
  pub listed : Option Names
  pub checked : String → ℕ
  pub now : String → ℕ
  pub done : String → ℕ

pub data Step : Type 0 where
  changes : IndexEvent → Step
  ticks : Round → Step

module _ (sorting : Sorting) (rb : RemediationBuilder) (level : DetailLevel)
    (list : Option (GroupVersionResource → String → Listing)) (observed : Constraint → ℕ)
    (debounce : ℕ) where
  abbrev round : Round → ReportReconciler → ReportReconciler × List (String × Reconciled)
  round r rr =
      process_pending_triggers sorting rb level list observed r.idx r.client debounce r.checked
        r.now r.done r.listed rr

  unfoldable pub run : List Step → ReportReconciler → ReportReconciler × List (String × Reconciled)
  run [] rr = (rr, [])
  run (changes event ∷ steps) rr = run steps (on_index_change event rr)
  run (ticks r ∷ steps) rr =
      let (rr', results) = round r rr in
      let (last, later) = run steps rr' in (last, results ++ later)

  -- No round fails to write the report of the namespace.
  abbrev pub Succeeds : String → Step → Type 0
  Succeeds ns (changes event) = Unit
  Succeeds ns (ticks r) =
      (e : Option Evaluator)
      → error_of
          (reconcile_namespace sorting rb level list observed r.idx r.client (r.now ns) ns e).1
        ≡ none

  -- A round whose debounce of a last report at `last` is over.
  abbrev pub IsReady : String → Option ℕ → Step → Type 0
  IsReady ns last (changes event) = ⊥
  IsReady ns last (ticks r) = is_debounced debounce (r.checked ns) last ≡ false

  abbrev pub IsWritten : String → List (String × Reconciled) → Type 0
  IsWritten ns results = Any (λ r. (r.0 ≡ ns) × (error_of r.1 ≡ none)) results
