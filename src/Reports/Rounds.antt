-- ===== src/Reports/Rounds.antt =====
-- internal/notifier/report_reconciler.go: what a round does with a due namespace.
use nightjar.Prelude.{
  ℕ, String, ◌≡◌, ◌≢◌, ◌⊎◌, inl, inr, refl, Bool, true, false, Option, none, some, List, string_eq,
  Any, Option-cases,
}
use nightjar.Prelude.Dict.{lookup}
use nightjar.Prelude.Sorting.{Sorting}
use nightjar.Types.{Constraint, DetailLevel, GroupVersionResource}
use nightjar.Indexer.{Indexer}
use nightjar.Notifier.Steps.{RemediationBuilder}
use nightjar.Requirements.Context.{Listing}
use nightjar.Requirements.Evaluator.{Evaluator}
use nightjar.Reports.Reconciler.{
  ReportClient, ReportReconciler, Reconciled, error_of, reconcile_namespace, is_debounced,
  reconcile_trigger, process_triggers,
}

module _ (sorting : Sorting) (rb : RemediationBuilder) (level : DetailLevel)
    (list : Option (GroupVersionResource → String → Listing)) (observed : Constraint → ℕ)
    (idx : Indexer) (client : ReportClient) (debounce : ℕ) (checked now done : String → ℕ) where
  abbrev reconciles : String → Option Evaluator → Reconciled
  reconciles ns e = (reconcile_namespace sorting rb level list observed idx client (now ns) ns e).1

  abbrev loop : List String → ReportReconciler → ReportReconciler × List (String × Reconciled)
  loop = process_triggers sorting rb level list observed idx client debounce checked now done

  abbrev pub one : String → ReportReconciler → ReportReconciler × Reconciled
  one = reconcile_trigger sorting rb level list observed idx client debounce checked now done

  abbrev waits : String → Option ℕ → Bool
  waits ns last = is_debounced debounce (checked ns) last

  -- A due namespace, whose last report is of the time `last`, waits for its debounce and stays due;
  -- or its report is written, and the time of the write is recorded; or the attempt fails, and
  -- the namespace is not due any more.
  abbrev pub Settled : String → Option ℕ → ReportReconciler → List (String × Reconciled) → Type 0
  Settled ns last after results =
      ((waits ns last ≡ true)
        × (lookup ns after.pending_triggers ≡ some true)
        × (lookup ns after.last_reconcile ≡ last))
      ⊎ ((waits ns last ≡ false)
          × ((e : Option Evaluator) × Any (λ r. r ≡ (ns, reconciles ns e)) results
              × (((error_of (reconciles ns e) ≡ none)
                    × (lookup ns after.last_reconcile ≡ some (done ns)))
                  ⊎ ((error_of (reconciles ns e) ≢ none)
                      × (lookup ns after.pending_triggers ≡ none)
                      × (lookup ns after.last_reconcile ≡ last)))))

  -- A reconciled namespace changes its own time only.
  pub one-pending :
      (n : String) (rr : ReportReconciler) → (one n rr).0.pending_triggers ≡ rr.pending_triggers
  unfolding reconcile_trigger
  one-pending n rr = elim (Option-cases (error_of (reconciles n rr.evaluator))) [
    | inl e ↦ rw (e, reconcile_trigger) refl
    | inr (err, e) ↦ rw (e, reconcile_trigger) refl
  ]

  -- What an attempt leaves of the namespace itself.
  abbrev Attempted : String → ReportReconciler → Option ℕ → Option Bool → Type 0
  Attempted ns rr last pending =
      ((error_of (reconciles ns rr.evaluator) ≡ none) × (last ≡ some (done ns)))
      ⊎ ((error_of (reconciles ns rr.evaluator) ≢ none)
          × (pending ≡ none)
          × (last ≡ lookup ns rr.last_reconcile))
