-- ===== src/Workloads/Steps.antt =====
-- internal/notifier/workload_annotator.go: histories of one worker. Changes of the index arrive
-- between the updates that the worker processes.
use nightjar.Prelude.{
  ℕ, ◌≤◌, String, ◌≡◌, ◌⊎◌, inl, inr, refl, ap, false, ◌||◌, Option, none, some, List, [], ◌∷◌,
  ◌++◌, ◌==◌, string_eq, arith, length, Bool-cases, List-cases,
}
use nightjar.Prelude.Dict.{lookup, insert}
use nightjar.Indexer.{Indexer, IndexEvent, by_namespace}
use nightjar.Workloads.Annotations.{ConstraintSummary, Patch, build_annotation_patch}
use nightjar.Workloads.Annotator.{
  WorkloadKey, workload_key_eq, PendingUpdate, WorkloadAnnotator, Sent, Cluster,
  cluster_wide_sentinel, on_index_change, is_recent, list_namespace_workloads, queue_workloads,
  apply_patch, record_patch, patch_workload, process_update, work,
}
use nightjar.Workloads.Queueing.{
  Quiet, Quiet-refl, Quiet-trans, queue_listed-Quiet, queue_workloads-Quiet,
  list_namespace_workloads-Quiet,
}

-- What the worker meets when it processes an update.
pub record Instant : Type 0 where
  pub idx : Indexer
  pub cluster : Cluster
  pub evaluated : String
  pub now : ℕ
  pub done : ℕ

pub data Step : Type 0 where
  changes : ℕ → IndexEvent → Step
  works : Instant → Step

-- The workloads of the patches that succeed, at their time.
unfoldable pub patched : ℕ → List Sent → List (WorkloadKey × ℕ)
patched done [] = []
patched done (s ∷ sents) =
    let others = patched done sents in
    elim s.error [ none ↦ (s.key, done) ∷ others | some err ↦ others ]

-- The times of the steps do not fall, and none is before `low`.
abbrev pub IsOrderly : ℕ → List Step → Type 0
IsOrderly low [] = Unit {0}
IsOrderly low (changes now event ∷ steps) = (low ≤ now) × IsOrderly now steps
IsOrderly low (works i ∷ steps) = (low ≤ i.now) × (i.now ≤ i.done) × IsOrderly i.done steps

module _ (marshal : List ConstraintSummary → String) (debounce : ℕ) where
  abbrev pub worked : Instant → WorkloadAnnotator → WorkloadAnnotator × List Sent
  worked i wa = work marshal i.evaluated i.idx i.cluster debounce i.now i.done wa

  -- The successful patches of a history, in order.
  unfoldable pub run : List Step → WorkloadAnnotator → WorkloadAnnotator × List (WorkloadKey × ℕ)
  run [] wa = (wa, [])
  run (changes now event ∷ steps) wa = run steps (on_index_change now event wa)
  run (works i ∷ steps) wa =
      let (wa', sents) = worked i wa in
      let (last, later) = run steps wa' in (last, patched i.done sents ++ later)

  -- A step of the worker patches nothing; or it patches one workload, which was not patched
  -- within the debounce, and records the time.
  abbrev pub Outcome : Instant → WorkloadAnnotator → WorkloadAnnotator × List Sent → Type 0
  Outcome i wa r =
      ((patched i.done r.1 ≡ []) × Quiet wa r.0)
      ⊎ ((key : WorkloadKey) × (is_recent debounce i.now (lookup key wa.last_patch) ≡ false)
          × (patched i.done r.1 ≡ (key, i.done) ∷ [])
          × (r.0.last_patch ≡ insert key i.done wa.last_patch)
          × (length r.0.pending ≤ length wa.pending))

  record_patch-Outcome :
      (i : Instant) (key : WorkloadKey) (patch : Patch) (outcome : Option String)
      (wa : WorkloadAnnotator)
      → is_recent debounce i.now (lookup key wa.last_patch) ≡ false
      → Outcome i wa (record_patch i.done key patch outcome wa)
  unfolding record_patch patched
  record_patch-Outcome i key patch none wa old = inr (key, old, refl, refl, omega arith)
  record_patch-Outcome i key patch (some err) wa old = inl (refl, Quiet-refl wa)

  patch_workload-Outcome :
      (i : Instant) (key : WorkloadKey) (wa : WorkloadAnnotator)
      → Outcome i wa
          (patch_workload marshal i.evaluated i.idx i.cluster debounce i.now i.done key wa)
  unfolding patch_workload
  patch_workload-Outcome i key wa =
      let patch = build_annotation_patch marshal i.evaluated (by_namespace i.idx key.namespace) in
      elim (Bool-cases (is_recent debounce i.now (lookup key wa.last_patch))) [
        | inl e ↦ rw (e, patch_workload) (inl (unfold patched in refl, Quiet-refl wa))
        | inr e ↦
            rw (e, patch_workload)
              (record_patch-Outcome i key patch (apply_patch i.cluster key patch) wa e)
      ]

  process_update-Outcome :
      (i : Instant) (u : PendingUpdate) (wa : WorkloadAnnotator)
      → Outcome i wa (process_update marshal i.evaluated i.idx i.cluster debounce i.now i.done u wa)
  unfolding process_update patched
  process_update-Outcome i u wa = elim (Bool-cases (u.key.namespace == cluster_wide_sentinel)) [
    | inl e ↦ rw (e, process_update) (inl (refl, queue_listed-Quiet i.now i.cluster.namespaces wa))
    | inr e ↦ elim (Bool-cases ((u.key.kind == "") || (u.key.name == ""))) [
      | inl f ↦
          let listing = list_namespace_workloads i.cluster.list i.now u.key.namespace wa in
          rw (e, f, process_update)
            (inl (
              refl,
              Quiet-trans wa listing.0 (queue_workloads debounce i.now listing.1 listing.0)
                  (list_namespace_workloads-Quiet i.cluster.list i.now u.key.namespace wa)
                  (queue_workloads-Quiet debounce i.now listing.1 listing.0),
            ))
      | inr f ↦ rw (e, f, process_update) (patch_workload-Outcome i u.key wa)
    ]
  ]

  -- The queue shrinks before the update is processed.
  after_receive :
      (i : Instant) (u : PendingUpdate) (updates : List PendingUpdate) (wa : WorkloadAnnotator)
      (r : WorkloadAnnotator × List Sent)
      → wa.pending ≡ u ∷ updates
      → Outcome i (record wa { pending = updates }) r
      → Outcome i wa r
  after_receive i u updates wa r e o = elim o [
    | inl (none_patched, quiet) ↦
        let longer = ap (λ (l : List PendingUpdate). length l) e in
        inl (none_patched, (quiet.0, ground (arith, quiet.1, longer)))
    | inr (key, old, one, last, shorter) ↦
        let longer = ap (λ (l : List PendingUpdate). length l) e in
        inr (key, old, one, last, omega (arith, shorter, longer))
  ]

  pub work-Outcome : (i : Instant) (wa : WorkloadAnnotator) → Outcome i wa (worked i wa)
  unfolding work
  work-Outcome i wa = elim (List-cases wa.pending) [
    | inl e ↦
        let empty = ap (λ (l : List PendingUpdate). length l) e in
        rw (e, work) (inl (unfold patched in refl, (refl, inl (omega (arith, empty)))))
    | inr (u, updates, e) ↦
        after_receive i u updates wa (worked i wa) e
          (rw (e, work) (process_update-Outcome i u (record wa { pending = updates })))
  ]
