-- ===== src/Workloads/Spacing.antt =====
-- internal/notifier/workload_annotator.go: the spacing of the patches of one worker, and the bound of
-- its queue.
use nightjar.Prelude.{
  ℕ, ◌+◌, ◌≤◌, String, ◌≡◌, inl, inr, sym, subst, false, Option, none, some, List, [], ◌∷◌,
  string_eq, arith, All,
}
use nightjar.Prelude.Dict.{lookup, insert, lookup-insert}
use nightjar.Dedupe.Spacing.{IsSpaced, Recent}
use nightjar.Workloads.Annotations.{ConstraintSummary}
use nightjar.Workloads.Annotator.{
  WorkloadKey, workload_key_eq, workload_key_eqb_iff, WorkloadAnnotator, on_index_change, is_recent,
}
use nightjar.Workloads.Queueing.{Quiet, on_index_change-Quiet}
use nightjar.Workloads.Steps.{Step, changes, works, IsOrderly, worked, run, work-Outcome}

module _ (marshal : List ConstraintSummary → String) (debounce : ℕ) where
  -- The record still knows of a patch of the workload at `t` or later.
  abbrev Recorded : WorkloadKey → ℕ → WorkloadAnnotator → Type 0
  Recorded key t wa = Recent t (lookup key wa.last_patch)

  Quiet-Recorded :
      (key : WorkloadKey) (t : ℕ) (wa wa' : WorkloadAnnotator)
      → Quiet wa wa'
      → Recorded key t wa
      → Recorded key t wa'
  Quiet-Recorded key t wa wa' quiet r = subst (λ m. Recent t (lookup key m)) (sym quiet.0) r

  insert-Recorded :
      (key other : WorkloadKey) (t done : ℕ) (wa wa' : WorkloadAnnotator)
      → t ≤ done
      → wa'.last_patch ≡ insert other done wa.last_patch
      → Recorded key t wa
      → Recorded key t wa'
  insert-Recorded key other t done wa wa' h e r =
      rw (e) (ground (arith, lookup-insert other key done wa.last_patch))

  old-Recent :
      (t now : ℕ) (last : Option ℕ)
      → is_recent debounce now last ≡ false
      → Recent t last
      → t + debounce ≤ now
  old-Recent t now none old r = absurd r
  old-Recent t now (some last) old r = ground arith

  -- A workload whose patch is recorded is patched no sooner than a debounce after it.
  old-Recorded :
      (key : WorkloadKey) (t now : ℕ) (wa : WorkloadAnnotator)
      → is_recent debounce now (lookup key wa.last_patch) ≡ false
      → Recorded key t wa
      → t + debounce ≤ now
  old-Recorded key t now wa old r = old-Recent t now (lookup key wa.last_patch) old r

  later-Spaced :
      (key : WorkloadKey) (t low : ℕ) (steps : List Step) (wa : WorkloadAnnotator)
      → t ≤ low
      → IsOrderly low steps
      → Recorded key t wa
      → All (λ p. p.0 ≡ key → t + debounce ≤ p.1) (run marshal debounce steps wa).1
  unfolding run
  later-Spaced key t low [] wa h o r = tt
  later-Spaced key t low (changes now event ∷ steps) wa h (l, o) r =
      later-Spaced key t now steps (on_index_change now event wa) (omega arith) o (
        Quiet-Recorded key t wa (on_index_change now event wa) (on_index_change-Quiet now event wa)
          r)
  later-Spaced key t low (works i ∷ steps) wa h (l, m, o) r =
      let wa' = (worked marshal debounce i wa).0 in
      elim (work-Outcome marshal debounce i wa) [
        | inl (none_patched, quiet) ↦ rw (none_patched) (
            later-Spaced key t i.done steps wa' (omega arith) o
              (Quiet-Recorded key t wa wa' quiet r))
        | inr (other, old, one, last, shorter) ↦ rw (one) (
          λ same.
              let mine = subst (λ k. Recorded k t wa) (sym same) r in
              let gap = old-Recorded other t i.now wa old mine in omega (arith, gap),
          later-Spaced key t i.done steps wa' (omega arith) o
              (insert-Recorded key other t i.done wa wa' (omega arith) last r),
        )
      ]

  -- In any history of one worker, in order of time, two successful patches of one workload are at
  -- least a debounce apart.
  pub patches-IsSpaced :
      (low : ℕ) (steps : List Step) (wa : WorkloadAnnotator)
      → IsOrderly low steps
      → IsSpaced debounce (run marshal debounce steps wa).1
  unfolding run
  patches-IsSpaced low [] wa o = tt
  patches-IsSpaced low (changes now event ∷ steps) wa (l, o) =
      patches-IsSpaced now steps (on_index_change now event wa) o
  patches-IsSpaced low (works i ∷ steps) wa (l, m, o) =
      let wa' = (worked marshal debounce i wa).0 in
      let rest = patches-IsSpaced i.done steps wa' o in
      elim (work-Outcome marshal debounce i wa) [
        | inl (none_patched, quiet) ↦ rw (none_patched) rest
        | inr (key, old, one, last, shorter) ↦
            let found : Recorded key i.done wa' = rw (last) (
              ground (
                arith,
                lookup-insert key key i.done wa.last_patch,
                workload_key_eqb_iff key key,
              )) in
            rw (one) (later-Spaced key i.done i.done steps wa' (omega arith) o found, rest)
      ]
