-- ===== src/Dedupe/Cleanup.antt =====
-- The cleanup routine changes no decision: it forgets only keys whose window is over.
use nightjar.Prelude.{
  ℕ, ◌+◌, ◌≤◌, ◌≡◌, refl, not, Option, none, some, List, [], ◌∷◌, ltb, Comparable, arith,
}
use nightjar.Prelude.Dict.{Dict, HasDistinctKeys, lookup, lookup-insert, lookup-retain}
use nightjar.Dedupe.{Call, marks, cleans, try_mark_seen, cleanup, run}
use nightjar.Dedupe.Spacing.{IsTimely, mark-HasDistinctKeys, cleanup-HasDistinctKeys}

-- The same calls, without the cleanups.
abbrev pub marks_only : {K : Type 0} → List (ℕ × Call K) → List (ℕ × Call K)
marks_only [] = []
marks_only ((now, marks k) ∷ calls) = (now, marks k) ∷ marks_only calls
marks_only ((now, cleans) ∷ calls) = marks_only calls

-- A cleaned cache against one that was never cleaned: an entry is missing only after its window.
abbrev Near : ℕ → ℕ → Option ℕ → Option ℕ → Type 0
Near window low none none = Unit {0}
Near window low none (some s) = s + window ≤ low
Near window low (some s) none = ⊥
Near window low (some s) (some s') = s ≡ s'

Near-later :
    (window low now : ℕ) (a b : Option ℕ) → low ≤ now → Near window low a b → Near window now a b
Near-later window low now none none h n = tt
Near-later window low now none (some s) h n = omega arith
Near-later window low now (some s) none h n = absurd n
Near-later window low now (some s) (some s') h n = n

module _ {K : Type 0} ⦃e : Comparable K⦄ (window : ℕ) where
  abbrev NearAt : ℕ → Dict K ℕ → Dict K ℕ → Type 0
  NearAt low c d = (k : K) → Near window low (lookup k c) (lookup k d)

  mark_same :
      (low now : ℕ) (j : K) (c d : Dict K ℕ)
      → low ≤ now
      → NearAt low c d
      → (try_mark_seen window now j c).1 ≡ (try_mark_seen window now j d).1
  unfolding try_mark_seen
  mark_same low now j c d h n = ground (arith, n j)

  mark-Near :
      (low now : ℕ) (j : K) (c d : Dict K ℕ)
      → low ≤ now
      → NearAt low c d
      → NearAt now (try_mark_seen window now j c).0 (try_mark_seen window now j d).0
  unfolding try_mark_seen
  mark-Near low now j c d h n k = ground (
    arith,
    n j,
    n k,
    Near-later window low now (lookup k c) (lookup k d) h (n k),
    lookup-insert j k now c,
    lookup-insert j k now d,
    e.same_iff j k,
  )

  cleanup-Near :
      (low now : ℕ) (c d : Dict K ℕ)
      → HasDistinctKeys c
      → low ≤ now
      → NearAt low c d
      → NearAt now (cleanup window now c) d
  unfolding cleanup
  cleanup-Near low now c d distinct h n k =
      ground
        (arith, n k, lookup-retain (λ _ seen_at. not (ltb (seen_at + window) now)) k c distinct)

  run_same :
      (low : ℕ) (calls : List (ℕ × Call K)) (c d : Dict K ℕ)
      → HasDistinctKeys c
      → IsTimely low calls
      → NearAt low c d
      → run window calls c ≡ run window (marks_only calls) d
  unfolding run
  run_same low [] c d distinct timely n = refl
  run_same low ((now, marks j) ∷ calls) c d distinct (h, timely) n =
      let rest =
        run_same now calls (try_mark_seen window now j c).0 (try_mark_seen window now j d).0
          (mark-HasDistinctKeys window now j c distinct) timely (mark-Near low now j c d h n) in
      ground (arith, mark_same low now j c d h n, rest)
  run_same low ((now, cleans) ∷ calls) c d distinct (h, timely) n =
      run_same now calls (cleanup window now c) d (cleanup-HasDistinctKeys window now c distinct)
        timely (cleanup-Near low now c d distinct h n)

  -- In any history in order of time, from an empty cache, the calls with the cleanups accept the
  -- same keys at the same times as the calls without them.
  pub run-marks_only :
      (calls : List (ℕ × Call K))
      → IsTimely 0 calls
      → run window calls [] ≡ run window (marks_only calls) []
  run-marks_only calls timely = run_same 0 calls [] [] tt timely (λ k. unfold lookup in tt)
