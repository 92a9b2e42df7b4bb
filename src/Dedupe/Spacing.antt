-- ===== src/Dedupe/Spacing.antt =====
-- A key is accepted at most once in a window.
use nightjar.Prelude.{
  ℕ, ◌+◌, ◌≤◌, ◌<◌, false, ◌≡◌, ◌⊎◌, inl, inr, true, not, Option, none, some, List, [], ◌∷◌, ltb,
  Comparable, arith, All, Bool-cases,
}
use nightjar.Prelude.Dict.{
  Dict, HasDistinctKeys, lookup, lookup-insert, lookup-retain, insert-HasDistinctKeys,
  retain-HasDistinctKeys,
}
use nightjar.Dedupe.{Call, marks, cleans, try_mark_seen, cleanup, run}

-- The times of the calls do not fall, and none is before `low`.
abbrev pub IsTimely : {K : Type 0} → ℕ → List (ℕ × Call K) → Type 0
IsTimely low [] = Unit {0}
IsTimely low ((now, call) ∷ calls) = (low ≤ now) × IsTimely now calls

-- The last acceptance is not before `t`.
abbrev pub Recent : ℕ → Option ℕ → Type 0
Recent t none = ⊥
Recent t (some seen) = t ≤ seen

module _ {K : Type 0} ⦃e : Comparable K⦄ (window : ℕ) where
  -- Two entries with one key are at least a window apart.
  abbrev pub IsSpaced : List (K × ℕ) → Type 0
  IsSpaced [] = Unit {0}
  IsSpaced ((k, t) ∷ log) = All (λ p. p.0 ≡ k → t + window ≤ p.1) log × IsSpaced log

  -- The cache still knows of an acceptance of `k` at `t`, or its window is over at `low`.
  abbrev Guards : K → ℕ → ℕ → Dict K ℕ → Type 0
  Guards k t low cache = Recent t (lookup k cache) ⊎ (t + window ≤ low)

  mark-Guards :
      (k : K) (t low now : ℕ) (j : K) (cache : Dict K ℕ)
      → t ≤ low
      → low ≤ now
      → Guards k t low cache
      → Guards k t now (try_mark_seen window now j cache).0
  unfolding try_mark_seen
  mark-Guards k t low now j cache h l g =
      ground (arith, lookup-insert j k now cache, e.same_iff j k)

  cleanup-Guards :
      (k : K) (t low now : ℕ) (cache : Dict K ℕ)
      → HasDistinctKeys cache
      → low ≤ now
      → Guards k t low cache
      → Guards k t now (cleanup window now cache)
  unfolding cleanup
  cleanup-Guards k t low now cache d l g =
      ground (arith, lookup-retain (λ _ seen_at. not (ltb (seen_at + window) now)) k cache d)

  -- While the key is guarded, its mark is refused before the window is over.
  mark_refused :
      (k : K) (t low now : ℕ) (cache : Dict K ℕ)
      → low ≤ now
      → Guards k t low cache
      → (try_mark_seen window now k cache).1 ≡ true
      → t + window ≤ now
  unfolding try_mark_seen
  mark_refused k t low now cache l g h = ground arith

  pub mark-HasDistinctKeys :
      (now : ℕ) (j : K) (cache : Dict K ℕ)
      → HasDistinctKeys cache
      → HasDistinctKeys (try_mark_seen window now j cache).0
  unfolding try_mark_seen
  mark-HasDistinctKeys now j cache d = ground (arith, insert-HasDistinctKeys j now cache d)

  pub cleanup-HasDistinctKeys :
      (now : ℕ) (cache : Dict K ℕ)
      → HasDistinctKeys cache
      → HasDistinctKeys (cleanup window now cache)
  unfolding cleanup
  cleanup-HasDistinctKeys now cache d =
      retain-HasDistinctKeys (λ _ seen_at. not (ltb (seen_at + window) now)) cache d

  -- An accepted mark is what the cache then holds.
  pub lookup-try_mark_seen :
      (k : K) (now : ℕ) (cache : Dict K ℕ)
      → (try_mark_seen window now k cache).1 ≡ true
      → lookup k (try_mark_seen window now k cache).0 ≡ some now
  unfolding try_mark_seen
  lookup-try_mark_seen k now cache h = ground (arith, lookup-insert k k now cache, e.same_iff k k)

  -- Within the window of a mark the key is refused.
  pub try_mark_seen-refused :
      (k : K) (now marked : ℕ) (cache : Dict K ℕ)
      → lookup k cache ≡ some marked
      → now < marked + window
      → (try_mark_seen window now k cache).1 ≡ false
  unfolding try_mark_seen
  try_mark_seen-refused k now marked cache h soon = ground arith

  mark_guarded :
      (k : K) (now : ℕ) (cache : Dict K ℕ)
      → (try_mark_seen window now k cache).1 ≡ true
      → Guards k now now (try_mark_seen window now k cache).0
  unfolding try_mark_seen
  mark_guarded k now cache h = ground (arith, lookup-insert k k now cache, e.same_iff k k)

  guarded_log :
      (k : K) (t low : ℕ) (calls : List (ℕ × Call K)) (cache : Dict K ℕ)
      → HasDistinctKeys cache
      → t ≤ low
      → IsTimely low calls
      → Guards k t low cache
      → All (λ p. p.0 ≡ k → t + window ≤ p.1) (run window calls cache)
  unfolding run
  guarded_log k t low [] cache d h timely g = tt
  guarded_log k t low ((now, marks j) ∷ calls) cache d h (l, timely) g =
      let cache' = (try_mark_seen window now j cache).0 in
      let rest =
        guarded_log k t now calls cache' (mark-HasDistinctKeys now j cache d) (omega arith) timely
          (mark-Guards k t low now j cache h l g) in
      elim (Bool-cases (try_mark_seen window now j cache).1) [
        | inl fresh ↦
            rw (fresh, run) (λ same. mark_refused k t low now cache l g (rw (← same) fresh), rest)
        | inr stale ↦ rw (stale, run) rest
      ]
  guarded_log k t low ((now, cleans) ∷ calls) cache d h (l, timely) g =
      guarded_log k t now calls (cleanup window now cache) (cleanup-HasDistinctKeys now cache d)
        (omega arith) timely (cleanup-Guards k t low now cache d l g)

  run-IsSpaced_from :
      (low : ℕ) (calls : List (ℕ × Call K)) (cache : Dict K ℕ)
      → HasDistinctKeys cache
      → IsTimely low calls
      → IsSpaced (run window calls cache)
  unfolding run
  run-IsSpaced_from low [] cache d timely = tt
  run-IsSpaced_from low ((now, marks j) ∷ calls) cache d (l, timely) =
      let cache' = (try_mark_seen window now j cache).0 in
      let d' = mark-HasDistinctKeys now j cache d in
      let rest = run-IsSpaced_from now calls cache' d' timely in
      elim (Bool-cases (try_mark_seen window now j cache).1) [
        | inl fresh ↦
            rw (fresh, run)
              (
                guarded_log j now now calls cache' d' (omega arith) timely
                    (mark_guarded j now cache fresh),
                rest,
              )
        | inr stale ↦ rw (stale, run) rest
      ]
  run-IsSpaced_from low ((now, cleans) ∷ calls) cache d (l, timely) =
      run-IsSpaced_from now calls (cleanup window now cache) (cleanup-HasDistinctKeys now cache d)
        timely

  -- In any history of marks and cleanups in order of time, from an empty cache, two acceptances
  -- of one key are at least a window apart.
  pub run-IsSpaced : (calls : List (ℕ × Call K)) → IsTimely 0 calls → IsSpaced (run window calls [])
  run-IsSpaced calls timely = run-IsSpaced_from 0 calls [] tt timely
