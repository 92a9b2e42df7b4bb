-- ===== src/Dedupe.antt =====
-- The deduplication caches of internal/correlator/correlator.go and internal/notifier/dispatcher.go,
-- which have the same code: `tryMarkSeen` and the body of `cleanupDedupeCache`. A time is a number
-- of nanoseconds. `time.Since(seenAt) < window` is `now < seenAt + window`, and
-- `seenAt.Before(now.Add(-window))` is `seenAt + window < now`: the sums are written out, since a
-- difference of numbers stops at 0. One reading of the clock stands for the two of `tryMarkSeen`.
pub mod Spacing
pub mod Cleanup
mod Tests
use nightjar.Prelude.{
  ℕ, ◌+◌, Bool, true, false, not, none, some, List, [], ◌∷◌, if◌then◌else◌, ltb, Comparable,
}
use nightjar.Prelude.Dict.{Dict, lookup, insert, retain}

module _ {K : Type 0} ⦃e : Comparable K⦄ (window : ℕ) where
  -- The new cache, and whether the key is new.
  unfoldable pub try_mark_seen : ℕ → K → Dict K ℕ → Dict K ℕ × Bool
  try_mark_seen now key cache = elim (lookup key cache) [
    | none ↦ (insert key now cache, true)
    | some seen_at ↦
        if ltb now (seen_at + window) then (cache, false) else (insert key now cache, true)
  ]

  unfoldable pub cleanup : ℕ → Dict K ℕ → Dict K ℕ
  cleanup now cache = retain (λ _ seen_at. not (ltb (seen_at + window) now)) cache

-- A call on the cache at a time: by a handler, or by the cleanup routine at a tick.
pub data Call (K : Type 0) : Type 0 where
  marks : K → Call K
  cleans : Call K

module _ {K : Type 0} ⦃e : Comparable K⦄ (window : ℕ) where
  -- A history of calls, each with its time: the keys that were accepted, with the times.
  unfoldable pub run : List (ℕ × Call K) → Dict K ℕ → List (K × ℕ)
  run [] cache = []
  run ((now, marks key) ∷ calls) cache =
      let (cache', fresh) = try_mark_seen window now key cache in
      let later = run calls cache' in if fresh then (key, now) ∷ later else later
  run ((now, cleans) ∷ calls) cache = run calls (cleanup window now cache)
