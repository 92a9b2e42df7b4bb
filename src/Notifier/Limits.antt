-- ===== src/Notifier/Limits.antt =====
-- The limiters of the namespaces and the times of their last use.
use nightjar.Prelude.{
  refl, ℕ, ◌+◌, ◌≡◌, ◌↔◌, String, none, List, [], ◌∷◌, arith, ltb, string_eq, Bool-cases, inl, inr,
}
use nightjar.Prelude.Dict.{Dict, lookup, erase, lookup-insert, lookup-erase}
use nightjar.Notifier.Dispatcher.{
  RateLimiter, NsRateLimiter, new_ns_rate_limiter, allow, limiter_of, evict, evict_each,
}

-- A call on the limiters at a time.
pub data Call : Type 0 where
  allows : String → Call
  evicts : ℕ → Call

module _ {rate : RateLimiter} where
  -- The namespaces with a limiter are those with a time of last use.
  abbrev pub HasSameKeys : NsRateLimiter rate → Type 0
  HasSameKeys n = (ns : String) → (lookup ns n.limiters ≡ none) ↔ (lookup ns n.last_access ≡ none)

  unfoldable pub run : List (ℕ × Call) → NsRateLimiter rate → NsRateLimiter rate
  run [] n = n
  run ((now, allows ns) ∷ calls) n = run calls (allow now ns n).0
  run ((now, evicts max_age) ∷ calls) n = run calls (evict now max_age n)

  allow-HasSameKeys :
      (now : ℕ) (ns : String) (n : NsRateLimiter rate)
      → HasSameKeys n
      → HasSameKeys (allow now ns n).0
  unfolding allow
  allow-HasSameKeys now ns n h other = ground (
    arith,
    h other,
    lookup-insert ns other now n.last_access,
    lookup-insert ns other (rate.allow now (limiter_of ns n)).0 n.limiters,
  )

  erase-HasSameKeys :
      (ns : String) (n : NsRateLimiter rate)
      → HasSameKeys n
      → HasSameKeys
          (record n { limiters = erase ns n.limiters; last_access = erase ns n.last_access })
  erase-HasSameKeys ns n h other =
      ground (arith, h other, lookup-erase ns other n.last_access, lookup-erase ns other n.limiters)

  evict_each-HasSameKeys :
      (now max_age : ℕ) (entries : Dict String ℕ) (n : NsRateLimiter rate)
      → HasSameKeys n
      → HasSameKeys (evict_each now max_age entries n)
  unfolding evict_each
  evict_each-HasSameKeys now max_age [] n h = h
  evict_each-HasSameKeys now max_age ((ns, last) ∷ entries) n h =
      elim (Bool-cases (ltb (last + max_age) now)) [
        | inl old ↦
            rw (old, evict_each)
              (evict_each-HasSameKeys now max_age entries _ (erase-HasSameKeys ns n h))
        | inr recent ↦ rw (recent, evict_each) (evict_each-HasSameKeys now max_age entries n h)
      ]

  run-HasSameKeys :
      (calls : List (ℕ × Call)) (n : NsRateLimiter rate) → HasSameKeys n → HasSameKeys (run calls n)
  unfolding run evict
  run-HasSameKeys [] n h = h
  run-HasSameKeys ((now, allows ns) ∷ calls) n h =
      run-HasSameKeys calls (allow now ns n).0 (allow-HasSameKeys now ns n h)
  run-HasSameKeys ((now, evicts max_age) ∷ calls) n h =
      run-HasSameKeys calls (evict now max_age n)
        (evict_each-HasSameKeys now max_age n.last_access n h)

-- After any calls of Allow and Evict from the new limiters, a namespace has a limiter exactly if it
-- has a time of last use.
pub run-new-HasSameKeys :
    (rate : RateLimiter) (per_minute : ℕ) (calls : List (ℕ × Call))
    → HasSameKeys (run calls (new_ns_rate_limiter rate per_minute))
unfolding new_ns_rate_limiter lookup
run-new-HasSameKeys rate per_minute calls =
    run-HasSameKeys calls (new_ns_rate_limiter rate per_minute) (λ ns. (λ e. refl, λ e. refl))
