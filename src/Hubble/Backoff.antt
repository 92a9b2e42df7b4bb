-- ===== src/Hubble/Backoff.antt =====
-- internal/hubble/client.go: how long the client waits between its attempts.
use nightjar.Prelude.{ℕ, zero, suc, ◌+◌, ◌*◌, ◌^◌, min, ◌≡◌, refl, ◌∙◌, sym, subst, arith}
use nightjar.Hubble.Converter.{Codes}
use nightjar.Hubble.Client.{
  ClientOptions, Client, looping, next_reconnect_interval, fail_connect, wake, connect, disconnect,
  connect_fails, wakes, connects, stream_ends, Reach, here, next,
}

-- The client after `n` attempts of which none could connect, and after `n` whose stream broke.
abbrev pub failures : ℕ → Client → Client
failures zero c = c
failures (suc n) c = wake (fail_connect (failures n c))

abbrev pub breaks : ℕ → Client → Client
breaks zero c = c
breaks (suc n) c = disconnect (connect (breaks n c))

next_lem :
    (opts : ClientOptions) (current : ℕ)
    → next_reconnect_interval opts current ≡ min opts.max_reconnect_interval (current * 2)
unfolding next_reconnect_interval
next_lem opts current = ground arith

twice_power : (i n : ℕ) → i * 2 ^ suc n ≡ i * 2 ^ n * 2
twice_power i n = grind arith

cut_twice : (longest x : ℕ) → min longest (min longest x * 2) ≡ min longest (x * 2)
cut_twice longest x = omega arith

module _ (codes : Codes) (c : Client) (at_head : c.phase ≡ looping) where
  failures-looping : (n : ℕ) → (failures n c).phase ≡ looping
  unfolding wake
  failures-looping zero = at_head
  failures-looping (suc n) = refl

  failures-opts : (n : ℕ) → (failures n c).opts ≡ c.opts
  unfolding wake fail_connect
  failures-opts zero = refl
  failures-opts (suc n) = failures-opts n

  failures-interval :
      (n : ℕ)
      → (failures (suc n) c).interval ≡ min c.opts.max_reconnect_interval (c.interval * 2 ^ suc n)
  unfolding wake fail_connect
  failures-interval zero = next_lem c.opts c.interval
  failures-interval (suc n) =
      next_lem (failures (suc n) c).opts (failures (suc n) c).interval
      ∙ subst
          (λ x.
            min (failures (suc n) c).opts.max_reconnect_interval (x * 2)
            ≡ min c.opts.max_reconnect_interval (c.interval * 2 ^ suc (suc n)))
          (sym (failures-interval n))
          (rw (failures-opts (suc n), twice_power c.interval (suc n))
            (cut_twice c.opts.max_reconnect_interval (c.interval * 2 ^ suc n)))

  failures-waited : (n : ℕ) → (failures n c).waited ≡ c.waited + n
  unfolding wake fail_connect
  failures-waited zero = omega arith
  failures-waited (suc n) = omega (arith, failures-waited n)

  reach-failures : (n : ℕ) → Reach codes c (failures n c)
  unfolding fail_connect
  reach-failures zero = here
  reach-failures (suc n) =
      next (next (reach-failures n) (connect_fails (failures-looping n))) (wakes refl)

  breaks-looping : (n : ℕ) → (breaks n c).phase ≡ looping
  unfolding disconnect
  breaks-looping zero = at_head
  breaks-looping (suc n) = refl

  breaks-counts :
      (n : ℕ) → ((breaks n c).reconnects ≡ c.reconnects + n) × ((breaks n c).waited ≡ c.waited)
  unfolding disconnect connect
  breaks-counts zero = (omega arith, refl)
  breaks-counts (suc n) = (omega (arith, (breaks-counts n).0), (breaks-counts n).1)

  reach-breaks : (n : ℕ) → Reach codes c (breaks n c)
  unfolding connect
  reach-breaks zero = here
  reach-breaks (suc n) =
      next (next (reach-breaks n) (connects (breaks-looping n))) (stream_ends refl)

  -- From the head of the loop, after `n + 1` failures to connect in a row the loop has waited for
  -- each of them, and the next wait is the first one times `2 ^ (n + 1)`, cut off at the longest.
  pub connect_failures :
      (n : ℕ)
      → Reach codes c (failures (suc n) c)
        × ((failures (suc n) c).waited ≡ c.waited + suc n)
        × ((failures (suc n) c).interval
            ≡ min c.opts.max_reconnect_interval (c.interval * 2 ^ suc n))
  connect_failures n = (reach-failures (suc n), failures-waited (suc n), failures-interval n)

  -- From the head of the loop, any number of streams can break one after the other, each counted
  -- as a reconnect, without a single wait between them.
  pub no_backoff :
      (n : ℕ)
      → Reach codes c (breaks n c)
        × ((breaks n c).reconnects ≡ c.reconnects + n)
        × ((breaks n c).waited ≡ c.waited)
  no_backoff n = (reach-breaks n, (breaks-counts n).0, (breaks-counts n).1)
