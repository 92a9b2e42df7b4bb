-- ===== src/Hubble/Connection.antt =====
-- internal/hubble/client.go: what holds of the client whatever its surroundings do, and how long it
-- waits between attempts.
use nightjar.Prelude.{
  ℕ, ◌+◌, ◌≤◌, ◌≡◌, ◌↔◌, ◌⊎◌, inl, inr, ap, Option-cases, true, Option, none, some, [], ◌∷◌, arith,
  length, length-append,
}
use nightjar.Hubble.Flow.{FlowDrop}
use nightjar.Hubble.Converter.{Codes, Flow, convert_flow}
use nightjar.Hubble.Client.{
  ClientOptions, Client, connected, streaming, returned, new_client, next_reconnect_interval,
  return_loop, fail_connect, wake, connect, disconnect, record_flow_drop, receive, Step, stopped,
  connect_fails, wakes, wait_stopped, connects, receives, stream_ends, reads, Reach, here, next,
}

-- The client says that it is connected exactly while it streams; the channel is closed exactly when
-- the loop has returned; the buffer is within its size; every counted drop is in the buffer or
-- with the reader; and the wait is at most the base interval or the longest one.
pub record IsSound (c : Client) : Type 0 where
  pub streams : (c.state ≡ connected) ↔ (c.phase ≡ streaming)
  pub closes : (c.closed ≡ true) ↔ (c.phase ≡ returned)
  pub fits : length c.drops ≤ c.opts.buffer_size
  pub counted : c.flow_drops ≡ length c.drops + length c.taken
  pub bounded :
      (c.interval ≤ c.opts.reconnect_interval) ⊎ (c.interval ≤ c.opts.max_reconnect_interval)

new-IsSound : (o : ClientOptions) → IsSound (new_client o)
unfolding new_client
new-IsSound o = ground arith

record_flow_drop-IsSound : (d : FlowDrop) (c : Client) → IsSound c → IsSound (record_flow_drop d c)
unfolding record_flow_drop
record_flow_drop-IsSound d c s = ground (arith, length-append c.drops (d ∷ []))

receive-IsSound :
    (codes : Codes) (now : ℕ) (f : Option Flow) (c : Client)
    → IsSound c
    → IsSound (receive codes now f c)
unfolding receive
receive-IsSound codes now none c s = s
receive-IsSound codes now (some f) c s = elim (Option-cases (convert_flow codes now f)) [
  | inl e ↦ rw (receive, e) s
  | inr (d, e) ↦ rw (receive, e) (record_flow_drop-IsSound d c s)
]

Step-IsSound : {codes : Codes} {c d : Client} → Step codes c d → IsSound c → IsSound d
unfolding return_loop fail_connect wake connect disconnect next_reconnect_interval
Step-IsSound {c = c} (stopped h) s = ground arith
Step-IsSound {c = c} (connect_fails h) s = ground arith
Step-IsSound {c = c} (wakes h) s = ground arith
Step-IsSound {c = c} (wait_stopped h) s = ground arith
Step-IsSound {c = c} (connects h) s = ground arith
Step-IsSound {c = c} (receives now f h) s = receive-IsSound _ now f c s
Step-IsSound {c = c} (stream_ends h) s = ground arith
Step-IsSound {c = c} (reads d ds h) s = ground (arith, ap length h, length-append c.taken (d ∷ []))

reach-IsSound : {codes : Codes} {c d : Client} → IsSound c → Reach codes c d → IsSound d
reach-IsSound s here = s
reach-IsSound s (next r st) = Step-IsSound st (reach-IsSound s r)

-- Whatever the relay, the timer, the stop signal and the reader do, a new client says that it is
-- connected exactly while it streams, its channel is closed exactly when its loop has returned, its
-- buffer is within its size, the drops it counts are those in the buffer and those that the reader
-- took, and its wait is at most the base interval or the longest one.
pub reach-new-IsSound :
    (codes : Codes) (o : ClientOptions) (c : Client) → Reach codes (new_client o) c → IsSound c
reach-new-IsSound codes o c r = reach-IsSound (new-IsSound o) r
