-- ===== src/Hubble/Client.antt =====
-- internal/hubble/client.go: the client with its connection loop. The loop is a step relation: what
-- gRPC, the timer, `select` and the reader of the channel do chooses the step. `phase` is where the
-- loop stands. A duration is a number of nanoseconds, without a bound.
use nightjar.Prelude.{
  ℕ, ◌+◌, ◌*◌, Bool, true, false, Option, none, some, List, [], ◌∷◌, ◌++◌, ◌≡◌, if◌then◌else◌,
  nat_eqb, ltb, length,
}
use nightjar.Hubble.Flow.{FlowDrop}
use nightjar.Hubble.Converter.{Codes, Flow, convert_flow}

pub record ClientOptions : Type 0 where
  pub reconnect_interval : ℕ
  pub max_reconnect_interval : ℕ
  pub buffer_size : ℕ

abbrev pub default_client_options : ClientOptions
default_client_options = record {
  reconnect_interval = 1000000000;
  max_reconnect_interval = 60 * 1000000000;
  buffer_size = 1000;
}

pub data ConnectionState : Type 0 where
  disconnected : ConnectionState
  connecting : ConnectionState
  connected : ConnectionState
  reconnecting : ConnectionState

-- The head of the loop, the wait after a failed connect, the stream, and the end.
pub data Phase : Type 0 where
  looping : Phase
  waiting : Phase
  streaming : Phase
  returned : Phase

-- `drops` is the buffer of the channel, `taken` what its reader has received, in order; `waited`
-- counts the waits that have ended with the timer.
pub record Client : Type 0 where
  pub opts : ClientOptions
  pub phase : Phase
  pub interval : ℕ
  pub has_conn : Bool
  pub state : ConnectionState
  pub drops : List FlowDrop
  pub closed : Bool
  pub reconnects : ℕ
  pub flow_drops : ℕ
  pub taken : List FlowDrop
  pub waited : ℕ

abbrev pub or_default : ℕ → ℕ → ℕ
or_default n default = if nat_eqb n 0 then default else n

unfoldable pub new_client : ClientOptions → Client
new_client o =
    let opts : ClientOptions = record {
      reconnect_interval =
          or_default o.reconnect_interval default_client_options.reconnect_interval;
      max_reconnect_interval =
          or_default o.max_reconnect_interval default_client_options.max_reconnect_interval;
      buffer_size = or_default o.buffer_size default_client_options.buffer_size;
    } in
    record {
      opts = opts;
      phase = looping;
      interval = opts.reconnect_interval;
      has_conn = false;
      state = disconnected;
      drops = [];
      closed = false;
      reconnects = 0;
      flow_drops = 0;
      taken = [];
      waited = 0;
    }

unfoldable pub next_reconnect_interval : ClientOptions → ℕ → ℕ
next_reconnect_interval opts current =
    let next = current * 2 in
    if ltb opts.max_reconnect_interval next then opts.max_reconnect_interval else next

-- A return of `connectionLoop`: the deferred call closes the channel.
unfoldable pub return_loop : Client → Client
return_loop c = record c { phase = returned; closed = true }

-- From the head of the loop to the wait.
unfoldable pub fail_connect : Client → Client
fail_connect c = record c { phase = waiting; state = connecting }

-- `<-time.After(reconnectInterval)`
unfoldable pub wake : Client → Client
wake c = record c {
  phase = looping;
  interval = next_reconnect_interval c.opts c.interval;
  waited = c.waited + 1;
}

-- From the head of the loop to the stream.
unfoldable pub connect : Client → Client
connect c = record c {
  phase = streaming;
  has_conn = true;
  interval = c.opts.reconnect_interval;
  state = connected;
}

-- From the end of the stream to the head of the loop.
unfoldable pub disconnect : Client → Client
disconnect c = record c {
  phase = looping;
  has_conn = false;
  state = reconnecting;
  reconnects = c.reconnects + 1;
}

-- With room in the buffer the drop goes in and is counted.
unfoldable pub record_flow_drop : FlowDrop → Client → Client
record_flow_drop d c =
    if ltb (length c.drops) c.opts.buffer_size
    then record c { drops = c.drops ++ d ∷ []; flow_drops = c.flow_drops + 1 }
    else c

-- A round of the loop over the stream, with what `GetFlow` gives.
unfoldable pub receive : Codes → ℕ → Option Flow → Client → Client
receive codes now none c = c
receive codes now (some f) c = elim (convert_flow codes now f) [
  | none ↦ c
  | some d ↦ record_flow_drop d c
]

pub data Step (codes : Codes) (c : Client) : Client → Type 0 where
  stopped : c.phase ≡ looping → Step codes c (return_loop c)
  connect_fails : c.phase ≡ looping → Step codes c (fail_connect c)
  wakes : c.phase ≡ waiting → Step codes c (wake c)
  wait_stopped : c.phase ≡ waiting → Step codes c (return_loop c)
  connects : c.phase ≡ looping → Step codes c (connect c)
  receives :
      (now : ℕ) (f : Option Flow) → c.phase ≡ streaming → Step codes c (receive codes now f c)
  stream_ends : c.phase ≡ streaming → Step codes c (disconnect c)
  reads :
      (d : FlowDrop) (ds : List FlowDrop)
      → c.drops ≡ d ∷ ds
      → Step codes c (record c { drops = ds; taken = c.taken ++ d ∷ [] })

pub data Reach (codes : Codes) (c : Client) : Client → Type 0 where
  here : Reach codes c c
  next : {d e : Client} → Reach codes c d → Step codes d e → Reach codes c e
