-- ===== src/Notifier/Dispatcher.antt =====
-- internal/notifier/dispatcher.go: notifications sent as Kubernetes events, limited per namespace
-- and not repeated within a window. `rate.Limiter` and the API server are parameters: the limiter's
-- state, how it starts and its `Allow`; and for each call whether `Create` fails, and with what.
-- The events that the API server took are part of the state. Each method that locks is atomic; a
-- call of Dispatch is taken to run alone.
use nightjar.Prelude.{
  ℕ, ◌+◌, ◌*◌, ◌/◌, String, Bool, not, Option, none, some, List, [], ◌∷◌, if◌then◌else◌, ltb, leb,
  string_eq, pair_eq, concat,
}
use nightjar.Prelude.Dict.{Dict, lookup, insert, erase}
use nightjar.Types.{Constraint, DetailLevel, detail_level_summary}
use nightjar.Correlator.{CorrelatedNotification}
use nightjar.Dedupe
use nightjar.Notifier.Steps.{new_remediation_builder}
use nightjar.Notifier.EventBuilder.{Event, Outside, WorkloadRef}
use nightjar.Notifier.BuildEvent.{build_event}
use nightjar.Notifier.Messages.{render_message}

pub record DispatcherOptions : Type 0 where
  pub suppress_duplicate_minutes : ℕ
  pub rate_limit_per_minute : ℕ
  pub remediation_contact : String

unfoldable pub default_dispatcher_options : DispatcherOptions
default_dispatcher_options = record {
  suppress_duplicate_minutes = 60;
  rate_limit_per_minute = 100;
  remediation_contact = "your platform team";
}

-- the constraint's UID, and the namespace and the name of the workload joined by a slash
abbrev pub DedupeKey : Type 0
DedupeKey = String × String

-- `rate.Limiter`: `NewLimiter` at a number of events in a minute and a burst, and `Allow` at a time.
pub record RateLimiter : Type 1 where
  pub State : Type 0
  pub start : ℕ → ℕ → State
  pub allow : ℕ → State → State × Bool

pub record NsRateLimiter (rate : RateLimiter) : Type 0 where
  pub limiters : Dict String rate.State
  pub last_access : Dict String ℕ
  pub per_minute : ℕ
  pub burst : ℕ

-- `max(1, perMinute/10)`
unfoldable pub new_ns_rate_limiter : (rate : RateLimiter) → ℕ → NsRateLimiter rate
new_ns_rate_limiter rate per_minute = record {
  limiters = [];
  last_access = [];
  per_minute = per_minute;
  burst = if leb (per_minute / 10) 1 then 1 else per_minute / 10;
}

module _ {rate : RateLimiter} where
  -- The limiter that `Allow` asks: the one of the namespace, or a new one.
  unfoldable pub limiter_of : String → NsRateLimiter rate → rate.State
  limiter_of ns n = elim (lookup ns n.limiters) [
    | none ↦ rate.start n.per_minute n.burst
    | some limiter ↦ limiter
  ]

  -- `Allow`; the limiter is shared by pointer, so its new state is the map's.
  unfoldable pub allow : ℕ → String → NsRateLimiter rate → NsRateLimiter rate × Bool
  allow now ns n =
      let (limiter, allowed) = rate.allow now (limiter_of ns n) in
      (
        record n {
          limiters = insert ns limiter n.limiters;
          last_access = insert ns now n.last_access;
        },
        allowed,
      )

  -- The loop of `Evict` over the entries of lastAccess.
  unfoldable pub evict_each : ℕ → ℕ → Dict String ℕ → NsRateLimiter rate → NsRateLimiter rate
  evict_each now max_age [] n = n
  evict_each now max_age ((ns, last) ∷ entries) n =
      let kept = evict_each now max_age entries n in
      let dropped =
        evict_each now max_age entries
          (record n { limiters = erase ns n.limiters; last_access = erase ns n.last_access }) in
      if ltb (last + max_age) now then dropped else kept

  unfoldable pub evict : ℕ → ℕ → NsRateLimiter rate → NsRateLimiter rate
  unfolding evict_each
  evict now max_age n = evict_each now max_age n.last_access n

pub record Dispatcher (rate : RateLimiter) : Type 0 where
  pub ns_limiter : NsRateLimiter rate
  pub dedupe_cache : Dict DedupeKey ℕ
  pub events : List Event

unfoldable pub new_dispatcher : (rate : RateLimiter) → DispatcherOptions → Dispatcher rate
new_dispatcher rate opts = record {
  ns_limiter = new_ns_rate_limiter rate opts.rate_limit_per_minute;
  dedupe_cache = [];
  events = [];
}

-- What a call reads from outside: the clock and the marshaller, and the error of `Create`.
pub record Turn : Type 0 where
  pub outside : Outside
  pub create_error : Option String

abbrev pub window : DispatcherOptions → ℕ
window opts = opts.suppress_duplicate_minutes * (60 * 1000000000)

abbrev pub workload_key : Constraint → String → String → DedupeKey
workload_key c ns workload_name = (c.uid, concat (ns ∷ "/" ∷ workload_name ∷ []))

module _ {rate : RateLimiter} (opts : DispatcherOptions) where
  -- `Events(ns).Create`
  unfoldable pub create : Option String → Event → Dispatcher rate → Dispatcher rate × Option String
  create none event d = (record d { events = event ∷ d.events }, none)
  create (some error) event d = (d, some error)

  unfoldable pub create_event :
      Turn → CorrelatedNotification → String → Dispatcher rate → Dispatcher rate × Option String
  create_event turn n message d =
      let workload : WorkloadRef = record {
        api_version = "";
        kind = n.workload_kind;
        name = n.workload_name;
        namespace = n.namespace;
        uid = "";
      } in
      create turn.create_error
        (build_event turn.outside (new_remediation_builder opts.remediation_contact) n.constraint
          detail_level_summary workload message)
        d

  unfoldable pub dispatch :
      Turn → CorrelatedNotification → Dispatcher rate → Dispatcher rate × Option String
  dispatch turn n d =
      let (limits, allowed) = allow turn.outside.now n.namespace d.ns_limiter in
      let limited : Dispatcher rate = record d { ns_limiter = limits } in
      let key = workload_key n.constraint n.namespace n.workload_name in
      let (cache, fresh) =
        Dedupe.try_mark_seen (window opts) turn.outside.now key limited.dedupe_cache in
      let marked : Dispatcher rate = record limited { dedupe_cache = cache } in
      let message = render_message opts.remediation_contact n.constraint detail_level_summary in
      let sent = create_event turn n message marked in
      if not allowed then (limited, none) else if not fresh then (marked, none) else sent

  unfoldable pub dispatch_direct :
      Turn
      → Constraint
      → String
      → String
      → String
      → DetailLevel
      → Dispatcher rate
      → Dispatcher rate × Option String
  dispatch_direct turn c ns workload_name workload_kind level d =
      let (limits, allowed) = allow turn.outside.now ns d.ns_limiter in
      let limited : Dispatcher rate = record d { ns_limiter = limits } in
      let (cache, fresh) =
        Dedupe.try_mark_seen (window opts) turn.outside.now (workload_key c ns workload_name)
          limited.dedupe_cache in
      let marked : Dispatcher rate = record limited { dedupe_cache = cache } in
      let message = render_message opts.remediation_contact c level in
      let workload : WorkloadRef = record {
        api_version = "";
        kind = workload_kind;
        name = workload_name;
        namespace = ns;
        uid = "";
      } in
      let event =
        build_event turn.outside (new_remediation_builder opts.remediation_contact) c level workload
          message in
      let sent = create turn.create_error event marked in
      if not allowed then (limited, none) else if not fresh then (marked, none) else sent

  -- A tick of `cleanupDedupeCache`: old entries go, and limiters of an hour without use.
  unfoldable pub cleanup_dedupe_cache : ℕ → Dispatcher rate → Dispatcher rate
  cleanup_dedupe_cache now d = record d {
    dedupe_cache = Dedupe.cleanup (window opts) now d.dedupe_cache;
    ns_limiter = evict now (60 * 60 * 1000000000) d.ns_limiter;
  }
