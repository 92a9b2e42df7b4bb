-- ===== src/Notifier/Dispatching.antt =====
-- What a dispatch shows, and that it is not repeated.
use nightjar.Prelude.{
  ℕ, ◌+◌, ◌<◌, ◌≡◌, ◌≢◌, refl, String, true, none, some, Option, string_eq, pair_eq, Bool-cases,
  inl, inr, [],
}
use nightjar.Prelude.Dict.{lookup}
use nightjar.Types.{Constraint}
use nightjar.Correlator.{CorrelatedNotification}
use nightjar.Dedupe.{try_mark_seen}
use nightjar.Dedupe.Spacing.{try_mark_seen-refused, lookup-try_mark_seen}
use nightjar.Notifier.Steps.{new_remediation_builder}
use nightjar.Notifier.EventBuilder.{Event, WorkloadRef}
use nightjar.Notifier.Privacy.{LooksLike, build_event-summary}
use nightjar.Notifier.Messages.{render_message, render_summary}
use nightjar.Notifier.Dispatcher.{
  RateLimiter, Dispatcher, DispatcherOptions, Turn, window, workload_key, allow, create,
  create_event, dispatch,
}

module _ {rate : RateLimiter} (opts : DispatcherOptions) where
  -- For a workload outside the namespaces of two constraints that agree on UID, source, type,
  -- severity, effect, tags, remediation hint and remediation steps, of which they have some, Dispatch
  -- does the same with either: the state, the events sent and the error do not depend on the
  -- constraint's name, namespace, summary or details.
  pub dispatch-private :
      (turn : Turn) (n : CorrelatedNotification) (c : Constraint) (d : Dispatcher rate)
      → LooksLike n.constraint c
      → n.constraint.remediation ≢ []
      → n.constraint.remediation ≡ c.remediation
      → n.constraint.namespace ≢ n.namespace
      → c.namespace ≢ n.namespace
      → dispatch opts turn n d ≡ dispatch opts turn (record n { constraint = c }) d
  unfolding dispatch create_event render_message render_summary
  dispatch-private turn n c d same own steps away away' =
      let workload : WorkloadRef = record {
        api_version = "";
        kind = n.workload_kind;
        name = n.workload_name;
        namespace = n.namespace;
        uid = "";
      } in
      let event =
        build_event-summary turn.outside workload n.constraint c
          (new_remediation_builder opts.remediation_contact)
          (render_summary opts.remediation_contact n.constraint) same own steps away away' in
      rw (event, same.uid, same.constraint_type) refl

  create-dedupe_cache :
      (error : Option String) (event : Event) (d : Dispatcher rate)
      → (create opts error event d).0.dedupe_cache ≡ d.dedupe_cache
  unfolding create
  create-dedupe_cache none event d = refl
  create-dedupe_cache (some e) event d = refl

  -- The call marks its pair as new.
  abbrev pub IsFresh : Turn → CorrelatedNotification → Dispatcher rate → Type 0
  IsFresh turn n d =
      (try_mark_seen (window opts) turn.outside.now
        (workload_key n.constraint n.namespace n.workload_name) d.dedupe_cache).1
      ≡ true

  duplicate :
      (turn : Turn) (n : CorrelatedNotification) (d : Dispatcher rate) (marked : ℕ)
      → lookup (workload_key n.constraint n.namespace n.workload_name) d.dedupe_cache ≡ some marked
      → turn.outside.now < marked + window opts
      → ((dispatch opts turn n d).1 ≡ none) × ((dispatch opts turn n d).0.events ≡ d.events)
  unfolding dispatch
  duplicate turn n d marked seen soon =
      let key = workload_key n.constraint n.namespace n.workload_name in
      let refused =
        try_mark_seen-refused (window opts) key turn.outside.now marked d.dedupe_cache seen soon in
      elim (Bool-cases (allow turn.outside.now n.namespace d.ns_limiter).1) [
        | inl e ↦ rw (e, refused) (refl, refl)
        | inr e ↦ rw (e) (refl, refl)
      ]

  module _ (turn later : Turn) (n : CorrelatedNotification) (d : Dispatcher rate) where
    marks_key :
        (allow turn.outside.now n.namespace d.ns_limiter).1 ≡ true
        → IsFresh turn n d
        → lookup
            (workload_key n.constraint n.namespace n.workload_name)
            (dispatch opts turn n d).0.dedupe_cache
          ≡ some turn.outside.now
    unfolding dispatch create_event
    marks_key allowed fresh =
        rw (allowed, fresh, create-dedupe_cache)
          (lookup-try_mark_seen (window opts)
            (workload_key n.constraint n.namespace n.workload_name) turn.outside.now d.dedupe_cache
            fresh)

    -- After a Dispatch that was neither limited nor a duplicate, whether Create succeeded or not, a
    -- Dispatch of the same notification within the window returns no error and sends no event.
    pub dispatch_again :
        (allow turn.outside.now n.namespace d.ns_limiter).1 ≡ true
        → IsFresh turn n d
        → later.outside.now < turn.outside.now + window opts
        → ((dispatch opts later n (dispatch opts turn n d).0).1 ≡ none)
          × ((dispatch opts later n (dispatch opts turn n d).0).0.events
              ≡ (dispatch opts turn n d).0.events)
    dispatch_again allowed fresh soon =
        duplicate later n (dispatch opts turn n d).0 turn.outside.now (marks_key allowed fresh) soon
