-- ===== src/Correlator/Repeats.antt =====
-- One event, one notification for each constraint: a new event is sent in full where the channel
-- has room, and a second delivery within the window sends nothing. The key of a flow drop leaves
-- out the namespaces of its pods, so drops of different pods can share it.
use nightjar.Prelude.{
  ℕ, ◌+◌, ◌≤◌, ◌<◌, String, ◌≡◌, ap, Bool, true, false, ◌&&◌, Option, none, List, [], ◌∷◌, ◌++◌,
  map, arith, eq_iff, ◌==◌, string_eq, pair_eq, length,
}
use nightjar.Prelude.Dict.{Dict, lookup, insert, lookup-insert}
use nightjar.Dedupe.Spacing.{Recent}
use nightjar.Types.{Constraint, LabelSelector}
use nightjar.Indexer.{Indexer, by_namespace}
use nightjar.Indexer.Invariant.{IsWellFormed}
use nightjar.Hubble.Flow.{FlowDrop}
use nightjar.Correlator.{
  Event, DedupeKey, Limiter, Turns, Shared, notification_buffer, dedupe_window, event_notification,
  handle_event, flow_key, is_network, notify_flows,
}
use nightjar.Correlator.Handlers.{told}
use nightjar.Correlator.Rounds.{
  NoneSeen, marked_all, marked_all-AllRecent, notify_all-new, notify_all-old, mark_new, mark_old,
  by_namespace-HasDistinctUids, AllRecent,
}

new-NoneSeen :
    (key : String) (cs : List Constraint) (seen : Dict DedupeKey ℕ)
    → ((uid : String) → lookup (key, uid) seen ≡ none)
    → NoneSeen key cs seen
new-NoneSeen key [] seen h = tt
new-NoneSeen key (c ∷ cs) seen h = (h c.uid, new-NoneSeen key cs seen h)

-- The event is delivered for the first time, in a namespace, past the limiter, with no
-- cancellation, and the channel has room for all of its notifications.
pub record IsFirst (l : Limiter) (idx : Indexer) (now : ℕ) (turns : Turns) (event : Event)
    (limiter : l.State) (s : Shared) : Type 0 where
  pub allowed : (l.allow now limiter).1 ≡ true
  pub namespaced : (event.involved_namespace == "") ≡ false
  pub running : (j : ℕ) → turns.done j ≡ false
  pub well_formed : IsWellFormed idx
  pub unseen : (uid : String) → lookup (event.uid, uid) s.seen_pairs ≡ none
  pub room :
      length s.notifications + length (by_namespace idx event.involved_namespace)
      ≤ notification_buffer

module _ (l : Limiter) (idx : Indexer) (now : ℕ) (turns : Turns) (event : Event) (limiter : l.State)
    (s : Shared) (first : IsFirst l idx now turns event limiter s) where
  delivered : (handle_event l idx now turns event (limiter, s)).1 ≡ record s {
    notifications =
        s.notifications
        ++ map (event_notification event) (by_namespace idx event.involved_namespace);
    seen_pairs =
        marked_all turns 0 event.uid (by_namespace idx event.involved_namespace) s.seen_pairs;
  }
  unfolding handle_event
  delivered =
      let cs = by_namespace idx event.involved_namespace in
      rw (first.allowed, first.namespaced, handle_event)
        (notify_all-new turns 0 event cs s first.running
          (by_namespace-HasDistinctUids idx event.involved_namespace first.well_formed)
          (new-NoneSeen event.uid cs s.seen_pairs first.unseen) first.room)

-- A first delivery sends one notification for each constraint that the indexer returns for the
-- namespace, in that order, behind what the channel held.
pub handle_event_complete :
    (l : Limiter) (idx : Indexer) (now : ℕ) (turns : Turns) (event : Event) (limiter : l.State)
    (s : Shared)
    → IsFirst l idx now turns event limiter s
    → (handle_event l idx now turns event (limiter, s)).1.notifications
      ≡ s.notifications ++ map (told event) (by_namespace idx event.involved_namespace)
unfolding event_notification
handle_event_complete l idx now turns event limiter s first =
    ap (λ (x : Shared). x.notifications) (delivered l idx now turns event limiter s first)

handle_event-old :
    (l : Limiter) (idx : Indexer) (later t : ℕ) (again : Turns) (event : Event) (limiter : l.State)
    (s : Shared)
    → ((j : ℕ) → again.now j < t + dedupe_window)
    → AllRecent t event.uid (by_namespace idx event.involved_namespace) s.seen_pairs
    → (handle_event l idx later again event (limiter, s)).1 ≡ s
unfolding handle_event
handle_event-old l idx later t again event limiter s soon r =
    ground
      (arith, notify_all-old t again 0 event (by_namespace idx event.involved_namespace) s soon r)

-- If the event comes again, within five minutes of a time before all of the first delivery's
-- clock readings, the channels and the cache stay as the first delivery left them.
pub handle_event_again :
    (l : Limiter) (idx : Indexer) (now later t : ℕ) (turns again : Turns) (event : Event)
    (limiter limiter' : l.State) (s : Shared)
    → IsFirst l idx now turns event limiter s
    → ((j : ℕ) → t ≤ turns.now j)
    → ((j : ℕ) → again.now j < t + dedupe_window)
    → let s' = (handle_event l idx now turns event (limiter, s)).1 in
      (handle_event l idx later again event (limiter', s')).1 ≡ s'
handle_event_again l idx now later t turns again event limiter limiter' s first late soon =
    let cs = by_namespace idx event.involved_namespace in
    handle_event-old l idx later t again event limiter' _ soon (
      rw (delivered l idx now turns event limiter s first)
        (marked_all-AllRecent t turns 0 event.uid cs s.seen_pairs late))

-- The drops have pods of the same names, the same protocol and the same destination port.
pub record SameNames (a b : FlowDrop) : Type 0 where
  pub source_pod : a.source.pod_name ≡ b.source.pod_name
  pub dest_pod : a.destination.pod_name ≡ b.destination.pod_name
  pub same_protocol : a.l4.protocol ≡ b.l4.protocol
  pub same_port : a.l4.destination_port ≡ b.l4.destination_port

flow_key_same : (a b : FlowDrop) → SameNames a b → flow_key a ≡ flow_key b
unfolding flow_key
flow_key_same a b h = rw (h.source_pod, h.dest_pod, h.same_protocol, h.same_port)

module _ (matches : Option LabelSelector → List (String × String) → Bool) where
  seen-notify_flows :
      (turns : Turns) (a : FlowDrop) (labels : List (String × String)) (c : Constraint) (s : Shared)
      → (is_network c && matches c.workload_selector labels) ≡ true
      → lookup (flow_key a, c.uid) s.seen_pairs ≡ none
      → (notify_flows matches turns 0 a labels (c ∷ []) s).seen_pairs
        ≡ insert (flow_key a, c.uid) (turns.now 0) s.seen_pairs
  unfolding notify_flows
  seen-notify_flows turns a labels c s hit fresh =
      rw (hit, mark_new (turns.now 0) (flow_key a, c.uid) s.seen_pairs fresh) (ground arith)

  notify_flows-old :
      (t : ℕ) (again : Turns) (b : FlowDrop) (labels : List (String × String)) (c : Constraint)
      (s : Shared)
      → again.now 0 < t + dedupe_window
      → Recent t (lookup (flow_key b, c.uid) s.seen_pairs)
      → notify_flows matches again 0 b labels (c ∷ []) s ≡ s
  unfolding notify_flows
  notify_flows-old t again b labels c s soon r =
      rw (mark_old t (again.now 0) (flow_key b, c.uid) s.seen_pairs soon r) (ground arith)

-- Where a constraint matched a drop for the first time, a drop of other pods with the same names,
-- in whatever namespaces, gets no notification of that constraint within the window.
flow_key_collision :
    (matches : Option LabelSelector → List (String × String) → Bool) (turns again : Turns)
    (a b : FlowDrop) (labels labels' : List (String × String)) (c : Constraint) (s : Shared)
    → SameNames a b
    → (is_network c && matches c.workload_selector labels) ≡ true
    → lookup (flow_key a, c.uid) s.seen_pairs ≡ none
    → again.now 0 < turns.now 0 + dedupe_window
    → let s' = notify_flows matches turns 0 a labels (c ∷ []) s in
      notify_flows matches again 0 b labels' (c ∷ []) s' ≡ s'
flow_key_collision matches turns again a b labels labels' c s same hit fresh soon =
    notify_flows-old matches (turns.now 0) again b labels' c _ soon (
      rw (seen-notify_flows matches turns a labels c s hit fresh, ← flow_key_same a b same)
        (ground (
          arith,
          lookup-insert (flow_key a, c.uid) (flow_key a, c.uid) (turns.now 0) s.seen_pairs,
          eq_iff (flow_key a) (flow_key a),
          eq_iff c.uid c.uid,
        )))
