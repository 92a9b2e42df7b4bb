-- ===== src/Correlator/Handlers.antt =====
-- What the handlers send: only notifications that the constraints of the namespace justify, and
-- all of them when nothing holds them back.
use nightjar.Prelude.{
  ℕ, suc, String, ◌≡◌, ◌≢◌, refl, ◌⊎◌, inl, inr, Bool, true, Option, List, [], ◌∷◌, arith, eq_iff,
  if◌then◌else◌, ◌==◌, string_eq, pair_eq, ◌∈◌, mem-append, Bool-cases,
}
use nightjar.Types.{Constraint, LabelSelector}
use nightjar.Indexer.{Indexer, by_namespace}
use nightjar.Hubble.Flow.{FlowDrop}
use nightjar.Correlator.{
  Event, CorrelatedNotification, FlowDropNotification, Limiter, Turns, Shared, send, try_mark_seen,
  event_notification, notify_all, flow_notification, is_network, handle_event,
}

mem-send : {A : Type 0} (x a : A) (channel : List A) → x ∈ send a channel → (x ∈ channel) ⊎ (x ≡ a)
unfolding send
mem-send x a channel m = ground (arith, mem-append x channel (a ∷ []))

-- What the notification of a constraint for an event is to say.
abbrev pub told : Event → Constraint → CorrelatedNotification
told event c = record {
  event = event;
  constraint = c;
  namespace = event.involved_namespace;
  workload_name = event.involved_name;
  workload_kind = event.involved_kind;
}

-- Where a notification of an event may come from.
abbrev pub FromEvent : Event → List Constraint → CorrelatedNotification → Type 0
FromEvent event cs n = (c : Constraint) × (c ∈ cs) × (n ≡ told event c)

later_event :
    (event : Event) (c : Constraint) (cs : List Constraint) (n : CorrelatedNotification)
    {P : Type 0}
    → P ⊎ FromEvent event cs n
    → P ⊎ FromEvent event (c ∷ cs) n
later_event event c cs n (inl p) = inl p
later_event event c cs n (inr (d, m, e)) = inr (d, inr m, e)

sent_event :
    (event : Event) (c : Constraint) (cs : List Constraint) (channel : List CorrelatedNotification)
    (n : CorrelatedNotification)
    → (n ∈ send (event_notification event c) channel) ⊎ FromEvent event cs n
    → (n ∈ channel) ⊎ FromEvent event (c ∷ cs) n
unfolding event_notification
sent_event event c cs channel n (inl m) = elim (mem-send n _ channel m) [
  | inl old ↦ inl old
  | inr e ↦ inr (c, inl refl, e)
]
sent_event event c cs channel n (inr (d, m, e)) = inr (d, inr m, e)

mem-notify_all :
    (n : CorrelatedNotification) (turns : Turns) (i : ℕ) (event : Event) (cs : List Constraint)
    (s : Shared)
    → n ∈ (notify_all turns i event cs s).notifications
    → (n ∈ s.notifications) ⊎ FromEvent event cs n
unfolding notify_all
mem-notify_all n turns i event [] s = λ m. inl m
mem-notify_all n turns i event (c ∷ cs) s =
    let (seen, fresh) = try_mark_seen (turns.now i) (event.uid, c.uid) s.seen_pairs in
    let marked : Shared = record s { seen_pairs = seen } in
    let sent : Shared = record marked {
      notifications = send (event_notification event c) marked.notifications;
    } in
    elim (Bool-cases fresh) [
      | inr old ↦
          rw (old, notify_all)
            (λ m. later_event event c cs n (mem-notify_all n turns (suc i) event cs marked m))
      | inl new ↦ elim (Bool-cases (turns.done i)) [
        | inl stop ↦ rw (new, stop, notify_all) (λ m. inl m)
        | inr go ↦
            rw (new, go, notify_all)
              (λ m.
                sent_event event c cs s.notifications n
                  (mem-notify_all n turns (suc i) event cs sent m))
      ]
    ]

-- Whatever the limiter, the clock and the cancellation do, each notification that `handleEvent`
-- adds carries the event's object and a constraint that the indexer returns for its namespace,
-- which is not empty.
pub handle_event_sound :
    (l : Limiter) (idx : Indexer) (now : ℕ) (turns : Turns) (event : Event) (limiter : l.State)
    (s : Shared) (n : CorrelatedNotification)
    → n ∈ (handle_event l idx now turns event (limiter, s)).1.notifications
    → (n ∈ s.notifications)
      ⊎ ((event.involved_namespace ≢ "")
          × FromEvent event (by_namespace idx event.involved_namespace) n)
unfolding handle_event
handle_event_sound l idx now turns event limiter s n = elim (Bool-cases (l.allow now limiter).1) [
  | inr refused ↦ rw (refused, handle_event) (λ m. inl m)
  | inl allowed ↦ elim (Bool-cases (event.involved_namespace == "")) [
    | inl cluster ↦ rw (allowed, cluster, handle_event) (λ m. inl m)
    | inr named ↦
        rw (allowed, named, handle_event)
          (λ m. elim (mem-notify_all n turns 0 event _ s m) [
            | inl old ↦ inl old
            | inr from ↦ inr (ground (arith, eq_iff event.involved_namespace ""), from)
          ])
  ]
]

module _ (matches : Option LabelSelector → List (String × String) → Bool) where
  -- Where a notification of a drop, matched against some labels, may come from.
  abbrev pub FromDrop :
      FlowDrop → List (String × String) → List Constraint → FlowDropNotification → Type 0
  FromDrop drop labels cs n =
      (c : Constraint) × (c ∈ cs)
      × (n ≡ flow_notification drop c)
      × (is_network c ≡ true)
      × (matches c.workload_selector labels ≡ true)

  -- An end of the drop that is in a namespace, with the labels of its pod.
  abbrev pub EndIn : FlowDrop → String → List (String × String) → Type 0
  EndIn drop ns labels =
      (ns ≢ "")
      × (((ns ≡ drop.source.namespace) × (labels ≡ drop.source.labels))
          ⊎ ((ns ≡ drop.destination.namespace) × (labels ≡ drop.destination.labels)))

  abbrev labels_in : FlowDrop → String → List (String × String)
  labels_in drop ns =
      if ns == drop.source.namespace then drop.source.labels else drop.destination.labels

  abbrev pub Justified : Indexer → FlowDrop → List String → FlowDropNotification → Type 0
  Justified idx drop namespaces n =
      (ns : String) × (ns ∈ namespaces) × FromDrop drop (labels_in drop ns) (by_namespace idx ns) n
