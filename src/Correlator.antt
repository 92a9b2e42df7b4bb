-- ===== src/Correlator.antt =====
-- internal/correlator/correlator.go: events and flow drops paired with constraints.
-- The handlers run in two goroutines; each call of one is atomic here, on the state that the
-- goroutines share. What comes from outside is an argument: the limiter of golang.org/x/time/rate,
-- the label matching, and for each round of a loop the clock and what `select` chose.
pub mod Handlers
pub mod Rounds
pub mod Repeats
mod Tests
use nightjar.Prelude.{
  ℕ, suc, ◌+◌, ◌*◌, String, Bool, true, false, not, ◌&&◌, ◌||◌, Option, none, some, List, [], ◌∷◌,
  ◌++◌, if◌then◌else◌, ltb, ◌==◌, string_eq, pair_eq, length, decimal, concat,
}
use nightjar.Prelude.Dict.{Dict}
use nightjar.Types.{
  Constraint, LabelSelector, constraint_type_network_ingress, constraint_type_network_egress,
}
use nightjar.Indexer.{Indexer, by_namespace}
use nightjar.Dedupe
use nightjar.Hubble.Flow.{FlowDrop, WorkloadRef, is_policy_drop}

-- The part of corev1.Event that the handler reads.
pub record Event : Type 0 where
  pub uid : String
  pub involved_namespace : String
  pub involved_name : String
  pub involved_kind : String

pub record CorrelatedNotification : Type 0 where
  pub event : Event
  pub constraint : Constraint
  pub namespace : String
  pub workload_name : String
  pub workload_kind : String

pub record FlowDropNotification : Type 0 where
  pub flow_drop : FlowDrop
  pub constraint : Constraint
  pub source_namespace : String
  pub source_pod_name : String
  pub source_workload : String
  pub source_labels : List (String × String)
  pub dest_namespace : String
  pub dest_pod_name : String
  pub dest_workload : String
  pub dest_labels : List (String × String)
  pub dest_port : ℕ
  pub protocol : String

-- 5 minutes, in nanoseconds
abbrev pub dedupe_window : ℕ
dedupe_window = 5 * 60 * 1000000000

-- the capacity of each channel
abbrev pub notification_buffer : ℕ
notification_buffer = 1000

-- The event's UID, or the key of the flow; and the constraint's UID.
abbrev pub DedupeKey : Type 0
DedupeKey = String × String

-- `rate.Limiter`: its state, and `Allow` at a time.
pub record Limiter : Type 1 where
  pub State : Type 0
  pub allow : ℕ → State → State × Bool

-- What the outside decides in round `i` of a loop: the reading of the clock, and whether `select`
-- took the case `<-ctx.Done()`.
pub record Turns : Type 0 where
  pub now : ℕ → ℕ
  pub done : ℕ → Bool

-- The buffered channels hold what no consumer has taken yet.
pub record Shared : Type 0 where
  pub notifications : List CorrelatedNotification
  pub flow_drops : List FlowDropNotification
  pub seen_pairs : Dict DedupeKey ℕ

-- A send under `select` with a `default`: into a full channel nothing is sent.
pub send : {A : Type 0} → A → List A → List A
send a channel = if ltb (length channel) notification_buffer then channel ++ a ∷ [] else channel

unfoldable pub try_mark_seen : ℕ → DedupeKey → Dict DedupeKey ℕ → Dict DedupeKey ℕ × Bool
unfolding Dedupe.try_mark_seen
try_mark_seen = Dedupe.try_mark_seen dedupe_window

unfoldable pub cleanup_dedupe_cache : ℕ → Dict DedupeKey ℕ → Dict DedupeKey ℕ
unfolding Dedupe.cleanup
cleanup_dedupe_cache = Dedupe.cleanup dedupe_window

pub event_notification : Event → Constraint → CorrelatedNotification
event_notification event c = record {
  event = event;
  constraint = c;
  namespace = event.involved_namespace;
  workload_name = event.involved_name;
  workload_kind = event.involved_kind;
}

-- The loop of `handleEvent` over the constraints of the namespace.
pub notify_all : Turns → ℕ → Event → List Constraint → Shared → Shared
unfolding event_notification send
notify_all turns i event [] s = s
notify_all turns i event (c ∷ cs) s =
    let (seen, fresh) = try_mark_seen (turns.now i) (event.uid, c.uid) s.seen_pairs in
    let marked : Shared = record s { seen_pairs = seen } in
    let sent : Shared = record marked {
      notifications = send (event_notification event c) marked.notifications;
    } in
    let stop = fresh && turns.done i in
    let next : Shared = if fresh then sent else marked in
    let rest = notify_all turns (suc i) event cs next in if stop then marked else rest

pub first_name : List WorkloadRef → String
first_name [] = ""
first_name (w ∷ ws) = w.name

pub flow_notification : FlowDrop → Constraint → FlowDropNotification
unfolding first_name
flow_notification drop c = record {
  flow_drop = drop;
  constraint = c;
  source_namespace = drop.source.namespace;
  source_pod_name = drop.source.pod_name;
  source_workload = first_name drop.source.workloads;
  source_labels = drop.source.labels;
  dest_namespace = drop.destination.namespace;
  dest_pod_name = drop.destination.pod_name;
  dest_workload = first_name drop.destination.workloads;
  dest_labels = drop.destination.labels;
  dest_port = drop.l4.destination_port;
  protocol = drop.l4.protocol;
}

pub flow_key : FlowDrop → String
flow_key drop = concat (
    "flow:"
    ∷ drop.source.pod_name
    ∷ ":"
    ∷ drop.destination.pod_name
    ∷ ":"
    ∷ drop.l4.protocol
    ∷ ":"
    ∷ decimal drop.l4.destination_port
    ∷ [])

pub is_network : Constraint → Bool
is_network c =
    c.constraint_type == constraint_type_network_ingress
    || c.constraint_type == constraint_type_network_egress

module _ (matches_selector : Option LabelSelector → List (String × String) → Bool) where
  -- The loop of `correlateFlowDropInNamespace` over the constraints of the namespace.
  pub notify_flows :
      Turns → ℕ → FlowDrop → List (String × String) → List Constraint → Shared → Shared
  unfolding flow_notification flow_key is_network send
  notify_flows turns i drop match_labels [] s = s
  notify_flows turns i drop match_labels (c ∷ cs) s =
      let (seen, fresh) = try_mark_seen (turns.now i) (flow_key drop, c.uid) s.seen_pairs in
      let marked : Shared = record s { seen_pairs = seen } in
      let sent : Shared = record marked {
        flow_drops = send (flow_notification drop c) marked.flow_drops;
      } in
      let considered = is_network c && matches_selector c.workload_selector match_labels in
      let stop = considered && (fresh && turns.done i) in
      let next : Shared = if considered then (if fresh then sent else marked) else s in
      let rest = notify_flows turns (suc i) drop match_labels cs next in
      if stop then marked else rest

  pub correlate_flow_drop_in_namespace : Indexer → Turns → FlowDrop → String → Shared → Shared
  unfolding notify_flows
  correlate_flow_drop_in_namespace idx turns drop namespace s =
      let match_labels =
        if namespace == drop.source.namespace
        then drop.source.labels
        else drop.destination.labels in
      notify_flows turns 0 drop match_labels (by_namespace idx namespace) s

  -- The namespaces of the two ends, each once, the empty one left out.
  pub drop_namespaces : FlowDrop → List String
  drop_namespaces drop =
      let from = drop.source.namespace in
      let to = drop.destination.namespace in
      (if not (from == "") then from ∷ [] else [])
      ++ (if not (to == "") && not (to == from) then to ∷ [] else [])

  pub correlate_all : Indexer → (ℕ → Turns) → ℕ → FlowDrop → List String → Shared → Shared
  unfolding correlate_flow_drop_in_namespace
  correlate_all idx turns n drop [] s = s
  correlate_all idx turns n drop (ns ∷ rest) s =
      correlate_all idx turns (suc n) drop rest
        (correlate_flow_drop_in_namespace idx (turns n) drop ns s)

  -- `allowed` is the answer of the limiter at `now`.
  pub handle_flow_drop :
      (l : Limiter) → Indexer → ℕ → (ℕ → Turns) → FlowDrop → l.State × Shared → l.State × Shared
  unfolding drop_namespaces correlate_all
  handle_flow_drop l idx now turns drop (limiter, s) =
      let (limiter', allowed) = l.allow now limiter in
      if not (is_policy_drop drop.drop_reason)
      then (limiter, s)
      else if not allowed
      then (limiter', s)
      else (limiter', correlate_all idx turns 0 drop (drop_namespaces drop) s)

pub handle_event : (l : Limiter) → Indexer → ℕ → Turns → Event → l.State × Shared → l.State × Shared
unfolding notify_all
handle_event l idx now turns event (limiter, s) =
    let (limiter', allowed) = l.allow now limiter in
    if not allowed
    then (limiter', s)
    else if event.involved_namespace == ""
    then (limiter', s)
    else (limiter', notify_all turns 0 event (by_namespace idx event.involved_namespace) s)
