-- ===== src/Correlator/Tests.antt =====
-- Witnesses and runs of the correlator.
use nightjar.Prelude.{
  keep, ℕ, String, ◌≡◌, ◌≢◌, refl, ◌⊎◌, inl, Bool, true, false, Option, none, List, [], ◌∷◌, ◌++◌,
  map, arith, ◌∈◌,
}
use nightjar.Prelude.Dict
use nightjar.Types.{Constraint, LabelSelector, zero_constraint}
use nightjar.Indexer.{Indexer, by_namespace, matches_namespace}
use nightjar.Hubble.Flow.{FlowDrop, Endpoint}
use nightjar.Correlator.{
  Event, Limiter, Turns, Shared, event_notification, handle_event, try_mark_seen,
}
use nightjar.Correlator.Handlers.{told, FromEvent, handle_event_sound}
use nightjar.Correlator.Repeats.{IsFirst, handle_event_complete, handle_event_again}

-- A limiter that refuses nothing.
abbrev open_limiter : Limiter
open_limiter = record { State = Unit {0}; allow = λ _ s. (s, true) }

-- A clock that stands still.
abbrev still : ℕ → Turns
still t = record { now = λ _. t; done = λ _. false }

abbrev cluster_policy : Constraint
cluster_policy = record zero_constraint {
  uid = "p";
  name = "restrict";
  constraint_type = "NetworkEgress";
}

abbrev idx : Indexer
idx = record { by_uid = ("p", cluster_policy) ∷ []; on_change = false }

abbrev event : Event
event = record {
  uid = "e1";
  involved_namespace = "team-a";
  involved_name = "web";
  involved_kind = "Deployment";
}

abbrev idle : Shared
idle = record { notifications = []; flow_drops = []; seen_pairs = [] }

first : IsFirst open_limiter idx 7 (still 7) event tt idle
unfolding by_namespace matches_namespace Dict.lookup Dict.values keep
first = record {
  allowed = refl;
  namespaced = refl;
  running = λ _. refl;
  well_formed = record { distinct = (refl, tt); keyed = (refl, tt) };
  unseen = λ _. refl;
  room = omega arith;
}

sent :
    (handle_event open_limiter idx 7 (still 7) event (tt, idle)).1.notifications
    ≡ event_notification event cluster_policy ∷ []
unfolding try_mark_seen handle_event by_namespace matches_namespace Dict.lookup Dict.values
    Dict.insert keep
sent = refl

handle_event_sound_example :
    (event_notification event cluster_policy ∈ [])
    ⊎ ((event.involved_namespace ≢ "")
        × FromEvent event (by_namespace idx "team-a") (event_notification event cluster_policy))
handle_event_sound_example =
    handle_event_sound open_limiter idx 7 (still 7) event tt idle
      (event_notification event cluster_policy) (rw sent (inl refl))

handle_event_complete_example :
    (handle_event open_limiter idx 7 (still 7) event (tt, idle)).1.notifications
    ≡ [] ++ map (told event) (by_namespace idx "team-a")
handle_event_complete_example =
    handle_event_complete open_limiter idx 7 (still 7) event tt idle first

handle_event_again_example :
    let s' = (handle_event open_limiter idx 7 (still 7) event (tt, idle)).1 in
    (handle_event open_limiter idx 9 (still 9) event (tt, s')).1 ≡ s'
handle_event_again_example =
    handle_event_again open_limiter idx 7 9 7 (still 7) (still 9) event tt tt idle first
      (λ _. omega arith) (λ _. omega arith)

abbrev pod : String → Endpoint
pod ns = record { identity = 1; namespace = ns; pod_name = "web-0"; labels = []; workloads = [] }

abbrev drop_in : String → FlowDrop
drop_in ns = record {
  time = 0;
  source = pod ns;
  destination = pod ns;
  ip = record { source = ""; destination = "" };
  l4 = record { protocol = "TCP"; source_port = 1; destination_port = 443; tcp = none };
  drop_reason = "POLICY_DENIED";
  policy_name = "";
  trace_id = "";
}

abbrev everything : Option LabelSelector → List (String × String) → Bool
everything _ _ = true
