-- ===== src/Pipeline/Tests.antt =====
-- A run from an object to a notification.
use nightjar.Prelude.{◌≡◌, refl, true, false, [], ◌∷◌, arith, ◌∈◌, inl, inr, keep, string_eq}
use nightjar.Prelude.Dict
use nightjar.Types.{Constraint, GroupVersionResource, zero_constraint, gvr_eq}
use nightjar.Types.Value
use nightjar.Util.{Unstructured}
use nightjar.Adapters.{parsed}
use nightjar.Registry.{new_registry, for_gvr, for_group}
use nightjar.Indexer.{Indexer, by_namespace, matches_namespace}
use nightjar.Indexer
use nightjar.Correlator.{Event, Limiter, Turns, Shared, handle_event}
use nightjar.Correlator.Handlers.{told}
use nightjar.Correlator.Repeats.{IsFirst}
use nightjar.Discovery.Engine.{
  Engine, Parsers, an_object, is_watched, parse_object, handle_add, store_parsed, upsert_all,
}
use nightjar.Pipeline.Notified.{handle_event-handle_add}

abbrev quotas : GroupVersionResource
quotas = record { group = ""; version = "v1"; resource = "resourcequotas" }

abbrev engine : Engine
engine = record {
  registry = new_registry;
  indexer = record { by_uid = []; on_change = false };
  watched_gvrs = (quotas, true) ∷ [];
  informers = [];
  running = [];
  next = 0;
  stopped = false;
  policy_groups = [];
  name_hints = [];
  profiles = [];
  annotated_crds = [];
  check_annotation = false;
}

abbrev quota : Constraint
quota = record zero_constraint { uid = "q"; source = quotas; namespace = "team-a" }

abbrev parsers : Parsers
parsers = record {
  parse = λ _ _. parsed [];
  parse_with_gvr = λ _ _. parsed (quota ∷ []);
  parse_with_config = λ _ _ _. parsed [];
}

abbrev object : Unstructured
object = record {
  uid = "q";
  name = "quota";
  namespace = "team-a";
  labels = [];
  annotations = [];
  content = Value.end;
}

abbrev limiter : Limiter
limiter = record { State = Unit {0}; allow = λ _ s. (s, true) }

abbrev turns : Turns
turns = record { now = λ _. 7; done = λ _. false }

abbrev event : Event
event = record {
  uid = "e";
  involved_namespace = "team-a";
  involved_name = "web";
  involved_kind = "Deployment";
}

abbrev idle : Shared
idle = record { notifications = []; flow_drops = []; seen_pairs = [] }

watched : is_watched quotas engine ≡ true
unfolding is_watched Dict.lookup
watched = refl

parses : parse_object parsers engine quotas object ≡ parsed (quota ∷ [])
unfolding parse_object Dict.lookup for_gvr for_group
parses = refl

first :
    IsFirst limiter
      (handle_add parsers quotas (an_object object) engine).indexer
      7
      turns
      event
      tt
      idle
unfolding handle_add is_watched parse_object store_parsed upsert_all Indexer.upsert by_namespace
    matches_namespace Dict.lookup Dict.insert Dict.erase Dict.values keep for_gvr for_group
first = record {
  allowed = refl;
  namespaced = refl;
  running = λ _. refl;
  well_formed = record { distinct = (refl, tt); keyed = (refl, tt) };
  unseen = λ _. refl;
  room = omega arith;
}

handle_event-handle_add_example :
    told event quota
    ∈ (handle_event limiter
        (handle_add parsers quotas (an_object object) engine).indexer
        7
        turns
        event
        (tt, idle)).1.notifications
handle_event-handle_add_example =
    handle_event-handle_add parsers quotas engine object (quota ∷ []) quota limiter 7 turns event tt
      idle watched parses (tt, tt) (inl refl) (inr (inl refl)) first
