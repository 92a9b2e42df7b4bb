-- ===== src/Discovery/Tests.antt =====
-- Witnesses and runs of the discovery engine.
use nightjar.Prelude.{
  String, true, false, ◌≡◌, ◌≢◌, ◌↔◌, ◌⊎◌, inl, inr, refl, none, some, List, [], ◌∷◌, arith, ◌∈◌,
  string_eq, eq_iff, if◌then◌else◌, any, ◌==◌, All,
}
use nightjar.Prelude.Dict
use nightjar.Prelude.Dict.{lookup}
use nightjar.Types.{
  Constraint, GroupVersionResource, zero_constraint, gvr_eq, constraint_type_network_ingress,
}
use nightjar.Types.Value.{
  Object, Items, end, field, text, items, object, nil, cons, as_object, as_items, as_string,
  lookup_field, to_list,
}
use nightjar.Util.{Unstructured, safe_nested_map, safe_nested_string_slice, strings_of}
use nightjar.Util.Concrete.{concrete, walk}
use nightjar.Adapters.{Parsed, parsed}
use nightjar.Adapters.NetworkPolicy
use nightjar.Adapters.NetworkPolicy.{egress_constraint, contains_policy_type, extract_policy_types}
use nightjar.Registry.{Adapter, new_registry, for_gvr, for_group}
use nightjar.Indexer
use nightjar.Indexer.{by_type, by_source_gvr}
use nightjar.Indexer.Invariant.{IsWellFormed, store}
use nightjar.Indexer.Queries.{Stored}
use nightjar.Discovery.Engine.{
  Engine, Parsers, an_object, tombstone, is_watched, parse_object, handle_add, handle_update,
  handle_delete,
}
use nightjar.Discovery.Objects.{HasDistinctUids, handle_add-store, handle_delete-handle_add}
use nightjar.Discovery.Stale.{update_keeps_stale, both_directions}
use nightjar.Discovery.Watching.{
  Cluster, ProfileSpec, unregister_profile, is_needed, is_constraint_like, profile_state,
}
use nightjar.Discovery.Profiles.{unregister_profile_lem}
use nightjar.Discovery.Reconciling.{
  Got, get_failed, found, not_found, reconcile_all, spec_of, last_answer, reconcile_all-last_answer,
}
use nightjar.Discovery.Scanning.{scan, is_suppressed}
use nightjar.Discovery.Scans.{Listed, scan_iff}

abbrev policies : GroupVersionResource
policies = record { group = "networking.k8s.io"; version = "v1"; resource = "networkpolicies" }

abbrev empty_index : Indexer.Indexer
empty_index = record { by_uid = []; on_change = false }

abbrev engine : Engine
engine = record {
  registry = new_registry;
  indexer = empty_index;
  watched_gvrs = (policies, true) ∷ [];
  informers = [];
  running = [];
  next = 0;
  stopped = false;
  policy_groups = ("networking.k8s.io", true) ∷ [];
  name_hints = [];
  profiles = [];
  annotated_crds = [];
  check_annotation = true;
}

new_empty : IsWellFormed empty_index
new_empty = record { distinct = tt; keyed = tt }

abbrev strings : List String → Items
strings [] = nil
strings (s ∷ ss) = cons (text s) (strings ss)

abbrev spec : Object
spec = field "policyTypes" (items (strings ("Ingress" ∷ "Egress" ∷ []))) end

abbrev deny_all : Unstructured
deny_all = record {
  uid = "p";
  name = "deny-all";
  namespace = "team-a";
  labels = [];
  annotations = [];
  content = field "spec" (object spec) end;
}

abbrev adapter : Adapter
adapter = record { name = "networkpolicy"; handles = policies ∷ [] }

-- A rule of the object each: its UID before and after.
abbrev rule : String → Constraint
rule uid = record zero_constraint { uid = uid; source = policies }

abbrev parse_rules : Unstructured → GroupVersionResource → Parsed
parse_rules obj gvr =
    parsed (rule "p/first" ∷ (if obj.name == "deny-all" then rule "p/second" ∷ [] else []))

abbrev parsers : Parsers
parsers = record {
  parse = λ _ obj. NetworkPolicy.parse concrete obj;
  parse_with_gvr = parse_rules;
  parse_with_config = λ obj gvr _. parse_rules obj gvr;
}

abbrev shorter : Unstructured
shorter = record deny_all { name = "deny-some" }

abbrev two : List Constraint
two = rule "p/first" ∷ rule "p/second" ∷ []

watched : is_watched policies engine ≡ true
unfolding is_watched Dict.lookup
watched = refl

parses_two : parse_object parsers engine policies deny_all ≡ parsed two
unfolding parse_object Dict.lookup for_gvr for_group
parses_two = refl

parses_one : parse_object parsers engine policies shorter ≡ parsed (rule "p/first" ∷ [])
unfolding parse_object Dict.lookup for_gvr for_group
parses_one = refl

first_second : ◌≢◌ {A = String} "p/first" "p/second"
first_second = ground (arith, eq_iff "p/first" "p/second")

second_first : ◌≢◌ {A = String} "p/second" "p/first"
second_first = ground (arith, eq_iff "p/second" "p/first")

whole_second : ◌≢◌ {A = String} "p" "p/second"
whole_second = ground (arith, eq_iff "p" "p/second")

two-HasDistinctUids : HasDistinctUids two
two-HasDistinctUids = ((second_first, tt), (tt, tt))

handle_add-store_example :
    let idx = (handle_add parsers policies (an_object deny_all) engine).indexer in
    ((c : Constraint) → c ∈ two → store idx c.uid ≡ some c)
    × ((uid : String) → All (λ c. c.uid ≢ uid) two → store idx uid ≡ store engine.indexer uid)
handle_add-store_example =
    handle_add-store parsers policies engine deny_all two watched parses_two two-HasDistinctUids

handle_delete-handle_add_example :
    store
      (handle_delete parsers policies
        (tombstone (some deny_all))
        (handle_add parsers policies (an_object deny_all) engine)).indexer
      "p/second"
    ≡ none
unfolding any
handle_delete-handle_add_example =
    handle_delete-handle_add parsers policies engine deny_all (rule "p/first")
      (rule "p/second" ∷ []) (tombstone (some deny_all)) "p/second" watched parses_two (inr refl)

update_keeps_stale_example :
    let updated =
      handle_update parsers policies
        (an_object shorter)
        (handle_add parsers policies (an_object deny_all) engine) in
    (store updated.indexer "p/second" ≡ some (rule "p/second"))
    × (store (handle_delete parsers policies (an_object shorter) updated).indexer "p/second"
        ≡ some (rule "p/second"))
update_keeps_stale_example =
    update_keeps_stale parsers policies engine deny_all shorter two (rule "p/first" ∷ [])
      (rule "p/second") watched parses_two parses_one two-HasDistinctUids (inr (inl refl))
      (first_second, tt) whole_second

-- The engine with the adapter for NetworkPolicies.
abbrev with_adapter : Engine
with_adapter = record engine {
  registry = record {
    adapters = ("networkpolicy", adapter) ∷ [];
    gvr_map = (policies, adapter) ∷ [];
    group_map = ("networking.k8s.io", adapter) ∷ [];
  };
}

watched_too : is_watched policies with_adapter ≡ true
unfolding is_watched Dict.lookup
watched_too = refl

routed : parse_object parsers with_adapter policies deny_all ≡ NetworkPolicy.parse concrete deny_all
unfolding parse_object Dict.lookup for_gvr
routed = refl

has_spec : safe_nested_map concrete (some deny_all.content) ("spec" ∷ []) ≡ some spec
unfolding safe_nested_map walk as_object lookup_field
has_spec = refl

has_ingress : contains_policy_type (extract_policy_types concrete spec) "Ingress" ≡ true
unfolding contains_policy_type extract_policy_types any safe_nested_string_slice walk as_items
    as_object as_string lookup_field to_list strings_of
has_ingress = refl

has_egress : contains_policy_type (extract_policy_types concrete spec) "Egress" ≡ true
unfolding contains_policy_type extract_policy_types any safe_nested_string_slice walk as_items
    as_object as_string lookup_field to_list strings_of
has_egress = refl

both_directions_example :
    let idx = (handle_add parsers policies (an_object deny_all) with_adapter).indexer in
    (store idx "p" ≡ some (egress_constraint concrete deny_all spec))
    × ((c : Constraint) → c ∈ by_type idx constraint_type_network_ingress → c.uid ≢ "p")
both_directions_example =
    both_directions parsers policies with_adapter concrete deny_all spec new_empty watched_too
      routed has_spec has_ingress has_egress

abbrev client : Cluster
client = record {
  has_dynamic_client = true;
  handler_fails = λ _. false;
  preferred_resources =
      record { group_version = some ("example.com", "v1"); names = "quotas" ∷ "quotas/status" ∷ [] }
      ∷ [];
  crds = none;
}

abbrev quotas : GroupVersionResource
quotas = record { group = "example.com"; version = "v1"; resource = "quotas" }

abbrev quota_spec : ProfileSpec
quota_spec = record {
  gvr = quotas;
  adapter = "";
  field_paths = none;
  severity = "Warning";
  enabled = true;
}

-- The engine with the profile, and a constraint of its resource beside another.
abbrev with_profile : Engine
with_profile = record engine {
  profiles = ("quotas", profile_state quota_spec none) ∷ [];
  indexer = record {
    by_uid = ("q", record zero_constraint { uid = "q"; source = quotas }) ∷ ("p", rule "p") ∷ [];
    on_change = false;
  };
}

stored-IsWellFormed : IsWellFormed with_profile.indexer
unfolding Dict.lookup
stored-IsWellFormed = record { distinct = (refl, (refl, tt)); keyed = (refl, (refl, tt)) }

found_profile : lookup "quotas" with_profile.profiles ≡ some (profile_state quota_spec none)
unfolding Dict.lookup
found_profile = refl

alone : is_needed quotas (Dict.erase "quotas" with_profile.profiles) ≡ false
unfolding is_needed Dict.erase Dict.values any
alone = refl

unregister_profile_lem_example :
    let e' = unregister_profile "quotas" with_profile in
    (is_watched quotas e' ≡ false)
    × (lookup "quotas" e'.profiles ≡ none)
    × (by_source_gvr e'.indexer quotas ≡ [])
    × ((c : Constraint)
        → Stored e'.indexer c ↔ (Stored with_profile.indexer c × ((c.source == quotas) ≡ false)))
unregister_profile_lem_example =
    unregister_profile_lem "quotas" (profile_state quota_spec none) with_profile stored-IsWellFormed
      found_profile alone

scan_iff_example : (is_watched quotas (scan client engine) ≡ true) ↔ (
    (is_watched quotas engine ≡ true)
    ⊎ (Listed quotas client.preferred_resources
        × (is_constraint_like engine quotas "quotas" ≡ true)
        × (is_suppressed quotas engine.profiles ≡ false)))
scan_iff_example = scan_iff client quotas engine

-- The profile is found, a read of it fails, and another profile is found and deleted.
abbrev calls : List (Cluster × String × Got)
calls =
    (client, "quotas", found quota_spec)
    ∷ (client, "limits", found quota_spec)
    ∷ (client, "quotas", get_failed "timeout")
    ∷ (client, "limits", not_found)
    ∷ []

reconcile_all-last_answer_example :
    spec_of (lookup "quotas" (reconcile_all calls engine).profiles)
    ≡ last_answer "quotas" calls (spec_of (lookup "quotas" engine.profiles))
reconcile_all-last_answer_example = reconcile_all-last_answer "quotas" calls engine

spec_kept : last_answer "quotas" calls none ≡ some quota_spec
spec_kept = refl
