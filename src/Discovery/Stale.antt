-- ===== src/Discovery/Stale.antt =====
-- internal/discovery/engine.go: what stays in the index that should not, or is missing from it.
use nightjar.Prelude.{
  String, true, false, ◌≡◌, ◌≢◌, refl, ◌∙◌, some, List, [], ◌∷◌, arith, eq_iff, string_eq, any, ◌∈◌,
  All,
}
use text.Mathlib.TextPositions.{eq_refl}
use nightjar.Types.{
  Constraint, GroupVersionResource, constraint_type_network_ingress, constraint_type_network_egress,
}
use nightjar.Types.Value.{Object}
use nightjar.Util.{Library, Unstructured, safe_nested_map}
use nightjar.Adapters.{Parsed, parsed}
use nightjar.Adapters.NetworkPolicy
use nightjar.Adapters.NetworkPolicy.{
  contains_policy_type, extract_policy_types, ingress_constraint, egress_constraint,
}
use nightjar.Indexer
use nightjar.Indexer.{Indexer, by_type}
use nightjar.Indexer.Invariant.{IsWellFormed, store, store-upsert, store-delete, step-IsWellFormed}
use nightjar.Indexer.Queries.{by_type_iff}
use nightjar.Discovery.Engine.{
  Engine, Parsers, an_object, is_watched, parse_object, upsert_all, delete_parsed, handle_add,
  handle_update, handle_delete,
}
use nightjar.Discovery.Objects.{
  HasDistinctUids, has_uid, stored, other_uid, store-delete_all, parse_object-indexer,
  handle_add_lem,
}

has_none :
    (uid : String) (cs : List Constraint) → All (λ c. c.uid ≢ uid) cs → has_uid uid cs ≡ false
unfolding any
has_none uid [] h = refl
has_none uid (c ∷ cs) h = ground (arith, eq_iff c.uid uid, has_none uid cs h.1)

other_deleted :
    (uid object_uid : String) (p : Parsed) (cs : List Constraint) (e : Engine)
    → p ≡ parsed cs
    → All (λ c. c.uid ≢ uid) cs
    → object_uid ≢ uid
    → store (delete_parsed p object_uid e).indexer uid ≡ store e.indexer uid
unfolding delete_parsed
other_deleted uid object_uid p [] e is h other =
    rw (is, delete_parsed)
      (ground (arith, store-delete object_uid e.indexer uid, eq_iff object_uid uid))
other_deleted uid object_uid p (c ∷ cs) e is h other =
    rw (is, delete_parsed)
      (store-delete_all uid (c ∷ cs) e.indexer ∙ rw (has_none uid (c ∷ cs) h) refl)

module _ (parsers : Parsers) (gvr : GroupVersionResource) (e : Engine) where
  handle_update_lem :
      (obj : Unstructured)
      → handle_update parsers gvr (an_object obj) e ≡ handle_add parsers gvr (an_object obj) e
  unfolding handle_update
  handle_update_lem obj = refl

  handle_delete_lem :
      (obj : Unstructured)
      → handle_delete parsers gvr (an_object obj) e
        ≡ delete_parsed (parse_object parsers e gvr obj) obj.uid e
  unfolding handle_delete
  handle_delete_lem obj = refl

  is_watched-indexer :
      (idx : Indexer) → is_watched gvr (record e { indexer = idx }) ≡ is_watched gvr e
  unfolding is_watched
  is_watched-indexer idx = refl

module _ (parsers : Parsers) (gvr : GroupVersionResource) (e : Engine) where
  -- Where the resource is watched, a constraint of the old version of an object whose UID is that
  -- of no constraint of the new version, nor of the object, is in the store after the update to
  -- the new version, and still after the deletion of that version.
  pub update_keeps_stale :
      (old new : Unstructured) (cs ds : List Constraint) (c : Constraint)
      → is_watched gvr e ≡ true
      → parse_object parsers e gvr old ≡ parsed cs
      → parse_object parsers e gvr new ≡ parsed ds
      → HasDistinctUids cs
      → c ∈ cs
      → All (λ d. d.uid ≢ c.uid) ds
      → new.uid ≢ c.uid
      → let updated =
          handle_update parsers gvr (an_object new) (handle_add parsers gvr (an_object old) e) in
        (store updated.indexer c.uid ≡ some c)
        × (store (handle_delete parsers gvr (an_object new) updated).indexer c.uid ≡ some c)
  update_keeps_stale old new cs ds c watched parses parses' distinct m others other =
      let first = upsert_all cs e.indexer in
      let e1 : Engine = record e { indexer = first } in
      let e2 : Engine = record e { indexer = upsert_all ds first } in
      let kept = other_uid c.uid ds first others ∙ stored c cs e.indexer distinct m in
      let updated =
        handle_update_lem parsers gvr e1 new
        ∙ handle_add_lem parsers gvr e1 new ds (is_watched-indexer parsers gvr e first ∙ watched)
            (parse_object-indexer parsers gvr e new first ∙ parses') in
      let reparsed = parse_object-indexer parsers gvr e new (upsert_all ds first) ∙ parses' in
      rw (handle_add_lem parsers gvr e old cs watched parses, updated)
        (
          kept,
          rw (handle_delete_lem parsers gvr e2 new)
              (other_deleted c.uid new.uid _ ds e2 reparsed others other ∙ kept),
        )

parse-both :
    (lib : Library) (obj : Unstructured) (spec : Object)
    → safe_nested_map lib (some obj.content) ("spec" ∷ []) ≡ some spec
    → contains_policy_type (extract_policy_types lib spec) "Ingress" ≡ true
    → contains_policy_type (extract_policy_types lib spec) "Egress" ≡ true
    → NetworkPolicy.parse lib obj
      ≡ parsed (ingress_constraint lib obj spec ∷ egress_constraint lib obj spec ∷ [])
unfolding NetworkPolicy.parse
parse-both lib obj spec has_spec ingress egress =
    rw (has_spec, NetworkPolicy.parse, ingress, egress) refl

module _ (lib : Library) (obj : Unstructured) (spec : Object) (idx : Indexer) where
  both : List Constraint
  both = ingress_constraint lib obj spec ∷ egress_constraint lib obj spec ∷ []

  egress_last : store (upsert_all both idx) obj.uid ≡ some (egress_constraint lib obj spec)
  unfolding both upsert_all egress_constraint
  egress_last = store-upsert (egress_constraint lib obj spec) _ obj.uid ∙ rw (eq_refl obj.uid) refl

  both-IsWellFormed : IsWellFormed idx → IsWellFormed (upsert_all both idx)
  unfolding both upsert_all Indexer.step
  both-IsWellFormed w =
      step-IsWellFormed (Indexer.upserts (egress_constraint lib obj spec)) _
        (step-IsWellFormed (Indexer.upserts (ingress_constraint lib obj spec)) idx w)

  ingress_lost :
      (c : Constraint)
      → IsWellFormed idx
      → c ∈ by_type (upsert_all both idx) constraint_type_network_ingress
      → c.uid ≢ obj.uid
  unfolding egress_constraint
  ingress_lost c w m same =
      let (found, type) =
        (by_type_iff (upsert_all both idx) constraint_type_network_ingress c
            (both-IsWellFormed w)).0
          m in
      ground (
        arith,
        egress_last,
        found,
        type,
        eq_iff constraint_type_network_ingress constraint_type_network_egress,
      )

-- Where the adapter for NetworkPolicies parses the object, and the policy has both directions, the
-- store holds the egress constraint under the UID of the object after its addition, and ByType
-- finds no ingress constraint of that UID.
pub both_directions :
    (parsers : Parsers) (gvr : GroupVersionResource) (e : Engine) (lib : Library)
    (obj : Unstructured) (spec : Object)
    → IsWellFormed e.indexer
    → is_watched gvr e ≡ true
    → parse_object parsers e gvr obj ≡ NetworkPolicy.parse lib obj
    → safe_nested_map lib (some obj.content) ("spec" ∷ []) ≡ some spec
    → contains_policy_type (extract_policy_types lib spec) "Ingress" ≡ true
    → contains_policy_type (extract_policy_types lib spec) "Egress" ≡ true
    → let idx = (handle_add parsers gvr (an_object obj) e).indexer in
      (store idx obj.uid ≡ some (egress_constraint lib obj spec))
      × ((c : Constraint) → c ∈ by_type idx constraint_type_network_ingress → c.uid ≢ obj.uid)
unfolding both
both_directions parsers gvr e lib obj spec w watched parses has_spec ingress egress =
    let both_parsed = parses ∙ parse-both lib obj spec has_spec ingress egress in
    rw (handle_add_lem parsers gvr e obj _ watched both_parsed)
      (egress_last lib obj spec e.indexer, λ c m. ingress_lost lib obj spec e.indexer c w m)
