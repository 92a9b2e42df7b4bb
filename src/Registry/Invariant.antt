-- ===== src/Registry/Invariant.antt =====
-- What stands behind an entry of the group map, and that `Register` and `Unregister` keep it.
use nightjar.Prelude.{
  String, ◌≡◌, refl, Bool, true, false, ◌&&◌, ◌||◌, Option, none, some, List, [], ◌∷◌, arith,
  eq_iff, ◌==◌, string_eq, inl, inr, Option-cases,
}
use nightjar.Prelude.Dict.{
  Dict, HasDistinctKeys, lookup, insert, erase, lookup-insert, insert-HasDistinctKeys,
}
use nightjar.Types.{GroupVersionResource, gvr_eq}
use nightjar.Registry.{Adapter, Registry, Error, map_gvr, register_all, finish, register}

-- Some resource of the group is mapped to an adapter of the name.
unfoldable pub backed : String → String → Dict GroupVersionResource Adapter → Bool
backed name group [] = false
backed name group ((gvr, a) ∷ m) = (gvr.group == group && a.name == name) || backed name group m

-- The mappings have distinct resources, and each adapter of the group map has a mapping of its
-- group.
pub record IsBacked (r : Registry) : Type 0 where
  pub distinct : HasDistinctKeys r.gvr_map
  pub behind :
      (group : String) (a : Adapter)
      → lookup group r.group_map ≡ some a
      → backed a.name group r.gvr_map ≡ true

erase_absent :
    (gvr : GroupVersionResource) (m : Dict GroupVersionResource Adapter)
    → lookup gvr m ≡ none
    → erase gvr m ≡ m
unfolding lookup erase
erase_absent gvr [] h = refl
erase_absent gvr ((g, a) ∷ m) h = ground (arith, erase_absent gvr m)

backed-insert :
    (name group : String) (gvr : GroupVersionResource) (a : Adapter)
    (m : Dict GroupVersionResource Adapter)
    → lookup gvr m ≡ none
    → backed name group (insert gvr a m)
      ≡ ((gvr.group == group && a.name == name) || backed name group m)
unfolding insert
backed-insert name group gvr a m h = rw (erase_absent gvr m h) (unfold backed in refl)

map_gvr-IsBacked :
    (gvr : GroupVersionResource) (a : Adapter) (r : Registry)
    → lookup gvr r.gvr_map ≡ none
    → IsBacked r
    → IsBacked (map_gvr gvr a r)
unfolding map_gvr
map_gvr-IsBacked gvr a r free v = record {
  distinct = insert-HasDistinctKeys gvr a r.gvr_map v.distinct;
  behind = λ group x h. ground (
    arith,
    backed-insert x.name group gvr a r.gvr_map free,
    lookup-insert gvr.group group a r.group_map,
    eq_iff gvr.group group,
    eq_iff a.name x.name,
    v.behind group x,
  );
}

register_all-IsBacked :
    (a : Adapter) (gvrs : List GroupVersionResource) (r : Registry)
    → IsBacked r
    → IsBacked (register_all a gvrs r).0
unfolding register_all
register_all-IsBacked a [] r v = v
register_all-IsBacked a (g ∷ gvrs) r v = elim (Option-cases (lookup g r.gvr_map)) [
  | inr (x, taken) ↦ rw (taken, register_all) v
  | inl free ↦
      rw (free, register_all)
        (register_all-IsBacked a gvrs (map_gvr g a r) (map_gvr-IsBacked g a r free v))
]

finish-IsBacked :
    (a : Adapter) (r : Registry × Option Error) → IsBacked r.0 → IsBacked (finish a r).0
unfolding finish
finish-IsBacked a (r, some e) v = v
finish-IsBacked a (r, none) v = record { distinct = v.distinct; behind = v.behind }

-- Also a `Register` that fails keeps an adapter behind each entry of the group map.
pub register-IsBacked : (a : Adapter) (r : Registry) → IsBacked r → IsBacked (register a r).0
unfolding register
register-IsBacked a r v = elim (Option-cases (lookup a.name r.adapters)) [
  | inr (x, taken) ↦ rw (taken, register) v
  | inl free ↦ rw (free, register) (finish-IsBacked a _ (register_all-IsBacked a a.handles r v))
]
