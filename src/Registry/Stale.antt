-- ===== src/Registry/Stale.antt =====
-- `RegisterGVR` moves a resource to another adapter and leaves the group map as it is.
use nightjar.Prelude.{◌≡◌, false, none, some, [], ◌∷◌, arith, eq_iff, ◌==◌, string_eq}
use nightjar.Prelude.Dict.{lookup, insert, erase, retain}
use nightjar.Types.{GroupVersionResource, gvr_eq, gvr_eqb_iff}
use nightjar.Registry.{
  Adapter, Registry, new_registry, register, unregister, register_gvr, for_group, for_name, for_gvr,
}

module _ (a b : Adapter) (gvr : GroupVersionResource) where
  registered : Registry
  registered = record {
    adapters = (a.name, a) ∷ [];
    gvr_map = (gvr, a) ∷ [];
    group_map = (gvr.group, a) ∷ [];
  }

  register_one : a.handles ≡ gvr ∷ [] → (register a new_registry).0 ≡ registered
  unfolding register lookup insert erase registered
  register_one handles = rw handles

  moved : Registry
  moved = record {
    adapters = (a.name, a) ∷ [];
    gvr_map = (gvr, b) ∷ [];
    group_map = (gvr.group, a) ∷ [];
  }

  register_gvr_one : register_gvr gvr b registered ≡ moved
  unfolding register_gvr registered moved lookup insert erase
  register_gvr_one = ground (arith, gvr_eqb_iff gvr gvr, eq_iff gvr.group gvr.group)

  unregister_one :
      (b.name == a.name) ≡ false → (unregister a.name moved).0 ≡ record moved { adapters = [] }
  unfolding unregister moved lookup erase retain
  unregister_one other = ground (arith, eq_iff a.name a.name)

-- When `RegisterGVR` moves the only resource of an adapter to another, and the
-- first adapter is then unregistered, `ForGroup` goes on to return the adapter that is gone.
pub unregister_stale_group :
    (a b : Adapter) (gvr : GroupVersionResource)
    → a.handles ≡ gvr ∷ []
    → (b.name == a.name) ≡ false
    → let r = (unregister a.name (register_gvr gvr b (register a new_registry).0)).0 in
      (for_name a.name r ≡ none) × (for_gvr gvr r ≡ some b) × (for_group gvr.group r ≡ some a)
unfolding for_name for_gvr for_group moved lookup
unregister_stale_group a b gvr handles other =
    rw (register_one a b gvr handles, register_gvr_one a b gvr, unregister_one a b gvr other)
      (ground (arith, gvr_eqb_iff gvr gvr, eq_iff gvr.group gvr.group))
