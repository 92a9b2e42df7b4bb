-- ===== src/Registry/Register.antt =====
-- `Register` and `Unregister` on the mapping of resources.
use nightjar.Prelude.{
  String, ◌≡◌, refl, not, none, some, List, [], ◌∷◌, arith, if◌then◌else◌, ◌==◌, string_eq, any,
}
use nightjar.Prelude.Dict.{
  HasDistinctKeys, lookup, kept, lookup-insert, lookup-retain, lookup-erase,
}
use nightjar.Types.{GroupVersionResource, gvr_eq, gvr_eqb_iff}
use nightjar.Registry.{
  Adapter, Registry, gvr_already_registered, register_all, map_gvr, register, unregister, for_gvr,
  for_name,
}

gvr_map-register_all :
    (a : Adapter) (gvrs : List GroupVersionResource) (r : Registry) (gvr : GroupVersionResource)
    → (register_all a gvrs r).1 ≡ none
    → lookup gvr (register_all a gvrs r).0.gvr_map
      ≡ (if any (λ g. g == gvr) gvrs then some a else lookup gvr r.gvr_map)
unfolding register_all any
gvr_map-register_all a [] r gvr h = refl
gvr_map-register_all a (g ∷ gvrs) r gvr h =
    ground (arith, gvr_map-register_all a gvrs (map_gvr g a r) gvr, lookup-insert g gvr a r.gvr_map)

adapters-register_all :
    (a : Adapter) (gvrs : List GroupVersionResource) (r : Registry)
    → (register_all a gvrs r).0.adapters ≡ r.adapters
unfolding register_all
adapters-register_all a [] r = refl
adapters-register_all a (g ∷ gvrs) r = ground (arith, adapters-register_all a gvrs (map_gvr g a r))

-- A `Register` that returns no error maps exactly the resources that the adapter handles to it,
-- leaves every other mapping, and makes the adapter the one of its name, which was free.
pub register_lem :
    (a : Adapter) (r : Registry) (gvr : GroupVersionResource) (name : String)
    → (register a r).1 ≡ none
    → let r' = (register a r).0 in
      (for_gvr gvr r' ≡ (if any (λ g. g == gvr) a.handles then some a else for_gvr gvr r))
      × (for_name name r' ≡ (if a.name == name then some a else for_name name r))
      × (for_name a.name r ≡ none)
unfolding register for_gvr for_name
register_lem a r gvr name h = ground (
  arith,
  gvr_map-register_all a a.handles r gvr,
  adapters-register_all a a.handles r,
  lookup-insert a.name name a r.adapters,
)

-- `Unregister` of a name takes out exactly the mappings to adapters of that name, those that
-- `RegisterGVR` added among them, and the name.
pub unregister_lem :
    (name : String) (r : Registry) (gvr : GroupVersionResource) (other : String)
    → HasDistinctKeys r.gvr_map
    → (unregister name r).1 ≡ none
    → let r' = (unregister name r).0 in
      (for_gvr gvr r' ≡ kept (λ a. not (a.name == name)) (for_gvr gvr r))
      × (for_name other r' ≡ (if name == other then none else for_name other r))
unfolding unregister for_gvr for_name
unregister_lem name r gvr other d h = ground (
  arith,
  lookup-retain (λ _ a. not (a.name == name)) gvr r.gvr_map d,
  lookup-erase name other r.adapters,
)

-- If the second of two handled resources is taken and the first is free, `Register` returns an
-- error and leaves the first resource mapped to the adapter, whose name stays unregistered.
pub register_partial :
    (a existing : Adapter) (r : Registry) (first second : GroupVersionResource)
    (rest : List GroupVersionResource)
    → a.handles ≡ first ∷ second ∷ rest
    → for_name a.name r ≡ none
    → for_gvr first r ≡ none
    → for_gvr second r ≡ some existing
    → let (r', result) = register a r in
      (result ≡ some (gvr_already_registered second existing.name a.name))
      × (for_gvr first r' ≡ some a)
      × (for_name a.name r' ≡ none)
unfolding register for_gvr for_name
register_partial a existing r first second rest handles unnamed free taken = ground (
  arith,
  lookup-insert first second a r.gvr_map,
  lookup-insert first first a r.gvr_map,
  gvr_eqb_iff first second,
  gvr_eqb_iff first first,
)
