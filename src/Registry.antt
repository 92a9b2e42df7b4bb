-- ===== src/Registry.antt =====
-- internal/adapters/registry.go: which adapter parses which resources. The mutex makes each method
-- atomic. An adapter is known here by its name and the resources that it handles.
pub mod Invariant
pub mod Register
pub mod Groups
pub mod Stale
mod Tests
use nightjar.Prelude.{
  String, Bool, true, false, not, ◌&&◌, Option, none, some, List, [], ◌∷◌, ◌++◌, if◌then◌else◌,
  ◌==◌, string_eq, any,
}
use nightjar.Prelude.Dict.{Dict, lookup, insert, erase, retain, values, keys}
use nightjar.Types.{GroupVersionResource, gvr_eq}

-- types.Adapter, without `Parse`, which the registry never calls
pub record Adapter : Type 0 where
  pub name : String
  pub handles : List GroupVersionResource

pub record Registry : Type 0 where
  pub adapters : Dict String Adapter
  pub gvr_map : Dict GroupVersionResource Adapter
  pub group_map : Dict String Adapter

abbrev pub new_registry : Registry
new_registry = record { adapters = []; gvr_map = []; group_map = [] }

-- The errors of the methods, with the values that their texts hold.
pub data Error : Type 0 where
  adapter_already_registered : String → Error
  gvr_already_registered : GroupVersionResource → String → String → Error
  adapter_not_registered : String → Error

-- "First adapter for each group wins."
pub index_group : String → Adapter → Dict String Adapter → Dict String Adapter
index_group group adapter m = elim (lookup group m) [ none ↦ insert group adapter m | some _ ↦ m ]

pub map_gvr : GroupVersionResource → Adapter → Registry → Registry
unfolding index_group
map_gvr gvr adapter r = record r {
  gvr_map = insert gvr adapter r.gvr_map;
  group_map = index_group gvr.group adapter r.group_map;
}

-- The loop of `Register` over the handled resources. What it wrote before an error stays.
pub register_all : Adapter → List GroupVersionResource → Registry → Registry × Option Error
unfolding map_gvr
register_all adapter [] r = (r, none)
register_all adapter (gvr ∷ gvrs) r =
    let rest = register_all adapter gvrs (map_gvr gvr adapter r) in
    elim (lookup gvr r.gvr_map) [
      | some existing ↦ (r, some (gvr_already_registered gvr existing.name adapter.name))
      | none ↦ rest
    ]

finish : Adapter → Registry × Option Error → Registry × Option Error
finish adapter (r, some e) = (r, some e)
finish adapter (r, none) = (record r { adapters = insert adapter.name adapter r.adapters }, none)

pub register : Adapter → Registry → Registry × Option Error
unfolding register_all finish
register adapter r = elim (lookup adapter.name r.adapters) [
  | some _ ↦ (r, some (adapter_already_registered adapter.name))
  | none ↦ finish adapter (register_all adapter adapter.handles r)
]

unfoldable pub for_gvr : GroupVersionResource → Registry → Option Adapter
for_gvr gvr r = lookup gvr r.gvr_map

unfoldable pub for_name : String → Registry → Option Adapter
for_name name r = lookup name r.adapters

unfoldable pub for_group : String → Registry → Option Adapter
for_group group r = lookup group r.group_map

unfoldable pub all : Registry → List Adapter
all r = values r.adapters

unfoldable pub handled_gvrs : Registry → List GroupVersionResource
handled_gvrs r = keys r.gvr_map

-- The first loop of `Unregister`: the groups of the mappings that it deletes.
pub groups_of : String → Dict GroupVersionResource Adapter → List String
groups_of name [] = []
groups_of name ((gvr, a) ∷ m) =
    let rest = groups_of name m in if a.name == name then gvr.group ∷ rest else rest

-- The first adapter that the loop meets among the mappings of a group.
pub adapter_in_group : String → Dict GroupVersionResource Adapter → Option Adapter
adapter_in_group group [] = none
adapter_in_group group ((gvr, a) ∷ m) =
    if gvr.group == group then some a else adapter_in_group group m

pub reassign :
    Dict GroupVersionResource Adapter → String → Dict String Adapter → Dict String Adapter
unfolding adapter_in_group
reassign gvr_map group m = elim (adapter_in_group group gvr_map) [
  | some a ↦ insert group a m
  | none ↦ erase group m
]

pub clean_group :
    String → Dict GroupVersionResource Adapter → String → Dict String Adapter → Dict String Adapter
unfolding reassign
clean_group name gvr_map group m = elim (lookup group m) [
  | none ↦ m
  | some g ↦ if g.name == name then reassign gvr_map group m else m
]

-- The second loop: the affected groups, with the mappings that are left. The source has a set of
-- groups; a group that stands twice in the list is left alone the second time.
pub clean_groups :
    String
    → Dict GroupVersionResource Adapter
    → List String
    → Dict String Adapter
    → Dict String Adapter
unfolding clean_group
clean_groups name gvr_map [] m = m
clean_groups name gvr_map (group ∷ groups) m =
    clean_groups name gvr_map groups (clean_group name gvr_map group m)

pub unregister : String → Registry → Registry × Option Error
unfolding groups_of clean_groups
unregister name r = elim (lookup name r.adapters) [
  | none ↦ (r, some (adapter_not_registered name))
  | some _ ↦
      let left = retain (λ _ a. not (a.name == name)) r.gvr_map in
      (
        record {
          adapters = erase name r.adapters;
          gvr_map = left;
          group_map = clean_groups name left (groups_of name r.gvr_map) r.group_map;
        },
        none,
      )
]

pub register_gvr : GroupVersionResource → Adapter → Registry → Registry
unfolding map_gvr
register_gvr gvr adapter r = map_gvr gvr adapter r

-- Is another mapping of the group left?
pub group_is_mapped : String → Dict GroupVersionResource Adapter → Bool
group_is_mapped group m = any (λ gvr. gvr.group == group) (keys m)

pub unregister_gvr : GroupVersionResource → Registry → Registry
unfolding group_is_mapped
unregister_gvr gvr r = elim (lookup gvr r.gvr_map) [
  | none ↦ r
  | some adapter ↦
      let left = erase gvr r.gvr_map in
      record r {
        gvr_map = left;
        group_map = elim (lookup gvr.group r.group_map) [
          | none ↦ r.group_map
          | some g ↦
              if (g.name == adapter.name) && not (group_is_mapped gvr.group left)
              then erase gvr.group r.group_map
              else r.group_map
        ];
      }
]
