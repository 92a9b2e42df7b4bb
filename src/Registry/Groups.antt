-- ===== src/Registry/Groups.antt =====
-- `Unregister` leaves no entry of the group map that points to the adapter it took out, as long as
-- resources were mapped by `Register` alone.
use nightjar.Prelude.{
  String, ◌≡◌, ◌≢◌, refl, true, false, not, ◌&&◌, ◌||◌, none, some, List, [], ◌∷◌, arith, eq_iff,
  if◌then◌else◌, ◌==◌, string_eq, any, ◌⊎◌, inl, inr, Option-cases,
}
use nightjar.Prelude.Dict.{
  Dict, lookup, retain, lookup-insert, lookup-erase, retain-HasDistinctKeys,
}
use nightjar.Types.{GroupVersionResource, gvr_eq}
use nightjar.Registry.{
  Adapter, Registry, new_registry, groups_of, adapter_in_group, reassign, clean_group, clean_groups,
  register, unregister, for_group,
}
use nightjar.Registry.Invariant.{IsBacked, backed, register-IsBacked}

any-groups_of :
    (name group : String) (m : Dict GroupVersionResource Adapter)
    → any (λ g. g == group) (groups_of name m) ≡ backed name group m
unfolding groups_of any backed
any-groups_of name group [] = refl
any-groups_of name group ((gvr, a) ∷ m) = ground (arith, any-groups_of name group m)

-- What is left after the adapters of a name are dropped.
abbrev without : String → Dict GroupVersionResource Adapter → Dict GroupVersionResource Adapter
without name = retain (λ _ a. not (a.name == name))

backed-without :
    (name other group : String) (m : Dict GroupVersionResource Adapter)
    → backed other group (without name m) ≡ (not (other == name) && backed other group m)
unfolding backed retain
backed-without name other group [] = ground arith
backed-without name other group ((gvr, a) ∷ m) = ground (
  arith,
  backed-without name other group m,
  eq_iff a.name name,
  eq_iff a.name other,
  eq_iff other name,
)

backed_of_adapter_in_group :
    (group : String) (m : Dict GroupVersionResource Adapter) (a : Adapter)
    → adapter_in_group group m ≡ some a
    → backed a.name group m ≡ true
unfolding adapter_in_group backed
backed_of_adapter_in_group group [] a h = cc
backed_of_adapter_in_group group ((gvr, b) ∷ m) a h =
    ground (arith, backed_of_adapter_in_group group m a, eq_iff b.name a.name)

reassigned :
    (name : String) (left : Dict GroupVersionResource Adapter) (group g : String)
    (m : Dict String Adapter)
    → lookup g (reassign left group m)
      ≡ (if group == g then adapter_in_group group left else lookup g m)
unfolding reassign
reassigned name left group g m = elim (Option-cases (adapter_in_group group left)) [
  | inl e ↦ rw (e, reassign) (lookup-erase group g m)
  | inr (a, e) ↦ rw (e, reassign) (lookup-insert group g a m)
]

-- One group is cleaned; the entry of another stays.
lookup-clean_group :
    (name : String) (left : Dict GroupVersionResource Adapter) (group g : String)
    (m : Dict String Adapter) (a : Adapter)
    → lookup g (clean_group name left group m) ≡ some a
    → ((lookup g m ≡ some a) × ((not (group == g) || not (a.name == name)) ≡ true))
      ⊎ (adapter_in_group g left ≡ some a)
unfolding clean_group
lookup-clean_group name left group g m a h = ground (
  arith,
  lookup-insert group g a m,
  eq_iff group g,
  lookup-erase group g m,
  reassigned name left group g m,
)

-- Every entry after the loop stands from before, in a group that was not affected or for another
-- name, or was reassigned.
lookup-clean_groups :
    (name : String) (left : Dict GroupVersionResource Adapter) (groups : List String) (g : String)
    (m : Dict String Adapter) (a : Adapter)
    → lookup g (clean_groups name left groups m) ≡ some a
    → ((lookup g m ≡ some a) × ((not (any (λ x. x == g) groups) || not (a.name == name)) ≡ true))
      ⊎ (adapter_in_group g left ≡ some a)
unfolding clean_groups any
lookup-clean_groups name left [] g m a h = inl (h, refl)
lookup-clean_groups name left (group ∷ groups) g m a h = ground (
  arith,
  lookup-clean_groups name left groups g (clean_group name left group m) a h,
  lookup-clean_group name left group g m a,
)

module _ (name : String) (r : Registry) (v : IsBacked r) where
  -- An entry of the group map after `Unregister` is for another name, and a mapping is behind it.
  entry :
      (group : String) (a : Adapter)
      → (unregister name r).1 ≡ none
      → lookup group (unregister name r).0.group_map ≡ some a
      → ((a.name == name) ≡ false) × (backed a.name group (unregister name r).0.gvr_map ≡ true)
  unfolding unregister
  entry group a ok h =
      let left = without name r.gvr_map in
      ground (
        arith,
        lookup-clean_groups name left (groups_of name r.gvr_map) group r.group_map a,
        any-groups_of name group r.gvr_map,
        backed-without name a.name group r.gvr_map,
        backed_of_adapter_in_group group left a,
        v.behind group a,
        eq_iff a.name name,
      )

-- Where each entry of the group map has a mapping behind it, it has one after `Unregister` too,
-- and no entry is for the name that was taken out.
pub unregister_group :
    (name : String) (r : Registry) (group : String) (a : Adapter)
    → IsBacked r
    → (unregister name r).1 ≡ none
    → for_group group (unregister name r).0 ≡ some a
    → (a.name ≢ name) × (backed a.name group (unregister name r).0.gvr_map ≡ true)
unfolding for_group
unregister_group name r group a v ok h =
    let (other, behind) = entry name r v group a ok h in
    (ground (arith, eq_iff a.name name), behind)

unregister-IsBacked : (name : String) (r : Registry) → IsBacked r → IsBacked (unregister name r).0
unfolding unregister
unregister-IsBacked name r v = elim (Option-cases (lookup name r.adapters)) [
  | inl missing ↦ rw (missing, unregister) (unfold unregister in v)
  | inr (x, found) ↦ record {
    distinct =
        rw (found, unregister)
          (unfold unregister in
            retain-HasDistinctKeys (λ _ a. not (a.name == name)) r.gvr_map v.distinct);
    behind =
        λ group a h. (entry name r v group a (unfold unregister in rw (found, unregister)) h).1;
  }
]

-- The calls that map resources by the adapters' own lists.
pub data Call : Type 0 where
  registers : Adapter → Call
  unregisters : String → Call

unfoldable pub run : List Call → Registry → Registry
run [] r = r
run (registers a ∷ calls) r = run calls (register a r).0
run (unregisters name ∷ calls) r = run calls (unregister name r).0

run-IsBacked : (calls : List Call) (r : Registry) → IsBacked r → IsBacked (run calls r)
unfolding run
run-IsBacked [] r v = v
run-IsBacked (registers a ∷ calls) r v =
    run-IsBacked calls (register a r).0 (register-IsBacked a r v)
run-IsBacked (unregisters name ∷ calls) r v =
    run-IsBacked calls (unregister name r).0 (unregister-IsBacked name r v)

new-IsBacked : IsBacked new_registry
new-IsBacked = record { distinct = tt; behind = λ group a h. unfold lookup in cc }

-- After any calls of `Register` and `Unregister`, failed ones among them, on an empty registry,
-- an adapter that `ForGroup` returns is one of whose name a resource of the group is mapped.
pub run-new-IsBacked : (calls : List Call) → IsBacked (run calls new_registry)
run-new-IsBacked calls = run-IsBacked calls new_registry new-IsBacked
