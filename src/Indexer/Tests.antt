-- ===== src/Indexer/Tests.antt =====
-- Witnesses and runs of the store.
use nightjar.Prelude.{◌≡◌, refl, ◌↔◌, true, false, List, [], ◌∷◌, ◌∈◌, length}
use nightjar.Prelude.Dict
use nightjar.Types.{Constraint, GroupVersionResource, zero_constraint, gvr_eqb}
use nightjar.Indexer.{
  Indexer, Call, upserts, deletes, deletes_source, new, run, by_namespace, by_source_gvr,
  delete_by_source, step, count, upsert, delete,
}
use nightjar.Indexer.Invariant.{IsWellFormed, store, spec_run, store-run}
use nightjar.Indexer.Events.{replay, replay-run}
use nightjar.Indexer.Queries.{Stored, Affects, by_namespace_iff, delete_by_source_lem}

abbrev quotas : GroupVersionResource
quotas = record { group = ""; version = "v1"; resource = "resourcequotas" }

abbrev policies : GroupVersionResource
policies = record { group = "networking.k8s.io"; version = "v1"; resource = "networkpolicies" }

abbrev quota : Constraint
quota = record zero_constraint {
  uid = "q";
  name = "compute";
  namespace = "team-a";
  source = quotas;
}

abbrev policy : Constraint
policy = record zero_constraint {
  uid = "p";
  name = "deny-all";
  namespace = "team-b";
  affected_namespaces = "team-a" ∷ [];
  source = policies;
}

abbrev history : List Call
history = upserts quota ∷ upserts policy ∷ deletes "absent" ∷ deletes_source quotas ∷ []

abbrev two : Indexer
two = record { by_uid = ("p", policy) ∷ ("q", quota) ∷ []; on_change = true }

two-IsWellFormed : IsWellFormed two
unfolding Dict.lookup
two-IsWellFormed = record { distinct = (refl, (refl, tt)); keyed = (refl, (refl, tt)) }

store-run_example : store (run history two).0 ≡ spec_run history (store two)
store-run_example = store-run history two two-IsWellFormed

replay-run_example : replay (run history two).1 (store two) ≡ store (run history two).0
replay-run_example = replay-run history two two-IsWellFormed refl

by_namespace_iff_example :
    (policy ∈ by_namespace two "team-a") ↔ (Stored two policy × Affects policy "team-a")
by_namespace_iff_example = by_namespace_iff two "team-a" policy two-IsWellFormed

delete_by_source_lem_example :
    let (idx', events, deleted) = delete_by_source quotas two in
    ((c : Constraint) → Stored idx' c ↔ (Stored two c × (gvr_eqb c.source quotas ≡ false)))
    × (by_source_gvr idx' quotas ≡ [])
    × (deleted ≡ length (by_source_gvr two quotas))
delete_by_source_lem_example = delete_by_source_lem quotas two two-IsWellFormed

-- The quota is gone and the policy stays; the call on an absent UID reported nothing.
history_leaves_policy : count (run history (new true)).0 ≡ 1
unfolding run step count new upsert delete delete_by_source Dict.size Dict.lookup Dict.insert
history_leaves_policy = refl
