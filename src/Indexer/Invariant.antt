-- ===== src/Indexer/Invariant.antt =====
-- The map's keys are distinct, and each is the UID of the constraint under it; the store acts as a
-- partial function from UIDs to constraints, whatever order Go keeps the map in.
use nightjar.Prelude.{
  String, ◌≡◌, refl, Bool, not, Option, none, some, [], List, ◌∷◌, arith, eq_iff, if◌then◌else◌,
  ◌==◌, string_eq, Option-cases, inl, inr, ap, ◌∙◌, fun_ext,
}
use nightjar.Prelude.Dict.{
  HasDistinctKeys, lookup, insert, kept, lookup-insert, lookup-erase, erase-HasDistinctKeys,
  insert-HasDistinctKeys,
}
use nightjar.Types.{Constraint, gvr_eq}
use nightjar.Indexer.{
  Indexer, Call, upserts, deletes, deletes_source, upsert, delete, step, run, new,
}
use nightjar.Indexer.Sources.{
  IsKeyed, erase-IsKeyed, delete_by_source-IsKeyed, delete_by_source-HasDistinctKeys,
  lookup-delete_by_source,
}

pub record IsWellFormed (idx : Indexer) : Type 0 where
  pub distinct : HasDistinctKeys idx.by_uid
  pub keyed : IsKeyed idx.by_uid

upsert-IsWellFormed :
    (c : Constraint) (idx : Indexer) → IsWellFormed idx → IsWellFormed (upsert c idx).0
unfolding upsert
upsert-IsWellFormed c idx w = record {
  distinct = insert-HasDistinctKeys c.uid c idx.by_uid w.distinct;
  keyed = unfold insert in (refl, erase-IsKeyed c.uid idx.by_uid w.keyed);
}

delete-IsWellFormed :
    (uid : String) (idx : Indexer) → IsWellFormed idx → IsWellFormed (delete uid idx).0
unfolding delete
delete-IsWellFormed uid idx w = elim (Option-cases (lookup uid idx.by_uid)) [
  | inl e ↦ rw (e, delete) w
  | inr (c, e) ↦
      rw (e, delete)
        (record {
          distinct = erase-HasDistinctKeys uid idx.by_uid w.distinct;
          keyed = erase-IsKeyed uid idx.by_uid w.keyed;
        })
]

-- Every call keeps the store well formed.
pub step-IsWellFormed :
    (call : Call) (idx : Indexer) → IsWellFormed idx → IsWellFormed (step call idx).0
unfolding step
step-IsWellFormed (upserts c) idx w = upsert-IsWellFormed c idx w
step-IsWellFormed (deletes uid) idx w = delete-IsWellFormed uid idx w
step-IsWellFormed (deletes_source gvr) idx w = record {
  distinct = delete_by_source-HasDistinctKeys gvr idx w.distinct;
  keyed = delete_by_source-IsKeyed gvr idx w.keyed;
}

run-IsWellFormed :
    (calls : List Call) (idx : Indexer) → IsWellFormed idx → IsWellFormed (run calls idx).0
unfolding run
run-IsWellFormed [] idx w = w
run-IsWellFormed (call ∷ calls) idx w =
    run-IsWellFormed calls (step call idx).0 (step-IsWellFormed call idx w)

new-IsWellFormed : (on_change : Bool) → IsWellFormed (new on_change)
unfolding new
new-IsWellFormed on_change = record { distinct = tt; keyed = tt }

-- After any history of calls from the new store, the keys of the map are distinct and each
-- constraint stands under its own UID.
pub run-new-IsWellFormed :
    (on_change : Bool) (calls : List Call) → IsWellFormed (run calls (new on_change)).0
run-new-IsWellFormed on_change calls =
    run-IsWellFormed calls (new on_change) (new-IsWellFormed on_change)

-- The store as a function, which forgets the order of the map.
abbrev pub Store : Type 0
Store = String → Option Constraint

abbrev pub store : Indexer → Store
store idx uid = lookup uid idx.by_uid

pub store-upsert :
    (c : Constraint) (idx : Indexer) (uid : String)
    → store (upsert c idx).0 uid ≡ (if c.uid == uid then some c else store idx uid)
unfolding upsert
store-upsert c idx uid = lookup-insert c.uid uid c idx.by_uid

pub store-delete :
    (u : String) (idx : Indexer) (uid : String)
    → store (delete u idx).0 uid ≡ (if u == uid then none else store idx uid)
unfolding delete
store-delete u idx uid = ground (arith, lookup-erase u uid idx.by_uid, eq_iff u uid)

-- What a call does to the function.
abbrev pub spec_step : Call → Store → Store
spec_step (upserts c) f uid = if c.uid == uid then some c else f uid
spec_step (deletes u) f uid = if u == uid then none else f uid
spec_step (deletes_source gvr) f uid = kept (λ c. not (c.source == gvr)) (f uid)

abbrev pub spec_run : List Call → Store → Store
spec_run [] f = f
spec_run (call ∷ calls) f = spec_run calls (spec_step call f)

-- Each call does to the stored map what the specification says, at every UID.
pub store-step :
    (call : Call) (idx : Indexer) (uid : String)
    → IsWellFormed idx
    → store (step call idx).0 uid ≡ spec_step call (store idx) uid
unfolding step
store-step (upserts c) idx uid w = store-upsert c idx uid
store-step (deletes u) idx uid w = store-delete u idx uid
store-step (deletes_source gvr) idx uid w = lookup-delete_by_source gvr uid idx w.distinct

-- From a well-formed store, any history leaves the store that the specification computes.
pub store-run :
    (calls : List Call) (idx : Indexer)
    → IsWellFormed idx
    → store (run calls idx).0 ≡ spec_run calls (store idx)
unfolding run
store-run [] idx w = refl
store-run (call ∷ calls) idx w =
    store-run calls (step call idx).0 (step-IsWellFormed call idx w)
    ∙ ap (spec_run calls) (fun_ext (λ uid. store-step call idx uid w))
