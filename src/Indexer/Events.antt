-- ===== src/Indexer/Events.antt =====
-- The stream of `onChange` events, and a subscriber that mirrors the store from it.
use nightjar.Prelude.{
  String, ◌≡◌, refl, ap, ◌∙◌, fun_ext, true, none, some, List, [], ◌∷◌, ◌++◌, arith, eq_iff,
  if◌then◌else◌, ◌==◌, string_eq, any, Option-cases, inl, inr, sym,
}
use nightjar.Prelude.Dict.{lookup}
use nightjar.Types.{Constraint, gvr_eq}
use nightjar.Indexer.{
  Indexer, IndexEvent, Call, upserts, deletes, deletes_source, upsert, delete, delete_by_source,
  step, run, notify, delete_event, delete_events, take_out, uids_of_source,
}
use nightjar.Indexer.Invariant.{
  IsWellFormed, Store, store, step-IsWellFormed, spec_step, store-step,
}
use nightjar.Indexer.Sources.{
  uids, uids_of_source-take_out, any-uids_of_source, on_change-delete_by_source, uid_of_lookup,
}

-- A subscriber keeps the constraint of an "upsert" event, and forgets that of any other.
abbrev pub apply_event : IndexEvent → Store → Store
apply_event event f uid =
    if event.constraint.uid == uid
    then (if event.type == "upsert" then some event.constraint else none)
    else f uid

abbrev pub replay : List IndexEvent → Store → Store
replay [] f = f
replay (event ∷ events) f = replay events (apply_event event f)

replay-append :
    (xs ys : List IndexEvent) (f : Store) → replay (xs ++ ys) f ≡ replay ys (replay xs f)
replay-append [] ys f = refl
replay-append (x ∷ xs) ys f = replay-append xs ys (apply_event x f)

replay-delete_events :
    (cs : List Constraint) (f : Store) (uid : String)
    → replay (delete_events cs) f uid ≡ (if any (λ u. u == uid) (uids cs) then none else f uid)
unfolding delete_events delete_event any
replay-delete_events [] f uid = refl
replay-delete_events (c ∷ cs) f uid =
    ground (arith, replay-delete_events cs (apply_event (delete_event c) f) uid)

on_change-step : (call : Call) (idx : Indexer) → (step call idx).0.on_change ≡ idx.on_change
unfolding step
on_change-step (upserts c) idx = unfold upsert in refl
on_change-step (deletes uid) idx = unfold delete in ground arith
on_change-step (deletes_source gvr) idx = on_change-delete_by_source gvr idx

replay-step :
    (call : Call) (idx : Indexer) (uid : String)
    → IsWellFormed idx
    → idx.on_change ≡ true
    → replay (step call idx).1 (store idx) uid ≡ spec_step call (store idx) uid
unfolding step delete
replay-step (upserts c) idx uid w on = unfold upsert in ground arith
replay-step (deletes u) idx uid w on = elim (Option-cases (lookup u idx.by_uid)) [
  | inl e ↦ rw (e, delete) (ground (arith, eq_iff u uid))
  | inr (c, e) ↦
      rw (e, delete)
        (unfold notify delete_event in ground (arith, uid_of_lookup u idx.by_uid c w.keyed e))
]
replay-step (deletes_source gvr) idx uid w on =
    unfold delete_by_source in
    ground (
      arith,
      replay-delete_events (take_out (uids_of_source gvr idx.by_uid) idx.by_uid).1 (store idx) uid,
      ap (any (λ u. u == uid)) (uids_of_source-take_out gvr idx.by_uid w.distinct w.keyed),
      any-uids_of_source gvr uid idx.by_uid w.distinct,
    )

-- With a callback set, a subscriber that applies the events of any history, in order, to the
-- store as it was before, holds the store as it is after.
pub replay-run :
    (calls : List Call) (idx : Indexer)
    → IsWellFormed idx
    → idx.on_change ≡ true
    → replay (run calls idx).1 (store idx) ≡ store (run calls idx).0
unfolding run
replay-run [] idx w on = refl
replay-run (call ∷ calls) idx w on =
    let idx' = (step call idx).0 in
    replay-append (step call idx).1 (run calls idx').1 (store idx)
    ∙ ap (replay (run calls idx').1)
        (fun_ext (λ uid. replay-step call idx uid w on ∙ sym (store-step call idx uid w)))
    ∙ replay-run calls idx' (step-IsWellFormed call idx w) (on_change-step call idx ∙ on)
