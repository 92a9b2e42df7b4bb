-- ===== src/Indexer.antt =====
-- internal/indexer/indexer.go: the in-memory store of constraints, keyed by UID.
-- The mutex makes every method atomic, so a history of the store is a list of calls. A method
-- returns the new store and the events that it hands to `onChange`, in order.
pub mod Events
pub mod Invariant
pub mod Queries
pub mod Sources
mod Tests
use nightjar.Prelude.{
  ℕ, String, Bool, true, false, Option, none, some, List, [], ◌∷◌, ◌++◌, if◌then◌else◌, ◌==◌,
  string_eq, keep, any, length,
}
use nightjar.Prelude.Dict.{Dict, lookup, insert, erase, values, size}
use nightjar.Types.{
  Constraint, ConstraintType, GroupVersionResource, LabelSelector, zero_constraint, gvr_eq,
}

-- `Type` is the string "upsert" or "delete".
pub record IndexEvent : Type 0 where
  pub type : String
  pub constraint : Constraint

-- `onChange` is the callback, or nil.
pub record Indexer : Type 0 where
  pub by_uid : Dict String Constraint
  pub on_change : Bool

pub new : Bool → Indexer
new on_change = record { by_uid = []; on_change = on_change }

-- `if idx.onChange != nil { idx.onChange(event) }`
pub notify : Bool → List IndexEvent → List IndexEvent
notify on_change events = if on_change then events else []

pub upsert_event : Constraint → IndexEvent
upsert_event c = record { type = "upsert"; constraint = c }

pub delete_event : Constraint → IndexEvent
delete_event c = record { type = "delete"; constraint = c }

unfoldable pub upsert : Constraint → Indexer → Indexer × List IndexEvent
unfolding notify upsert_event
upsert c idx =
    (record idx { by_uid = insert c.uid c idx.by_uid }, notify idx.on_change (upsert_event c ∷ []))

pub delete : String → Indexer → Indexer × List IndexEvent
unfolding notify delete_event
delete uid idx = elim (lookup uid idx.by_uid) [
  | none ↦ (idx, [])
  | some c ↦
      (record idx { by_uid = erase uid idx.by_uid }, notify idx.on_change (delete_event c ∷ []))
]

unfoldable pub matches_namespace : Constraint → String → Bool
matches_namespace c ns =
    if c.namespace == ""
    then true
    else if c.namespace == ns
    then true
    else any (λ affected. affected == ns) c.affected_namespaces

unfoldable pub by_namespace : Indexer → String → List Constraint
by_namespace idx ns = keep (λ c. matches_namespace c ns) (values idx.by_uid)

-- `util.MatchesLabelSelector`, which the caller passes in with the label library that it uses.
unfoldable pub by_labels :
    (Option LabelSelector → List (String × String) → Bool)
    → Indexer
    → String
    → List (String × String)
    → List Constraint
by_labels matches_labels idx ns workload_labels =
    keep
      (λ c.
        if matches_namespace c ns
        then matches_labels c.workload_selector workload_labels
        else false)
      (values idx.by_uid)

unfoldable pub by_type : Indexer → ConstraintType → List Constraint
by_type idx ct = keep (λ c. c.constraint_type == ct) (values idx.by_uid)

unfoldable pub by_source_gvr : Indexer → GroupVersionResource → List Constraint
by_source_gvr idx gvr = keep (λ c. c.source == gvr) (values idx.by_uid)

-- The first loop of `DeleteBySource`: the UIDs to delete.
pub uids_of_source : GroupVersionResource → Dict String Constraint → List String
uids_of_source gvr [] = []
uids_of_source gvr ((uid, c) ∷ m) =
    let rest = uids_of_source gvr m in if c.source == gvr then uid ∷ rest else rest

pub or_zero : Option Constraint → Constraint
or_zero none = zero_constraint
or_zero (some c) = c

-- Its second loop: takes each of them out of the map, and collects what was there.
pub take_out : List String → Dict String Constraint → Dict String Constraint × List Constraint
unfolding or_zero
take_out [] m = (m, [])
take_out (uid ∷ uids) m =
    let (m', deleted) = take_out uids (erase uid m) in (m', or_zero (lookup uid m) ∷ deleted)

pub delete_events : List Constraint → List IndexEvent
unfolding delete_event
delete_events [] = []
delete_events (c ∷ cs) = delete_event c ∷ delete_events cs

pub delete_by_source : GroupVersionResource → Indexer → Indexer × List IndexEvent × ℕ
unfolding uids_of_source take_out delete_events notify
delete_by_source gvr idx =
    let uids = uids_of_source gvr idx.by_uid in
    let (m, deleted) = take_out uids idx.by_uid in
    (record idx { by_uid = m }, notify idx.on_change (delete_events deleted), length uids)

unfoldable pub all : Indexer → List Constraint
all idx = values idx.by_uid

unfoldable pub count : Indexer → ℕ
count idx = size idx.by_uid

-- A call that changes the store.
pub data Call : Type 0 where
  upserts : Constraint → Call
  deletes : String → Call
  deletes_source : GroupVersionResource → Call

unfoldable pub step : Call → Indexer → Indexer × List IndexEvent
step (upserts c) idx = upsert c idx
step (deletes uid) idx = delete uid idx
step (deletes_source gvr) idx = let r = delete_by_source gvr idx in (r.0, r.1)

-- A history of calls, with all the events in order.
unfoldable pub run : List Call → Indexer → Indexer × List IndexEvent
run [] idx = (idx, [])
run (call ∷ calls) idx =
    let (idx', events) = step call idx in
    let (last, later) = run calls idx' in (last, events ++ later)
