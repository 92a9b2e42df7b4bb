-- ===== src/Discovery/Objects.antt =====
-- internal/discovery/engine.go: what the objects of a watched resource leave in the index.
use nightjar.Prelude.{
  String, Bool, true, false, ◌≡◌, ◌≢◌, ◌⊎◌, inl, inr, refl, ◌∙◌, none, some, List, [], ◌∷◌, arith,
  eq_iff, if◌then◌else◌, ◌==◌, string_eq, any, ◌∈◌, All, Bool-cases,
}
use text.Mathlib.TextPositions.{eq_refl}
use nightjar.Types.{Constraint, GroupVersionResource}
use nightjar.Util.{Unstructured}
use nightjar.Adapters.{parsed}
use nightjar.Indexer
use nightjar.Indexer.{Indexer}
use nightjar.Indexer.Invariant.{store, store-upsert, store-delete}
use nightjar.Discovery.Engine.{
  Engine, Parsers, Delivered, an_object, tombstone, is_watched, parse_object, upsert_all,
  delete_all, store_parsed, handle_add, handle_delete,
}

-- No two constraints of the list have the same UID.
abbrev pub HasDistinctUids : List Constraint → Type 0
HasDistinctUids [] = Unit {0}
HasDistinctUids (c ∷ cs) = All (λ d. d.uid ≢ c.uid) cs × HasDistinctUids cs

abbrev pub has_uid : String → List Constraint → Bool
has_uid uid cs = any (λ c. c.uid == uid) cs

pub other_uid :
    (uid : String) (cs : List Constraint) (idx : Indexer)
    → All (λ c. c.uid ≢ uid) cs
    → store (upsert_all cs idx) uid ≡ store idx uid
unfolding upsert_all
other_uid uid [] idx h = refl
other_uid uid (c ∷ cs) idx (h, hs) =
    ground (
      arith,
      other_uid uid cs (Indexer.upsert c idx).0 hs,
      store-upsert c idx uid,
      eq_iff c.uid uid,
    )

pub stored :
    (c : Constraint) (cs : List Constraint) (idx : Indexer)
    → HasDistinctUids cs
    → c ∈ cs
    → store (upsert_all cs idx) c.uid ≡ some c
unfolding upsert_all
stored c [] idx d m = absurd m
stored c (first ∷ cs) idx (fresh, d) (inl e) = rw (e) (
    other_uid first.uid cs (Indexer.upsert first idx).0 fresh
    ∙ (store-upsert first idx first.uid ∙ rw (eq_refl first.uid) refl))
stored c (first ∷ cs) idx (fresh, d) (inr m) = stored c cs (Indexer.upsert first idx).0 d m

pub store-delete_all :
    (uid : String) (cs : List Constraint) (idx : Indexer)
    → store (delete_all cs idx) uid ≡ (if has_uid uid cs then none else store idx uid)
unfolding delete_all any
store-delete_all uid [] idx = refl
store-delete_all uid (c ∷ cs) idx =
    ground (arith, store-delete_all uid cs (Indexer.delete c.uid idx).0, store-delete c.uid idx uid)

no_uid : (uid : String) (cs : List Constraint) → has_uid uid cs ≡ false → All (λ c. c.uid ≢ uid) cs
unfolding any
no_uid uid [] h = tt
no_uid uid (c ∷ cs) h = ground (arith, eq_iff c.uid uid, no_uid uid cs)

store-delete_all-upsert_all :
    (uid : String) (cs : List Constraint) (idx : Indexer)
    → store (delete_all cs (upsert_all cs idx)) uid
      ≡ (if has_uid uid cs then none else store idx uid)
store-delete_all-upsert_all uid cs idx = elim (Bool-cases (has_uid uid cs)) [
  | inl e ↦ store-delete_all uid cs (upsert_all cs idx) ∙ rw (e) refl
  | inr e ↦
      store-delete_all uid cs (upsert_all cs idx) ∙ rw (e) (other_uid uid cs idx (no_uid uid cs e))
]

-- An informer reports the deletion of the object, with it or with a tombstone that holds it.
abbrev pub Reports : Unstructured → Delivered → Type 0
Reports obj d = (d ≡ an_object obj) ⊎ (d ≡ tombstone (some obj))

module _ (parsers : Parsers) (gvr : GroupVersionResource) (e : Engine) where
  -- Where the resource is watched and the object parses to constraints of distinct UIDs, after the
  -- addition of the object each of them is in the store under its UID, and under any other UID the
  -- store holds what it held.
  pub handle_add-store :
      (obj : Unstructured) (cs : List Constraint)
      → is_watched gvr e ≡ true
      → parse_object parsers e gvr obj ≡ parsed cs
      → HasDistinctUids cs
      → let idx = (handle_add parsers gvr (an_object obj) e).indexer in
        ((c : Constraint) → c ∈ cs → store idx c.uid ≡ some c)
        × ((uid : String) → All (λ c. c.uid ≢ uid) cs → store idx uid ≡ store e.indexer uid)
  unfolding handle_add
  handle_add-store obj cs watched parses distinct =
      rw (watched, parses, store_parsed)
        (λ c m. stored c cs e.indexer distinct m, λ uid h. other_uid uid cs e.indexer h)

  pub parse_object-indexer :
      (obj : Unstructured) (idx : Indexer)
      → parse_object parsers (record e { indexer = idx }) gvr obj ≡ parse_object parsers e gvr obj
  unfolding parse_object
  parse_object-indexer obj idx = refl

  pub handle_add_lem :
      (obj : Unstructured) (cs : List Constraint)
      → is_watched gvr e ≡ true
      → parse_object parsers e gvr obj ≡ parsed cs
      → handle_add parsers gvr (an_object obj) e ≡ record e { indexer = upsert_all cs e.indexer }
  unfolding handle_add
  handle_add_lem obj cs watched parses = rw (watched, parses, store_parsed) refl

  -- Where the resource is watched and the object parses to constraints, the deletion of the object
  -- after its addition, reported with the object or a tombstone that holds it, leaves none of those
  -- UIDs in the store, and under any other UID what was there before.
  pub handle_delete-handle_add :
      (obj : Unstructured) (c : Constraint) (cs : List Constraint) (d : Delivered) (uid : String)
      → is_watched gvr e ≡ true
      → parse_object parsers e gvr obj ≡ parsed (c ∷ cs)
      → Reports obj d
      → store (handle_delete parsers gvr d (handle_add parsers gvr (an_object obj) e)).indexer uid
        ≡ (if has_uid uid (c ∷ cs) then none else store e.indexer uid)
  unfolding handle_delete
  handle_delete-handle_add obj c cs d uid watched parses reports =
      let idx = upsert_all (c ∷ cs) e.indexer in
      let parses' = parse_object-indexer obj idx ∙ parses in
      let left = store-delete_all-upsert_all uid (c ∷ cs) e.indexer in
      rw (handle_add_lem obj (c ∷ cs) watched parses)
        (elim reports [ inl is ↦ rw (is, parses') left | inr is ↦ rw (is, parses') left ])
