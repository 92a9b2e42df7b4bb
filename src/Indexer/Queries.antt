-- ===== src/Indexer/Queries.antt =====
-- The queries return exactly the stored constraints that their documentation names.
use nightjar.Prelude.{
  String, ◌≡◌, refl, ◌↔◌, ◌⊎◌, inl, Bool, true, false, Option, some, List, [], ◌∷◌, arith, eq_iff,
  if◌then◌else◌, ◌==◌, string_eq, any, keep, ◌∈◌, mem-keep, length, subst, sym,
}
use nightjar.Prelude.Dict.{Dict, lookup, values, lookup-eq-some_iff, mem-values, values-mem}
use nightjar.Types.{Constraint, ConstraintType, GroupVersionResource, LabelSelector, gvr_eq}
use nightjar.Indexer.{
  Indexer, matches_namespace, by_namespace, by_labels, by_type, by_source_gvr, step, deletes_source,
  delete_by_source, uids_of_source,
}
use nightjar.Indexer.Invariant.{IsWellFormed, store, step-IsWellFormed}
use nightjar.Indexer.Sources.{uid_of_lookup, lookup-delete_by_source}

-- The constraint stands in the store.
abbrev pub Stored : Indexer → Constraint → Type 0
Stored idx c = store idx c.uid ≡ some c

values_iff :
    (idx : Indexer) (c : Constraint) → IsWellFormed idx → (c ∈ values idx.by_uid) ↔ Stored idx c
values_iff idx c w = (
  λ m.
      let (k, at) = mem-values c idx.by_uid m in
      let found = (lookup-eq-some_iff k c idx.by_uid w.distinct).1 at in
      subst (λ u. lookup u idx.by_uid ≡ some c) (sym (uid_of_lookup k idx.by_uid c w.keyed found))
        found,
  λ s. values-mem c.uid c idx.by_uid ((lookup-eq-some_iff c.uid c idx.by_uid w.distinct).0 s),
)

keep_iff :
    (p : Constraint → Bool) (idx : Indexer) (c : Constraint)
    → IsWellFormed idx
    → (c ∈ keep p (values idx.by_uid)) ↔ (Stored idx c × (p c ≡ true))
keep_iff p idx c w =
    let (to, from) = mem-keep p c (values idx.by_uid) in
    let (stored, listed) = values_iff idx c w in
    (λ m. (stored (to m).0, (to m).1), λ m. from (listed m.0, m.1))

any_iff : (ns : String) (l : List String) → (any (λ a. a == ns) l ≡ true) ↔ (ns ∈ l)
unfolding any
any_iff ns [] = ground arith
any_iff ns (x ∷ l) = ground (arith, eq_iff x ns, any_iff ns l)

-- Cluster-scoped, or in the namespace, or with the namespace among those that it names.
abbrev pub Affects : Constraint → String → Type 0
Affects c ns = (c.namespace ≡ "") ⊎ (c.namespace ≡ ns) ⊎ (ns ∈ c.affected_namespaces)

pub matches_namespace_iff :
    (c : Constraint) (ns : String) → (matches_namespace c ns ≡ true) ↔ Affects c ns
unfolding matches_namespace
matches_namespace_iff c ns =
    ground (arith, eq_iff c.namespace "", eq_iff c.namespace ns, any_iff ns c.affected_namespaces)

-- `ByNamespace(ns)` returns exactly the stored constraints that are cluster-scoped, stand in `ns`,
-- or list `ns` among their affected namespaces.
pub by_namespace_iff :
    (idx : Indexer) (ns : String) (c : Constraint)
    → IsWellFormed idx
    → (c ∈ by_namespace idx ns) ↔ (Stored idx c × Affects c ns)
unfolding by_namespace
by_namespace_iff idx ns c w =
    ground (arith, keep_iff (λ d. matches_namespace d ns) idx c w, matches_namespace_iff c ns)

-- `ByLabels` returns exactly the constraints of `ByNamespace` whose workload selector matches.
pub by_labels_iff :
    (matches : Option LabelSelector → List (String × String) → Bool) (idx : Indexer) (ns : String)
    (workload : List (String × String)) (c : Constraint)
    → IsWellFormed idx
    → (c ∈ by_labels matches idx ns workload)
      ↔ ((c ∈ by_namespace idx ns) × (matches c.workload_selector workload ≡ true))
unfolding by_labels by_namespace
by_labels_iff matches idx ns workload c w = ground (
  arith,
  keep_iff (λ d. if matches_namespace d ns then matches d.workload_selector workload else false) idx
      c w,
  keep_iff (λ d. matches_namespace d ns) idx c w,
)

-- `ByType(ct)` returns exactly the stored constraints of the type.
pub by_type_iff :
    (idx : Indexer) (ct : ConstraintType) (c : Constraint)
    → IsWellFormed idx
    → (c ∈ by_type idx ct) ↔ (Stored idx c × (c.constraint_type ≡ ct))
unfolding by_type
by_type_iff idx ct c w =
    ground (arith, keep_iff (λ d. d.constraint_type == ct) idx c w, eq_iff c.constraint_type ct)

nil_of_no_mem : (l : List Constraint) → ((c : Constraint) → ¬ (c ∈ l)) → l ≡ []
nil_of_no_mem [] h = refl
nil_of_no_mem (x ∷ l) h = absurd (h x (inl refl))

length-uids_of_source :
    (gvr : GroupVersionResource) (m : Dict String Constraint)
    → length (uids_of_source gvr m) ≡ length (keep (λ c. c.source == gvr) (values m))
unfolding uids_of_source keep values
length-uids_of_source gvr [] = refl
length-uids_of_source gvr ((k, c) ∷ m) = ground (arith, length-uids_of_source gvr m)

module _ (gvr : GroupVersionResource) (idx : Indexer) (w : IsWellFormed idx) where
  survivors :
      (c : Constraint)
      → Stored (delete_by_source gvr idx).0 c ↔ (Stored idx c × ((c.source == gvr) ≡ false))
  survivors c = ground (arith, lookup-delete_by_source gvr c.uid idx w.distinct)

  after_IsWellFormed : IsWellFormed (delete_by_source gvr idx).0
  unfolding step
  after_IsWellFormed = step-IsWellFormed (deletes_source gvr) idx w

  none_left : by_source_gvr (delete_by_source gvr idx).0 gvr ≡ []
  unfolding by_source_gvr
  none_left = nil_of_no_mem _ λ c m.
      let (stored, hit) = (keep_iff (λ d. d.source == gvr) _ c after_IsWellFormed).0 m in
      cc (hit, ((survivors c).0 stored).1)

  counted : (delete_by_source gvr idx).2 ≡ length (by_source_gvr idx gvr)
  unfolding delete_by_source by_source_gvr
  counted = length-uids_of_source gvr idx.by_uid

-- After `DeleteBySource(gvr)` a constraint is stored exactly if it was before and comes from
-- another source, `BySourceGVR(gvr)` finds nothing, and the number that the call returned is that
-- of the constraints that `BySourceGVR(gvr)` found before.
pub delete_by_source_lem :
    (gvr : GroupVersionResource) (idx : Indexer)
    → IsWellFormed idx
    → let (idx', events, deleted) = delete_by_source gvr idx in
      ((c : Constraint) → Stored idx' c ↔ (Stored idx c × ((c.source == gvr) ≡ false)))
      × (by_source_gvr idx' gvr ≡ [])
      × (deleted ≡ length (by_source_gvr idx gvr))
delete_by_source_lem gvr idx w = (survivors gvr idx w, none_left gvr idx w, counted gvr idx w)
