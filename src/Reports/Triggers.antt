-- ===== src/Reports/Triggers.antt =====
-- internal/notifier/report_reconciler.go: which namespaces a change of the index makes due, and
-- which of them a round visits.
use nightjar.Prelude.{
  String, ◌≡◌, ◌≢◌, ◌⊎◌, inl, inr, refl, ◌∙◌, ap, Bool, true, false, ◌||◌, Option, none, some, List,
  [], ◌∷◌, ◌++◌, if◌then◌else◌, ◌==◌, string_eq, arith, any, eq_iff, Bool-cases,
}
use nightjar.Prelude.Dict.{
  Dict, HasDistinctKeys, lookup, insert, keys, lookup-insert, insert-HasDistinctKeys,
}
use nightjar.Indexer.{IndexEvent, matches_namespace}
use nightjar.Reports.Reconciler.{
  Names, names_failed, names, ReportReconciler, trigger_all, event_namespaces, mark_due,
  on_index_change, cluster_triggers,
}

abbrev pub listed_in : String → List String → Bool
listed_in ns nss = any (λ a. a == ns) nss

-- The namespace is due, or all of them are.
abbrev pub Triggered : String → ReportReconciler → Type 0
Triggered ns rr = (lookup ns rr.pending_triggers ≡ some true) ⊎ (rr.cluster_wide_triggered ≡ true)

pub lookup-trigger_all :
    (ns : String) (nss : List String) (triggers : Dict String Bool)
    → lookup ns (trigger_all nss triggers)
      ≡ (if listed_in ns nss then some true else lookup ns triggers)
unfolding trigger_all any
lookup-trigger_all ns [] triggers = refl
lookup-trigger_all ns (n ∷ nss) triggers =
    ground
      (arith, lookup-trigger_all ns nss (insert n true triggers), lookup-insert n ns true triggers)

pub trigger_all-HasDistinctKeys :
    (nss : List String) (triggers : Dict String Bool)
    → HasDistinctKeys triggers
    → HasDistinctKeys (trigger_all nss triggers)
unfolding trigger_all
trigger_all-HasDistinctKeys [] triggers d = d
trigger_all-HasDistinctKeys (n ∷ nss) triggers d =
    trigger_all-HasDistinctKeys nss (insert n true triggers)
      (insert-HasDistinctKeys n true triggers d)

pub lookup-mark_due :
    (ns : String) (nss : List String) (rr : ReportReconciler)
    → lookup ns (mark_due nss rr).pending_triggers
      ≡ (if listed_in ns nss then some true else lookup ns rr.pending_triggers)
unfolding mark_due any
lookup-mark_due ns [] rr = refl
lookup-mark_due ns (n ∷ nss) rr = ground (
  arith,
  lookup-trigger_all ns nss (insert n true rr.pending_triggers),
  lookup-insert n ns true rr.pending_triggers,
)

mark_due-cluster :
    (nss own : List String) (rr : ReportReconciler)
    → nss ≢ []
    → (mark_due (nss ++ own) rr).cluster_wide_triggered ≡ rr.cluster_wide_triggered
unfolding mark_due
mark_due-cluster [] own rr h = absurd (h refl)
mark_due-cluster (n ∷ nss) own rr h = refl

pub any-append :
    (ns : String) (xs ys : List String)
    → listed_in ns (xs ++ ys) ≡ (listed_in ns xs || listed_in ns ys)
unfolding any
any-append ns [] ys = refl
any-append ns (x ∷ xs) ys = ground (arith, any-append ns xs ys)

-- A change to a constraint of some namespace, or to one of the cluster that lists no affected
-- namespaces, makes every namespace due in whose list the constraint stands.
pub on_index_change-Triggered :
    (ns : String) (event : IndexEvent) (rr : ReportReconciler)
    → (event.constraint.namespace ≢ "") ⊎ (event.constraint.affected_namespaces ≡ [])
    → matches_namespace event.constraint ns ≡ true
    → Triggered ns (on_index_change event rr)
unfolding on_index_change
on_index_change-Triggered ns event rr named matches =
    let c = event.constraint in
    let own : List String = if c.namespace == "" then [] else c.namespace ∷ [] in
    let due = lookup-mark_due ns (event_namespaces c) rr in
    elim (Bool-cases (c.namespace == "")) [
      | inl e ↦
          let none_listed : c.affected_namespaces ≡ [] = elim named [
            | inl n ↦ absurd (n ((eq_iff c.namespace "").0 e))
            | inr l ↦ l
          ] in
          inr (unfold mark_due in rw (e, none_listed) refl)
      | inr e ↦ inl (
          due
          ∙ unfold matches_namespace any in ground (arith, any-append ns c.affected_namespaces own))
    ]

-- A change to a constraint of the cluster that lists affected namespaces makes no other namespace
-- due, although the constraint stands in the list of each.
pub on_index_change_missed :
    (ns : String) (event : IndexEvent) (rr : ReportReconciler)
    → event.constraint.namespace ≡ ""
    → event.constraint.affected_namespaces ≢ []
    → listed_in ns event.constraint.affected_namespaces ≡ false
    → (matches_namespace event.constraint ns ≡ true)
      × (lookup ns (on_index_change event rr).pending_triggers ≡ lookup ns rr.pending_triggers)
      × ((on_index_change event rr).cluster_wide_triggered ≡ rr.cluster_wide_triggered)
unfolding on_index_change
on_index_change_missed ns event rr global some_listed missing =
    let c = event.constraint in
    let own : List String = if c.namespace == "" then [] else c.namespace ∷ [] in
    (
      unfold matches_namespace in rw (global) refl,
      lookup-mark_due ns (event_namespaces c) rr
          ∙ rw (any-append ns c.affected_namespaces own, missing, global) (unfold any in refl),
      mark_due-cluster c.affected_namespaces own rr some_listed,
    )

-- One namespace once.
abbrev pub IsDistinct : List String → Type 0
IsDistinct [] = Unit {0}
IsDistinct (n ∷ nss) = (listed_in n nss ≡ false) × IsDistinct nss

abbrev pub is_present : Option Bool → Bool
is_present none = false
is_present (some b) = true

pub keys-listed :
    (ns : String) (m : Dict String Bool) → listed_in ns (keys m) ≡ is_present (lookup ns m)
unfolding keys lookup any
keys-listed ns [] = refl
keys-listed ns ((k, v) ∷ m) = ground (arith, keys-listed ns m)

pub keys-IsDistinct : (m : Dict String Bool) → HasDistinctKeys m → IsDistinct (keys m)
unfolding keys
keys-IsDistinct [] d = tt
keys-IsDistinct ((k, v) ∷ m) (absent, d) =
    (keys-listed k m ∙ ap is_present absent, keys-IsDistinct m d)

abbrev pub is_listed : String → Option Names → Bool
is_listed ns none = false
is_listed ns (some (names_failed err)) = false
is_listed ns (some (names nss)) = listed_in ns nss

pub cluster_triggers-present :
    (ns : String) (all : Bool) (listed : Option Names) (triggers : Dict String Bool)
    → (lookup ns triggers ≡ some true) ⊎ ((all ≡ true) × (is_listed ns listed ≡ true))
    → is_present (lookup ns (cluster_triggers all listed triggers)) ≡ true
cluster_triggers-present ns false listed triggers h = ground arith
cluster_triggers-present ns true none triggers h = ground arith
cluster_triggers-present ns true (some (names_failed err)) triggers h = ground arith
cluster_triggers-present ns true (some (names nss)) triggers h =
    ground (arith, lookup-trigger_all ns nss triggers)

pub cluster_triggers-HasDistinctKeys :
    (all : Bool) (listed : Option Names) (triggers : Dict String Bool)
    → HasDistinctKeys triggers
    → HasDistinctKeys (cluster_triggers all listed triggers)
cluster_triggers-HasDistinctKeys false listed triggers d = d
cluster_triggers-HasDistinctKeys true none triggers d = d
cluster_triggers-HasDistinctKeys true (some (names_failed err)) triggers d = d
cluster_triggers-HasDistinctKeys true (some (names nss)) triggers d =
    trigger_all-HasDistinctKeys nss triggers d
