-- ===== src/Workloads/Queueing.antt =====
-- internal/notifier/workload_annotator.go: what queues updates, and leaves the times of the
-- patches alone.
use nightjar.Prelude.{
  ℕ, ◌+◌, ◌≤◌, String, ◌≡◌, ◌⊎◌, inl, inr, refl, ◌∙◌, List, [], ◌∷◌, ◌==◌, string_eq, arith, any,
  length, length-append, ltb, Bool-cases, Option-cases, List-cases,
}
use nightjar.Prelude.Dict.{lookup}
use nightjar.Indexer.{IndexEvent}
use nightjar.Types.{GroupVersionResource}
use nightjar.Requirements.Context.{Listing}
use nightjar.Reports.Reconciler.{Names, names_failed, names}
use nightjar.Workloads.Annotator.{
  WorkloadKey, workload_key_eq, PendingUpdate, WorkloadAnnotator, pending_capacity,
  cluster_wide_sentinel, send, namespace_key, ns_workload_cache_ttl, queue_namespace_update,
  queue_cluster_wide_update, queue_affected, on_index_change, is_recent, list_from,
  list_namespace_workloads, queue_workload_update, queue_workloads, queue_namespaces, queue_listed,
}

-- The times of the patches stay, and the queue grows within its capacity only.
abbrev pub Quiet : WorkloadAnnotator → WorkloadAnnotator → Type 0
Quiet wa wa' =
    (wa'.last_patch ≡ wa.last_patch)
    × ((length wa'.pending ≤ length wa.pending) ⊎ (length wa'.pending ≤ pending_capacity))

pub Quiet-refl : (wa : WorkloadAnnotator) → Quiet wa wa
Quiet-refl wa = (refl, inl (omega arith))

pub Quiet-trans : (a b c : WorkloadAnnotator) → Quiet a b → Quiet b c → Quiet a c
Quiet-trans a b c h k = (k.0 ∙ h.0, ground (arith, h.1, k.1))

send-Quiet : (u : PendingUpdate) (wa : WorkloadAnnotator) → Quiet wa (send u wa)
unfolding send
send-Quiet u wa = ground (arith, length-append wa.pending (u ∷ []))

queue_namespace_update-Quiet :
    (now : ℕ) (ns : String) (wa : WorkloadAnnotator) → Quiet wa (queue_namespace_update now ns wa)
unfolding queue_namespace_update
queue_namespace_update-Quiet now ns wa =
    send-Quiet (record { key = namespace_key ns; scheduled = now }) wa

queue_affected-Quiet :
    (now : ℕ) (seen nss : List String) (wa : WorkloadAnnotator)
    → Quiet wa (queue_affected now seen nss wa).1
unfolding queue_affected
queue_affected-Quiet now seen [] wa = Quiet-refl wa
queue_affected-Quiet now seen (ns ∷ nss) wa = elim (Bool-cases (any (λ s. s == ns) seen)) [
  | inl e ↦ rw (e, queue_affected) (queue_affected-Quiet now seen nss wa)
  | inr e ↦
      let wa' = queue_namespace_update now ns wa in
      rw (e, queue_affected)
        (Quiet-trans wa wa' (queue_affected now (ns ∷ seen) nss wa').1
          (queue_namespace_update-Quiet now ns wa) (queue_affected-Quiet now (ns ∷ seen) nss wa'))
]

pub on_index_change-Quiet :
    (now : ℕ) (event : IndexEvent) (wa : WorkloadAnnotator)
    → Quiet wa (on_index_change now event wa)
unfolding on_index_change queue_cluster_wide_update
on_index_change-Quiet now event wa =
    let c = event.constraint in
    let affected = queue_affected now [] c.affected_namespaces wa in
    let first = queue_affected-Quiet now [] c.affected_namespaces wa in
    let all : PendingUpdate = record {
      key = namespace_key cluster_wide_sentinel;
      scheduled = now;
    } in
    elim (Bool-cases (c.namespace == "")) [
      | inl e ↦ elim (List-cases affected.0) [
        | inl f ↦
            rw (e, f, on_index_change)
              (Quiet-trans wa affected.1 (send all affected.1) first (send-Quiet all affected.1))
        | inr (s, ss, f) ↦ rw (e, f, on_index_change) first
      ]
      | inr e ↦ elim (Bool-cases (any (λ s. s == c.namespace) affected.0)) [
        | inl f ↦ rw (e, f, on_index_change) first
        | inr f ↦
            rw (e, f, on_index_change)
              (Quiet-trans wa affected.1 (queue_namespace_update now c.namespace affected.1) first
                (queue_namespace_update-Quiet now c.namespace affected.1))
      ]
    ]

queue_namespaces-Quiet :
    (now : ℕ) (nss : List String) (wa : WorkloadAnnotator) → Quiet wa (queue_namespaces now nss wa)
unfolding queue_namespaces
queue_namespaces-Quiet now [] wa = Quiet-refl wa
queue_namespaces-Quiet now (ns ∷ nss) wa =
    let wa' = queue_namespace_update now ns wa in
    Quiet-trans wa wa' (queue_namespaces now nss wa') (queue_namespace_update-Quiet now ns wa)
      (queue_namespaces-Quiet now nss wa')

pub queue_listed-Quiet :
    (now : ℕ) (listed : Names) (wa : WorkloadAnnotator) → Quiet wa (queue_listed now listed wa)
unfolding queue_listed
queue_listed-Quiet now (names_failed err) wa = Quiet-refl wa
queue_listed-Quiet now (names nss) wa = queue_namespaces-Quiet now nss wa

queue_workload_update-Quiet :
    (debounce now : ℕ) (key : WorkloadKey) (wa : WorkloadAnnotator)
    → Quiet wa (queue_workload_update debounce now key wa)
unfolding queue_workload_update
queue_workload_update-Quiet debounce now key wa =
    elim (Bool-cases (is_recent debounce now (lookup key wa.last_patch))) [
      | inl e ↦ rw (e, queue_workload_update) (Quiet-refl wa)
      | inr e ↦
          rw (e, queue_workload_update) (send-Quiet (record { key = key; scheduled = now }) wa)
    ]

pub queue_workloads-Quiet :
    (debounce now : ℕ) (keys : List WorkloadKey) (wa : WorkloadAnnotator)
    → Quiet wa (queue_workloads debounce now keys wa)
unfolding queue_workloads
queue_workloads-Quiet debounce now [] wa = Quiet-refl wa
queue_workloads-Quiet debounce now (key ∷ keys) wa =
    let wa' = queue_workload_update debounce now key wa in
    Quiet-trans wa wa' (queue_workloads debounce now keys wa')
      (queue_workload_update-Quiet debounce now key wa)
      (queue_workloads-Quiet debounce now keys wa')

-- A listing changes the cache only.
pub list_namespace_workloads-Quiet :
    (list : GroupVersionResource → String → Listing) (now : ℕ) (ns : String)
    (wa : WorkloadAnnotator)
    → Quiet wa (list_namespace_workloads list now ns wa).0
unfolding list_namespace_workloads list_from
list_namespace_workloads-Quiet list now ns wa = elim (Bool-cases (ns == "")) [
  | inl e ↦ rw (e, list_namespace_workloads) (Quiet-refl wa)
  | inr e ↦ elim (Option-cases (lookup ns wa.ns_cache)) [
    | inl f ↦ rw (e, f, list_namespace_workloads, list_from) (refl, inl (omega arith))
    | inr (entry, f) ↦ elim (Bool-cases (ltb now (entry.fetched_at + ns_workload_cache_ttl))) [
      | inl g ↦ rw (e, f, g, list_namespace_workloads, list_from) (refl, inl (omega arith))
      | inr g ↦ rw (e, f, g, list_namespace_workloads, list_from) (refl, inl (omega arith))
    ]
  ]
]
