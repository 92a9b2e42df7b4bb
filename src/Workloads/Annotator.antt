-- ===== src/Workloads/Annotator.antt =====
-- internal/notifier/workload_annotator.go: the queue of updates and the worker. The cluster is a
-- parameter: the listings, and the error of a patch. `now` is the clock's reading at a test,
-- `done` the one after a patch. The channel of updates is a list, whose head is received next; a
-- send to a full channel is dropped. A workload that is absent from `lastPatch` was patched at the
-- zero time, which is long past.
use nightjar.Prelude.{
  ℕ, ◌+◌, ◌*◌, String, ◌≡◌, ◌↔◌, Bool, true, false, ◌&&◌, ◌||◌, Option, none, some, List, [], ◌∷◌,
  ◌++◌, if◌then◌else◌, Comparable, ◌==◌, string_eq, arith, eq_iff, map, length, any, ltb, concat,
}
use nightjar.Prelude.Dict.{Dict, lookup, insert}
use nightjar.Types.{GroupVersionResource}
use nightjar.Indexer.{Indexer, IndexEvent, by_namespace}
use nightjar.Requirements.Context.{Listing, list_error, listed}
use nightjar.Reports.Reconciler.{Names, names_failed, names}
use nightjar.Workloads.Annotations.{ConstraintSummary, Patch, build_annotation_patch, kind_to_gvr}

pub record WorkloadKey : Type 0 where
  pub namespace : String
  pub kind : String
  pub name : String

abbrev pub workload_key_eqb : WorkloadKey → WorkloadKey → Bool
workload_key_eqb a b = (a.namespace == b.namespace) && ((a.kind == b.kind) && (a.name == b.name))

pub workload_key_eqb_iff : (a b : WorkloadKey) → (workload_key_eqb a b ≡ true) ↔ (a ≡ b)
workload_key_eqb_iff a b =
    ground (arith, eq_iff a.namespace b.namespace, eq_iff a.kind b.kind, eq_iff a.name b.name)

instance abbrev pub workload_key_eq : Comparable WorkloadKey
workload_key_eq = record { same = workload_key_eqb; same_iff = workload_key_eqb_iff }

pub record PendingUpdate : Type 0 where
  pub key : WorkloadKey
  pub scheduled : ℕ

pub record NsWorkloadCache : Type 0 where
  pub workloads : List WorkloadKey
  pub fetched_at : ℕ

pub record WorkloadAnnotator : Type 0 where
  pub last_patch : Dict WorkloadKey ℕ
  pub pending : List PendingUpdate
  pub ns_cache : Dict String NsWorkloadCache

unfoldable pub new_workload_annotator : WorkloadAnnotator
new_workload_annotator = record { last_patch = []; pending = []; ns_cache = [] }

-- 30 seconds, in nanoseconds
abbrev pub ns_workload_cache_ttl : ℕ
ns_workload_cache_ttl = 30 * 1000000000

abbrev pub pending_capacity : ℕ
pending_capacity = 1000

abbrev pub cluster_wide_sentinel : String
cluster_wide_sentinel = "\0cluster-wide"

abbrev pub namespace_key : String → WorkloadKey
namespace_key namespace = record { namespace = namespace; kind = ""; name = "" }

-- A send that does not wait
unfoldable pub send : PendingUpdate → WorkloadAnnotator → WorkloadAnnotator
send update wa =
    if ltb (length wa.pending) pending_capacity
    then record wa { pending = wa.pending ++ (update ∷ []) }
    else wa

unfoldable pub queue_namespace_update : ℕ → String → WorkloadAnnotator → WorkloadAnnotator
queue_namespace_update now namespace wa =
    send (record { key = namespace_key namespace; scheduled = now }) wa

unfoldable pub queue_cluster_wide_update : ℕ → WorkloadAnnotator → WorkloadAnnotator
queue_cluster_wide_update now wa =
    send (record { key = namespace_key cluster_wide_sentinel; scheduled = now }) wa

-- The loop over the affected namespaces; `seen` holds the keys of its map.
unfoldable pub queue_affected :
    ℕ → List String → List String → WorkloadAnnotator → List String × WorkloadAnnotator
queue_affected now seen [] wa = (seen, wa)
queue_affected now seen (ns ∷ nss) wa =
    let again = queue_affected now seen nss wa in
    let first = queue_affected now (ns ∷ seen) nss (queue_namespace_update now ns wa) in
    if any (λ s. s == ns) seen then again else first

unfoldable pub on_index_change : ℕ → IndexEvent → WorkloadAnnotator → WorkloadAnnotator
on_index_change now event wa =
    let c = event.constraint in
    let (seen, wa') = queue_affected now [] c.affected_namespaces wa in
    if c.namespace == ""
    then elim seen [ [] ↦ queue_cluster_wide_update now wa' | s ∷ ss ↦ wa' ]
    else if any (λ s. s == c.namespace) seen
    then wa'
    else queue_namespace_update now c.namespace wa'

abbrev pub namespace_workload_kinds : List (String × GroupVersionResource)
namespace_workload_kinds =
    ("Deployment", record { group = "apps"; version = "v1"; resource = "deployments" })
    ∷ ("StatefulSet", record { group = "apps"; version = "v1"; resource = "statefulsets" })
    ∷ ("DaemonSet", record { group = "apps"; version = "v1"; resource = "daemonsets" })
    ∷ []

-- `time.Since(lastPatch) < DebounceDuration`
abbrev pub is_recent : ℕ → ℕ → Option ℕ → Bool
is_recent span now none = false
is_recent span now (some last) = ltb now (last + span)

module _ (list : GroupVersionResource → String → Listing) where
  -- The loop over the kinds; a failed listing is skipped.
  unfoldable pub list_kinds : String → List (String × GroupVersionResource) → List WorkloadKey
  list_kinds namespace [] = []
  list_kinds namespace ((kind, gvr) ∷ kinds) =
      let others = list_kinds namespace kinds in
      elim (list gvr namespace) [
        | list_error err ↦ others
        | listed ws ↦
            map (λ w. record { namespace = namespace; kind = kind; name = w.name }) ws ++ others
      ]

  -- What a listing answers and leaves in the cache, after a lookup there.
  unfoldable pub list_from :
      ℕ → String → Option NsWorkloadCache → WorkloadAnnotator → WorkloadAnnotator × List WorkloadKey
  list_from now namespace cached wa =
      let result = list_kinds namespace namespace_workload_kinds in
      let stored = insert namespace (record { workloads = result; fetched_at = now }) wa.ns_cache in
      elim cached [
        | none ↦ (record wa { ns_cache = stored }, result)
        | some entry ↦
            if ltb now (entry.fetched_at + ns_workload_cache_ttl)
            then (wa, entry.workloads)
            else (record wa { ns_cache = stored }, result)
      ]

  unfoldable pub list_namespace_workloads :
      ℕ → String → WorkloadAnnotator → WorkloadAnnotator × List WorkloadKey
  list_namespace_workloads now namespace wa =
      if namespace == ""
      then (wa, [])
      else list_from now namespace (lookup namespace wa.ns_cache) wa

unfoldable pub queue_workload_update : ℕ → ℕ → WorkloadKey → WorkloadAnnotator → WorkloadAnnotator
queue_workload_update debounce now key wa =
    if is_recent debounce now (lookup key wa.last_patch)
    then wa
    else send (record { key = key; scheduled = now }) wa

unfoldable pub queue_workloads : ℕ → ℕ → List WorkloadKey → WorkloadAnnotator → WorkloadAnnotator
queue_workloads debounce now [] wa = wa
queue_workloads debounce now (key ∷ keys) wa =
    queue_workloads debounce now keys (queue_workload_update debounce now key wa)

unfoldable pub queue_namespaces : ℕ → List String → WorkloadAnnotator → WorkloadAnnotator
queue_namespaces now [] wa = wa
queue_namespaces now (ns ∷ nss) wa = queue_namespaces now nss (queue_namespace_update now ns wa)

-- The cluster-wide update: a failed listing is logged.
unfoldable pub queue_listed : ℕ → Names → WorkloadAnnotator → WorkloadAnnotator
queue_listed now (names_failed err) wa = wa
queue_listed now (names nss) wa = queue_namespaces now nss wa

-- An attempt at a patch, with its error.
pub record Sent : Type 0 where
  pub key : WorkloadKey
  pub patch : Patch
  pub error : Option String

pub record Cluster : Type 0 where
  pub list : GroupVersionResource → String → Listing
  pub namespaces : Names
  pub patch : GroupVersionResource → WorkloadKey → Patch → Option String

-- An unsupported kind is an error without a patch.
unfoldable pub apply_patch : Cluster → WorkloadKey → Patch → Option String
apply_patch cluster key patch = elim (kind_to_gvr key.kind) [
  | none ↦ some (concat ("unsupported workload kind: " ∷ key.kind ∷ []))
  | some gvr ↦ cluster.patch gvr key patch
]

-- What is left of an attempt: the time of a success.
unfoldable pub record_patch :
    ℕ → WorkloadKey → Patch → Option String → WorkloadAnnotator → WorkloadAnnotator × List Sent
record_patch done key patch none wa = (
  record wa { last_patch = insert key done wa.last_patch },
  record { key = key; patch = patch; error = none } ∷ [],
)
record_patch done key patch (some err) wa =
    (wa, record { key = key; patch = patch; error = some err } ∷ [])

module _ (marshal : List ConstraintSummary → String) (evaluated : String) (idx : Indexer)
    (cluster : Cluster) (debounce now done : ℕ) where
  -- The update of one workload
  unfoldable pub patch_workload : WorkloadKey → WorkloadAnnotator → WorkloadAnnotator × List Sent
  patch_workload key wa =
      let patch = build_annotation_patch marshal evaluated (by_namespace idx key.namespace) in
      if is_recent debounce now (lookup key wa.last_patch)
      then (wa, [])
      else record_patch done key patch (apply_patch cluster key patch) wa

  unfoldable pub process_update : PendingUpdate → WorkloadAnnotator → WorkloadAnnotator × List Sent
  process_update update wa =
      let key = update.key in
      if key.namespace == cluster_wide_sentinel
      then (queue_listed now cluster.namespaces wa, [])
      else if (key.kind == "") || (key.name == "")
      then (let (wa', workloads) = list_namespace_workloads cluster.list now key.namespace wa in
          (queue_workloads debounce now workloads wa', []))
      else patch_workload key wa

  -- A worker receives the next update, if there is one, and processes it.
  unfoldable pub work : WorkloadAnnotator → WorkloadAnnotator × List Sent
  work wa = elim wa.pending [
    | [] ↦ (wa, [])
    | update ∷ updates ↦ process_update update (record wa { pending = updates })
  ]
