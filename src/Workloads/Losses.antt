-- ===== src/Workloads/Losses.antt =====
-- internal/notifier/workload_annotator.go: updates and listings that are lost.
use nightjar.Prelude.{
  ℕ, ◌+◌, ◌<◌, ◌≢◌, eq_iff, String, ◌≡◌, refl, true, false, none, some, List, [], ◌∷◌, ◌==◌,
  string_eq, arith, ltb,
}
use nightjar.Prelude.Dict.{lookup, insert, lookup-insert}
use nightjar.Types.{GroupVersionResource}
use nightjar.Requirements.Context.{Listing, list_error}
use nightjar.Workloads.Annotator.{
  WorkloadKey, workload_key_eq, NsWorkloadCache, WorkloadAnnotator, ns_workload_cache_ttl,
  is_recent, list_from, list_kinds, namespace_workload_kinds, list_namespace_workloads,
}

-- Each of the workloads was patched within the debounce.
abbrev pub AreRecent : ℕ → ℕ → WorkloadAnnotator → List WorkloadKey → Type 0
AreRecent debounce now wa [] = Unit {0}
AreRecent debounce now wa (key ∷ keys) =
    (is_recent debounce now (lookup key wa.last_patch) ≡ true) × AreRecent debounce now wa keys

list_kinds-failed :
    (list : GroupVersionResource → String → Listing) (err : GroupVersionResource → String)
    (ns : String) (kinds : List (String × GroupVersionResource))
    → ((gvr : GroupVersionResource) → list gvr ns ≡ list_error (err gvr))
    → list_kinds list ns kinds ≡ []
unfolding list_kinds
list_kinds-failed list err ns [] fails = refl
list_kinds-failed list err ns ((kind, gvr) ∷ kinds) fails =
    rw (fails gvr, list_kinds) (list_kinds-failed list err ns kinds fails)

-- If every listing fails, the empty answer is kept: within the lifetime of the cache the namespace
-- is taken to have no workloads, whatever the cluster then has.
pub list_namespace_workloads_kept :
    (list later : GroupVersionResource → String → Listing) (err : GroupVersionResource → String)
    (now again : ℕ) (ns : String) (wa : WorkloadAnnotator)
    → ((gvr : GroupVersionResource) → list gvr ns ≡ list_error (err gvr))
    → ns ≢ ""
    → lookup ns wa.ns_cache ≡ none
    → again < now + ns_workload_cache_ttl
    → (list_namespace_workloads later again ns (list_namespace_workloads list now ns wa).0).1 ≡ []
unfolding list_namespace_workloads list_from
list_namespace_workloads_kept list later err now again ns wa fails named absent soon =
    let given : (ns == "") ≡ false = ground (arith, eq_iff ns "") in
    let young : ltb again (now + ns_workload_cache_ttl) ≡ true = ground arith in
    let same : (ns == ns) ≡ true = ground (arith, eq_iff ns ns) in
    let nothing = list_kinds-failed list err ns namespace_workload_kinds fails in
    let entry : NsWorkloadCache = record {
      workloads = list_kinds list ns namespace_workload_kinds;
      fetched_at = now;
    } in
    let stored : lookup ns (insert ns entry wa.ns_cache) ≡ some entry =
      rw (lookup-insert ns ns entry wa.ns_cache, same) refl in
    rw (given, absent, list_namespace_workloads, list_from, stored, young) nothing
