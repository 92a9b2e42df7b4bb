-- ===== src/Workloads/Tests.antt =====
-- Witnesses and runs of the annotator.
use nightjar.Prelude.{
  ℕ, ◌+◌, String, ◌≡◌, true, none, some, List, [], ◌∷◌, arith, string_eq, decimal,
}
use nightjar.Prelude.Dict.{lookup}
use nightjar.Types.{Constraint, zero_constraint, severity_critical, severity_warning, severity_info}
use nightjar.Indexer.{Indexer, IndexEvent}
use nightjar.Dedupe.Spacing.{IsSpaced}
use nightjar.Reports.Reconciler.{names}
use nightjar.Requirements.Context.{listed}
use nightjar.Reports.Status.{count_severity}
use nightjar.Workloads.Annotations.{
  ConstraintSummary, build_annotation_patch, workload_max_severity, workload_critical_count,
  workload_warning_count, workload_info_count,
}
use nightjar.Workloads.Annotator.{
  WorkloadKey, workload_key_eq, PendingUpdate, NsWorkloadCache, WorkloadAnnotator, Cluster,
  new_workload_annotator,
}
use nightjar.Workloads.Severities.{highest, occurs, build_annotation_patch_lem}
use nightjar.Workloads.Steps.{Instant, Step, changes, works, run}
use nightjar.Workloads.Spacing.{patches-IsSpaced}

abbrev quota : Constraint
quota = record zero_constraint {
  uid = "q";
  name = "compute";
  namespace = "team-a";
  severity = severity_warning;
}

abbrev policy : Constraint
policy = record zero_constraint { uid = "p"; name = "deny-all"; severity = severity_critical }

abbrev as_json : List ConstraintSummary → String
as_json summaries = "[]"

build_annotation_patch_lem_example :
    let patch = build_annotation_patch as_json "now" (quota ∷ policy ∷ []) in
    (lookup workload_max_severity patch
      ≡ some (
          some (
            highest
              (occurs severity_critical (quota ∷ policy ∷ []))
              (occurs severity_warning (quota ∷ policy ∷ []))
              (occurs severity_info (quota ∷ policy ∷ [])))))
    × (lookup workload_critical_count patch
        ≡ some (some (decimal (count_severity severity_critical (quota ∷ policy ∷ [])))))
    × (lookup workload_warning_count patch
        ≡ some (some (decimal (count_severity severity_warning (quota ∷ policy ∷ [])))))
    × (lookup workload_info_count patch
        ≡ some (some (decimal (count_severity severity_info (quota ∷ policy ∷ [])))))
build_annotation_patch_lem_example = build_annotation_patch_lem as_json "now" quota (policy ∷ [])

abbrev store : Indexer
store = record { by_uid = ("q", quota) ∷ []; on_change = true }

abbrev cluster : Cluster
cluster = record {
  list = λ gvr ns. listed [];
  namespaces = names ("team-a" ∷ []);
  patch = λ gvr key patch. none;
}

abbrev instant : ℕ → Instant
instant time = record {
  idx = store;
  cluster = cluster;
  evaluated = "now";
  now = time;
  done = time + 1;
}

abbrev web : WorkloadKey
web = record { namespace = "team-a"; kind = "Deployment"; name = "web" }

abbrev update : WorkloadKey → PendingUpdate
update key = record { key = key; scheduled = 0 }

-- The workload is twice in the queue.
abbrev twice : WorkloadAnnotator
twice = record new_workload_annotator { pending = update web ∷ update web ∷ [] }

abbrev quota_change : IndexEvent
quota_change = record { type = "upsert"; constraint = quota }

abbrev history : List Step
history = works (instant 100) ∷ changes 101 quota_change ∷ works (instant 120) ∷ []

patches-IsSpaced_example : IsSpaced 30 (run as_json 30 history twice).1
patches-IsSpaced_example =
    patches-IsSpaced as_json 30 0 history twice
      (omega arith, omega arith, (omega arith, (omega arith, omega arith, tt)))

abbrev cached : NsWorkloadCache
cached = record { workloads = web ∷ []; fetched_at = 100 }

-- The workload was patched at 100, and a change of its namespace comes at 105.
abbrev patched_lately : WorkloadAnnotator
patched_lately = record {
  last_patch = (web, 100) ∷ [];
  pending = [];
  ns_cache = ("team-a", cached) ∷ [];
}
