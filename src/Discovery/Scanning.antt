-- ===== src/Discovery/Scanning.antt =====
-- internal/discovery/engine.go: `scan` and what it calls, the end of the engine, and histories of
-- calls.
use nightjar.Prelude.{
  String, Bool, true, ◌&&◌, ◌||◌, not, Option, none, some, List, [], ◌∷◌, if◌then◌else◌, ◌==◌,
  string_eq, any,
}
use nightjar.Prelude.Dict.{Dict, lookup, insert, values}
use nightjar.Types.{GroupVersionResource, gvr_eq}
use nightjar.Types.Value.{Value, cons, lookup_field, as_object, as_items}
use nightjar.Util.{Unstructured, safe_string_from_map}
use nightjar.Discovery.Engine.{Engine, ProfileState, of_engine, of_profile, is_watched}
use nightjar.Discovery.Watching.{Cluster, discover, start_informer, close}

-- `obj.Annotations[key] == "true"`
abbrev pub is_policy_annotation : String
is_policy_annotation = "nightjar.io/is-policy"

abbrev pub value_of : String → List (String × String) → String
value_of key m = elim (lookup key m) [ none ↦ "" | some v ↦ v ]

-- The name of the first version.
unfoldable pub first_version : Option Value → String
unfolding as_items as_object safe_string_from_map
first_version none = ""
first_version (some v) = elim (as_items v) [
  | some (cons first rest) ↦ safe_string_from_map (as_object first) "name"
  | _ ↦ ""
]

unfoldable pub plural_of : Option Value → String
unfolding as_object safe_string_from_map
plural_of none = ""
plural_of (some v) = safe_string_from_map (as_object v) "plural"

-- The resource of a CRD with the annotation, by its group, plural and first version.
unfoldable pub annotated_gvr : Unstructured → Option GroupVersionResource
unfolding first_version plural_of lookup_field
annotated_gvr crd =
    if not (value_of is_policy_annotation crd.annotations == "true")
    then none
    else elim (lookup_field "spec" crd.content) [
      | none ↦ none
      | some s ↦ elim (as_object s) [
        | none ↦ none
        | some spec ↦
            let group = safe_string_from_map (some spec) "group" in
            let plural = plural_of (lookup_field "names" spec) in
            let version = first_version (lookup_field "versions" spec) in
            if (group == "") || ((plural == "") || (version == ""))
            then none
            else some (record { group = group; version = version; resource = plural })
      ]
    ]

unfoldable pub annotated : List Unstructured → Dict GroupVersionResource Bool
unfolding annotated_gvr
annotated [] = []
annotated (crd ∷ crds) =
    let others = annotated crds in
    elim (annotated_gvr crd) [ none ↦ others | some gvr ↦ insert gvr true others ]

-- A list that cannot be had leaves the cached results.
unfoldable pub refresh_annotated_crds : Cluster → Engine → Engine
refresh_annotated_crds cluster e =
    if not cluster.has_dynamic_client
    then e
    else elim cluster.crds [ none ↦ e | some crds ↦ record e { annotated_crds = annotated crds } ]

unfoldable pub is_suppressed : GroupVersionResource → Dict String ProfileState → Bool
is_suppressed gvr m = any (λ ps. not ps.enabled && (ps.gvr == gvr)) (values m)

unfoldable pub watch : Cluster → GroupVersionResource → Engine → Engine
watch cluster gvr e =
    if is_suppressed gvr e.profiles
    then e
    else if not (is_watched gvr e)
    then start_informer cluster gvr (record e { watched_gvrs = insert gvr true e.watched_gvrs })
    else e

unfoldable pub watch_all : Cluster → List GroupVersionResource → Engine → Engine
watch_all cluster [] e = e
watch_all cluster (gvr ∷ gvrs) e = watch_all cluster gvrs (watch cluster gvr e)

unfoldable pub scan : Cluster → Engine → Engine
scan cluster e =
    let discovered = discover e cluster.preferred_resources in
    let refreshed = if e.check_annotation then refresh_annotated_crds cluster e else e in
    watch_all cluster discovered refreshed

-- The loop of `Stop` over the profiles: their channels are closed and forgotten.
unfoldable pub stop_profiles : Dict String ProfileState → Engine → Dict String ProfileState × Engine
unfolding close
stop_profiles [] e = ([], e)
stop_profiles ((name, ps) ∷ m) e =
    let (rest, e') = stop_profiles m e in
    (
      (name, record ps { stop_ch = none }) ∷ rest,
      elim ps.stop_ch [ none ↦ e' | some n ↦ close (of_profile n) e' ],
    )

unfoldable pub stop : Engine → Engine
unfolding stop_profiles close
stop e =
    let ended = close of_engine (record e { stopped = true }) in
    let (profiles, last) = stop_profiles e.profiles ended in
    if e.stopped then e else record last { profiles = profiles }
