-- ===== src/Discovery/Watching.antt =====
-- internal/discovery/engine.go: the profiles, and which listed resources are constraint-like. What the
-- cluster answers is the record `Cluster`: whether there is a dynamic client, for which resources
-- the registration of the handlers fails, the lists of resources, and the CRDs, which may not be
-- readable.
use nightjar.Prelude.{
  ℕ, ◌+◌, String, Bool, true, false, ◌&&◌, ◌||◌, not, Option, none, some, List, [], ◌∷◌, ◌++◌,
  if◌then◌else◌, ◌==◌, string_eq, any, nat_eqb, keep,
}
use nightjar.Prelude.Strings.{to_lower, contains, contains_char}
use nightjar.Prelude.Dict.{Dict, lookup, insert, erase, values}
use nightjar.Types.{GroupVersionResource, gvr_eq}
use nightjar.Util.{Unstructured}
use nightjar.Registry.{for_gvr}
use nightjar.Indexer
use nightjar.Discovery.Engine.{
  Engine, ProfileState, FieldPaths, StopChannel, of_engine, of_profile, is_watched,
}

-- A list of the resources of one group version, whose text may not parse.
pub record ResourceList : Type 0 where
  pub group_version : Option (String × String)
  pub names : List String

pub record Cluster : Type 0 where
  pub has_dynamic_client : Bool
  pub handler_fails : GroupVersionResource → Bool
  pub preferred_resources : List ResourceList
  pub crds : Option (List Unstructured)

-- The spec of a v1alpha1.ConstraintProfile.
pub record ProfileSpec : Type 0 where
  pub gvr : GroupVersionResource
  pub adapter : String
  pub field_paths : Option FieldPaths
  pub severity : String
  pub enabled : Bool

unfoldable pub is_channel : StopChannel → StopChannel → Bool
is_channel of_engine of_engine = true
is_channel (of_profile m) (of_profile n) = nat_eqb m n
is_channel _ _ = false

-- `close(ch)` ends the informers that run on the channel.
unfoldable pub close : StopChannel → Engine → Engine
close ch e = record e { running = keep (λ r. not (is_channel ch r.1)) e.running }

unfoldable pub stop_profile_informer : ProfileState → Engine → Engine
stop_profile_informer ps e = elim ps.stop_ch [ none ↦ e | some n ↦ close (of_profile n) e ]

unfoldable pub stop_gvr_informer : GroupVersionResource → Engine → Engine
stop_gvr_informer gvr e = record e {
  watched_gvrs = erase gvr e.watched_gvrs;
  informers = erase gvr e.informers;
}

-- `go informer.Run(stopCh)` ends at once on a channel that is closed.
unfoldable pub start_on : Cluster → GroupVersionResource → StopChannel → Bool → Engine → Engine
start_on cluster gvr ch closed e = if cluster.handler_fails gvr then e else record e {
  informers = insert gvr ch e.informers;
  running = if closed then e.running else (gvr, ch) ∷ e.running;
}

unfoldable pub start_informer : Cluster → GroupVersionResource → Engine → Engine
start_informer cluster gvr e = start_on cluster gvr of_engine e.stopped e

unfoldable pub start_profile_informer : Cluster → GroupVersionResource → ℕ → Engine → Engine
start_profile_informer cluster gvr n e =
    if not cluster.has_dynamic_client then e else start_on cluster gvr (of_profile n) false e

abbrev pub profile_state : ProfileSpec → Option ℕ → ProfileState
profile_state spec stop_ch = record {
  gvr = spec.gvr;
  adapter = spec.adapter;
  field_paths = spec.field_paths;
  severity = spec.severity;
  enabled = spec.enabled;
  stop_ch = stop_ch;
}

-- The first part of `RegisterProfile`: a profile of the name whose resource changes, or that is
-- disabled, has its informer stopped.
unfoldable pub replace_profile : String → ProfileSpec → Engine → Engine
replace_profile name spec e = elim (lookup name e.profiles) [
  | none ↦ e
  | some existing ↦
      if not (existing.gvr == spec.gvr) || not spec.enabled
      then stop_profile_informer existing e
      else e
]

unfoldable pub register_profile : Cluster → String → ProfileSpec → Engine → Engine
register_profile cluster name spec e =
    let e1 = replace_profile name spec e in
    let kept : Engine = record e1 {
      profiles = insert name (profile_state spec none) e1.profiles;
    } in
    let started : Engine = record e1 {
      profiles = insert name (profile_state spec (some e1.next)) e1.profiles;
      watched_gvrs = insert spec.gvr true e1.watched_gvrs;
      next = e1.next + 1;
    } in
    if not spec.enabled
    then stop_gvr_informer spec.gvr kept
    else if not (is_watched spec.gvr e1)
    then start_profile_informer cluster spec.gvr e1.next started
    else kept

-- Does a profile that is left need the resource?
unfoldable pub is_needed : GroupVersionResource → Dict String ProfileState → Bool
is_needed gvr m = any (λ ps. ps.enabled && (ps.gvr == gvr)) (values m)

unfoldable pub unregister_profile : String → Engine → Engine
unregister_profile name e = elim (lookup name e.profiles) [
  | none ↦ e
  | some ps ↦
      let e1 = stop_profile_informer ps e in
      let e2 : Engine = record e1 { profiles = erase name e1.profiles } in
      let e3 = stop_gvr_informer ps.gvr e2 in
      if is_needed ps.gvr e2.profiles
      then e2
      else record e3 { indexer = (Indexer.delete_by_source ps.gvr e3.indexer).0 }
]

unfoldable pub is_constraint_like : Engine → GroupVersionResource → String → Bool
is_constraint_like e gvr name =
    elim (lookup gvr.group e.policy_groups) [ none ↦ false | some b ↦ b ]
    || (elim (for_gvr gvr e.registry) [ none ↦ false | some a ↦ true ]
        || (((gvr.group == "") && ((name == "resourcequotas") || (name == "limitranges")))
            || (any (λ hint. contains hint (to_lower name)) e.name_hints
                || (any (λ ps. ps.enabled && (ps.gvr == gvr)) (values e.profiles)
                    || elim (lookup gvr e.annotated_crds) [ none ↦ false | some b ↦ b ]))))

-- The loop over the resources of a list; `/` marks a sub-resource.
unfoldable pub discover_names : Engine → String → String → List String → List GroupVersionResource
unfolding is_constraint_like
discover_names e group version [] = []
discover_names e group version (name ∷ names) =
    let gvr : GroupVersionResource = record { group = group; version = version; resource = name } in
    let others = discover_names e group version names in
    if contains_char 47 name
    then others
    else if is_constraint_like e gvr name
    then gvr ∷ others
    else others

unfoldable pub discover : Engine → List ResourceList → List GroupVersionResource
unfolding discover_names
discover e [] = []
discover e (l ∷ lists) =
    let others = discover e lists in
    elim l.group_version [
      | none ↦ others
      | some (group, version) ↦ discover_names e group version l.names ++ others
    ]
