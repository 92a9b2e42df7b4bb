-- ===== src/Discovery/Scans.antt =====
-- internal/discovery/engine.go: what a scan watches.
use nightjar.Prelude.{
  String, true, false, ◌&&◌, ◌||◌, not, ◌≡◌, ◌↔◌, ◌⊎◌, inl, inr, refl, ◌∙◌, some, List, [], ◌∷◌,
  arith, ◌==◌, string_eq, ◌∈◌, any, mem-append, if◌then◌else◌, Option-cases, ap,
}
use nightjar.Prelude.Strings.{contains_char}
use nightjar.Prelude.Dict.{lookup-insert}
use nightjar.Types.{GroupVersionResource, gvr_eq, gvr_eqb_iff}
use nightjar.Discovery.Engine.{Engine, is_watched}
use nightjar.Discovery.Watching.{
  Cluster, ResourceList, discover, discover_names, is_constraint_like, start_informer, start_on,
}
use nightjar.Discovery.Scanning.{scan, watch, watch_all, is_suppressed, refresh_annotated_crds}

-- The cluster lists the resource, and it is no sub-resource.
abbrev pub Listed : GroupVersionResource → List ResourceList → Type 0
Listed gvr [] = ⊥
Listed gvr (l ∷ ls) =
    ((l.group_version ≡ some (gvr.group, gvr.version))
      × (gvr.resource ∈ l.names)
      × (contains_char 47 gvr.resource ≡ false))
    ⊎ Listed gvr ls

module _ (e : Engine) where
  discover_names_iff :
      (gvr : GroupVersionResource) (group version : String) (names : List String)
      → (gvr ∈ discover_names e group version names) ↔ (
          (gvr.group ≡ group)
          × (gvr.version ≡ version)
          × (gvr.resource ∈ names)
          × (contains_char 47 gvr.resource ≡ false)
          × (is_constraint_like e gvr gvr.resource ≡ true))
  unfolding discover_names
  discover_names_iff gvr group version [] = (λ h. absurd h, λ h. absurd h.2)
  discover_names_iff gvr group version (name ∷ names) =
      ground (arith, discover_names_iff gvr group version names)

  discover_iff :
      (gvr : GroupVersionResource) (lists : List ResourceList)
      → (gvr ∈ discover e lists)
        ↔ (Listed gvr lists × (is_constraint_like e gvr gvr.resource ≡ true))
  unfolding discover
  discover_iff gvr [] = (λ h. absurd h, λ h. absurd h.0)
  discover_iff gvr (l ∷ lists) = elim (Option-cases l.group_version) [
    | inl e' ↦ ground (arith, e', discover_iff gvr lists)
    | inr ((group, version), e') ↦ ground (
      arith,
      e',
      mem-append gvr (discover_names e group version l.names) (discover e lists),
      discover_names_iff gvr group version l.names,
      discover_iff gvr lists,
    )
  ]

module _ (cluster : Cluster) (gvr : GroupVersionResource) where
  profiles-watch :
      (g : GroupVersionResource) (e : Engine) → (watch cluster g e).profiles ≡ e.profiles
  unfolding watch start_informer start_on
  profiles-watch g e = ground arith

  is_watched-watch :
      (g : GroupVersionResource) (e : Engine)
      → is_watched gvr (watch cluster g e)
        ≡ (is_watched gvr e || ((g == gvr) && not (is_suppressed gvr e.profiles)))
  unfolding watch is_watched start_informer start_on
  is_watched-watch g e = ground (arith, lookup-insert g gvr true e.watched_gvrs, gvr_eqb_iff g gvr)

  is_watched-watch_all :
      (gvrs : List GroupVersionResource) (e : Engine)
      → is_watched gvr (watch_all cluster gvrs e)
        ≡ (is_watched gvr e || (any (λ g. g == gvr) gvrs && not (is_suppressed gvr e.profiles)))
  unfolding watch_all any
  is_watched-watch_all [] e = ground arith
  is_watched-watch_all (g ∷ gvrs) e = ground (
    arith,
    is_watched-watch_all gvrs (watch cluster g e),
    is_watched-watch g e,
    ap (is_suppressed gvr) (profiles-watch g e),
  )

  any_iff : (gvrs : List GroupVersionResource) → (any (λ g. g == gvr) gvrs ≡ true) ↔ (gvr ∈ gvrs)
  unfolding any
  any_iff [] = ground arith
  any_iff (g ∷ gvrs) = ground (arith, gvr_eqb_iff g gvr, any_iff gvrs)

  refreshed : Engine → Engine
  refreshed e = if e.check_annotation then refresh_annotated_crds cluster e else e

  refreshed_only :
      (e : Engine) → refreshed e ≡ record e { annotated_crds = (refreshed e).annotated_crds }
  unfolding refreshed refresh_annotated_crds
  refreshed_only e = ground arith

  is_watched-scan :
      (e : Engine)
      → is_watched gvr (scan cluster e) ≡ (
          is_watched gvr e
          || (any (λ g. g == gvr) (discover e cluster.preferred_resources)
              && not (is_suppressed gvr e.profiles)))
  unfolding scan refreshed
  is_watched-scan e =
      is_watched-watch_all (discover e cluster.preferred_resources) (refreshed e)
      ∙ rw (refreshed_only e) (unfold is_watched in refl)

-- After a scan a resource is watched exactly if it was before, or if the cluster lists it as no
-- sub-resource, it is constraint-like by what the engine knew before the scan, and no disabled
-- profile names it.
pub scan_iff :
    (cluster : Cluster) (gvr : GroupVersionResource) (e : Engine)
    → (is_watched gvr (scan cluster e) ≡ true) ↔ (
        (is_watched gvr e ≡ true)
        ⊎ (Listed gvr cluster.preferred_resources
            × (is_constraint_like e gvr gvr.resource ≡ true)
            × (is_suppressed gvr e.profiles ≡ false)))
scan_iff cluster gvr e = ground (
  arith,
  is_watched-scan cluster gvr e,
  any_iff cluster gvr (discover e cluster.preferred_resources),
  discover_iff e gvr cluster.preferred_resources,
)
