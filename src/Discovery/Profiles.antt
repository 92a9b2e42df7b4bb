-- ===== src/Discovery/Profiles.antt =====
-- internal/discovery/engine.go: what registered profiles leave watched, running and stored.
use nightjar.Prelude.{
  ℕ, ◌+◌, String, true, false, not, ◌≡◌, ◌↔◌, inl, inr, refl, sym, none, some, [], ◌∷◌, arith,
  eq_iff, ◌==◌, string_eq, ◌∈◌, mem-keep, Bool-cases,
}
use nightjar.Prelude.Dict.{lookup, erase, insert, lookup-insert, lookup-erase}
use nightjar.Types.{Constraint, GroupVersionResource, gvr_eq, gvr_eqb_iff}
use nightjar.Indexer
use nightjar.Indexer.{by_source_gvr}
use nightjar.Indexer.Invariant.{IsWellFormed}
use nightjar.Indexer.Queries.{Stored, delete_by_source_lem}
use nightjar.Discovery.Engine.{
  Engine, ProfileState, Parsers, Delivered, an_object, tombstone, unexpected, of_profile,
  is_watched, handle_add, handle_update,
}
use nightjar.Discovery.Watching.{
  Cluster, ProfileSpec, profile_state, replace_profile, register_profile, unregister_profile,
  is_needed, stop_profile_informer, stop_gvr_informer, start_profile_informer, close, is_channel,
  start_on,
}

stop_only :
    (ps : ProfileState) (e : Engine)
    → stop_profile_informer ps e ≡ record e { running = (stop_profile_informer ps e).running }
unfolding stop_profile_informer close
stop_only ps e = ground arith

only_running :
    (name : String) (spec : ProfileSpec) (e : Engine)
    → replace_profile name spec e ≡ record e { running = (replace_profile name spec e).running }
unfolding replace_profile stop_profile_informer close
only_running name spec e = ground arith

unwatched_after :
    (gvr : GroupVersionResource) (e : Engine) → is_watched gvr (stop_gvr_informer gvr e) ≡ false
unfolding is_watched stop_gvr_informer
unwatched_after gvr e = ground (arith, lookup-erase gvr gvr e.watched_gvrs, gvr_eqb_iff gvr gvr)

handle_update-unwatched :
    (parsers : Parsers) (gvr : GroupVersionResource) (d : Delivered) (e : Engine)
    → is_watched gvr e ≡ false
    → handle_update parsers gvr d e ≡ e
unfolding handle_update
handle_update-unwatched parsers gvr (an_object obj) e h = rw (h, handle_add) refl
handle_update-unwatched parsers gvr (tombstone o) e h = refl
handle_update-unwatched parsers gvr unexpected e h = refl

disabled_lem :
    (cluster : Cluster) (name : String) (spec : ProfileSpec) (e : Engine)
    → spec.enabled ≡ false
    → register_profile cluster name spec e ≡ (
        let e1 = replace_profile name spec e in
        stop_gvr_informer spec.gvr
          (record e1 { profiles = insert name (profile_state spec none) e1.profiles }))
unfolding register_profile
disabled_lem cluster name spec e disabled = rw (disabled) refl

-- The registration of a disabled profile leaves the index as it was, and the resource unwatched:
-- what an informer delivers of it then changes nothing.
pub register_disabled :
    (cluster : Cluster) (name : String) (spec : ProfileSpec) (e : Engine) (parsers : Parsers)
    (d : Delivered)
    → spec.enabled ≡ false
    → let e' = register_profile cluster name spec e in
      (e'.indexer ≡ e.indexer)
      × (is_watched spec.gvr e' ≡ false)
      × (handle_update parsers spec.gvr d e' ≡ e')
register_disabled cluster name spec e parsers d disabled =
    rw (disabled_lem cluster name spec e disabled) (
      rw (only_running name spec e) (unfold stop_gvr_informer in refl),
      unwatched_after spec.gvr _,
      handle_update-unwatched parsers spec.gvr d _ (unwatched_after spec.gvr _),
    )

unregister-last :
    (name : String) (ps : ProfileState) (e : Engine)
    → lookup name e.profiles ≡ some ps
    → is_needed ps.gvr (erase name e.profiles) ≡ false
    → unregister_profile name e
      ≡ record (stop_gvr_informer ps.gvr (record e {
        running = (stop_profile_informer ps e).running;
        profiles = erase name e.profiles;
      })) { indexer = (Indexer.delete_by_source ps.gvr e.indexer).0 }
unfolding unregister_profile
unregister-last name ps e here alone =
    rw (here, stop_only ps e, unregister_profile, alone) (unfold stop_gvr_informer in refl)

-- In a well-formed index, the end of a profile whose resource no other profile needs leaves the
-- resource unwatched, none of its constraints, and all others.
pub unregister_profile_lem :
    (name : String) (ps : ProfileState) (e : Engine)
    → IsWellFormed e.indexer
    → lookup name e.profiles ≡ some ps
    → is_needed ps.gvr (erase name e.profiles) ≡ false
    → let e' = unregister_profile name e in
      (is_watched ps.gvr e' ≡ false)
      × (lookup name e'.profiles ≡ none)
      × (by_source_gvr e'.indexer ps.gvr ≡ [])
      × ((c : Constraint)
          → Stored e'.indexer c ↔ (Stored e.indexer c × ((c.source == ps.gvr) ≡ false)))
unfolding stop_gvr_informer is_watched
unregister_profile_lem name ps e w here alone =
    let (left, gone, counted) = delete_by_source_lem ps.gvr e.indexer w in
    rw (unregister-last name ps e here alone) (
      unwatched_after ps.gvr e,
      ground (arith, lookup-erase name name e.profiles, eq_iff name name),
      gone,
      left,
    )

abbrev first_state : String → ProfileSpec → Engine → Engine
first_state name spec e = record e {
  profiles = insert name (profile_state spec (some e.next)) e.profiles;
  watched_gvrs = insert spec.gvr true e.watched_gvrs;
  next = e.next + 1;
  informers = insert spec.gvr (of_profile e.next) e.informers;
  running = (spec.gvr, of_profile e.next) ∷ e.running;
}

register_first :
    (cluster : Cluster) (name : String) (spec : ProfileSpec) (e : Engine)
    → spec.enabled ≡ true
    → lookup name e.profiles ≡ none
    → is_watched spec.gvr e ≡ false
    → cluster.has_dynamic_client ≡ true
    → cluster.handler_fails spec.gvr ≡ false
    → register_profile cluster name spec e ≡ first_state name spec e
unfolding register_profile replace_profile start_profile_informer start_on
register_first cluster name spec e on new unwatched client works =
    rw (new, replace_profile, on, unwatched, client, works) refl

register_again :
    (cluster : Cluster) (name : String) (ps : ProfileState) (spec : ProfileSpec) (e : Engine)
    → spec.enabled ≡ true
    → lookup name e.profiles ≡ some ps
    → ps.gvr ≡ spec.gvr
    → is_watched spec.gvr e ≡ true
    → register_profile cluster name spec e
      ≡ record e { profiles = insert name (profile_state spec none) e.profiles }
unfolding register_profile replace_profile
register_again cluster name ps spec e on here same watched =
    let equal : (ps.gvr == spec.gvr) ≡ true = (gvr_eqb_iff ps.gvr spec.gvr).1 same in
    rw (here, replace_profile, on, equal, watched) refl

running-unregister_profile :
    (name : String) (ps : ProfileState) (e : Engine)
    → lookup name e.profiles ≡ some ps
    → (unregister_profile name e).running ≡ (stop_profile_informer ps e).running
unfolding unregister_profile stop_gvr_informer
running-unregister_profile name ps e here =
    elim (Bool-cases (is_needed ps.gvr (erase name (stop_profile_informer ps e).profiles))) [
      | inl needed ↦ rw (here, unregister_profile, needed) refl
      | inr alone ↦ rw (here, unregister_profile, alone) refl
    ]

inserted :
    (name : String) (ps : ProfileState) (e : Engine)
    → lookup name (insert name ps e.profiles) ≡ some ps
inserted name ps e = ground (arith, lookup-insert name name ps e.profiles, eq_iff name name)

watched_first :
    (name : String) (spec : ProfileSpec) (e : Engine) (gvr : GroupVersionResource)
    → gvr ≡ spec.gvr
    → is_watched gvr (first_state name spec e) ≡ true
unfolding is_watched
watched_first name spec e gvr same =
    ground (arith, lookup-insert spec.gvr gvr true e.watched_gvrs, gvr_eqb_iff spec.gvr gvr)

not_closed :
    (n : ℕ) (gvr : GroupVersionResource) (e : Engine)
    → ¬ ((gvr, of_profile n) ∈ (close (of_profile n) e).running)
unfolding close is_channel
not_closed n gvr e m =
    let kept =
      ((mem-keep (λ r. not (is_channel (of_profile n) r.1)) (gvr, of_profile n) e.running).0 m).1 in
    ground (arith, kept)

-- An enabled profile under a new name on a resource that is not watched starts an informer. The end
-- of the profile stops it; but where the profile is registered again before, enabled and on the
-- same resource, the informer is still running after the end.
pub register_twice :
    (cluster : Cluster) (name : String) (spec again : ProfileSpec) (e : Engine)
    → spec.enabled ≡ true
    → again.enabled ≡ true
    → again.gvr ≡ spec.gvr
    → lookup name e.profiles ≡ none
    → is_watched spec.gvr e ≡ false
    → cluster.has_dynamic_client ≡ true
    → cluster.handler_fails spec.gvr ≡ false
    → let e1 = register_profile cluster name spec e in
      let e2 = register_profile cluster name again e1 in
      ((spec.gvr, of_profile e.next) ∈ e1.running)
      × ¬ ((spec.gvr, of_profile e.next) ∈ (unregister_profile name e1).running)
      × ((spec.gvr, of_profile e.next) ∈ (unregister_profile name e2).running)
register_twice cluster name spec again e on on' same new unwatched client works =
    let ps = profile_state spec (some e.next) in
    let first = first_state name spec e in
    let second : Engine = record first {
      profiles = insert name (profile_state again none) first.profiles;
    } in
    let once = register_first cluster name spec e on new unwatched client works in
    let twice =
      register_again cluster name ps again first on' (inserted name ps e) (sym same)
        (watched_first name spec e again.gvr same) in
    let ended = running-unregister_profile name ps first (inserted name ps e) in
    let left =
      running-unregister_profile name (profile_state again none) second
        (inserted name (profile_state again none) first) in
    rw (once, twice)
      (
        inl refl,
        rw ended (unfold stop_profile_informer in not_closed e.next spec.gvr first),
        rw left (unfold stop_profile_informer in inl refl),
      )
