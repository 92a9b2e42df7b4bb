-- ===== src/Discovery/Reconciling.antt =====
-- Reconcile of internal/controller/constraintprofile_controller.go. What its client answers is an
-- argument of each call.
use nightjar.Prelude.{
  ℕ, String, ◌≡◌, refl, ◌∙◌, ap, sym, ◌||◌, not, Option, none, some, List, [], ◌∷◌, if◌then◌else◌,
  ◌==◌, string_eq, eq_iff, Bool-cases, Option-cases, inl, inr,
}
use nightjar.Prelude.Dict.{Dict, lookup, insert, erase, lookup-insert, lookup-erase}
use nightjar.Types.{gvr_eq}
use nightjar.Discovery.Engine.{Engine, ProfileState, is_watched}
use nightjar.Discovery.Watching.{
  Cluster, ProfileSpec, close, stop_profile_informer, stop_gvr_informer, start_on,
  start_profile_informer, profile_state, replace_profile, register_profile, is_needed,
  unregister_profile,
}

-- What a Get of the profile answers.
pub data Got : Type 0 where
  get_failed : String → Got
  not_found : Got
  found : ProfileSpec → Got

-- `RegisterProfile` returns no error on any path.
unfoldable pub reconcile : Cluster → String → Got → Engine → Engine × Option String
reconcile cluster name (get_failed err) e = (e, some err)
reconcile cluster name not_found e = (unregister_profile name e, none)
reconcile cluster name (found spec) e = (register_profile cluster name spec e, none)

-- A history of calls, each with the name of its request.
unfoldable pub reconcile_all : List (Cluster × String × Got) → Engine → Engine
reconcile_all [] e = e
reconcile_all ((cluster, name, got) ∷ calls) e =
    reconcile_all calls (reconcile cluster name got e).0

-- The spec that a state was made from.
abbrev pub spec_of : Option ProfileState → Option ProfileSpec
spec_of none = none
spec_of (some ps) = some (record {
  gvr = ps.gvr;
  adapter = ps.adapter;
  field_paths = ps.field_paths;
  severity = ps.severity;
  enabled = ps.enabled;
})

abbrev pub after : Got → Option ProfileSpec → Option ProfileSpec
after (get_failed err) known = known
after not_found known = none
after (found spec) known = some spec

-- The last answer about the profile that was no error.
abbrev pub last_answer :
    String → List (Cluster × String × Got) → Option ProfileSpec → Option ProfileSpec
last_answer name [] known = known
last_answer name ((cluster, n, got) ∷ calls) known =
    last_answer name calls (if n == name then after got known else known)

-- Informers come and go without a change of the profiles.
stop_profile_informer-profiles :
    (ps : ProfileState) (e : Engine) → (stop_profile_informer ps e).profiles ≡ e.profiles
unfolding stop_profile_informer close
stop_profile_informer-profiles ps e = elim (Option-cases ps.stop_ch) [
  | inl h ↦ rw (h, stop_profile_informer) refl
  | inr (n, h) ↦ rw (h, stop_profile_informer) refl
]

replace_profile-profiles :
    (name : String) (spec : ProfileSpec) (e : Engine)
    → (replace_profile name spec e).profiles ≡ e.profiles
unfolding replace_profile
replace_profile-profiles name spec e = elim (Option-cases (lookup name e.profiles)) [
  | inl h ↦ rw (h, replace_profile) refl
  | inr (ps, h) ↦ elim (Bool-cases (not (ps.gvr == spec.gvr) || not spec.enabled)) [
    | inl g ↦ rw (h, g, replace_profile) (stop_profile_informer-profiles ps e)
    | inr g ↦ rw (h, g, replace_profile) refl
  ]
]

start_profile_informer-profiles :
    (cluster : Cluster) (ps : ProfileSpec) (n : ℕ) (e : Engine)
    → (start_profile_informer cluster ps.gvr n e).profiles ≡ e.profiles
unfolding start_profile_informer start_on
start_profile_informer-profiles cluster ps n e = elim (Bool-cases cluster.has_dynamic_client) [
  | inr h ↦ rw (h, start_profile_informer) refl
  | inl h ↦ elim (Bool-cases (cluster.handler_fails ps.gvr)) [
    | inl g ↦ rw (h, g, start_profile_informer, start_on) refl
    | inr g ↦ rw (h, g, start_profile_informer, start_on) refl
  ]
]

spec-insert :
    (name n : String) (spec : ProfileSpec) (stop_ch : Option ℕ) (m k : Dict String ProfileState)
    → m ≡ k
    → spec_of (lookup name (insert n (profile_state spec stop_ch) m))
      ≡ (if n == name then some spec else spec_of (lookup name k))
spec-insert name n spec stop_ch m k same =
    rw (same, lookup-insert n name (profile_state spec stop_ch) k)
      (elim (Bool-cases (n == name)) [ inl h ↦ rw (h) refl | inr h ↦ rw (h) refl ])

register_profile-spec_of :
    (cluster : Cluster) (name n : String) (spec : ProfileSpec) (e : Engine)
    → spec_of (lookup name (register_profile cluster n spec e).profiles)
      ≡ (if n == name then some spec else spec_of (lookup name e.profiles))
unfolding register_profile stop_gvr_informer
register_profile-spec_of cluster name n spec e =
    let kept = replace_profile-profiles n spec e in
    elim (Bool-cases (not spec.enabled)) [
      | inl h ↦ rw (h, register_profile) (spec-insert name n spec none _ _ kept)
      | inr h ↦ elim (Bool-cases (not (is_watched spec.gvr (replace_profile n spec e)))) [
        | inr g ↦ rw (h, g, register_profile) (spec-insert name n spec none _ _ kept)
        | inl g ↦
            rw (h, g, register_profile, start_profile_informer-profiles)
              (spec-insert name n spec (some (replace_profile n spec e).next) _ _ kept)
      ]
    ]

-- An erased key.
spec-erase :
    (name n : String) (m k : Dict String ProfileState)
    → m ≡ k
    → spec_of (lookup name (erase n m)) ≡ (if n == name then none else spec_of (lookup name k))
spec-erase name n m k same =
    rw (same, lookup-erase n name k)
      (elim (Bool-cases (n == name)) [ inl h ↦ rw (h) refl | inr h ↦ rw (h) refl ])

unregister_profile-spec_of :
    (name n : String) (e : Engine)
    → spec_of (lookup name (unregister_profile n e).profiles)
      ≡ (if n == name then none else spec_of (lookup name e.profiles))
unfolding unregister_profile stop_gvr_informer
unregister_profile-spec_of name n e = elim (Option-cases (lookup n e.profiles)) [
  | inl h ↦ elim (Bool-cases (n == name)) [
    | inl g ↦
        let same : n ≡ name = (eq_iff n name).0 g in
        rw (h, g, unregister_profile) (ap spec_of (ap (λ k. lookup k e.profiles) (sym same) ∙ h))
    | inr g ↦ rw (h, g, unregister_profile) refl
  ]
  | inr (ps, h) ↦
      let e1 = stop_profile_informer ps e in
      let erased = spec-erase name n e1.profiles e.profiles (stop_profile_informer-profiles ps e) in
      elim (Bool-cases (is_needed ps.gvr (erase n e1.profiles))) [
        | inl g ↦ rw (h, g, unregister_profile) erased
        | inr g ↦ rw (h, g, unregister_profile) erased
      ]
]

-- One call.
reconcile-spec_of :
    (cluster : Cluster) (name n : String) (got : Got) (e : Engine)
    → spec_of (lookup name (reconcile cluster n got e).0.profiles) ≡ (
        if n == name
        then after got (spec_of (lookup name e.profiles))
        else spec_of (lookup name e.profiles))
unfolding reconcile
reconcile-spec_of cluster name n (get_failed err) e = elim (Bool-cases (n == name)) [
  | inl h ↦ rw (h) refl
  | inr h ↦ rw (h) refl
]
reconcile-spec_of cluster name n not_found e = unregister_profile-spec_of name n e
reconcile-spec_of cluster name n (found spec) e = register_profile-spec_of cluster name n spec e

-- After any history of calls of `Reconcile`, whatever the cluster answers and whatever fails when
-- an informer starts, the engine keeps for each profile the spec of the last answer about this
-- profile that was no error: none after "not found", and the spec it had before when there is no
-- such answer.
pub reconcile_all-last_answer :
    (name : String) (calls : List (Cluster × String × Got)) (e : Engine)
    → spec_of (lookup name (reconcile_all calls e).profiles)
      ≡ last_answer name calls (spec_of (lookup name e.profiles))
unfolding reconcile_all
reconcile_all-last_answer name [] e = refl
reconcile_all-last_answer name ((cluster, n, got) ∷ calls) e =
    reconcile_all-last_answer name calls (reconcile cluster n got e).0
    ∙ ap (last_answer name calls) (reconcile-spec_of cluster name n got e)
