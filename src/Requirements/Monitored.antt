-- ===== src/Requirements/Monitored.antt =====
-- internal/requirements/rule_prometheus_monitor.go: when a monitor is missing.
use nightjar.Prelude.{
  ◌≡◌, ◌≢◌, refl, ◌↔◌, inl, inr, String, Bool, true, false, not, Option, none, some, List, [], ◌∷◌,
  arith, eq_iff, string_eq, ◌==◌, if◌then◌else◌, Any, length, nat_eqb,
}
use nightjar.Types.{Constraint, LabelSelector, GroupVersionResource}
use nightjar.Util.{Library, Unstructured, safe_nested_label_selector, matches_label_selector}
use nightjar.Requirements.Evaluator.{Found, constraints}
use nightjar.Requirements.Context.{Client, listed, list_by_gvr, matching, find_matching_resources}
use nightjar.Requirements.Monitors.{
  service_monitor_gvr, pod_monitor_gvr, has_metrics_port, pod_labels, unless_listed,
  missing_monitor, evaluate_prometheus_monitor,
}

module _ (lib : Library) where
  -- The object has a selector, and it matches the labels.
  abbrev pub Matches : List (String × String) → Option LabelSelector → Type 0
  Matches labels none = ⊥
  Matches labels (some s) = matches_label_selector lib (some s) labels ≡ true

  abbrev pub Selects : List (String × String) → Unstructured → Type 0
  Selects labels obj =
      Matches labels (safe_nested_label_selector lib (some obj.content) ("spec" ∷ "selector" ∷ []))

  pick_iff :
      (labels : List (String × String)) (obj : Unstructured) (others : List Unstructured)
      (o : Option LabelSelector)
      → ((elim o as (λ x. List Unstructured) [
        | none ↦ others
        | some s ↦ if matches_label_selector lib (some s) labels then obj ∷ others else others
      ])
          ≡ [])
        ↔ ((¬ Matches labels o) × (others ≡ []))
  pick_iff labels obj others none = ground arith
  pick_iff labels obj others (some s) = ground arith

  matching-nil_iff :
      (labels : List (String × String)) (objs : List Unstructured)
      → (matching lib labels objs ≡ []) ↔ ¬ Any (Selects labels) objs
  unfolding matching
  matching-nil_iff labels [] = (λ h m. m, λ h. refl)
  matching-nil_iff labels (obj ∷ objs) =
      let (to, from) = matching-nil_iff labels objs in
      let (clear, hold) = pick_iff labels obj (matching lib labels objs) _ in
      (
        λ h m. elim m [ inl here ↦ (clear h).0 here | inr later ↦ to (clear h).1 later ],
        λ h. hold (λ here. h (inl here), from (λ later. h (inr later))),
      )

  unless_listed_iff :
      (m : Constraint) (objs : List Unstructured) (rest : Found)
      → (unless_listed lib (listed objs) rest ≡ constraints (m ∷ []))
        ↔ ((objs ≡ []) × (rest ≡ constraints (m ∷ [])))
  unfolding unless_listed
  unless_listed_iff m [] rest = ground arith
  unless_listed_iff m (o ∷ os) rest = ground arith

  find_listed :
      (client : Client) (gvr : GroupVersionResource) (ns : String) (labels : List (String × String))
      (objs : List Unstructured)
      → client.list gvr ns ≡ listed objs
      → find_matching_resources lib client gvr ns labels ≡ listed (matching lib labels objs)
  unfolding find_matching_resources list_by_gvr
  find_listed client gvr ns labels objs h = rw (find_matching_resources, list_by_gvr, h) refl

  nil_length : {A : Type 0} (l : List A) → (nat_eqb (length l) 0 ≡ true) ↔ (l ≡ [])
  nil_length [] = ground arith
  nil_length (x ∷ l) = ground arith

  guarded_iff :
      (b : Bool) (f : Found) (m : Constraint)
      → ((if b then constraints [] else f) ≡ constraints (m ∷ []))
        ↔ ((b ≡ false) × (f ≡ constraints (m ∷ [])))
  guarded_iff true f m = ground arith
  guarded_iff false f m = ground arith

  -- Where both kinds of monitors can be listed, the rule reports a missing monitor exactly if the
  -- workload has a metrics port, a namespace and labels, and no monitor of either kind has a
  -- selector that matches the labels.
  pub missing_monitor_iff :
      (client : Client) (w : Unstructured) (services pods : List Unstructured)
      → client.list service_monitor_gvr w.namespace ≡ listed services
      → client.list pod_monitor_gvr w.namespace ≡ listed pods
      → (evaluate_prometheus_monitor lib client w ≡ constraints (missing_monitor w ∷ [])) ↔ (
          (has_metrics_port lib w ≡ true)
          × (w.namespace ≢ "")
          × (pod_labels lib w ≢ [])
          × (¬ Any (Selects (pod_labels lib w)) services)
          × (¬ Any (Selects (pod_labels lib w)) pods))
  unfolding evaluate_prometheus_monitor
  missing_monitor_iff client w services pods hs hp =
      let labels = pod_labels lib w in
      let m = missing_monitor w in
      let found_pods =
        unless_listed lib (listed (matching lib labels pods)) (constraints (m ∷ [])) in
      let found = unless_listed lib (listed (matching lib labels services)) found_pods in
      let unlabelled = if nat_eqb (length labels) 0 then constraints [] else found in
      let unplaced = if w.namespace == "" then constraints [] else unlabelled in
      rw
        (
          evaluate_prometheus_monitor,
          find_listed client service_monitor_gvr w.namespace labels services hs,
          find_listed client pod_monitor_gvr w.namespace labels pods hp,
        )
        (ground (
          arith,
          guarded_iff (not (has_metrics_port lib w)) unplaced m,
          guarded_iff (w.namespace == "") unlabelled m,
          guarded_iff (nat_eqb (length labels) 0) found m,
          unless_listed_iff m (matching lib labels services) found_pods,
          unless_listed_iff m (matching lib labels pods) (constraints (m ∷ [])),
          matching-nil_iff labels services,
          matching-nil_iff labels pods,
          nil_length labels,
          eq_iff w.namespace "",
        ))
