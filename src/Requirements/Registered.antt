-- ===== src/Requirements/Registered.antt =====
-- The evaluators that cmd/controller/main.go sets up, with the four rules: the reconciler's, with the
-- default debounce, and that of the tools for agents, with a debounce of 0.
use nightjar.Prelude.{
  ℕ, Bool, true, false, ◌+◌, ◌*◌, ◌≤◌, ◌≡◌, ◌≢◌, inl, inr, ◌⊎◌, refl, String, none, some, List, [],
  ◌∷◌, arith, string_eq, eq_iff, if◌then◌else◌, ◌∈◌, All, All-mem, subst, sym, Option-cases, ◌==◌,
  not, ◌↔◌,
}
use nightjar.Prelude.Dict.{lookup}
use nightjar.Types.{Constraint, constraint_type_missing}
use nightjar.Util.{Library, Unstructured}
use nightjar.Requirements.Evaluator.{
  Workload, Found, error, constraints, RequirementRule, Evaluator, new_evaluator, register_rule,
  set_debounce_duration, evaluate, debounce_key,
}
use nightjar.Requirements.Context.{
  Client, Listing, list_error, listed, Fetched, get_error, fetched, get_namespace, list_by_gvr,
}
use nightjar.Requirements.Issuers.{
  cert_issuer_rule, evaluate_cert_issuer, check_issuer, make_cert_constraint, named,
}
use nightjar.Requirements.Monitors.{
  prometheus_monitor_rule, evaluate_prometheus_monitor, unless_listed, missing_monitor,
}
use nightjar.Requirements.Istio.{
  peer_authentication_gvr, istio_mtls_rule, istio_routing_rule, evaluate_istio_mtls,
  evaluate_istio_routing, check_routing, check_peer_authentications, missing_peer_authentication,
  missing_routing,
}
use nightjar.Requirements.Debounce.{HasDistinctNames, FoundBy}
use nightjar.Requirements.History.{Call, after, MissingSince, evaluate-missing, evaluate-at_once}

-- `registerRequirementRules` on an evaluator.
abbrev pub registered : Library → (ℕ → Client) → Evaluator → Evaluator
registered lib client e = register_rule (cert_issuer_rule client) (
    register_rule (istio_mtls_rule lib client) (
      register_rule (istio_routing_rule lib client)
        (register_rule (prometheus_monitor_rule lib client) e)))

abbrev pub reconciler_evaluator : Library → (ℕ → Client) → Evaluator
reconciler_evaluator lib client = registered lib client new_evaluator

abbrev pub mcp_evaluator : Library → (ℕ → Client) → Evaluator
mcp_evaluator lib client = registered lib client (set_debounce_duration 0 new_evaluator)

-- A missing resource, in the namespace of the workload.
abbrev pub IsMissingFor : Workload → Constraint → Type 0
IsMissingFor w c = (c.constraint_type ≡ constraint_type_missing) × (c.namespace ≡ w.namespace)

abbrev pub FindsMissing : Workload → Found → Type 0
FindsMissing w (error _) = Unit {0}
FindsMissing w (constraints cs) = All (IsMissingFor w) cs

Listing-cases :
    (l : Listing)
    → ((e : String) × (l ≡ list_error e)) ⊎ ((objs : List Unstructured) × (l ≡ listed objs))
Listing-cases (list_error e) = inl (e, refl)
Listing-cases (listed objs) = inr (objs, refl)

module _ (w : Workload) where
  check_issuer-FindsMissing :
      (l : Listing) (kind name : String) → FindsMissing w (check_issuer l w kind name)
  unfolding check_issuer make_cert_constraint
  check_issuer-FindsMissing (list_error e) kind name = tt
  check_issuer-FindsMissing (listed objs) kind name = ground arith

  nothing_if :
      (b : Bool) (f : Found) → FindsMissing w f → FindsMissing w (if b then constraints [] else f)
  nothing_if true f h = tt
  nothing_if false f h = h

  cert_issuer-FindsMissing : (client : Client) → FindsMissing w (evaluate_cert_issuer client w)
  unfolding evaluate_cert_issuer
  cert_issuer-FindsMissing client = elim (Option-cases (named "cert-manager.io/cluster-issuer" w)) [
    | inr (name, e) ↦ rw (evaluate_cert_issuer, e) (check_issuer-FindsMissing _ _ _)
    | inl e ↦ elim (Option-cases (named "cert-manager.io/issuer-name" w)) [
      | inl f ↦ rw (evaluate_cert_issuer, e, f) tt
      | inr (name, f) ↦
          rw (evaluate_cert_issuer, e, f) (search (nothing_if, check_issuer-FindsMissing))
    ]
  ]

  module _ (lib : Library) where
    unless_listed-FindsMissing :
        (l : Listing) (rest : Found)
        → FindsMissing w rest
        → FindsMissing w (unless_listed lib l rest)
    unfolding unless_listed
    unless_listed-FindsMissing (list_error e) rest h = tt
    unless_listed-FindsMissing (listed []) rest h = h
    unless_listed-FindsMissing (listed (o ∷ os)) rest h = tt

    monitor_lem : FindsMissing w (constraints (missing_monitor w ∷ []))
    unfolding missing_monitor
    monitor_lem = ((refl, refl), tt)

    monitor-FindsMissing :
        (client : Client) → FindsMissing w (evaluate_prometheus_monitor lib client w)
    unfolding evaluate_prometheus_monitor
    monitor-FindsMissing client =
        search (nothing_if, unless_listed-FindsMissing, monitor_lem) depth 9

    routing_lem : FindsMissing w (constraints (missing_routing w ∷ []))
    unfolding missing_routing
    routing_lem = ((refl, refl), tt)

    check_routing-FindsMissing : (vss drs : Listing) → FindsMissing w (check_routing lib vss drs w)
    unfolding check_routing
    check_routing-FindsMissing (list_error e) drs = tt
    check_routing-FindsMissing (listed vss) (list_error e) = ground arith
    check_routing-FindsMissing (listed vss) (listed drs) = search (nothing_if, routing_lem)

    routing-FindsMissing : (client : Client) → FindsMissing w (evaluate_istio_routing lib client w)
    unfolding evaluate_istio_routing
    routing-FindsMissing client =
        elim (Option-cases (lookup "sidecar.istio.io/status" w.annotations)) [
          | inl e ↦ rw (evaluate_istio_routing, e) tt
          | inr (status, e) ↦
              rw (evaluate_istio_routing, e) (search (nothing_if, check_routing-FindsMissing))
        ]

    mtls_lem : FindsMissing w (constraints (missing_peer_authentication w ∷ []))
    unfolding missing_peer_authentication
    mtls_lem = ((refl, refl), tt)

    policies-FindsMissing :
        (client : Client) → FindsMissing w (check_peer_authentications lib client w)
    unfolding check_peer_authentications
    policies-FindsMissing client =
        elim (Listing-cases (list_by_gvr client peer_authentication_gvr w.namespace)) [
          | inl (e, h) ↦ rw (check_peer_authentications, h) tt
          | inr ([], h) ↦ rw (check_peer_authentications, h) (search (nothing_if, mtls_lem))
          | inr (pa ∷ pas, h) ↦ rw (check_peer_authentications, h) tt
        ]

    injected-FindsMissing :
        (client : Client) (ns : Fetched)
        → FindsMissing w (elim ns as (λ x. Found) [
          | get_error err ↦ error err
          | fetched o ↦ elim (lookup "istio-injection" o.labels) as (λ x. Found) [
            | none ↦ constraints []
            | some v ↦
                if not (v == "enabled")
                then constraints []
                else check_peer_authentications lib client w
          ]
        ])
    injected-FindsMissing client (get_error e) = tt
    injected-FindsMissing client (fetched o) =
        elim (Option-cases (lookup "istio-injection" o.labels)) [
          | inl e ↦ rw (e) tt
          | inr (v, e) ↦ rw (e) (search (nothing_if, policies-FindsMissing))
        ]

    mtls-FindsMissing : (client : Client) → FindsMissing w (evaluate_istio_mtls lib client w)
    unfolding evaluate_istio_mtls
    mtls-FindsMissing client =
        search (nothing_if, injected-FindsMissing client (get_namespace client w.namespace))

finds_missing :
    (lib : Library) (client : ℕ → Client) (now : ℕ) (w : Workload) (rule : RequirementRule)
    → rule ∈ (reconciler_evaluator lib client).rules
    → FindsMissing w (rule.evaluate now w)
unfolding new_evaluator register_rule
finds_missing lib client now w rule m =
    let moved = λ (r : RequirementRule) (e : rule ≡ r).
      subst (λ r. FindsMissing w (r.evaluate now w)) (sym e) in
    elim m [
      | inl e ↦ moved _ e (monitor-FindsMissing w lib (client now))
      | inr (inl e) ↦ moved _ e (routing-FindsMissing w lib (client now))
      | inr (inr (inl e)) ↦ moved _ e (mtls-FindsMissing w lib (client now))
      | inr (inr (inr (inl e))) ↦ moved _ e (cert_issuer-FindsMissing w (client now))
      | inr (inr (inr (inr e))) ↦ absurd e
    ]

apart : (s t : String) → (s == t) ≡ false → s ≢ t
apart s t h = ground (arith, eq_iff s t)

pub registered-HasDistinctNames :
    (lib : Library) (client : ℕ → Client) → HasDistinctNames (reconciler_evaluator lib client).rules
unfolding new_evaluator register_rule
registered-HasDistinctNames lib client = (
  (apart _ _ refl, (apart _ _ refl, (apart _ _ refl, tt))),
  ((apart _ _ refl, (apart _ _ refl, tt)), ((apart _ _ refl, tt), (tt, tt))),
)

-- The reconciler's evaluator, after any history of evaluations and cleanups: a constraint that
-- `Evaluate` returns is one of a missing resource, in the namespace of the workload, which one of the
-- four rules finds now; and a rule of that name found something on the workload two minutes before
-- or earlier, without having found nothing since.
pub registered-evaluate :
    (lib : Library) (client : ℕ → Client) (past : List (ℕ × Call)) (now : ℕ) (w : Workload)
    (c : Constraint)
    → c ∈ (evaluate now (some w) (after past (reconciler_evaluator lib client))).1
    → IsMissingFor w c
      × ((rule : RequirementRule) × (rule ∈ (reconciler_evaluator lib client).rules)
          × FoundBy now w c rule
          × ((t : ℕ) × MissingSince
                (reconciler_evaluator lib client).rules
                (debounce_key w rule)
                t
                past
              × (t + 120 * 1000000000 ≤ now)))
unfolding new_evaluator register_rule
registered-evaluate lib client past now w c m =
    let (rule, member, (cs, finds, here), since) =
      evaluate-missing past (reconciler_evaluator lib client) now w c
        (registered-HasDistinctNames lib client) refl m in
    (
      All-mem (IsMissingFor w) cs
          (subst (FindsMissing w) finds (finds_missing lib client now w rule member)) here,
      (
        rule,
        member,
        (cs, finds, here),
        elim since [ inl zero ↦ absurd (ground arith) | inr late ↦ late ],
      ),
    )

-- The evaluator of the tools for agents, after any history of evaluations and cleanups that is not in
-- the future: `Evaluate` returns a constraint exactly if one of the four rules finds it, without a
-- debounce.
pub mcp-evaluate :
    (lib : Library) (client : ℕ → Client) (past : List (ℕ × Call)) (now : ℕ) (w : Workload)
    (c : Constraint)
    → All (λ p. p.0 ≤ now) past
    → (c ∈ (evaluate now (some w) (after past (mcp_evaluator lib client))).1) ↔ (
        (rule : RequirementRule) × (rule ∈ (reconciler_evaluator lib client).rules)
        × FoundBy now w c rule)
unfolding new_evaluator set_debounce_duration register_rule
mcp-evaluate lib client past now w c before =
    evaluate-at_once past (mcp_evaluator lib client) now w c
      (registered-HasDistinctNames lib client) refl refl before
