-- ===== src/Notifier/Privacy.antt =====
-- What an event shows of a constraint at each level.
use nightjar.Prelude.{
  ◌≡◌, ◌≢◌, inl, refl, sym, ◌∙◌, ap, String, Bool, true, false, not, ◌&&◌, List, [], ◌∷◌, ◌==◌,
  string_eq, concat, All, ◌∈◌, arith, eq_iff,
}
use nightjar.Types.{
  constraint_type_resource_limit, Constraint, RemediationStep, detail_level_summary,
  constraint_type_resource_limit,
}
use nightjar.Notifier.Steps.{
  RemediationInfo, RemediationBuilder, is_network_policy_source, kubectl_step,
}
use nightjar.Notifier.Remediation.{
  build, generated, convert_steps, generate_summary, build_network_policy_remediation,
  build_resource_quota_remediation, build_webhook_remediation, build_missing_resource_remediation,
  build_generic_remediation,
}
use nightjar.Notifier.EventBuilder.{
  EventStructuredData, WorkloadRef, Outside, scoped_constraint_name, can_show_namespace,
  scoped_summary, scope_remediation, scope_steps, scope_step,
}
use nightjar.Notifier.BuildEvent.{
  build_structured_data, build_event, build_annotations, build_labels,
}

-- The two constraints agree on all fields that an event of summary level is made from, but for those
-- that the remediation steps are made from.
pub record LooksLike (c d : Constraint) : Type 0 where
  pub uid : c.uid ≡ d.uid
  pub source : c.source ≡ d.source
  pub constraint_type : c.constraint_type ≡ d.constraint_type
  pub severity : c.severity ≡ d.severity
  pub effect : c.effect ≡ d.effect
  pub tags : c.tags ≡ d.tags
  pub remediation_hint : c.remediation_hint ≡ d.remediation_hint

module _ (c : Constraint) (viewer : String) (away : c.namespace ≢ viewer) where
  redacted : scoped_constraint_name c detail_level_summary viewer ≡ "redacted"
  unfolding scoped_constraint_name
  redacted = ground (arith, eq_iff c.namespace viewer)

  hidden : can_show_namespace c detail_level_summary viewer ≡ false
  unfolding can_show_namespace
  hidden = ground (arith, eq_iff c.namespace viewer)

abbrev info : String → List RemediationStep → RemediationInfo
info summary steps = record { summary = summary; steps = steps }

-- The choice of `Build`.
module _ (own others : RemediationInfo) where
  chosen_own :
      (steps : List RemediationStep)
      → steps ≢ []
      → (elim steps as (λ x. RemediationInfo) [ s ∷ ss ↦ own | [] ↦ others ]) ≡ own
  chosen_own [] h = absurd (h refl)
  chosen_own (s ∷ ss) h = refl

  chosen-summary :
      (steps : List RemediationStep) (summary : String)
      → own.summary ≡ summary
      → others.summary ≡ summary
      → (elim steps as (λ x. RemediationInfo) [ s ∷ ss ↦ own | [] ↦ others ]).summary ≡ summary
  chosen-summary [] summary h k = k
  chosen-summary (s ∷ ss) summary h k = h

module _ (rb : RemediationBuilder) where
  pub generated-summary : (c : Constraint) → (generated rb c).summary ≡ generate_summary rb c
  unfolding generated build_network_policy_remediation build_resource_quota_remediation
      build_webhook_remediation build_missing_resource_remediation build_generic_remediation
  generated-summary c = ground arith

  convert_steps-summary : (c : Constraint) → (convert_steps rb c).summary ≡ generate_summary rb c
  unfolding convert_steps generate_summary
  convert_steps-summary c = ground arith

  build-own_steps : (c : Constraint) → c.remediation ≢ [] → build rb c ≡ convert_steps rb c
  unfolding build
  build-own_steps c own = chosen_own (convert_steps rb c) (generated rb c) c.remediation own

  -- The summary of a remediation, of steps of the constraint's own or not.
  pub build-summary : (c : Constraint) → (build rb c).summary ≡ generate_summary rb c
  unfolding build
  build-summary c =
      chosen-summary (convert_steps rb c) (generated rb c) c.remediation (generate_summary rb c)
        (convert_steps-summary c) (generated-summary c)

  module _ (c d : Constraint) (same : LooksLike c d) where
    generate_summary-same : generate_summary rb c ≡ generate_summary rb d
    unfolding generate_summary
    generate_summary-same = rw (same.remediation_hint, same.constraint_type) refl

    -- Steps of their own make the remediation.
    build-own : c.remediation ≢ [] → c.remediation ≡ d.remediation → build rb c ≡ build rb d
    unfolding convert_steps
    build-own own steps =
        let summaries =
          convert_steps-summary c ∙ generate_summary-same ∙ sym (convert_steps-summary d) in
        build-own_steps c own
        ∙ ap (λ t. info t c.remediation) summaries
        ∙ ap (λ ss. info (convert_steps rb d).summary ss) steps
        ∙ sym (build-own_steps d (λ e. own (steps ∙ e)))

hidden_and : (b : Bool) → (b && false) ≡ false
hidden_and b = ground arith

-- The structured data with no steps in the remediation.
abbrev pub without_steps : EventStructuredData → EventStructuredData
without_steps s = record s { remediation = record s.remediation { steps = [] } }

module _ (outside : Outside) (workload : WorkloadRef) (c d : Constraint) where
  structured_data-summary :
      (r : RemediationInfo)
      → LooksLike c d
      → c.namespace ≢ workload.namespace
      → d.namespace ≢ workload.namespace
      → build_structured_data outside c detail_level_summary workload r
        ≡ build_structured_data outside d detail_level_summary workload r
  unfolding build_structured_data scoped_summary
  structured_data-summary r same away away' =
      rw
        (
          redacted c workload.namespace away,
          redacted d workload.namespace away',
          hidden c workload.namespace away,
          hidden d workload.namespace away',
          same.uid,
          same.source,
          same.constraint_type,
          same.severity,
          same.effect,
          same.tags,
          hidden_and (d.constraint_type == constraint_type_resource_limit),
        )
        refl

  -- At summary level, for a workload outside the namespaces of two constraints that agree on UID,
  -- source, type, severity, effect, tags and remediation hint, the structured data of the two are
  -- the same when the steps are taken off the remediation: name, namespace, summary and details of a
  -- constraint make no difference to the rest.
  pub build_structured_data-summary :
      (rb : RemediationBuilder)
      → LooksLike c d
      → c.namespace ≢ workload.namespace
      → d.namespace ≢ workload.namespace
      → without_steps (build_structured_data outside c detail_level_summary workload (build rb c))
        ≡ without_steps (build_structured_data outside d detail_level_summary workload (build rb d))
  unfolding build_structured_data scoped_summary scope_remediation
  build_structured_data-summary rb same away away' =
      let summaries : (build rb c).summary ≡ (build rb d).summary =
        build-summary rb c ∙ generate_summary-same rb c d same ∙ sym (build-summary rb d) in
      ap without_steps (structured_data-summary (build rb c) same away away')
      ∙ ap
          (λ t.
            without_steps
              (build_structured_data outside d detail_level_summary workload (info t [])))
          summaries

  -- At summary level, for a workload outside the namespaces of two constraints that agree on UID,
  -- source, type, severity, effect, tags, remediation hint and remediation steps, of which they have
  -- some, the events of the two are the same: name, namespace, summary and details of a constraint
  -- make no difference.
  pub build_event-summary :
      (rb : RemediationBuilder) (message : String)
      → LooksLike c d
      → c.remediation ≢ []
      → c.remediation ≡ d.remediation
      → c.namespace ≢ workload.namespace
      → d.namespace ≢ workload.namespace
      → build_event outside rb c detail_level_summary workload message
        ≡ build_event outside rb d detail_level_summary workload message
  unfolding build_event build_annotations build_labels
  build_event-summary rb message same own steps away away' =
      rw
        (
          structured_data-summary (build rb c) same away away',
          redacted c workload.namespace away,
          redacted d workload.namespace away',
          hidden c workload.namespace away,
          hidden d workload.namespace away',
          build-own rb c d same own steps,
          same.source,
          same.constraint_type,
          same.severity,
          same.effect,
          hidden_and (not (c.namespace == "")),
          hidden_and (not (d.namespace == "")),
        )
        refl

-- A kubectl step for cluster admins has no command.
abbrev pub HidesAdminCommand : RemediationStep → Type 0
HidesAdminCommand s = s.type ≡ "kubectl" → s.requires_privilege ≡ "cluster-admin" → s.command ≡ ""

scope_step-HidesAdminCommand :
    (s : RemediationStep) → HidesAdminCommand (scope_step detail_level_summary s)
unfolding scope_step
scope_step-HidesAdminCommand s =
    ground (arith, eq_iff s.type "kubectl", eq_iff s.requires_privilege "cluster-admin")

-- After scoping to summary level, no kubectl step for cluster admins has a command.
pub scope_steps-HidesAdminCommand :
    (steps : List RemediationStep) → All HidesAdminCommand (scope_steps detail_level_summary steps)
unfolding scope_steps
scope_steps-HidesAdminCommand [] = tt
scope_steps-HidesAdminCommand (s ∷ ss) =
    (scope_step-HidesAdminCommand s, scope_steps-HidesAdminCommand ss)

-- For a network policy with a namespace and no remediation of its own, the structured data at
-- summary level, whatever the namespace of the workload, holds a step whose command spells out the
-- policy's name and namespace.
pub structured_data_leak :
    (outside : Outside) (rb : RemediationBuilder) (c : Constraint) (workload : WorkloadRef)
    → c.remediation ≡ []
    → is_network_policy_source c ≡ true
    → c.namespace ≢ ""
    → kubectl_step "Inspect the NetworkPolicy to understand the allowed traffic"
        (concat ("kubectl get networkpolicy " ∷ c.name ∷ " -n " ∷ c.namespace ∷ " -o yaml" ∷ []))
        "developer"
      ∈ (build_structured_data outside c detail_level_summary workload
          (build rb c)).remediation.steps
unfolding build_structured_data scope_remediation scope_steps scope_step build generated
    build_network_policy_remediation is_network_policy_source
structured_data_leak outside rb c workload own policy placed =
    let named : (c.namespace == "") ≡ false = ground (arith, eq_iff c.namespace "") in
    rw (own, policy, named) (inl refl)
