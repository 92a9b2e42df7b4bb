-- ===== src/Notifier/Remedies.antt =====
-- What a remediation holds.
use nightjar.Prelude.{
  Bool-cases, ◌∙◌, inl, inr, ◌==◌, ◌≡◌, String, Option, none, some, List, [], ◌∷◌, arith, string_eq,
}
use nightjar.Prelude.Dict.{Dict, lookup, insert, lookup-insert}
use nightjar.Types.{Constraint, RemediationStep, DetailLevel}
use nightjar.Notifier.Steps.{RemediationBuilder}
use nightjar.Notifier.Remediation.{
  build, generated, convert_steps, build_network_policy_remediation,
  build_resource_quota_remediation, build_webhook_remediation, build_missing_resource_remediation,
  build_generic_remediation,
}
use nightjar.Notifier.EventBuilder.{Outside, WorkloadRef}
use nightjar.Notifier.BuildEvent.{
  build_annotations, event_remediation_type, event_remediation_contact, event_structured_data,
  put_remediation, put_data,
}

abbrev pub HasStep : List RemediationStep → Type 0
HasStep [] = ⊥
HasStep (s ∷ ss) = Unit

-- The type of the first step.
abbrev pub first_type : List RemediationStep → Option String
first_type [] = none
first_type (s ∷ ss) = some s.type

lookup-put_step :
    (s : RemediationStep) (ss : List RemediationStep) (annots : Dict String String)
    → lookup event_remediation_type (put_remediation (s ∷ ss) annots) ≡ some s.type
lookup-put_step s ss annots =
    let typed = insert event_remediation_type s.type annots in
    let found = lookup-insert event_remediation_type event_remediation_type s.type annots in
    ground
      (arith, found, lookup-insert event_remediation_contact event_remediation_type s.contact typed)

lookup-put_remediation :
    (ss : List RemediationStep) (json : Option String) (annots : Dict String String)
    → HasStep ss
    → lookup event_remediation_type (put_data json (put_remediation ss annots)) ≡ first_type ss
lookup-put_remediation [] json annots h = absurd h
lookup-put_remediation (s ∷ ss) none annots h = lookup-put_step s ss annots
lookup-put_remediation (s ∷ ss) (some text) annots h =
    lookup-insert event_structured_data event_remediation_type text
      (put_remediation (s ∷ ss) annots)
    ∙ lookup-put_step s ss annots

module _ (rb : RemediationBuilder) where
  network_policy-HasStep : (c : Constraint) → HasStep (build_network_policy_remediation rb c).steps
  unfolding build_network_policy_remediation
  network_policy-HasStep c = elim (Bool-cases (c.namespace == "")) [
    | inl e ↦ rw (e) tt
    | inr e ↦ rw (e) tt
  ]

  resource_quota-HasStep : (c : Constraint) → HasStep (build_resource_quota_remediation rb c).steps
  unfolding build_resource_quota_remediation
  resource_quota-HasStep c = elim (Bool-cases (c.namespace == "")) [
    | inl e ↦ rw (e) tt
    | inr e ↦ rw (e) tt
  ]

  missing_resource-HasStep :
      (c : Constraint) → HasStep (build_missing_resource_remediation rb c).steps
  unfolding build_missing_resource_remediation
  missing_resource-HasStep c = ground arith

  generated-HasStep : (c : Constraint) → HasStep (generated rb c).steps
  unfolding generated build_webhook_remediation build_generic_remediation
  generated-HasStep c =
      ground (arith, network_policy-HasStep c, resource_quota-HasStep c, missing_resource-HasStep c)

  build-HasStep : (c : Constraint) → HasStep (build rb c).steps
  unfolding build convert_steps
  build-HasStep c =
      elim c.remediation as (λ r. HasStep (build rb (record c { remediation = r })).steps) [
        | [] ↦ generated-HasStep (record c { remediation = [] })
        | s ∷ ss ↦ tt
      ]

  -- Whatever the constraint, Build returns a step, and the annotations of the event have the type
  -- of the first step as the remediation type.
  pub build_annotations-remediation_type :
      (outside : Outside) (c : Constraint) (level : DetailLevel) (workload : WorkloadRef)
      → HasStep (build rb c).steps
        × (lookup event_remediation_type (build_annotations outside rb c level workload)
            ≡ first_type (build rb c).steps)
  unfolding build_annotations
  build_annotations-remediation_type outside c level workload =
      (build-HasStep c, lookup-put_remediation (build rb c).steps _ _ (build-HasStep c))
