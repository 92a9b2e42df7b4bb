-- ===== src/Notifier/Remediation.antt =====
-- internal/notifier/remediation.go: what a developer can do about a constraint.
use nightjar.Prelude.{String, not, ◌||◌, [], ◌∷◌, ◌++◌, if◌then◌else◌, ◌==◌, string_eq, concat}
use nightjar.Prelude.Strings.{to_lower, contains_char}
use nightjar.Types.{
  Constraint, constraint_type_network_ingress, constraint_type_network_egress,
  constraint_type_admission, constraint_type_resource_limit, constraint_type_mesh_policy,
  constraint_type_missing,
}
use nightjar.Notifier.Steps.{
  RemediationInfo, RemediationBuilder, kubectl_step, manual_step, link_step, step, string_detail,
  is_network_policy_source, is_resource_quota_source, is_webhook_source, config_name, webhook_kind,
  pod_columns,
}
use nightjar.Notifier.Templates.{get_missing_resource_template}

-- The section's parameter is the receiver.
module _ (rb : RemediationBuilder) where
  unfoldable pub generate_summary : Constraint → String
  generate_summary c =
      if not (c.remediation_hint == "")
      then c.remediation_hint
      else if c.constraint_type == constraint_type_network_ingress
      then "Review network policy or request ingress exception"
      else if c.constraint_type == constraint_type_network_egress
      then "Review network policy or request egress exception"
      else if c.constraint_type == constraint_type_admission
      then "Review admission policy requirements or request exception"
      else if c.constraint_type == constraint_type_resource_limit
      then "Optimize resource usage or request quota increase"
      else if c.constraint_type == constraint_type_mesh_policy
      then "Review service mesh policy configuration"
      else if c.constraint_type == constraint_type_missing
      then "Create the missing companion resource"
      else concat ("Contact " ∷ rb.default_contact ∷ " for assistance" ∷ [])

  unfoldable pub resolve_contact : Constraint → String
  resolve_contact c =
      let contact = string_detail "contact" c.details in
      if not (contact == "")
      then contact
      else if contains_char 64 c.remediation_hint || contains_char 35 c.remediation_hint
      then c.remediation_hint
      else rb.default_contact

  unfoldable pub convert_steps : Constraint → RemediationInfo
  convert_steps c = record {
    summary = if c.remediation_hint == "" then generate_summary c else c.remediation_hint;
    steps = c.remediation;
  }

  unfoldable pub build_network_policy_remediation : Constraint → RemediationInfo
  build_network_policy_remediation c = record {
    summary = generate_summary c;
    steps =
        (if c.namespace == ""
          then []
          else kubectl_step "Inspect the NetworkPolicy to understand the allowed traffic"
              (concat
                ("kubectl get networkpolicy " ∷ c.name ∷ " -n " ∷ c.namespace ∷ " -o yaml" ∷ []))
              "developer"
            ∷ kubectl_step "Check for related events in the namespace"
                (concat (
                  "kubectl get events -n " ∷ c.namespace
                  ∷ " --field-selector reason=NetworkPolicyDrop" ∷ []))
                "developer"
            ∷ [])
        ++ manual_step "Request a network policy exception or modification" (resolve_contact c)
            "namespace-admin"
          ∷ link_step "Review network policy documentation"
              "https://kubernetes.io/docs/concepts/services-networking/network-policies/"
          ∷ [];
  }

  unfoldable pub build_resource_quota_remediation : Constraint → RemediationInfo
  build_resource_quota_remediation c = record {
    summary = generate_summary c;
    steps =
        (if c.namespace == ""
          then []
          else kubectl_step "View current quota usage"
              (concat ("kubectl describe resourcequota " ∷ c.name ∷ " -n " ∷ c.namespace ∷ []))
              "developer"
            ∷ kubectl_step "List pods with resource requests to identify optimization opportunities"
                (concat ("kubectl get pods -n " ∷ c.namespace ∷ pod_columns ∷ [])) "developer"
            ∷ [])
        ++ manual_step "Request a quota increase from your platform team" (resolve_contact c)
            "namespace-admin"
          ∷ link_step "Review resource management best practices"
              "https://kubernetes.io/docs/concepts/configuration/manage-resources-containers/"
          ∷ [];
  }

  unfoldable pub build_webhook_remediation : Constraint → RemediationInfo
  build_webhook_remediation c = record {
    summary = generate_summary c;
    steps =
        kubectl_step "Inspect the webhook configuration"
          (concat ("kubectl get " ∷ webhook_kind c ∷ " " ∷ config_name c.name ∷ " -o yaml" ∷ []))
          "cluster-admin"
        ∷ manual_step "Check the webhook service logs for rejection details" (resolve_contact c)
            "cluster-admin"
        ∷ kubectl_step "Test resource creation with dry-run to see webhook response"
            "kubectl apply --dry-run=server -f <your-manifest.yaml>" "developer"
        ∷ link_step "Review admission webhook documentation"
            "https://kubernetes.io/docs/reference/access-authn-authz/extensible-admission-controllers/"
        ∷ [];
  }

  unfoldable pub build_missing_resource_remediation : Constraint → RemediationInfo
  build_missing_resource_remediation c =
      let kind = string_detail "expectedKind" c.details in
      let template = get_missing_resource_template kind in
      record {
        summary = generate_summary c;
        steps =
            (if (kind == "") || (c.namespace == "")
              then []
              else kubectl_step
                  (concat ("Check if " ∷ kind ∷ " resources exist in your namespace" ∷ []))
                  (concat ("kubectl get " ∷ to_lower kind ∷ " -n " ∷ c.namespace ∷ [])) "developer"
                ∷ [])
            ++ (if template == ""
                then []
                else record (step "yaml_patch"
                    (concat ("Create the missing " ∷ kind ∷ " resource" ∷ [])) "developer") {
                      template = template;
                    }
                  ∷ [])
            ++ manual_step "Contact your platform team for guidance on creating this resource"
                (resolve_contact c) "developer"
              ∷ [];
      }

  unfoldable pub build_generic_remediation : Constraint → RemediationInfo
  build_generic_remediation c = record {
    summary = generate_summary c;
    steps =
        (if c.namespace == ""
          then kubectl_step "Inspect the constraint source object"
              (concat ("kubectl get " ∷ c.source.resource ∷ " " ∷ c.name ∷ " -o yaml" ∷ []))
              "cluster-admin"
          else kubectl_step "Inspect the constraint source object"
              (concat (
                "kubectl get " ∷ c.source.resource ∷ " " ∷ c.name ∷ " -n " ∷ c.namespace
                ∷ " -o yaml" ∷ []))
              "developer")
        ∷ manual_step "Contact your platform team for assistance with this constraint"
            (resolve_contact c) "developer"
        ∷ [];
  }

  -- The switch of `Build` over the sources and the types.
  unfoldable pub generated : Constraint → RemediationInfo
  generated c =
      if is_network_policy_source c
      then build_network_policy_remediation c
      else if is_resource_quota_source c
      then build_resource_quota_remediation c
      else if is_webhook_source c
      then build_webhook_remediation c
      else if c.constraint_type == constraint_type_missing
      then build_missing_resource_remediation c
      else build_generic_remediation c

  -- `Build`
  unfoldable pub build : Constraint → RemediationInfo
  build c = elim c.remediation [ s ∷ ss ↦ convert_steps c | [] ↦ generated c ]
