-- ===== src/Notifier/Messages.antt =====
-- internal/notifier/dispatcher.go: the texts of the notifications.
use nightjar.Prelude.{String, [], ◌∷◌, if◌then◌else◌, ◌==◌, string_eq, concat}
use nightjar.Prelude.Strings.{quote}
use nightjar.Types.{
  Constraint, ConstraintType, DetailLevel, constraint_type_network_ingress,
  constraint_type_network_egress, constraint_type_admission, constraint_type_resource_limit,
  constraint_type_mesh_policy, constraint_type_missing, detail_level_detailed, detail_level_full,
}

unfoldable pub generic_effect : ConstraintType → String
generic_effect ct =
    if ct == constraint_type_network_ingress
    then "Inbound network traffic is restricted"
    else if ct == constraint_type_network_egress
    then "Outbound network traffic is restricted"
    else if ct == constraint_type_admission
    then "A validation policy may reject your resources"
    else if ct == constraint_type_resource_limit
    then "Resource quotas or limits apply"
    else if ct == constraint_type_mesh_policy
    then "Service mesh policies apply"
    else if ct == constraint_type_missing
    then "A required companion resource may be missing"
    else "A policy constraint applies"

-- The section's parameter is the option RemediationContact.
module _ (contact : String) where
  unfoldable pub render_summary : Constraint → String
  render_summary c = concat (
      "⚠\u{fe0f} "
      ∷ c.constraint_type
      ∷ " constraint is affecting your workload. "
      ∷ generic_effect c.constraint_type
      ∷ ". Contact "
      ∷ contact
      ∷ " for assistance."
      ∷ [])

  unfoldable pub render_detailed : Constraint → String
  render_detailed c =
      let effect = if c.summary == "" then generic_effect c.constraint_type else c.summary in
      let hint =
        if c.remediation_hint == ""
        then concat ("Contact " ∷ contact ∷ " for assistance." ∷ [])
        else c.remediation_hint in
      concat (
        "⚠\u{fe0f} "
        ∷ c.constraint_type
        ∷ " constraint "
        ∷ quote c.name
        ∷ ": "
        ∷ effect
        ∷ ". "
        ∷ hint
        ∷ [])

  unfoldable pub render_full : Constraint → String
  render_full c =
      let source =
        if c.source.group == ""
        then concat ("core/" ∷ c.source.version ∷ "/" ∷ c.source.resource ∷ [])
        else concat (c.source.group ∷ "/" ∷ c.source.version ∷ "/" ∷ c.source.resource ∷ []) in
      let location =
        if c.namespace == "" then c.name else concat (c.namespace ∷ "/" ∷ c.name ∷ []) in
      concat (
        "⚠\u{fe0f} ["
        ∷ source
        ∷ "] "
        ∷ c.constraint_type
        ∷ " "
        ∷ quote location
        ∷ ": "
        ∷ c.summary
        ∷ ". "
        ∷ c.remediation_hint
        ∷ [])

  unfoldable pub render_message : Constraint → DetailLevel → String
  render_message c level =
      if level == detail_level_full
      then render_full c
      else if level == detail_level_detailed
      then render_detailed c
      else render_summary c
