-- ===== src/Mcp/Resources.antt =====
-- internal/mcp/handlers.go: the handlers of the resources. The clock in RFC 3339 and the detail level
-- of the request are parameters; a request is the path of its URL.
use nightjar.Prelude.{
  String, true, false, none, some, List, [], ◌∷◌, if◌then◌else◌, ◌==◌, string_eq, map, length,
}
use nightjar.Prelude.Strings.{trim_prefix, trim_suffix, before_char, after_char}
use nightjar.Types.{Constraint, DetailLevel, severity_critical, severity_warning, severity_info}
use nightjar.Indexer.{Indexer, by_namespace, all}
use nightjar.Notifier.Steps.{RemediationBuilder}
use nightjar.Reports.Status.{count_severity}
use nightjar.Mcp.Results.{ConstraintResult}
use nightjar.Mcp.Messages.{
  Reply, refused, answered, HealthResponse, enabled_adapter, McpReportEntry, McpReport,
  Capabilities,
}
use nightjar.Mcp.Namespaces.{namespace_count, count_types}
use nightjar.Mcp.Handlers.{find_by_name, result_of}

module _ (rb : RemediationBuilder) (now : String) (idx : Indexer) where
  unfoldable pub handle_health_resource : HealthResponse
  handle_health_resource = record {
    status = "healthy";
    adapters =
        ("networkpolicy", enabled_adapter 1)
        ∷ ("resourcequota", enabled_adapter 1)
        ∷ ("limitrange", enabled_adapter 1)
        ∷ ("webhookconfig", enabled_adapter 2)
        ∷ ("generic", enabled_adapter 0)
        ∷ [];
    hubble = none;
    mcp = record { enabled = true; transport = "sse"; port = 8090 };
    indexer = record {
      total_constraints = length (all idx);
      namespaces_with_constraints = namespace_count (all idx);
    };
    last_scan = now;
  }

  unfoldable pub handle_capabilities_resource : Capabilities
  handle_capabilities_resource = record {
    version = "1";
    adapters = "networkpolicy" ∷ "resourcequota" ∷ "limitrange" ∷ "webhookconfig" ∷ "generic" ∷ [];
    constraint_types = count_types (all idx) [];
    total_constraints = length (all idx);
    namespace_count = namespace_count (all idx);
    hubble_enabled = false;
    mcp_enabled = true;
    last_scan = now;
  }

  module _ (level : DetailLevel) where
    unfoldable pub report_entry : String → Constraint → McpReportEntry
    report_entry namespace c =
        let r = result_of rb now idx level true namespace c in
        record {
          name = r.name;
          type = r.constraint_type;
          severity = r.severity;
          effect = r.effect;
          source = r.source_kind;
          remediation = r.remediation;
          tags = r.tags;
        }

    unfoldable pub build_report : List Constraint → String → McpReport
    build_report cs namespace = record {
      namespace = namespace;
      constraint_count = length cs;
      critical_count = count_severity severity_critical cs;
      warning_count = count_severity severity_warning cs;
      info_count = count_severity severity_info cs;
      constraints = map (report_entry namespace) cs;
      schema_version = "1";
      detail_level = level;
      generated_at = now;
    }

    -- The argument is the path of the URL.
    unfoldable pub handle_report_resource : String → Reply McpReport
    handle_report_resource path =
        let namespace = trim_suffix "/" (trim_prefix "/resources/reports/" path) in
        if namespace == ""
        then refused "Namespace is required" 400
        else answered (build_report (by_namespace idx namespace) namespace)

    -- `strings.SplitN(path, "/", 2)` has two parts where the path has a slash.
    unfoldable pub handle_constraint_resource : String → Reply ConstraintResult
    handle_constraint_resource url_path =
        let path = trim_prefix "/resources/constraints/" url_path in
        let namespace = before_char 47 path in
        elim (after_char 47 path) [
          | none ↦ refused "Namespace and constraint name are required" 400
          | some name ↦ elim (find_by_name name (by_namespace idx namespace)) [
            | none ↦ refused "Constraint not found" 404
            | some c ↦ answered (result_of rb now idx level true namespace c)
          ]
        ]
