-- ===== src/Mcp/Messages.antt =====
-- internal/mcp/types.go: the parameters and the answers of the tools and resources.
use nightjar.Prelude.{ℕ, String, Bool, true, Option, List}
use nightjar.Prelude.Dict.{Dict}
use nightjar.Mcp.Results.{McpRemediationStep, RemediationResult, ConstraintResult, MissingResource}

-- An error with its HTTP status, or a value.
pub data Reply (A : Type 0) : Type 0 where
  refused : String → ℕ → Reply A
  answered : A → Reply A

pub record QueryParams : Type 0 where
  pub namespace : String
  pub workload_name : String
  pub workload_labels : List (String × String)
  pub constraint_type : String
  pub severity : String
  pub include_remediation : Bool

pub record McpQueryResult : Type 0 where
  pub namespace : String
  pub constraints : List ConstraintResult
  pub total : ℕ

pub record ExplainParams : Type 0 where
  pub error_message : String
  pub namespace : String
  pub workload_name : String

pub record ExplainResult : Type 0 where
  pub explanation : String
  pub matching_constraints : List ConstraintResult
  pub confidence : String
  pub remediation_steps : List McpRemediationStep

pub record CheckResult : Type 0 where
  pub would_block : Bool
  pub blocking_constraints : List ConstraintResult
  pub missing_prerequisites : List MissingResource
  pub warnings : List String

pub record RemediationParams : Type 0 where
  pub constraint_name : String
  pub namespace : String

pub record IndexerHealth : Type 0 where
  pub total_constraints : ℕ
  pub namespaces_with_constraints : ℕ

pub record AdapterHealth : Type 0 where
  pub enabled : Bool
  pub watched_resources : ℕ
  pub error_count : ℕ
  pub reason : String

pub record HubbleHealth : Type 0 where
  pub enabled : Bool
  pub connected : Bool
  pub address : String

pub record McpHealth : Type 0 where
  pub enabled : Bool
  pub transport : String
  pub port : ℕ

pub record HealthResponse : Type 0 where
  pub status : String
  pub adapters : Dict String AdapterHealth
  pub hubble : Option HubbleHealth
  pub mcp : McpHealth
  pub indexer : IndexerHealth
  pub last_scan : String

abbrev pub enabled_adapter : ℕ → AdapterHealth
enabled_adapter watched = record {
  enabled = true;
  watched_resources = watched;
  error_count = 0;
  reason = "";
}

-- The result of `buildReport`, a map with these keys.
pub record McpReportEntry : Type 0 where
  pub name : String
  pub type : String
  pub severity : String
  pub effect : String
  pub source : String
  pub remediation : Option RemediationResult
  pub tags : List String

pub record McpReport : Type 0 where
  pub namespace : String
  pub constraint_count : ℕ
  pub critical_count : ℕ
  pub warning_count : ℕ
  pub info_count : ℕ
  pub constraints : List McpReportEntry
  pub schema_version : String
  pub detail_level : String
  pub generated_at : String

pub record Capabilities : Type 0 where
  pub version : String
  pub adapters : List String
  pub constraint_types : Dict String ℕ
  pub total_constraints : ℕ
  pub namespace_count : ℕ
  pub hubble_enabled : Bool
  pub mcp_enabled : Bool
  pub last_scan : String
