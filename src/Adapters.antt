-- ===== src/Adapters.antt =====
-- internal/adapters: what turns a Kubernetes object into constraints.
pub mod NetworkPolicy
use nightjar.Prelude.{String, List}
use nightjar.Types.{Constraint}

-- `([]types.Constraint, error)` of `Adapter.Parse`; an error is its text.
pub data Parsed : Type 0 where
  error : String → Parsed
  parsed : List Constraint → Parsed
