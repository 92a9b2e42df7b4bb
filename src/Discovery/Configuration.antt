-- ===== src/Discovery/Configuration.antt =====
-- internal/discovery/engine.go: a new engine, its configuration, and what it watches.
use nightjar.Prelude.{String, Bool, true, false, List, [], ◌∷◌, ◌++◌, string_eq}
use nightjar.Prelude.Dict.{Dict, insert, keys}
use nightjar.Types.{GroupVersionResource}
use nightjar.Registry.{Registry}
use nightjar.Indexer
use nightjar.Discovery.Engine.{Engine}

abbrev default_policy_groups : Dict String Bool
default_policy_groups =
    ("networking.k8s.io", true)
    ∷ ("cilium.io", true)
    ∷ ("constraints.gatekeeper.sh", true)
    ∷ ("kyverno.io", true)
    ∷ ("security.istio.io", true)
    ∷ ("networking.istio.io", true)
    ∷ ("admissionregistration.k8s.io", true)
    ∷ ("policy", true)
    ∷ []

abbrev default_policy_name_hints : List String
default_policy_name_hints =
    "policy" ∷ "policies" ∷ "constraint" ∷ "constraints" ∷ "rule" ∷ "rules" ∷ "quota" ∷ "quotas"
    ∷ "limit" ∷ "limits" ∷ "authorization" ∷ []

unfoldable pub new_engine : Registry → Indexer.Indexer → Engine
new_engine registry indexer = record {
  registry = registry;
  indexer = indexer;
  watched_gvrs = [];
  informers = [];
  running = [];
  next = 0;
  stopped = false;
  policy_groups = default_policy_groups;
  name_hints = default_policy_name_hints;
  profiles = [];
  annotated_crds = [];
  check_annotation = true;
}

-- `WatchedGVRs`
unfoldable pub watched_resources : Engine → List GroupVersionResource
watched_resources e = keys e.watched_gvrs

unfoldable pub set_groups : List String → Dict String Bool → Dict String Bool
set_groups [] m = m
set_groups (g ∷ gs) m = set_groups gs (insert g true m)

unfoldable pub set_additional_groups : List String → Engine → Engine
unfolding set_groups
set_additional_groups groups e = record e { policy_groups = set_groups groups e.policy_groups }

unfoldable pub set_additional_hints : List String → Engine → Engine
set_additional_hints hints e = record e { name_hints = e.name_hints ++ hints }

unfoldable pub set_check_annotation : Bool → Engine → Engine
set_check_annotation enabled e = record e { check_annotation = enabled }
