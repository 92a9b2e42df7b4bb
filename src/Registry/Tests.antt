-- ===== src/Registry/Tests.antt =====
-- Witnesses and runs of the registry.
use nightjar.Prelude.{◌≡◌, refl, none, some, [], ◌∷◌, any}
use nightjar.Prelude.Dict
use nightjar.Types.{GroupVersionResource}
use nightjar.Registry.{Adapter, Registry, new_registry, register, for_gvr, for_name}
use nightjar.Registry.Register.{register_lem}
use nightjar.Registry.Groups.{registers, run}

abbrev pods : GroupVersionResource
pods = record { group = "core"; version = "v1"; resource = "pods" }

abbrev quotas : GroupVersionResource
quotas = record { group = "core"; version = "v1"; resource = "resourcequotas" }

abbrev quota_adapter : Adapter
quota_adapter = record { name = "resourcequota"; handles = quotas ∷ [] }

abbrev both_adapter : Adapter
both_adapter = record { name = "core"; handles = pods ∷ quotas ∷ [] }

register_lem_example :
    let r' = (register quota_adapter new_registry).0 in
    (for_gvr quotas r' ≡ some quota_adapter)
    × (for_name "resourcequota" r' ≡ some quota_adapter)
    × (for_name "resourcequota" new_registry ≡ none)
unfolding for_gvr for_name register Dict.lookup any
register_lem_example = register_lem quota_adapter new_registry quotas "resourcequota" refl

two_adapters : Registry
two_adapters = run (registers quota_adapter ∷ registers both_adapter ∷ []) new_registry

abbrev pods_adapter : Adapter
pods_adapter = record { name = "pods"; handles = pods ∷ [] }
