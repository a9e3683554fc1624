-- ===== src/Coordinator/FacadeAccess.antt =====
-- coordinator/facadeAccess.ts: where a facade's services are.
pub mod Projecting
pub mod Showing
use hkp_node.Shared.{
  String, Bool, List, [], ◌∷◌, Option, none, some, if◌then◌else◌, string_eq, ◌==◌, or_else, any,
}
use hkp_node.Shared.OrderedMap.{get}
use hkp_node.Coordinator.Board.{
  RuntimeDescriptor, ServiceDescriptor, BoardConfig, is_remote_runtime,
}

-- `rootOf`: what stands before the first dot.
unfoldable pub root_of : String → String
root_of String.[] = ""
root_of (String.◌∷◌ c s) =
    let rest = root_of s in if String.◌∷◌ c String.[] == "." then "" else String.◌∷◌ c rest

unfoldable pub lists_service : BoardConfig → String → RuntimeDescriptor → Bool
lists_service config root runtime =
    any (λ (svc : ServiceDescriptor). svc.uuid == root)
      (or_else (get runtime.id config.services) [])

-- The loop of `runtimeHolding`.
unfoldable pub first_holding : BoardConfig → String → List RuntimeDescriptor → Option String
unfolding lists_service
first_holding config root [] = none
first_holding config root (runtime ∷ runtimes) =
    let rest = first_holding config root runtimes in
    if is_remote_runtime runtime
    then (if lists_service config root runtime then some runtime.id else rest)
    else rest

-- `runtimeHolding`
unfoldable pub runtime_holding : BoardConfig → String → Option String
unfolding root_of first_holding
runtime_holding config service_uuid = first_holding config (root_of service_uuid) config.runtimes
