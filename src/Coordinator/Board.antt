-- ===== src/Coordinator/Board.antt =====
-- coordinator/types.ts: what a board is to its coordinator. The texts of a runtime's address and the
-- board's assets are read by nothing that is modelled.
use hkp_node.Shared.{String, Bool, true, false, List, Option}
use hkp_node.Shared.OrderedMap.{OrderedMap}
use hkp_node.Shared.Json.{Json}

-- `CloudRuntimeType`
pub data RuntimeType : Type 0 where
  browser graphql rest remote realtime : RuntimeType

-- `CanonicalCloudRuntimeType`
pub data CanonicalType : Type 0 where
  canonical_browser canonical_graphql canonical_rest : CanonicalType

abbrev pub to_canonical : RuntimeType → CanonicalType
to_canonical remote = canonical_graphql
to_canonical realtime = canonical_rest
to_canonical browser = canonical_browser
to_canonical graphql = canonical_graphql
to_canonical rest = canonical_rest

-- `CloudRuntimeDescriptor`
pub record RuntimeDescriptor : Type 0 where
  pub id : String
  pub name : String
  pub kind : RuntimeType
  pub state : Option Json
  pub unit : Option String

-- `CloudServiceDescriptor`
pub record ServiceDescriptor : Type 0 where
  pub uuid : String
  pub service_id : String
  pub service_name : Option String
  pub name : Option String
  pub state : Option Json

-- `CloudBoardConfig`
pub record BoardConfig : Type 0 where
  pub board_name : String
  pub runtimes : List RuntimeDescriptor
  pub services : OrderedMap String (List ServiceDescriptor)
  pub facade : Json

abbrev pub is_rest : CanonicalType → Bool
is_rest canonical_rest = true
is_rest canonical_browser = false
is_rest canonical_graphql = false

abbrev pub is_web : CanonicalType → Bool
is_web canonical_browser = true
is_web canonical_graphql = false
is_web canonical_rest = false

-- `isRemoteRuntime`
abbrev pub is_remote_runtime : RuntimeDescriptor → Bool
is_remote_runtime runtime = is_rest (to_canonical runtime.kind)

-- `isBrowserRuntime`
abbrev pub is_browser_runtime : RuntimeDescriptor → Bool
is_browser_runtime runtime = is_web (to_canonical runtime.kind)
