-- ===== src/Coordinator/Session.antt =====
-- coordinator/session.ts, BoardSession: a board's runtimes as they are built, released and picked up
-- again. Building and releasing happen one at a time (`serial`), so an operation is one step. What a
-- runtime server answers to a request is an argument, and so is who is connected.
pub mod Lifecycle
pub mod Notifications
pub mod Processing
pub mod Editing
pub mod Ending
pub mod Events
pub mod Invariant
pub mod Leftovers
pub mod States
pub mod Reporting
use Prim.Native.String
use text.Mathlib.Text.{starts_with}
use hkp_node.Shared.{
  ℕ, String, Bool, true, false, not, ◌&&◌, ◌||◌, List, [], ◌∷◌, ◌++◌, Option, none, some,
  if◌then◌else◌, string_eq, ◌==◌, truthy, or_else, keep, map, length,
}
use hkp_node.Shared.OrderedMap.{OrderedMap, get, has, set, delete, keys}
use hkp_node.Shared.Json.{Json, property?}
use hkp_node.Shared.Json
use hkp_node.Coordinator.Board.{RuntimeDescriptor, BoardConfig, is_remote_runtime}
use hkp_node.Coordinator.Participants.{Connection}

-- A `Set` of names.
abbrev pub Names : Type 0
Names = OrderedMap String (Unit {0})

abbrev pub add : String → Names → Names
add id names = set id tt names

-- What a request to a runtime server comes to.
pub data Result {ℓ} (A : Type ℓ) : Type ℓ where
  answered : A → Result A
  failed : String → Result A

-- `ReportedService`
pub record ReportedService : Type 0 where
  pub uuid : Option String
  pub state : Option Json

-- `ProvisionResult`
pub record ProvisionResult : Type 0 where
  pub registry : Option (List Json)
  pub services : Option (List ReportedService)
  pub missing_secrets : List String

-- What a runtime server answers, by the request's operation.
pub record Answers : Type 0 where
  pub describe : Result (List ReportedService)
  pub provision : Result ProvisionResult
  pub remove : Result (Unit {0})

-- The state of a session that its runtimes are held in.
pub record Session : Type 0 where
  pub stopped : Bool
  pub destroyed : Bool
  pub capture : Bool
  pub runtime_errors : OrderedMap String String
  pub residue : List String
  pub pending_release : Names
  pub live : Names
  pub built : Names
  pub mount_addresses : OrderedMap String String
  pub service_states : OrderedMap String (OrderedMap String (Option Json))
  pub registries : OrderedMap String (List Json)

-- The requests that change what runs on a runtime server and that it answered.
pub data Effect : Type 0 where
  provisioned removed : String → Effect

-- The constructor; `restored` says whether the board was left stopped, where a store says so.
abbrev pub new_session : Option Bool → Session
new_session restored = record {
  stopped = or_else restored false;
  destroyed = false;
  capture = false;
  runtime_errors = [];
  residue = [];
  pending_release = [];
  live = [];
  built = [];
  mount_addresses = [];
  service_states = [];
  registries = [];
}

-- `required`
abbrev pub required : BoardConfig → List RuntimeDescriptor
required config = keep is_remote_runtime config.runtimes

-- `Runtime "<id>"`, which the lines about a runtime begin with.
abbrev pub runtime_label : String → String
runtime_label id = String.◌++◌ "Runtime \"" (String.◌++◌ id "\"")

abbrev not_connected : String
not_connected = " is not connected — its runtime server has to connect to this coordinator"

-- What `getErrors` says of one runtime.
unfoldable pub error_line : Session → String → List String
error_line s id =
    let reason = or_else (get id s.runtime_errors) "" in
    if truthy reason
    then String.◌++◌ (runtime_label id) (String.◌++◌ ": " reason) ∷ []
    else if not (has id s.live)
    then String.◌++◌ (runtime_label id) not_connected ∷ []
    else []

abbrev pub error_lines : Session → List RuntimeDescriptor → List String
error_lines s [] = []
error_lines s (runtime ∷ runtimes) = error_line s runtime.id ++ error_lines s runtimes

-- `getErrors`
unfoldable pub get_errors : BoardConfig → Session → List String
unfolding error_line
get_errors config s = if s.stopped then s.residue else error_lines s (required config)

-- `BoardSessionStatus`
pub data Status : Type 0 where
  is_stopped in_error is_running : Status

abbrev pub status_of : List String → Status
status_of [] = is_running
status_of (line ∷ lines) = in_error

-- `getStatus`
unfoldable pub get_status : BoardConfig → Session → Status
unfolding get_errors
get_status config s = if s.stopped then is_stopped else status_of (get_errors config s)

abbrev mount_field : String
mount_field = "__hkpMount"

-- The address that a service's state says.
abbrev pub published : Option Json → String
published none = ""
published (some state) = elim (property? mount_field state) [ none ↦ "" | some value ↦ text value ]
  where
    text : Json → String
    text (Json.str url) = url
    text Json.null = ""
    text Json.undefined = ""
    text (Json.flag b) = ""
    text (Json.number n) = ""
    text (Json.bytes b) = ""
    text (Json.arr items) = ""
    text (Json.obj fields) = ""

-- `formatMountRef`
abbrev pub format_mount_ref : String → String → String
format_mount_ref runtime_id uuid =
    String.◌++◌ "hkp-mount://" (String.◌++◌ runtime_id (String.◌++◌ "/" uuid))

-- `recordMountAddress`
unfoldable pub record_mount_address : String → String → String → Session → Session × Bool
record_mount_address runtime_id uuid url s =
    let key = format_mount_ref runtime_id uuid in
    if or_else (get key s.mount_addresses) "" == url && has key s.mount_addresses
    then (s, false)
    else (record s { mount_addresses = set key url s.mount_addresses }, true)

-- The loop of `recordServices`.
unfoldable pub record_each :
    String
    → List ReportedService
    → OrderedMap String (Option Json)
    → Session
    → Session × OrderedMap String (Option Json)
unfolding record_mount_address
record_each runtime_id [] states s = (s, states)
record_each runtime_id (service ∷ services) states s =
    let uuid = or_else service.uuid "" in
    let url = published service.state in
    let next =
      if truthy uuid && truthy url then (record_mount_address runtime_id uuid url s).0 else s in
    record_each runtime_id services (if truthy uuid then set uuid service.state states else states)
      next

-- `recordServices`
unfoldable pub record_services : String → List ReportedService → Session → Session
unfolding record_each
record_services runtime_id services s =
    let recorded = record_each runtime_id services [] s in
    record (recorded.0) { service_states = set runtime_id recorded.1 (recorded.0).service_states }
