-- ===== src/Services/Conversations/Settings.antt =====
-- The configuration of a service of services/conversations.ts: `configure` and `getState`.
use hkp_node.Shared.{
  ℕ, zero, suc, String, Bool, true, false, List, [], Option, none, some, if◌then◌else◌, ◌==◌,
  string_eq, truthy, or_else,
}
use hkp_node.Shared.Json.{
  Number, nat, fraction, infinity, Json, Fields, null, undefined, flag, number, str, bytes, arr,
  obj,
}
use hkp_node.Services.Conversations.Rows.{Direction, inbound, outbound}
use hkp_node.Services.Conversations.Values.{Host, value_of, is_string, string_or_empty, names}

-- `Mode`
pub data Mode : Type 0 where
  ingest thread transition actionable put_artifact list_artifacts set_artifact_status : Mode

-- `MODES.includes(mode)`, and the mode.
abbrev pub mode_named : String → Option Mode
mode_named s =
    if s == "ingest"
    then some ingest
    else if s == "thread"
    then some thread
    else if s == "transition"
    then some transition
    else if s == "actionable"
    then some actionable
    else if s == "put-artifact"
    then some put_artifact
    else if s == "list-artifacts"
    then some list_artifacts
    else if s == "set-artifact-status"
    then some set_artifact_status
    else none

abbrev pub mode_text : Mode → String
mode_text ingest = "ingest"
mode_text thread = "thread"
mode_text transition = "transition"
mode_text actionable = "actionable"
mode_text put_artifact = "put-artifact"
mode_text list_artifacts = "list-artifacts"
mode_text set_artifact_status = "set-artifact-status"

abbrev pub default_state : String
default_state = "init"

abbrev pub default_artifact_status : String
default_artifact_status = "pending"

abbrev pub default_limit : Number
default_limit = nat 100

-- The fields of a `ConversationsService`, less its host and the names of the tables already made.
pub record Service : Type 0 where
  pub mode : Mode
  pub states : List String
  pub initial_state : String
  pub direction : Direction
  pub state : String
  pub state_from : String
  pub conversation_from : String
  pub id_from : String
  pub in_state : List String
  pub idle_seconds : Number
  pub limit : Number
  pub kind : String
  pub status : String
  pub payload_from : String
  pub database : String
  pub last_count : ℕ
  pub last_error : String

abbrev pub new_service : Service
new_service = record {
  mode = ingest;
  states = [];
  initial_state = default_state;
  direction = inbound;
  state = "";
  state_from = "state";
  conversation_from = "";
  id_from = "";
  in_state = [];
  idle_seconds = nat 0;
  limit = default_limit;
  kind = "";
  status = "";
  payload_from = "";
  database = "";
  last_count = 0;
  last_error = "";
}

-- `typeof value === "string"`, and the text.
abbrev pub string? : Json → Option String
string? value = if is_string value then some (string_or_empty value) else none

abbrev pub direction_named : String → Option Direction
direction_named s =
    if s == "inbound" then some inbound else if s == "outbound" then some outbound else none

abbrev pub is_undefined : Json → Bool
is_undefined undefined = true
is_undefined null = false
is_undefined (flag b) = false
is_undefined (number n) = false
is_undefined (str s) = false
is_undefined (bytes b) = false
is_undefined (arr items) = false
is_undefined (obj fields) = false

-- `typeof value === "number" && value >= 0`, and the number.
abbrev pub not_negative? : Json → Option Number
not_negative? (number (nat n)) = some (nat n)
not_negative? (number (fraction n)) = some (fraction n)
not_negative? (number infinity) = some infinity
not_negative? _ = none

-- `typeof value === "number" && value > 0`, and `Math.floor(value)`.
abbrev pub positive_floor? : Json → Option Number
positive_floor? (number (nat zero)) = none
positive_floor? (number (nat (suc n))) = some (nat (suc n))
positive_floor? (number (fraction n)) = some (nat n)
positive_floor? (number infinity) = some infinity
positive_floor? _ = none

module _ (host : Host) where
  -- `configure`
  unfoldable pub configure : Fields → Service → Service
  configure config s =
      let given = λ (name : String). value_of name config in
      let chosen = or_else (string? (given "initialState")) "" in
      record s {
        mode = or_else (mode_named (or_else (string? (given "mode")) "")) s.mode;
        states = if is_undefined (given "states") then s.states else names host (given "states");
        initial_state = if truthy chosen then chosen else s.initial_state;
        direction =
            or_else (direction_named (or_else (string? (given "direction")) "")) s.direction;
        state = or_else (string? (given "state")) s.state;
        state_from = or_else (string? (given "stateFrom")) s.state_from;
        id_from = or_else (string? (given "idFrom")) s.id_from;
        conversation_from = or_else (string? (given "conversationFrom")) s.conversation_from;
        in_state =
            if is_undefined (given "inState") then s.in_state else names host (given "inState");
        idle_seconds = or_else (not_negative? (given "idleSeconds")) s.idle_seconds;
        limit = or_else (positive_floor? (given "limit")) s.limit;
        kind = or_else (string? (given "kind")) s.kind;
        status = or_else (string? (given "status")) s.status;
        payload_from = or_else (string? (given "payloadFrom")) s.payload_from;
        database = elim (string? (given "database")) [
          | none ↦ s.database
          | some name ↦ if name == s.database then s.database else host.trim name
        ];
      }

  -- The constructor: `configure`, where a state is given.
  abbrev pub construct : Option Fields → Service
  construct none = new_service
  construct (some config) = configure config new_service
