-- ===== src/Services/Conversations/Processing.antt =====
-- services/conversations.ts, `process`: the database of a pass, and the mode that runs on it.
use Prim.Native.String
use hkp_node.Shared.{ℕ, String, Option, none, some, if◌then◌else◌, truthy, string_eq}
use hkp_node.Shared.Json.{Json}
use hkp_node.Shared.OrderedMap.{OrderedMap, set}
use hkp_node.Services.Databases.{
  DatabaseKey, board_key, database_key_eq, named_key?, open_in_memory,
}
use hkp_node.Services.Conversations.Rows.{Database, new_database}
use hkp_node.Services.Conversations.Values.{Host}
use hkp_node.Services.Conversations.Settings.{
  Service, Mode, mode_text, ingest, thread, transition, actionable, put_artifact, list_artifacts,
  set_artifact_status,
}
use hkp_node.Services.Conversations.Passes.{Notice, failed, Pass, Outcome, finished, threw, fail}
use hkp_node.Services.Conversations.Filing.{ingest_message}
use hkp_node.Services.Conversations.Workflow.{
  read_thread, change_state, poll, add_artifact, read_artifacts, decide_artifact,
}

-- `RuntimeScope`
pub record Scope : Type 0 where
  pub owner : String
  pub board_name : String

-- The databases of the runtime server that are open.
abbrev pub Store : Type 0
Store = OrderedMap DatabaseKey Database

-- What a call of `process` leaves and notifies.
pub record Processed : Type 0 where
  pub service : Service
  pub store : Store
  pub notice : Notice

-- The database that a pass opens.
unfoldable pub key_of : (String → String) → Service → Scope → Option DatabaseKey
key_of to_lower s scope =
    let named = named_key? to_lower scope.owner s.database in
    if truthy s.database then named else some (board_key scope.owner scope.board_name)

-- A pass that has no database.
abbrev pub refuse : String → Service → Store → Processed
refuse error s store = record {
  service = record s { last_error = error };
  store = store;
  notice = failed error;
}

module _ (host : Host) where
  -- `run`, by its mode.
  unfoldable pub run_mode : Mode → Service → Database → Json → ℕ → String → Outcome
  run_mode ingest s db input clock drawn = ingest_message host s db input clock
  run_mode thread s db input clock drawn = read_thread host s db input
  run_mode transition s db input clock drawn = change_state host s db input clock
  run_mode actionable s db input clock drawn = poll host s db clock
  run_mode put_artifact s db input clock drawn = add_artifact host s db input clock drawn
  run_mode list_artifacts s db input clock drawn = read_artifacts host s db input
  run_mode set_artifact_status s db input clock drawn = decide_artifact host s db input clock

  abbrev pub run : Service → Database → Json → ℕ → String → Outcome
  run s = run_mode s.mode s

  -- The `catch` around `run`.
  unfoldable pub caught : Service → Outcome → Pass
  caught s (finished pass) = pass
  caught s (threw thrown db) =
      fail (String.◌++◌ (mode_text s.mode) (String.◌++◌ " failed: " (host.reason thrown))) s db

  -- A pass on an open database.
  unfoldable pub pass_on : Service → Database → Json → ℕ → String → Pass
  pass_on s db input clock drawn = caught s (run s db input clock drawn)

  -- The pass on the database of a key: the connection is kept, and what the statements leave is
  -- what the database holds.
  unfoldable pub pass_at : Service → DatabaseKey → Store → Json → ℕ → String → Processed
  pass_at s key store input clock drawn =
      let (db, opened) = open_in_memory new_database key store in
      let pass = pass_on s db input clock drawn in
      record { service = pass.service; store = set key pass.database opened; notice = pass.notice }

  -- `process`; `wrong_name` is the text of the error that a refused name is.
  unfoldable pub process :
      (String → String)
      → (String → String)
      → Service
      → Option Scope
      → Store
      → Json
      → ℕ
      → String
      → Processed
  process to_lower wrong_name s scope? store input clock drawn = elim scope? [
    | none ↦ refuse "conversations has no runtime to scope its database to" s store
    | some scope ↦ elim (key_of to_lower s scope) [
      | none ↦
          refuse (String.◌++◌ "could not open the board's database: " (wrong_name s.database)) s
            store
      | some key ↦ pass_at s key store input clock drawn
    ]
  ]
