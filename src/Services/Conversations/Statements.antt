-- ===== src/Services/Conversations/Statements.antt =====
-- What the passes of services/conversations.ts do to the tables: which statements they make, and under
-- which conditions.
pub mod Filed
pub mod Made
use hkp_node.Shared.{◌≡◌, String, Bool, true, false, [], ◌∷◌, ◌++◌, any, ◌==◌, string_eq}
use hkp_node.Services.Conversations.Rows.{
  Conversation, Email, Artifact, Database, has_email, has_artifact, insert_conversation,
  update_participants, update_state, update_status,
}
use hkp_node.Services.Conversations.Values.{Thrown}
use hkp_node.Services.Conversations.Settings.{Service}
use hkp_node.Services.Conversations.Passes.{Outcome, finished, threw}
use hkp_node.Services.Conversations.Workflow.{is_refused}

abbrev pub has_conversation : String → Database → Bool
has_conversation id db = any (λ (c : Conversation). c.id == id) db.conversations

-- A statement of a pass of a service, from one state of the tables to the next.
pub data Statement (s : Service) (db : Database) : Database → Type 0 where
  opens :
      (c : Conversation)
      → c.state ≡ s.initial_state
      → has_conversation c.id db ≡ false
      → Statement s db (insert_conversation c db)
  files :
      (e : Email)
      → has_conversation e.conversation_id db ≡ true
      → has_email e.message_id db ≡ false
      → Statement s db (record db { emails = db.emails ++ e ∷ [] })
  touches :
      (id now participants : String) → Statement s db (update_participants id now participants db)
  moves :
      (id target now : String)
      → is_refused s.states target ≡ false
      → Statement s db (update_state id target now db)
  keeps :
      (a : Artifact)
      → has_conversation a.conversation_id db ≡ true
      → has_artifact a.id db ≡ false
      → Statement s db (record db { artifacts = db.artifacts ++ a ∷ [] })
  decides : (id status now : String) → Statement s db (update_status id status now db).0

pub data Statements (s : Service) (db : Database) : Database → Type 0 where
  nothing : Statements s db db
  later : {d d' : Database} → Statements s db d → Statement s d d' → Statements s db d'

-- The tables that an outcome leaves.
abbrev pub after : Outcome → Database
after (finished pass) = pass.database
after (threw thrown db) = db
