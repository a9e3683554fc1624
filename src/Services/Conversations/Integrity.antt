-- ===== src/Services/Conversations/Integrity.antt =====
-- What holds of the tables of services/conversations.ts after any passes.
use hkp_node.Shared.{
  ℕ, ◌≡◌, refl, ◌∙◌, String, true, List, [], ◌∷◌, All, All-append, ◌==◌, string_eq, arith,
}
use hkp_node.Shared.Json.{Json}
use hkp_node.Shared.Tables.{
  Unique, Unique-append, Unique-update, any-append, any-update, All-update,
}
use hkp_node.Services.Conversations.Rows.{
  Conversation, Email, Artifact, Database, new_database, insert_conversation, update_participants,
  update_state, update_status,
}
use hkp_node.Services.Conversations.Values.{Host}
use hkp_node.Services.Conversations.Settings.{Service}
use hkp_node.Services.Conversations.Processing.{pass_on}
use hkp_node.Services.Conversations.Statements.{
  has_conversation, Statement, opens, files, touches, moves, keeps, decides, Statements, nothing,
  later,
}
use hkp_node.Services.Conversations.Statements.Made.{pass_on-Statements}

-- Every email and every artifact is of a conversation that is there, and no key stands twice.
pub record IsSound (db : Database) : Type 0 where
  pub filed : All (λ (e : Email). has_conversation e.conversation_id db ≡ true) db.emails
  pub kept : All (λ (a : Artifact). has_conversation a.conversation_id db ≡ true) db.artifacts
  pub conversation_keys : Unique (λ (c : Conversation). c.id) db.conversations
  pub email_keys : Unique (λ (e : Email). e.message_id) db.emails
  pub artifact_keys : Unique (λ (a : Artifact). a.id) db.artifacts

-- A call of a service on a database: the service as it is configured then, what it is given, the clock
-- and the random text.
pub record Call : Type 0 where
  pub service : Service
  pub input : Json
  pub clock : ℕ
  pub drawn : String

-- The tables after calls, one after the other.
unfoldable pub call_all : Host → List Call → Database → Database
call_all host [] db = db
call_all host (c ∷ calls) db =
    call_all host calls (pass_on host c.service db c.input c.clock c.drawn).database

-- The rows of a table whose conversations are there, as long as the conversations stay.
Belongs-along :
    {A : Type 0} (of : A → String) (db d : Database)
    → ((id : String) → has_conversation id db ≡ true → has_conversation id d ≡ true)
    → (t : List A) → All (λ a. has_conversation (of a) db ≡ true) t
    → All (λ a. has_conversation (of a) d ≡ true) t
Belongs-along of db d stays [] h = tt
Belongs-along of db d stays (a ∷ t) h = (stays (of a) h.0, Belongs-along of db d stays t h.1)

has_conversation-insert :
    (id : String) (c : Conversation) (db : Database)
    → has_conversation id db ≡ true
    → has_conversation id (insert_conversation c db) ≡ true
unfolding insert_conversation
has_conversation-insert id c db h =
    ground (arith, any-append (λ (r : Conversation). r.id == id) c db.conversations, h)

has_conversation-update_participants :
    (id cid now participants : String) (db : Database)
    → has_conversation id (update_participants cid now participants db) ≡ has_conversation id db
unfolding update_participants
has_conversation-update_participants id cid now participants db =
    any-update (λ (r : Conversation). r.id == id) (λ (c : Conversation). c.id == cid)
      (λ (c : Conversation). record c { updated_at = now; participants = participants })
      db.conversations (λ r. refl)

has_conversation-update_state :
    (id cid target now : String) (db : Database)
    → has_conversation id (update_state cid target now db) ≡ has_conversation id db
unfolding update_state
has_conversation-update_state id cid target now db =
    any-update (λ (r : Conversation). r.id == id) (λ (c : Conversation). c.id == cid)
      (λ (c : Conversation). record c { state = target; updated_at = now }) db.conversations
      (λ r. refl)

Statement-IsSound : {s : Service} {db d : Database} → Statement s db d → IsSound db → IsSound d
unfolding insert_conversation update_participants update_state update_status
Statement-IsSound {db} (opens c e free) h = record {
  filed =
      Belongs-along (λ (e : Email). e.conversation_id) db (insert_conversation c db)
        (λ id. has_conversation-insert id c db) db.emails h.filed;
  kept =
      Belongs-along (λ (a : Artifact). a.conversation_id) db (insert_conversation c db)
        (λ id. has_conversation-insert id c db) db.artifacts h.kept;
  conversation_keys =
      Unique-append (λ (c : Conversation). c.id) c db.conversations free h.conversation_keys;
  email_keys = h.email_keys;
  artifact_keys = h.artifact_keys;
}
Statement-IsSound {db} (files e known free) h = record {
  filed =
      All-append (λ (e : Email). has_conversation e.conversation_id db ≡ true) db.emails (e ∷ [])
        h.filed (known, tt);
  kept = h.kept;
  conversation_keys = h.conversation_keys;
  email_keys = Unique-append (λ (e : Email). e.message_id) e db.emails free h.email_keys;
  artifact_keys = h.artifact_keys;
}
Statement-IsSound {db} (touches id now participants) h = record {
  filed =
      Belongs-along (λ (e : Email). e.conversation_id) db
        (update_participants id now participants db)
        (λ i k. has_conversation-update_participants i id now participants db ∙ k) db.emails
        h.filed;
  kept =
      Belongs-along (λ (a : Artifact). a.conversation_id) db
        (update_participants id now participants db)
        (λ i k. has_conversation-update_participants i id now participants db ∙ k) db.artifacts
        h.kept;
  conversation_keys =
      Unique-update (λ (c : Conversation). c.id) (λ (c : Conversation). c.id == id)
        (λ (c : Conversation). record c { updated_at = now; participants = participants })
        db.conversations (λ r. refl) h.conversation_keys;
  email_keys = h.email_keys;
  artifact_keys = h.artifact_keys;
}
Statement-IsSound {db} (moves id target now allowed) h = record {
  filed =
      Belongs-along (λ (e : Email). e.conversation_id) db (update_state id target now db)
        (λ i k. has_conversation-update_state i id target now db ∙ k) db.emails h.filed;
  kept =
      Belongs-along (λ (a : Artifact). a.conversation_id) db (update_state id target now db)
        (λ i k. has_conversation-update_state i id target now db ∙ k) db.artifacts h.kept;
  conversation_keys =
      Unique-update (λ (c : Conversation). c.id) (λ (c : Conversation). c.id == id)
        (λ (c : Conversation). record c { state = target; updated_at = now }) db.conversations
        (λ r. refl) h.conversation_keys;
  email_keys = h.email_keys;
  artifact_keys = h.artifact_keys;
}
Statement-IsSound {db} (keeps a known free) h = record {
  filed = h.filed;
  kept =
      All-append (λ (a : Artifact). has_conversation a.conversation_id db ≡ true) db.artifacts
        (a ∷ []) h.kept (known, tt);
  conversation_keys = h.conversation_keys;
  email_keys = h.email_keys;
  artifact_keys = Unique-append (λ (a : Artifact). a.id) a db.artifacts free h.artifact_keys;
}
Statement-IsSound {db} (decides id status now) h = record {
  filed = h.filed;
  kept =
      All-update (λ (a : Artifact). has_conversation a.conversation_id db ≡ true)
        (λ (a : Artifact). a.id == id)
        (λ (a : Artifact). record a { status = status; updated_at = now }) db.artifacts (λ a k e. k)
        h.kept;
  conversation_keys = h.conversation_keys;
  email_keys = h.email_keys;
  artifact_keys =
      Unique-update (λ (a : Artifact). a.id) (λ (a : Artifact). a.id == id)
        (λ (a : Artifact). record a { status = status; updated_at = now }) db.artifacts (λ r. refl)
        h.artifact_keys;
}

Statements-IsSound : {s : Service} {db d : Database} → Statements s db d → IsSound db → IsSound d
Statements-IsSound nothing h = h
Statements-IsSound (later st one) h = Statement-IsSound one (Statements-IsSound st h)

-- Through any calls of any services, from sound tables, each email and each artifact stays with a conversation that is
-- there, and no two conversations, messages or artifacts have one key.
pub call_all-IsSound :
    (host : Host) (calls : List Call) (db : Database)
    → IsSound db
    → IsSound (call_all host calls db)
unfolding call_all
call_all-IsSound host [] db h = h
call_all-IsSound host (c ∷ calls) db h =
    call_all-IsSound host calls (pass_on host c.service db c.input c.clock c.drawn).database
      (Statements-IsSound (pass_on-Statements host c.service db c.input c.clock c.drawn) h)

pub new_database-IsSound : IsSound new_database
new_database-IsSound = record {
  filed = tt;
  kept = tt;
  conversation_keys = tt;
  email_keys = tt;
  artifact_keys = tt;
}
