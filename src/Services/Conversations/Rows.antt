-- ===== src/Services/Conversations/Rows.antt =====
-- The tables of services/conversations.ts, SCHEMA, and its statements on them. Times are ISO texts.
use hkp_node.Shared.{
  ℕ, String, Bool, true, false, ◌&&◌, not, List, [], ◌∷◌, ◌++◌, Option, none, some, keep, any, take,
  if◌then◌else◌, ◌==◌, string_eq, truthy,
}
use hkp_node.Shared.Json.{
  Number, nat, neg, fraction, negative_fraction, nan, infinity, minus_infinity,
}
use hkp_node.Shared.Tables.{select, update, changes, order_by}

-- `Direction`
pub data Direction : Type 0 where
  inbound outbound : Direction

pub record Conversation : Type 0 where
  pub id : String
  pub state : String
  pub subject : String
  pub participants : String
  pub created_at : String
  pub updated_at : String

pub record Email : Type 0 where
  pub message_id : String
  pub conversation_id : String
  pub direction : Direction
  pub sent_at : String
  pub received_at : String
  pub sender : String
  pub recipient : String
  pub subject : String
  pub body : String

pub record Artifact : Type 0 where
  pub id : String
  pub conversation_id : String
  pub kind : String
  pub payload : String
  pub status : String
  pub created_at : String
  pub updated_at : String

pub record Database : Type 0 where
  pub conversations : List Conversation
  pub emails : List Email
  pub artifacts : List Artifact

-- The tables as SCHEMA creates them.
abbrev pub new_database : Database
new_database = record { conversations = []; emails = []; artifacts = [] }

-- `SELECT * FROM conversation WHERE id = $id`
unfoldable pub find_conversation : String → Database → Option Conversation
find_conversation id db = select (λ (c : Conversation). c.id == id) db.conversations

-- `SELECT * FROM email WHERE messageId = $id`
unfoldable pub find_email : String → Database → Option Email
find_email id db = select (λ (e : Email). e.message_id == id) db.emails

-- `SELECT * FROM artifact WHERE id = $id`
unfoldable pub find_artifact : String → Database → Option Artifact
find_artifact id db = select (λ (a : Artifact). a.id == id) db.artifacts

-- `INSERT INTO conversation …`
unfoldable pub insert_conversation : Conversation → Database → Database
insert_conversation c db = record db { conversations = db.conversations ++ c ∷ [] }

abbrev pub has_email : String → Database → Bool
has_email id db = any (λ (e : Email). e.message_id == id) db.emails

-- `INSERT INTO email … ON CONFLICT (messageId) DO NOTHING`: the tables and whether a row went in.
unfoldable pub insert_email : Email → Database → Database × Bool
insert_email e db =
    if has_email e.message_id db
    then (db, false)
    else (record db { emails = db.emails ++ e ∷ [] }, true)

abbrev pub has_artifact : String → Database → Bool
has_artifact id db = any (λ (a : Artifact). a.id == id) db.artifacts

-- `INSERT INTO artifact …`, which a second row of one id refuses.
unfoldable pub insert_artifact : Artifact → Database → Option Database
insert_artifact a db =
    if has_artifact a.id db then none else some (record db { artifacts = db.artifacts ++ a ∷ [] })

-- `UPDATE conversation SET updatedAt = $now, participants = $participants WHERE id = $id`
unfoldable pub update_participants : String → String → String → Database → Database
update_participants id now participants db = record db {
  conversations =
      update (λ (c : Conversation). c.id == id)
        (λ (c : Conversation). record c { updated_at = now; participants = participants })
        db.conversations;
}

-- `UPDATE conversation SET state = $state, updatedAt = $now WHERE id = $id`
unfoldable pub update_state : String → String → String → Database → Database
update_state id state now db = record db {
  conversations =
      update (λ (c : Conversation). c.id == id)
        (λ (c : Conversation). record c { state = state; updated_at = now }) db.conversations;
}

-- `UPDATE artifact SET status = $status, updatedAt = $now WHERE id = $id`: the tables and the rows changed.
unfoldable pub update_status : String → String → String → Database → Database × ℕ
update_status id status now db = (
  record db {
    artifacts =
        update (λ (a : Artifact). a.id == id)
          (λ (a : Artifact). record a { status = status; updated_at = now }) db.artifacts;
  },
  changes (λ (a : Artifact). a.id == id) db.artifacts,
)

-- `LIMIT $limit`: SQLite takes a whole number of rows, all of them where it is below zero, and refuses
-- what is not whole.
unfoldable pub limited {ℓ} : {A : Type ℓ} → Number → List A → Option (List A)
limited (nat n) rows = some (take n rows)
limited (neg n) rows = some rows
limited (fraction n) rows = none
limited negative_fraction rows = none
limited nan rows = none
limited infinity rows = none
limited minus_infinity rows = none

module _ (text_lt : String → String → Bool) where
  -- `ORDER BY sentAt ASC, receivedAt ASC`
  abbrev pub email_before : Email → Email → Bool
  email_before a b =
      if text_lt a.sent_at b.sent_at
      then true
      else (a.sent_at == b.sent_at && text_lt a.received_at b.received_at)

  -- `SELECT * FROM email WHERE conversationId = $id ORDER BY sentAt ASC, receivedAt ASC LIMIT $limit`
  unfoldable pub emails_of : String → Number → Database → Option (List Email)
  emails_of id limit db =
      limited limit
        (order_by email_before (keep (λ (e : Email). e.conversation_id == id) db.emails))

  -- The `WHERE` of `actionable`.
  abbrev pub is_actionable : List String → Option String → Conversation → Bool
  is_actionable in_state before c =
      any (λ s. s == c.state) in_state
      && elim before [ none ↦ true | some time ↦ not (text_lt time c.updated_at) ]

  abbrev pub conversation_before : Conversation → Conversation → Bool
  conversation_before a b = text_lt a.updated_at b.updated_at

  -- `SELECT * FROM conversation WHERE … ORDER BY updatedAt ASC LIMIT $limit`
  unfoldable pub select_actionable :
      List String → Option String → Number → Database → Option (List Conversation)
  select_actionable in_state before limit db =
      limited limit
        (order_by conversation_before (keep (is_actionable in_state before) db.conversations))

  -- The `WHERE` of `listArtifacts`: the conditions that are given.
  abbrev pub is_listed : String → String → String → Artifact → Bool
  is_listed conversation_id kind status a =
      (if truthy conversation_id then a.conversation_id == conversation_id else true)
      && (if truthy kind then a.kind == kind else true)
      && (if truthy status then a.status == status else true)

  -- `SELECT * FROM artifact … ORDER BY createdAt ASC LIMIT $limit`
  unfoldable pub select_artifacts :
      String → String → String → Number → Database → Option (List Artifact)
  select_artifacts conversation_id kind status limit db = limited limit (
      order_by (λ (a b : Artifact). text_lt a.created_at b.created_at)
        (keep (is_listed conversation_id kind status) db.artifacts))
