-- ===== src/Services/Conversations/Statements/Filed.antt =====
-- The statements that `ingest` of services/conversations.ts makes.
use hkp_node.Shared.{
  ℕ, ◌≡◌, refl, inl, inr, String, Bool, true, false, [], ◌∷◌, ◌++◌, truthy, ◌==◌, string_eq, nat_eq,
  is_some, Bool-cases, Option-cases, arith, eq_iff,
}
use hkp_node.Shared.Json.{Json, Fields}
use hkp_node.Shared.Tables.{is_some-select, any-append}
use hkp_node.Services.Conversations.Rows.{
  Conversation, Email, Database, has_email, find_conversation, insert_conversation, insert_email,
  update_participants,
}
use hkp_node.Services.Conversations.Values.{Host, as_record, value_of, normalize_message_id}
use hkp_node.Services.Conversations.Settings.{Service}
use hkp_node.Services.Conversations.Passes.{fail, succeed, report_artifact}
use hkp_node.Services.Conversations.Filing.{
  array?, known_participants, new_conversation, new_email, open_conversation, report_filed,
  report_known, touch, follow_up, file, ingest_message, thread_of,
}
use hkp_node.Services.Conversations.Statements.{
  has_conversation, opens, files, touches, Statements, nothing, later, after,
}

pub find_conversation-has :
    (id : String) (db : Database) → is_some (find_conversation id db) ≡ has_conversation id db
unfolding find_conversation
find_conversation-has id db = is_some-select (λ (c : Conversation). c.id == id) db.conversations

has_conversation-insert_conversation :
    (c : Conversation) (db : Database) → has_conversation c.id (insert_conversation c db) ≡ true
unfolding insert_conversation
has_conversation-insert_conversation c db =
    ground
      (arith, any-append (λ (r : Conversation). r.id == c.id) c db.conversations, eq_iff c.id c.id)

module _ (host : Host) where
  pub report_filed-after :
      (conversation_id message_id : String) (is_new : Bool) (s : Service) (db : Database)
      → after (report_filed host conversation_id message_id is_new s db) ≡ db
  unfolding report_filed succeed
  report_filed-after conversation_id message_id is_new s db = ground arith

  pub report_artifact-after :
      (id : String) (s : Service) (db : Database) → after (report_artifact host id s db) ≡ db
  unfolding report_artifact succeed
  report_artifact-after id s db = ground arith

  follow_up-Statements :
      (s : Service) (db d : Database) (existing : Bool) (id : String) (e : Email) (now : String)
      → Statements s db d
      → Statements s db (after (follow_up host existing id e now s d))
  unfolding follow_up touch
  follow_up-Statements s db d false id e now st =
      rw (report_filed-after id e.message_id true s d) st
  follow_up-Statements s db d true id e now st =
      elim (Option-cases (array? (known_participants host id d))) [
        | inl none_eq ↦ rw (none_eq, follow_up, touch) st
        | inr (people, some_eq) ↦
            rw (some_eq, follow_up, touch)
              (rw (report_filed-after id e.message_id false s (update_participants id now _ d))
                (later st (touches id now _)))
      ]

  open_conversation-has :
      (s : Service) (id now : String) (envelope : Fields) (db : Database)
      → has_conversation id (open_conversation host s id now envelope db) ≡ true
  unfolding open_conversation new_conversation
  open_conversation-has s id now envelope db = elim (Option-cases (find_conversation id db)) [
    | inl e ↦
        rw (e, open_conversation)
          (has_conversation-insert_conversation (new_conversation host s id now envelope) db)
    | inr (c, e) ↦ rw (e, open_conversation) (ground (arith, find_conversation-has id db, e))
  ]

  open_conversation-Statements :
      (s : Service) (id now : String) (envelope : Fields) (db : Database)
      → Statements s db (open_conversation host s id now envelope db)
  unfolding open_conversation new_conversation
  open_conversation-Statements s id now envelope db =
      elim (Option-cases (find_conversation id db)) [
        | inl e ↦
            rw (e, open_conversation)
              (later nothing (
                opens (new_conversation host s id now envelope) refl
                  (ground (arith, find_conversation-has id db, e))))
        | inr (c, e) ↦ rw (e, open_conversation) nothing
      ]

  file-Statements :
      (s : Service) (db : Database) (id message_id now : String) (envelope : Fields)
      → Statements s db (after (file host s db id message_id now envelope))
  unfolding file insert_email report_known new_email
  file-Statements s db id message_id now envelope =
      let opened = open_conversation host s id now envelope db in
      let email = new_email host s message_id id now envelope in
      let st = open_conversation-Statements s id now envelope db in
      elim (Bool-cases (has_email message_id opened)) [
        | inl e ↦ rw e st
        | inr e ↦ rw e (
            follow_up-Statements s db (record opened { emails = opened.emails ++ email ∷ [] })
              (is_some (find_conversation id db)) id email now
              (later st (files email (open_conversation-has s id now envelope db) e)))
      ]

  pub ingest_message-Statements :
      (s : Service) (db : Database) (input : Json) (clock : ℕ)
      → Statements s db (after (ingest_message host s db input clock))
  unfolding ingest_message fail
  ingest_message-Statements s db input clock =
      let envelope = as_record input in
      let message_id = normalize_message_id host (value_of "messageId" envelope) in
      elim (Bool-cases (truthy message_id)) [
        | inl e ↦ rw e (
            file-Statements s db (thread_of host db message_id envelope) message_id (host.iso clock)
              envelope)
        | inr e ↦ rw e nothing
      ]
