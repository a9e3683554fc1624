-- ===== src/Services/Conversations/Replies.antt =====
-- services/conversations.ts, `ingest`: a message that is filed is not filed again, and a reply joins the
-- conversation of the message that it answers.
use hkp_node.Shared.{
  ℕ, ◌≡◌, refl, ◌∙◌, ap, inl, inr, String, Bool, true, false, List, [], ◌∷◌, ◌++◌, none, some, any,
  keep, keep-append, ◌==◌, string_eq, arith, eq_iff, truthy, or_else, is_some, Bool-cases,
  Option-cases,
}
use hkp_node.Shared.Json.{Json, Fields}
use hkp_node.Shared.Tables.{All-select, select-append}
use hkp_node.Services.Conversations.Rows.{
  Email, Database, has_email, find_email, find_conversation, insert_conversation,
  update_participants, insert_email,
}
use hkp_node.Services.Conversations.Values.{
  Host, normalize_message_id, normalize_references, value_of, as_record,
}
use hkp_node.Services.Conversations.Settings.{Service, ingest}
use hkp_node.Services.Conversations.Passes.{returned, fail}
use hkp_node.Services.Conversations.Filing.{
  first_known, chain_of, thread_of, open_conversation, file, report_known, ingest_message, reverse,
  new_email, root_of_chain, follow_up, touch, array?, known_participants,
}
use hkp_node.Services.Conversations.Processing.{pass_on, run_mode, caught}
use hkp_node.Services.Conversations.Statements.{after, has_conversation}
use hkp_node.Services.Conversations.Statements.Made.{caught-after}
use hkp_node.Services.Conversations.Statements.Filed.{report_filed-after, find_conversation-has}
use hkp_node.Services.Conversations.Integrity.{IsSound, Call, call_all}
use hkp_node.Services.Conversations.Staying.{find_email-has, find_email-call_all}

-- The conversation of a message that is filed is there.
find_email-conversation :
    (id : String) (e : Email) (db : Database)
    → IsSound db
    → find_email id db ≡ some e
    → has_conversation e.conversation_id db ≡ true
unfolding find_email
find_email-conversation id e db sound h =
    All-select (λ (r : Email). has_conversation r.conversation_id db ≡ true)
      (λ (r : Email). r.message_id == id) e db.emails h sound.filed

-- A chain with a message that is filed has a first known conversation, and it is there.
first_known-append :
    (db : Database) (chain : List String) (id : String)
    → IsSound db
    → has_email id db ≡ true
    → (c : String) × ((first_known db (chain ++ id ∷ []) ≡ some c) × (has_conversation c db ≡ true))
unfolding first_known
first_known-append db [] id sound h = elim (Option-cases (find_email id db)) [
  | inl e ↦ ground (arith, find_email-has id db, e, h)
  | inr (row, e) ↦
      (row.conversation_id, (rw (e, first_known) refl, find_email-conversation id row db sound e))
]
first_known-append db (i ∷ chain) id sound h = elim (Option-cases (find_email i db)) [
  | inl e ↦ rw (e, first_known) (first_known-append db chain id sound h)
  | inr (row, e) ↦
      rw (e, first_known) (row.conversation_id, (refl, find_email-conversation i row db sound e))
]

module _ (host : Host) where
  -- The conversation that a filed message is found to belong to is there, whatever its envelope says.
  thread_of-known :
      (db : Database) (id : String) (envelope : Fields)
      → IsSound db
      → truthy id ≡ true
      → has_email id db ≡ true
      → has_conversation (thread_of host db id envelope) db ≡ true
  unfolding thread_of chain_of
  thread_of-known db id envelope sound full h =
      let chain =
        normalize_message_id host (value_of "inReplyTo" envelope)
        ∷ reverse (normalize_references host (value_of "references" envelope)) in
      let same : chain_of host id envelope ≡ keep truthy chain ++ id ∷ [] =
        keep-append truthy chain (id ∷ []) ∙ ground (arith, full) in
      let (c, (found, there)) = first_known-append db (keep truthy chain) id sound h in
      let found' : first_known db (chain_of host id envelope) ≡ some c = rw same found in
      rw (found', thread_of) there

  file-known :
      (s : Service) (db : Database) (id message_id now : String) (envelope : Fields)
      → has_conversation id db ≡ true
      → has_email message_id db ≡ true
      → file host s db id message_id now envelope ≡ report_known host id message_id s db
  unfolding file open_conversation insert_email new_email
  file-known s db id message_id now envelope there h =
      elim (Option-cases (find_conversation id db)) [
        | inl e ↦ ground (arith, find_conversation-has id db, e, there)
        | inr (c, e) ↦ rw (e, open_conversation, file) (ground (arith, e, h))
      ]

  pass_on-ingest :
      (s : Service) (db : Database) (input : Json) (clock : ℕ) (drawn : String)
      → s.mode ≡ ingest
      → pass_on host s db input clock drawn ≡ caught host s (ingest_message host s db input clock)
  unfolding pass_on run_mode
  pass_on-ingest s db input clock drawn mode =
      ap (λ m. caught host s (run_mode host m s db input clock drawn)) mode

  -- On sound tables, ingesting a message that is filed, with whatever else its envelope says, changes no
  -- table and returns nothing: it is no event.
  pub ingest_message-known :
      (s : Service) (db : Database) (input : Json) (clock : ℕ) (drawn : String)
      → s.mode ≡ ingest
      → IsSound db
      → has_email (normalize_message_id host (value_of "messageId" (as_record input))) db ≡ true
      → ((pass_on host s db input clock drawn).database ≡ db)
        × (returned (pass_on host s db input clock drawn).notice ≡ none)
  unfolding ingest_message report_known fail caught
  ingest_message-known s db input clock drawn mode sound h =
      let envelope = as_record input in
      let id = normalize_message_id host (value_of "messageId" envelope) in
      elim (Bool-cases (truthy id)) [
        | inr e ↦ rw (pass_on-ingest s db input clock drawn mode) (rw e (refl, refl))
        | inl e ↦ rw (pass_on-ingest s db input clock drawn mode) (
            rw e (
              rw
                (file-known s db (thread_of host db id envelope) id (host.iso clock) envelope
                  (thread_of-known db id envelope sound e h) h)
                (refl, refl)))
      ]

  find_email-follow_up :
      (s : Service) (db : Database) (existing : Bool) (id : String) (e : Email) (now j : String)
      → find_email j (after (follow_up host existing id e now s db)) ≡ find_email j db
  unfolding follow_up touch find_email update_participants
  find_email-follow_up s db false id e now j =
      rw (report_filed-after host id e.message_id true s db) refl
  find_email-follow_up s db true id e now j =
      elim (Option-cases (array? (known_participants host id db))) [
        | inl none_eq ↦ rw (none_eq, follow_up, touch) refl
        | inr (people, some_eq) ↦
            rw (some_eq, follow_up, touch)
              (rw
                (report_filed-after host id e.message_id false s (update_participants id now _ db))
                refl)
      ]

  open_conversation-emails :
      (s : Service) (id now : String) (envelope : Fields) (db : Database)
      → (open_conversation host s id now envelope db).emails ≡ db.emails
  unfolding open_conversation insert_conversation
  open_conversation-emails s id now envelope db = ground arith

  find_email-file :
      (s : Service) (db : Database) (id message_id now : String) (envelope : Fields)
      → has_email message_id db ≡ false
      → find_email message_id (after (file host s db id message_id now envelope))
        ≡ some (new_email host s message_id id now envelope)
  unfolding file insert_email new_email find_email
  find_email-file s db id message_id now envelope h =
      let opened = open_conversation host s id now envelope db in
      let email = new_email host s message_id id now envelope in
      let same = open_conversation-emails s id now envelope db in
      let h' : has_email message_id opened ≡ false =
        ap (λ t. any (λ (e : Email). e.message_id == message_id) t) same ∙ h in
      rw h' (
        find_email-follow_up s (record opened { emails = opened.emails ++ email ∷ [] })
          (is_some (find_conversation id db)) id email now message_id
        ∙ select-append (λ (e : Email). e.message_id == message_id) email opened.emails
        ∙ ground (arith, h', eq_iff message_id message_id))

  -- A message that is not filed yet is filed as its envelope has it, under the conversation of the first
  -- message of its chain that is filed, else under the one that its chain names.
  pub find_email-ingest :
      (s : Service) (db : Database) (input : Json) (clock : ℕ) (drawn : String)
      → s.mode ≡ ingest
      → truthy (normalize_message_id host (value_of "messageId" (as_record input))) ≡ true
      → has_email (normalize_message_id host (value_of "messageId" (as_record input))) db ≡ false
      → find_email
          (normalize_message_id host (value_of "messageId" (as_record input)))
          (pass_on host s db input clock drawn).database
        ≡ some (
            new_email host s
              (normalize_message_id host (value_of "messageId" (as_record input)))
              (thread_of host db
                (normalize_message_id host (value_of "messageId" (as_record input)))
                (as_record input))
              (host.iso clock)
              (as_record input))
  unfolding ingest_message
  find_email-ingest s db input clock drawn mode full unknown =
      let envelope = as_record input in
      let id = normalize_message_id host (value_of "messageId" envelope) in
      rw (pass_on-ingest s db input clock drawn mode) (
        rw (caught-after host s (ingest_message host s db input clock)) (
          rw full (
            find_email-file s db (thread_of host db id envelope) id (host.iso clock) envelope
              unknown)))

  thread_of-answered :
      (db : Database) (id answered : String) (envelope : Fields) (e : Email)
      → normalize_message_id host (value_of "inReplyTo" envelope) ≡ answered
      → truthy answered ≡ true
      → find_email answered db ≡ some e
      → thread_of host db id envelope ≡ e.conversation_id
  unfolding thread_of chain_of first_known
  thread_of-answered db id answered envelope e names full h =
      let rest =
        keep truthy
          (reverse (normalize_references host (value_of "references" envelope)) ++ id ∷ []) in
      let chain : chain_of host id envelope ≡ answered ∷ rest =
        rw (names, chain_of) (rw full refl) in
      let found : first_known db (answered ∷ rest) ≡ some e.conversation_id =
        rw (h, first_known) refl in
      ap (λ c. or_else (first_known db c) (root_of_chain host id envelope)) chain
      ∙ ap (λ o. or_else o (root_of_chain host id envelope)) found

  -- A new message, one with an id that is not filed, whose inReplyTo names a message that was filed before
  -- any calls of any services is filed, as its envelope has it, under that message's conversation, whatever
  -- the rest of the envelope says.
  pub find_email-reply :
      (calls : List Call) (s : Service) (db : Database) (input : Json) (clock : ℕ)
      (drawn id answered : String) (e : Email)
      → s.mode ≡ ingest
      → normalize_message_id host (value_of "messageId" (as_record input)) ≡ id
      → truthy id ≡ true
      → has_email id (call_all host calls db) ≡ false
      → normalize_message_id host (value_of "inReplyTo" (as_record input)) ≡ answered
      → truthy answered ≡ true
      → find_email answered db ≡ some e
      → find_email id (pass_on host s (call_all host calls db) input clock drawn).database
        ≡ some (new_email host s id e.conversation_id (host.iso clock) (as_record input))
  find_email-reply calls s db input clock drawn id answered e mode is_id full unknown names
        answered_full filed =
      let d = call_all host calls db in
      let there = find_email-call_all host calls answered e db filed in
      let joins = thread_of-answered d id answered (as_record input) e names answered_full there in
      let known = find_email-ingest s d input clock drawn mode (rw is_id full) (rw is_id unknown) in
      rw (← joins) (rw (← is_id) known)
