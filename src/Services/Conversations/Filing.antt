-- ===== src/Services/Conversations/Filing.antt =====
-- services/conversations.ts, `ingest`: a message is filed under the conversation that it belongs to.
use hkp_node.Shared.{
  ℕ, String, Bool, true, false, List, [], ◌∷◌, ◌++◌, Option, none, some, if◌then◌else◌, keep, map,
  truthy, or_else, is_some, string_eq,
}
use hkp_node.Shared.Json.{
  Json, Fields, null, undefined, flag, number, str, bytes, arr, obj, items_of, elements,
}
use hkp_node.Services.Conversations.Rows.{
  Conversation, Email, Database, find_conversation, find_email, insert_conversation, insert_email,
  update_participants,
}
use hkp_node.Services.Conversations.Values.{
  Host, no_array, no_row, as_record, value_of, coalesce, string_or_empty, distinct, text, addresses,
  timestamp, normalize_message_id, normalize_references,
}
use hkp_node.Services.Conversations.Settings.{Service, direction_named}
use hkp_node.Services.Conversations.Passes.{
  filed, known, Outcome, finished, threw, fail, succeed, described_conversation, described_email,
}

unfoldable pub reverse {ℓ} : {A : Type ℓ} → List A → List A
reverse [] = []
reverse (x ∷ xs) = reverse xs ++ x ∷ []

-- The loop of `threadOf`: the conversation of the first message of a chain that is filed.
unfoldable pub first_known : Database → List String → Option String
first_known db [] = none
first_known db (id ∷ chain) =
    let rest = first_known db chain in
    elim (find_email id db) [ none ↦ rest | some email ↦ some email.conversation_id ]

-- `JSON.stringify` of a list of texts is that of an array.
abbrev pub text_array : List String → Json
text_array texts = arr (items_of (map str texts))

-- `known.map(text)`, which throws where `known` is no array.
abbrev pub array? : Json → Option (List Json)
array? (arr items) = some (elements items)
array? null = none
array? undefined = none
array? (flag b) = none
array? (number n) = none
array? (str s) = none
array? (bytes b) = none
array? (obj fields) = none

module _ (host : Host) where
  open host use {iso, stringify, parse}

  unfoldable pub chain_of : String → Fields → List String
  chain_of message_id envelope = keep truthy (
      (normalize_message_id host (value_of "inReplyTo" envelope)
        ∷ reverse (normalize_references host (value_of "references" envelope)))
      ++ message_id ∷ [])

  -- `references[0] || inReplyTo || messageId`
  unfoldable pub root_of_chain : String → Fields → String
  root_of_chain message_id envelope =
      let in_reply_to = normalize_message_id host (value_of "inReplyTo" envelope) in
      let otherwise = if truthy in_reply_to then in_reply_to else message_id in
      elim (normalize_references host (value_of "references" envelope)) [
        | [] ↦ otherwise
        | first ∷ rest ↦ if truthy first then first else otherwise
      ]

  -- `threadOf`
  unfoldable pub thread_of : Database → String → Fields → String
  thread_of db message_id envelope =
      or_else (first_known db (chain_of message_id envelope)) (root_of_chain message_id envelope)

  -- `parsed(row?.participants, [])`
  unfoldable pub known_participants : String → Database → Json
  known_participants conversation_id db = elim (find_conversation conversation_id db) [
    | none ↦ arr (items_of [])
    | some c ↦ or_else (parse c.participants) (arr (items_of []))
  ]

  -- `touch`: the tables, unless it throws.
  unfoldable pub touch : String → String → List String → Database → Option Database
  touch conversation_id now seen db = elim (array? (known_participants conversation_id db)) [
    | none ↦ none
    | some people ↦ some (
        update_participants conversation_id now
          (stringify (text_array (distinct (keep truthy (map (text host) people ++ seen))))) db)
  ]

  unfoldable pub new_conversation : Service → String → String → Fields → Conversation
  new_conversation s id now envelope =
      let sender = text host (value_of "from" envelope) in
      let recipient = addresses host (value_of "to" envelope) in
      record {
        id = id;
        state = s.initial_state;
        subject = text host (value_of "subject" envelope);
        participants = stringify (text_array (keep truthy (sender ∷ recipient ∷ [])));
        created_at = now;
        updated_at = now;
      }

  unfoldable pub new_email : Service → String → String → String → Fields → Email
  new_email s message_id conversation_id now envelope = record {
    message_id = message_id;
    conversation_id = conversation_id;
    direction =
        or_else (direction_named (string_or_empty (value_of "direction" envelope))) s.direction;
    sent_at = timestamp host (coalesce (value_of "date" envelope) (value_of "sentAt" envelope)) now;
    received_at = now;
    sender = text host (value_of "from" envelope);
    recipient = addresses host (value_of "to" envelope);
    subject = text host (value_of "subject" envelope);
    body = text host (coalesce (value_of "text" envelope) (value_of "body" envelope));
  }

  -- The end of `ingest`: both rows are read again.
  unfoldable pub report_filed : String → String → Bool → Service → Database → Outcome
  report_filed conversation_id message_id is_new s db =
      elim (find_conversation conversation_id db) [
        | none ↦ threw no_row db
        | some c ↦ elim (find_email message_id db) [
          | none ↦ threw no_row db
          | some e ↦
              finished
                (succeed 1 (filed (described_conversation host c) is_new (described_email e)) s db)
        ]
      ]

  -- The conversation row is there or is inserted.
  unfoldable pub open_conversation : Service → String → String → Fields → Database → Database
  open_conversation s id now envelope db = elim (find_conversation id db) [
    | none ↦ insert_conversation (new_conversation s id now envelope) db
    | some c ↦ db
  ]

  -- A message that was filed already.
  unfoldable pub report_known : String → String → Service → Database → Outcome
  report_known conversation_id message_id s db = finished (record {
    service = record s { last_count = 0; last_error = "" };
    database = db;
    notice = known conversation_id message_id;
  })

  -- `ingest` after a message went in: `existing` is whether its conversation was there before.
  unfoldable pub follow_up : Bool → String → Email → String → Service → Database → Outcome
  follow_up existing conversation_id email now s db =
      if existing
      then (elim (touch conversation_id now (email.sender ∷ email.recipient ∷ []) db) [
        | none ↦ threw no_array db
        | some touched ↦ report_filed conversation_id email.message_id false s touched
      ])
      else report_filed conversation_id email.message_id true s db

  -- `ingest` from the conversation on.
  unfoldable pub file : Service → Database → String → String → String → Fields → Outcome
  file s db conversation_id message_id now envelope =
      let email = new_email s message_id conversation_id now envelope in
      let (stored, changed) =
        insert_email email (open_conversation s conversation_id now envelope db) in
      let existing = is_some (find_conversation conversation_id db) in
      let done = follow_up existing conversation_id email now s stored in
      if changed then done else report_known conversation_id message_id s stored

  -- `ingest`
  unfoldable pub ingest_message : Service → Database → Json → ℕ → Outcome
  ingest_message s db input clock =
      let envelope = as_record input in
      let message_id = normalize_message_id host (value_of "messageId" envelope) in
      if truthy message_id
      then file s db (thread_of db message_id envelope) message_id (iso clock) envelope
      else finished (fail "ingest needs a messageId to file the message under" s db)
