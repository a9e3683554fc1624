-- ===== src/Tests/Conversations.antt =====
-- Conversations and databases at concrete inputs.
use hkp_node.Shared.Tables.{select, update}
use hkp_node.Shared.OrderedMap.{get}
use hkp_node.Services.Conversations.Workflow.{change_state, conversation_id_of, target_of, move}
use hkp_node.Services.Conversations.Filing.{new_email}
use hkp_node.Services.Conversations.Passes.{returned, polled, described_conversation, succeed}
use Prim.Native.Char
use Prim.Native.String
use hkp_node.Shared.{
  ℕ, zero, suc, ◌≡◌, refl, String, true, false, List, [], ◌∷◌, none, some, ltb, arith, string_eq,
  ◌⊎◌, All, map, length, ap,
}
use hkp_node.Shared.Json.{nat, Json, str, obj, arr, nil, end, field, field?}
use hkp_node.Services.Databases.{
  board_key, named_key, file_of, check_database_name, all_name_chars, database_key_eq,
}
use hkp_node.Services.Databases.Files.{file_of-injective, IsShadow}
use hkp_node.Services.Conversations.Values.{
  Host, normalize_message_id, normalize_text, as_record, text,
}
use hkp_node.Services.Conversations.Rows.{
  Conversation, Email, Database, new_database, inbound, find_email, has_email, find_conversation,
  update_state,
}
use hkp_node.Services.Conversations.Settings.{
  Service, new_service, transition, actionable, put_artifact,
}
use hkp_node.Services.Conversations.Processing.{Store, pass_on, process, run_mode, caught}
use hkp_node.Services.Conversations.Integrity.{
  Call, call_all, call_all-IsSound, new_database-IsSound, IsSound,
}
use hkp_node.Services.Conversations.Replies.{ingest_message-known, find_email-reply}
use hkp_node.Services.Conversations.States.{call_all-IsDeclared, IsDeclared}
use hkp_node.Services.Conversations.Polling.{pass_on-IsPoll, IsPoll, is_due}
use hkp_node.Services.Conversations.Isolation.{process-other}

abbrev ticks : ℕ → String
ticks zero = "T"
ticks (suc n) = String.◌∷◌ "|" (ticks n)

abbrev host : Host
host = record {
  trim = λ s. s;
  split = λ s by. s ∷ [];
  split_blanks = λ s. s ∷ [];
  number_text = λ n. "1";
  array_index = λ s. none;
  date_text = λ s. none;
  iso = ticks;
  iso_before = λ now seconds. some (ticks now);
  stringify = λ value. "[]";
  parse = λ s. some (arr nil);
  text_lt = λ a b. ltb (String.len a) (String.len b);
  reason = λ thrown. "no";
}

abbrev mailbox : Service
mailbox = record new_service { states = "open" ∷ "closed" ∷ [] }

abbrev question : Json
question =
    obj
      (field "messageId" (str "<a@x>") (field "from" (str "ann") (field "text" (str "hello") end)))

abbrev reply : Json
reply = obj (
    field "messageId" (str "<b@x>")
      (field "inReplyTo" (str "<a@x>") (field "from" (str "bob") end)))

abbrev closing : Service
closing = record mailbox { mode = transition; state = "closed" }

abbrev polling : Service
polling = record mailbox { mode = actionable; in_state = "init" ∷ []; idle_seconds = nat 60 }

abbrev calls : List Call
calls =
    (record { service = mailbox; input = question; clock = 1; drawn = "" })
    ∷ (record { service = mailbox; input = reply; clock = 2; drawn = "" })
    ∷ (record { service = closing; input = str "a@x"; clock = 3; drawn = "" })
    ∷ (record {
      service = record mailbox { mode = put_artifact; kind = "draft" };
      input = str "a@x";
      clock = 4;
      drawn = "k";
    })
    ∷ []

abbrev question_row : Email
question_row = record {
  message_id = "a@x";
  conversation_id = "a@x";
  direction = inbound;
  sent_at = "T";
  received_at = "T";
  sender = "ann";
  recipient = "";
  subject = "";
  body = "hello";
}

-- The tables once the question is filed.
abbrev asked : Database
asked = record {
  conversations =
      (record {
        id = "a@x";
        state = "init";
        subject = "";
        participants = "[]";
        created_at = "T";
        updated_at = "T";
      })
      ∷ [];
  emails = question_row ∷ [];
  artifacts = [];
}

asked-IsSound : IsSound asked
asked-IsSound = record {
  filed = (refl, tt);
  kept = tt;
  conversation_keys = (refl, tt);
  email_keys = (refl, tt);
  artifact_keys = tt;
}

call_all-IsSound_example : IsSound (call_all host calls new_database)
call_all-IsSound_example = call_all-IsSound host calls new_database new_database-IsSound

question_filed : has_email (normalize_message_id host (str "<a@x>")) asked ≡ true
unfolding normalize_message_id normalize_text
question_filed = refl

ingest_message-known_example :
    ((pass_on host mailbox asked question 9 "").database ≡ asked)
    × (returned (pass_on host mailbox asked question 9 "").notice ≡ none)
unfolding field?
ingest_message-known_example =
    ingest_message-known host mailbox asked question 9 "" refl asked-IsSound question_filed

abbrev close : Call
close = record { service = closing; input = str "a@x"; clock = 3; drawn = "" }

reply_unknown : has_email "b@x" (call_all host (close ∷ []) asked) ≡ false
unfolding call_all pass_on run_mode change_state conversation_id_of target_of move find_conversation
    select update_state update caught succeed text field?
reply_unknown = refl

reply_id : normalize_message_id host (str "<b@x>") ≡ "b@x"
unfolding normalize_message_id normalize_text
reply_id = refl

question_id : normalize_message_id host (str "<a@x>") ≡ "a@x"
unfolding normalize_message_id normalize_text
question_id = refl

find_question : find_email "a@x" asked ≡ some question_row
unfolding find_email select
find_question = refl

find_email-reply_example :
    find_email "b@x" (pass_on host mailbox (call_all host (close ∷ []) asked) reply 5 "").database
    ≡ some (new_email host mailbox "b@x" "a@x" (ticks 5) (as_record reply))
unfolding field?
find_email-reply_example =
    find_email-reply host (close ∷ []) mailbox asked reply 5 "" "b@x" "a@x" question_row refl
      reply_id refl reply_unknown question_id refl find_question

call_all-IsDeclared_example :
    All
      (λ (c : Conversation). IsDeclared "init" ("open" ∷ "closed" ∷ []) c.state)
      (call_all host calls new_database).conversations
call_all-IsDeclared_example =
    call_all-IsDeclared host "init" "open" ("closed" ∷ []) calls new_database
      ((refl, refl), ((refl, refl), ((refl, refl), ((refl, refl), tt)))) tt

pass_on-IsPoll_example :
    (rows : List Conversation) × (IsPoll host.text_lt
        (is_due host.text_lt ("init" ∷ []) (nat 60) (ticks 9))
        100
        asked
        rows
      × ((returned (pass_on host polling asked question 9 "").notice
            ≡ some (polled (map (described_conversation host) rows) (length rows)))
          × ((pass_on host polling asked question 9 "").database ≡ asked)))
pass_on-IsPoll_example =
    pass_on-IsPoll host polling asked question 9 100 "" "init" [] (ticks 9) refl refl refl refl
      (λ a b h. ground (arith, h))

-- The number of the first character of a text.
abbrev initial : String → ℕ
initial String.[] = 0
initial (String.◌∷◌ c s) = Char.code c

abbrev store : Store
store = (board_key "ann" "mail", asked) ∷ (named_key "bob" "archive", new_database) ∷ []

process-other_example :
    get
      (named_key "bob" "archive")
      (process host
        (λ s. s)
        (λ s. s)
        mailbox
        (some (record { owner = "ann"; board_name = "mail" }))
        store
        reply
        5
        "").store
    ≡ get (named_key "bob" "archive") store
process-other_example =
    process-other host (λ s. s) (λ s. s) mailbox (record { owner = "ann"; board_name = "mail" })
      (named_key "bob" "archive") store reply 5 "" (λ e. ground (arith, ap initial e))

abbrev marked : String → String
marked s = String.◌∷◌ "h" s

marked-injective : (a b : String) → marked a ≡ marked b → a ≡ b
marked-injective a b e = ap (λ s. elim s [ String.[] ↦ "" | String.◌∷◌ c rest ↦ rest ]) e

same_file : file_of marked (board_key "ann" "mail") ≡ file_of marked (named_key "ann" "hmail")
unfolding file_of
same_file = refl

allowed : check_database_name (λ s. s) "hmail" ≡ none
unfolding check_database_name all_name_chars
allowed = refl

file_of-injective_example :
    (board_key "ann" "mail" ≡ named_key "ann" "hmail")
    ⊎ (IsShadow marked (board_key "ann" "mail") (named_key "ann" "hmail")
        ⊎ IsShadow marked (named_key "ann" "hmail") (board_key "ann" "mail"))
file_of-injective_example =
    file_of-injective marked (λ s. s) marked-injective (λ a e. ground (arith, ap initial e)) refl
      (board_key "ann" "mail") (named_key "ann" "hmail") tt allowed same_file
