-- ===== src/Services/Conversations/Passes.antt =====
-- What the operations of services/conversations.ts report, and the rows as a board sees them.
use hkp_node.Shared.{ℕ, String, Bool, List, Option, none, some, or_else}
use hkp_node.Shared.Json.{Json, nil, str, arr}
use hkp_node.Services.Conversations.Rows.{
  Direction, Conversation, Email, Artifact, Database, find_artifact,
}
use hkp_node.Services.Conversations.Values.{Host, Thrown, no_row}
use hkp_node.Services.Conversations.Settings.{Service}

-- `describedEmail`
pub record DescribedEmail : Type 0 where
  pub message_id : String
  pub conversation_id : String
  pub direction : Direction
  pub sent_at : String
  pub received_at : String
  pub from : String
  pub to : String
  pub subject : String
  pub body : String

abbrev pub described_email : Email → DescribedEmail
described_email row = record {
  message_id = row.message_id;
  conversation_id = row.conversation_id;
  direction = row.direction;
  sent_at = row.sent_at;
  received_at = row.received_at;
  from = row.sender;
  to = row.recipient;
  subject = row.subject;
  body = row.body;
}

pub record DescribedConversation : Type 0 where
  pub conversation_id : String
  pub state : String
  pub subject : String
  pub participants : Json
  pub created_at : String
  pub updated_at : String

pub record DescribedArtifact : Type 0 where
  pub id : String
  pub conversation_id : String
  pub kind : String
  pub payload : Json
  pub status : String
  pub created_at : String
  pub updated_at : String

-- What an operation returns where it returns something.
pub data Answer : Type 0 where
  filed : DescribedConversation → Bool → DescribedEmail → Answer
  threaded : String → List DescribedEmail → ℕ → Option DescribedEmail → Answer
  moved : String → String → String → String → Answer
  polled : List DescribedConversation → ℕ → Answer
  kept : DescribedArtifact → Answer
  listed : List DescribedArtifact → ℕ → Answer

-- What an operation notifies: its answer, a message that was filed already, or an error.
pub data Notice : Type 0 where
  answered : Answer → Notice
  known : String → String → Notice
  failed : String → Notice

-- What it returns, with null as none.
abbrev pub returned : Notice → Option Answer
returned (answered answer) = some answer
returned (known conversation_id message_id) = none
returned (failed error) = none

pub record Pass : Type 0 where
  pub service : Service
  pub database : Database
  pub notice : Notice

-- A call that comes to its end, or throws after it has changed the tables.
pub data Outcome : Type 0 where
  finished : Pass → Outcome
  threw : Thrown → Database → Outcome

-- `fail`
unfoldable pub fail : String → Service → Database → Pass
fail error s db = record {
  service = record s { last_error = error };
  database = db;
  notice = failed error;
}

-- `this.lastCount = count; this.lastError = ""; notify(result); return result;`
unfoldable pub succeed : ℕ → Answer → Service → Database → Pass
succeed count answer s db = record {
  service = record s { last_count = count; last_error = "" };
  database = db;
  notice = answered answer;
}

module _ (host : Host) where
  open host use {parse}

  -- `describedConversation`
  unfoldable pub described_conversation : Conversation → DescribedConversation
  described_conversation row = record {
    conversation_id = row.id;
    state = row.state;
    subject = row.subject;
    participants = or_else (parse row.participants) (arr nil);
    created_at = row.created_at;
    updated_at = row.updated_at;
  }

  -- `describedArtifact`
  unfoldable pub described_artifact : Artifact → DescribedArtifact
  described_artifact row = record {
    id = row.id;
    conversation_id = row.conversation_id;
    kind = row.kind;
    payload = or_else (parse row.payload) (str row.payload);
    status = row.status;
    created_at = row.created_at;
    updated_at = row.updated_at;
  }

  -- The end of `putArtifact` and of `setArtifactStatus`: the row is read again.
  unfoldable pub report_artifact : String → Service → Database → Outcome
  report_artifact id s db = elim (find_artifact id db) [
    | none ↦ threw no_row db
    | some row ↦ finished (succeed 1 (kept (described_artifact row)) s db)
  ]
