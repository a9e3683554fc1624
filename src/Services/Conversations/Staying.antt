-- ===== src/Services/Conversations/Staying.antt =====
-- services/conversations.ts: an email stays as it was filed.
use hkp_node.Shared.{◌≡◌, ◌∙◌, String, List, [], ◌∷◌, some, ◌==◌, string_eq, arith, is_some}
use hkp_node.Shared.Tables.{select-append, is_some-select}
use hkp_node.Services.Conversations.Rows.{
  Email, Database, has_email, find_email, insert_conversation, update_participants, update_state,
  update_status,
}
use hkp_node.Services.Conversations.Values.{Host}
use hkp_node.Services.Conversations.Settings.{Service}
use hkp_node.Services.Conversations.Processing.{pass_on}
use hkp_node.Services.Conversations.Statements.{
  Statement, opens, files, touches, moves, keeps, decides, Statements, nothing, later,
}
use hkp_node.Services.Conversations.Statements.Made.{pass_on-Statements}
use hkp_node.Services.Conversations.Integrity.{Call, call_all}

pub find_email-has : (id : String) (db : Database) → is_some (find_email id db) ≡ has_email id db
unfolding find_email
find_email-has id db = is_some-select (λ (e : Email). e.message_id == id) db.emails

Statement-find_email :
    {s : Service} {db d : Database} (id : String) (e : Email)
    → Statement s db d
    → find_email id db ≡ some e
    → find_email id d ≡ some e
unfolding find_email insert_conversation update_participants update_state update_status
Statement-find_email id e (opens c i free) h = h
Statement-find_email {db} id e (files row known free) h =
    select-append (λ (r : Email). r.message_id == id) row db.emails
    ∙ ground (arith, is_some-select (λ (r : Email). r.message_id == id) db.emails, h)
Statement-find_email id e (touches i now participants) h = h
Statement-find_email id e (moves i target now allowed) h = h
Statement-find_email id e (keeps a known free) h = h
Statement-find_email id e (decides i status now) h = h

Statements-find_email :
    {s : Service} {db d : Database} (id : String) (e : Email)
    → Statements s db d
    → find_email id db ≡ some e
    → find_email id d ≡ some e
Statements-find_email id e nothing h = h
Statements-find_email id e (later st one) h =
    Statement-find_email id e one (Statements-find_email id e st h)

-- A message that is filed stays as it was filed, through any calls of any services.
pub find_email-call_all :
    (host : Host) (calls : List Call) (id : String) (e : Email) (db : Database)
    → find_email id db ≡ some e
    → find_email id (call_all host calls db) ≡ some e
unfolding call_all
find_email-call_all host [] id e db h = h
find_email-call_all host (c ∷ calls) id e db h =
    find_email-call_all host calls id e (pass_on host c.service db c.input c.clock c.drawn).database
      (Statements-find_email id e (pass_on-Statements host c.service db c.input c.clock c.drawn) h)
