-- ===== src/Services/Conversations/States.antt =====
-- services/conversations.ts: the states that conversations are in, and what `actionable` selects.
use hkp_node.Shared.{
  ◌≡◌, subst, inl, inr, ◌⊎◌, String, true, false, List, [], ◌∷◌, All, All-append, ◌==◌, string_eq,
  arith, eq_iff,
}
use hkp_node.Shared.Tables.{All-update}
use hkp_node.Services.Conversations.Rows.{
  Conversation, Database, insert_conversation, update_participants, update_state, update_status,
}
use hkp_node.Services.Conversations.Values.{Host, includes}
use hkp_node.Services.Conversations.Settings.{Service}
use hkp_node.Services.Conversations.Workflow.{is_refused}
use hkp_node.Services.Conversations.Processing.{pass_on}
use hkp_node.Services.Conversations.Statements.{
  Statement, opens, files, touches, moves, keeps, decides, Statements, nothing, later,
}
use hkp_node.Services.Conversations.Statements.Made.{pass_on-Statements}
use hkp_node.Services.Conversations.Integrity.{Call, call_all}

-- A state that a board with declared states has.
abbrev pub IsDeclared : String → List String → String → Type 0
IsDeclared initial states state = (state ≡ initial) ⊎ (includes state states ≡ true)

includes-is_refused :
    (states : List String) (target state : String)
    → includes state states ≡ true
    → is_refused states target ≡ false
    → includes target states ≡ true
includes-is_refused [] target state full h = ground (arith, full)
includes-is_refused (s ∷ states) target state full h = ground (arith, h)

Statement-IsDeclared :
    {s : Service} {db d : Database} (some_state : String)
    → includes some_state s.states ≡ true
    → Statement s db d
    → All (λ (c : Conversation). IsDeclared s.initial_state s.states c.state) db.conversations
    → All (λ (c : Conversation). IsDeclared s.initial_state s.states c.state) d.conversations
unfolding insert_conversation update_participants update_state update_status
Statement-IsDeclared {s} {db} some_state full (opens c e free) h =
    All-append (λ (c : Conversation). IsDeclared s.initial_state s.states c.state) db.conversations
      (c ∷ []) h (inl e, tt)
Statement-IsDeclared some_state full (files e known free) h = h
Statement-IsDeclared {s} {db} some_state full (touches id now participants) h =
    All-update (λ (c : Conversation). IsDeclared s.initial_state s.states c.state)
      (λ (c : Conversation). c.id == id)
      (λ (c : Conversation). record c { updated_at = now; participants = participants })
      db.conversations (λ c k e. k) h
Statement-IsDeclared {s} {db} some_state full (moves id target now allowed) h =
    All-update (λ (c : Conversation). IsDeclared s.initial_state s.states c.state)
      (λ (c : Conversation). c.id == id)
      (λ (c : Conversation). record c { state = target; updated_at = now }) db.conversations
      (λ c k e. inr (includes-is_refused s.states target some_state full allowed)) h
Statement-IsDeclared some_state full (keeps a known free) h = h
Statement-IsDeclared some_state full (decides id status now) h = h

Statements-IsDeclared :
    {s : Service} {db d : Database} (some_state : String)
    → includes some_state s.states ≡ true
    → Statements s db d
    → All (λ (c : Conversation). IsDeclared s.initial_state s.states c.state) db.conversations
    → All (λ (c : Conversation). IsDeclared s.initial_state s.states c.state) d.conversations
Statements-IsDeclared some_state full nothing h = h
Statements-IsDeclared some_state full (later st one) h =
    Statement-IsDeclared some_state full one (Statements-IsDeclared some_state full st h)

-- While the services of a board declare the same states, and at least one, and the same initial state,
-- conversations that are all in the initial state or in a declared one stay so, and new ones are so too,
-- through any calls.
pub call_all-IsDeclared :
    (host : Host) (initial state : String) (states : List String) (calls : List Call)
    (db : Database)
    → All
        (λ (c : Call). (c.service.initial_state ≡ initial) × (c.service.states ≡ state ∷ states))
        calls
    → All (λ (c : Conversation). IsDeclared initial (state ∷ states) c.state) db.conversations
    → All
        (λ (c : Conversation). IsDeclared initial (state ∷ states) c.state)
        (call_all host calls db).conversations
unfolding call_all
call_all-IsDeclared host initial state states [] db same h = h
call_all-IsDeclared host initial state states (c ∷ calls) db (now, rest) h =
    let s = c.service in
    let declared : includes state s.states ≡ true =
      rw (now.1) (ground (arith, eq_iff state state)) in
    let before : All (λ (c : Conversation). IsDeclared s.initial_state s.states c.state)
        db.conversations =
      simp (now.0, now.1) h in
    let d = (pass_on host s db c.input c.clock c.drawn).database in
    let after =
      Statements-IsDeclared state declared (pass_on-Statements host s db c.input c.clock c.drawn)
        before in
    let same =
      subst
        (λ (i : String).
          All (λ (c : Conversation). IsDeclared i (state ∷ states) c.state) d.conversations)
        now.0
        (subst
          (λ (l : List String).
            All (λ (c : Conversation). IsDeclared s.initial_state l c.state) d.conversations)
          now.1 after) in
    call_all-IsDeclared host initial state states calls d rest same
