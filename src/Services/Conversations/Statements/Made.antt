-- ===== src/Services/Conversations/Statements/Made.antt =====
-- Every pass of services/conversations.ts makes statements as its parent module has them.
use hkp_node.Shared.{
  ℕ, ◌≡◌, refl, inl, inr, String, false, [], ◌∷◌, ◌++◌, Option, none, some, truthy, ◌==◌, string_eq,
  nat_eq, Bool-cases, Option-cases, arith, List,
}
use hkp_node.Shared.Json.{Json}
use hkp_node.Services.Conversations.Rows.{
  Conversation, Artifact, Database, has_artifact, find_conversation, insert_artifact, update_status,
  select_actionable,
}
use hkp_node.Services.Conversations.Values.{Host}
use hkp_node.Services.Conversations.Settings.{
  Mode, Service, ingest, thread, transition, actionable, put_artifact, list_artifacts,
  set_artifact_status,
}
use hkp_node.Services.Conversations.Passes.{Outcome, fail, succeed}
use hkp_node.Services.Conversations.Workflow.{
  is_refused, move, change_state, keep_artifact, add_artifact, set_status, decide_artifact, cutoff,
  answer_poll, poll_states, read_thread, read_artifacts, conversation_id_of, target_of,
  artifact_id_of, new_artifact, status_of,
}
use hkp_node.Services.Conversations.Processing.{run, run_mode, caught, pass_on}
use hkp_node.Services.Conversations.Statements.{
  moves, keeps, decides, Statements, nothing, later, after,
}
use hkp_node.Services.Conversations.Statements.Filed.{
  find_conversation-has, report_artifact-after, ingest_message-Statements,
}

module _ (host : Host) where
  move-Statements :
      (s : Service) (db : Database) (id target now : String)
      → is_refused s.states target ≡ false
      → Statements s db (after (move host s db id target now))
  unfolding move fail succeed
  move-Statements s db id target now allowed = elim (Option-cases (find_conversation id db)) [
    | inl e ↦ rw (e, move, after) nothing
    | inr (c, e) ↦ rw (e, move, after) (later nothing (moves id target now allowed))
  ]

  keep_artifact-Statements :
      (s : Service) (db : Database) (a : Artifact)
      → Statements s db (after (keep_artifact host s db a))
  unfolding keep_artifact fail insert_artifact
  keep_artifact-Statements s db a = elim (Option-cases (find_conversation a.conversation_id db)) [
    | inl e ↦ rw (e, keep_artifact, after) nothing
    | inr (c, e) ↦ elim (Bool-cases (has_artifact a.id db)) [
      | inl taken ↦ rw (e, keep_artifact, after) (rw (taken, insert_artifact, after) nothing)
      | inr free ↦
          rw (e, keep_artifact, after)
            (rw (free, insert_artifact, after)
              (rw
                (report_artifact-after host a.id s
                  (record db { artifacts = db.artifacts ++ a ∷ [] }))
                (later nothing
                  (keeps a (ground (arith, find_conversation-has a.conversation_id db, e)) free))))
    ]
  ]

  set_status-Statements :
      (s : Service) (db : Database) (id target now : String)
      → Statements s db (after (set_status host s db id target now))
  unfolding set_status fail
  set_status-Statements s db id target now =
      elim (Bool-cases ((update_status id target now db).1 == 0)) [
        | inl e ↦ rw e (later nothing (decides id target now))
        | inr e ↦ rw e (
            rw (report_artifact-after host id s (update_status id target now db).0)
              (later nothing (decides id target now)))
      ]

  change_state-Statements :
      (s : Service) (db : Database) (input : Json) (clock : ℕ)
      → Statements s db (after (change_state host s db input clock))
  unfolding change_state fail
  change_state-Statements s db input clock =
      let id = conversation_id_of host s input in
      let target = target_of host s input in
      elim (Bool-cases (truthy id)) [
        | inr e ↦ rw e nothing
        | inl e ↦ rw e (elim (Bool-cases (truthy target)) [
          | inr e' ↦ rw e' nothing
          | inl e' ↦ rw e' (elim (Bool-cases (is_refused s.states target)) [
            | inl r ↦ rw r nothing
            | inr r ↦ rw r (move-Statements s db id target (host.iso clock) r)
          ])
        ])
      ]

  answer_poll-after :
      (s : Service) (db : Database) (found : Option (List Conversation))
      → after (answer_poll host s db found) ≡ db
  unfolding answer_poll succeed
  answer_poll-after s db none = refl
  answer_poll-after s db (some rows) = refl

  poll_states-after :
      (states : List String) (s : Service) (db : Database) (clock : ℕ)
      → after (poll_states host states s db clock) ≡ db
  unfolding poll_states fail
  poll_states-after [] s db clock = refl
  poll_states-after (state ∷ states) s db clock = elim (Option-cases (cutoff host s clock)) [
    | inl e ↦ ground (arith, e)
    | inr (before, e) ↦
        rw (e, poll_states, after)
          (answer_poll-after s db (select_actionable host.text_lt s.in_state before s.limit db))
  ]

  read_thread-after :
      (s : Service) (db : Database) (input : Json) → after (read_thread host s db input) ≡ db
  unfolding read_thread fail succeed
  read_thread-after s db input = ground arith

  read_artifacts-after :
      (s : Service) (db : Database) (input : Json) → after (read_artifacts host s db input) ≡ db
  unfolding read_artifacts succeed
  read_artifacts-after s db input = ground arith

  add_artifact-Statements :
      (s : Service) (db : Database) (input : Json) (clock : ℕ) (drawn : String)
      → Statements s db (after (add_artifact host s db input clock drawn))
  unfolding add_artifact fail
  add_artifact-Statements s db input clock drawn =
      let id = conversation_id_of host s input in
      elim (Bool-cases (truthy id)) [
        | inr e ↦ rw e nothing
        | inl e ↦ rw e (elim (Bool-cases (truthy s.kind)) [
          | inr e' ↦ rw e' nothing
          | inl e' ↦
              rw e' (keep_artifact-Statements s db (new_artifact host s id input clock drawn))
        ])
      ]

  decide_artifact-Statements :
      (s : Service) (db : Database) (input : Json) (clock : ℕ)
      → Statements s db (after (decide_artifact host s db input clock))
  unfolding decide_artifact fail
  decide_artifact-Statements s db input clock =
      let id = artifact_id_of host s input in
      let target = status_of host s input in
      elim (Bool-cases (truthy id)) [
        | inr e ↦ rw e nothing
        | inl e ↦ rw e (elim (Bool-cases (truthy target)) [
          | inr e' ↦ rw e' nothing
          | inl e' ↦ rw e' (set_status-Statements s db id target (host.iso clock))
        ])
      ]

  pub caught-after : (s : Service) (o : Outcome) → (caught host s o).database ≡ after o
  unfolding caught fail
  caught-after s o = ground arith

  run_mode-Statements :
      (m : Mode) (s : Service) (db : Database) (input : Json) (clock : ℕ) (drawn : String)
      → Statements s db (after (run_mode host m s db input clock drawn))
  unfolding run_mode
  run_mode-Statements ingest s db input clock drawn =
      ingest_message-Statements host s db input clock
  run_mode-Statements thread s db input clock drawn = rw (read_thread-after s db input) nothing
  run_mode-Statements transition s db input clock drawn = change_state-Statements s db input clock
  run_mode-Statements actionable s db input clock drawn =
      rw (poll_states-after s.in_state s db clock) nothing
  run_mode-Statements put_artifact s db input clock drawn =
      add_artifact-Statements s db input clock drawn
  run_mode-Statements list_artifacts s db input clock drawn =
      rw (read_artifacts-after s db input) nothing
  run_mode-Statements set_artifact_status s db input clock drawn =
      decide_artifact-Statements s db input clock

  -- A pass makes statements, each under its condition, and nothing else, whatever it throws.
  pub pass_on-Statements :
      (s : Service) (db : Database) (input : Json) (clock : ℕ) (drawn : String)
      → Statements s db (pass_on host s db input clock drawn).database
  unfolding pass_on
  pass_on-Statements s db input clock drawn =
      rw (caught-after s (run host s db input clock drawn))
        (run_mode-Statements s.mode s db input clock drawn)
