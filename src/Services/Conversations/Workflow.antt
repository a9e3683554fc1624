-- ===== src/Services/Conversations/Workflow.antt =====
-- services/conversations.ts: the modes that read conversations, move them and keep what the work on
-- them produced.
use Prim.Native.String
use hkp_node.Shared.{
  ℕ, String, Bool, true, false, not, List, [], ◌∷◌, Option, none, some, if◌then◌else◌, map, truthy,
  string_eq, nat_eq, ◌==◌, length,
}
use hkp_node.Shared.Json.{Number, nat, infinity, fraction, Json, null}
use hkp_node.Shared.Tables.{select}
use hkp_node.Services.Conversations.Rows.{
  inbound, outbound, Artifact, Database, find_conversation, insert_artifact, update_state,
  update_status, emails_of, select_actionable, select_artifacts, Conversation,
}
use hkp_node.Services.Conversations.Values.{
  Host, taken_id, bad_limit, bad_date, as_record, value_of, coalesce, string_or_empty, includes,
  join, text, value_at,
}
use hkp_node.Services.Conversations.Settings.{Service, default_artifact_status}
use hkp_node.Services.Conversations.Passes.{
  threaded, moved, polled, listed, DescribedEmail, Outcome, finished, threw, fail, succeed,
  described_email, described_conversation, described_artifact, report_artifact,
}
use hkp_node.Services.Conversations.Filing.{reverse}

abbrev pub is_inbound : DescribedEmail → Bool
is_inbound e = elim (e.direction) [ inbound ↦ true | outbound ↦ false ]

-- `number > 0` of a number that `configure` takes.
abbrev pub is_positive : Number → Bool
is_positive (nat n) = not (n == 0)
is_positive (fraction n) = true
is_positive infinity = true
is_positive _ = false

-- `states.length > 0 && !states.includes(target)`
abbrev pub is_refused : List String → String → Bool
is_refused [] target = false
is_refused (s ∷ states) target = not (includes target (s ∷ states))

module _ (host : Host) where
  open host use {iso, iso_before, stringify, text_lt}

  -- `conversationId`
  unfoldable pub conversation_id_of : Service → Json → String
  conversation_id_of s input =
      let found =
        if truthy s.conversation_from
        then string_or_empty (value_at host input s.conversation_from)
        else "" in
      let named = string_or_empty (value_of "conversationId" (as_record input)) in
      if truthy found then found else if truthy named then named else string_or_empty input

  -- `thread`
  unfoldable pub read_thread : Service → Database → Json → Outcome
  read_thread s db input =
      let conversation_id = conversation_id_of s input in
      if truthy conversation_id
      then (elim (emails_of text_lt conversation_id s.limit db) [
        | none ↦ threw bad_limit db
        | some rows ↦
            let emails = map described_email rows in
            finished (
              succeed (length emails)
                (threaded conversation_id emails (length emails)
                  (select is_inbound (reverse emails)))
                s db)
      ])
      else finished (fail "thread needs a conversation id" s db)

  -- The state to move to.
  unfoldable pub target_of : Service → Json → String
  target_of s input =
      if truthy s.state
      then s.state
      else text host
          (coalesce (value_at host input s.state_from) (value_of "state" (as_record input)))

  unfoldable pub move : Service → Database → String → String → String → Outcome
  move s db conversation_id target now = elim (find_conversation conversation_id db) [
    | none ↦
        finished (fail (String.◌++◌ "no conversation '" (String.◌++◌ conversation_id "'")) s db)
    | some before ↦ finished (
        succeed 1 (moved conversation_id target before.state now) s
          (update_state conversation_id target now db))
  ]

  -- `transition`
  unfoldable pub change_state : Service → Database → Json → ℕ → Outcome
  change_state s db input clock =
      let conversation_id = conversation_id_of s input in
      let target = target_of s input in
      let refusal = String.◌++◌ "'" (
        String.◌++◌ target (
          String.◌++◌ "' is not one of this board's states (" (String.◌++◌ (join s.states) ")"))) in
      let done = move s db conversation_id target (iso clock) in
      if not (truthy conversation_id)
      then finished (fail "transition needs a conversation id" s db)
      else if not (truthy target)
      then finished (fail "transition needs a state to move to" s db)
      else if is_refused s.states target
      then finished (fail refusal s db)
      else done

  -- The end of `actionable`, from the answer to its query on.
  unfoldable pub answer_poll : Service → Database → Option (List Conversation) → Outcome
  answer_poll s db none = threw bad_limit db
  answer_poll s db (some rows) =
      finished
        (succeed (length rows) (polled (map (described_conversation host) rows) (length rows)) s db)

  abbrev pub poll_before : Service → Database → Option String → Outcome
  poll_before s db before =
      answer_poll s db (select_actionable text_lt s.in_state before s.limit db)

  -- The latest `updatedAt` that a poll selects, where `idleSeconds` asks for one, or no date.
  unfoldable pub cutoff : Service → ℕ → Option (Option String)
  cutoff s clock =
      if is_positive s.idle_seconds
      then (elim (iso_before clock s.idle_seconds) [
        | none ↦ none
        | some before ↦ some (some before)
      ])
      else some none

  -- `actionable`, by the states to poll.
  unfoldable pub poll_states : List String → Service → Database → ℕ → Outcome
  poll_states [] s db clock =
      finished (fail "actionable needs inState to say which states to poll" s db)
  poll_states (state ∷ states) s db clock = elim (cutoff s clock) [
    | none ↦ threw bad_date db
    | some before ↦ poll_before s db before
  ]

  abbrev pub poll : Service → Database → ℕ → Outcome
  poll s = poll_states s.in_state s

  unfoldable pub new_artifact : Service → String → Json → ℕ → String → Artifact
  new_artifact s conversation_id input clock drawn =
      let payload = if truthy s.payload_from then value_at host input s.payload_from else input in
      record {
        id = String.◌++◌ (iso clock) (String.◌++◌ "-" drawn);
        conversation_id = conversation_id;
        kind = s.kind;
        payload = stringify (coalesce payload null);
        status = if truthy s.status then s.status else default_artifact_status;
        created_at = iso clock;
        updated_at = iso clock;
      }

  unfoldable pub keep_artifact : Service → Database → Artifact → Outcome
  keep_artifact s db a = elim (find_conversation a.conversation_id db) [
    | none ↦
        finished (fail (String.◌++◌ "no conversation '" (String.◌++◌ a.conversation_id "'")) s db)
    | some c ↦ elim (insert_artifact a db) [
      | none ↦ threw taken_id db
      | some stored ↦ report_artifact host a.id s stored
    ]
  ]

  -- `putArtifact`; `drawn` is the random part of the id.
  unfoldable pub add_artifact : Service → Database → Json → ℕ → String → Outcome
  add_artifact s db input clock drawn =
      let conversation_id = conversation_id_of s input in
      let done = keep_artifact s db (new_artifact s conversation_id input clock drawn) in
      if not (truthy conversation_id)
      then finished (fail "put-artifact needs a conversation id" s db)
      else if not (truthy s.kind)
      then finished (fail "put-artifact needs a kind" s db)
      else done

  -- `listArtifacts`
  unfoldable pub read_artifacts : Service → Database → Json → Outcome
  read_artifacts s db input =
      elim (select_artifacts text_lt (conversation_id_of s input) s.kind s.status s.limit db) [
        | none ↦ threw bad_limit db
        | some rows ↦
            finished (
              succeed (length rows) (listed (map (described_artifact host) rows) (length rows)) s
                db)
      ]

  -- The artifact that `setArtifactStatus` is about.
  unfoldable pub artifact_id_of : Service → Json → String
  artifact_id_of s input =
      let found =
        if truthy s.id_from then string_or_empty (value_at host input s.id_from) else "" in
      let named = text host (value_of "id" (as_record input)) in
      if truthy found then found else if truthy named then named else string_or_empty input

  -- The end of `setArtifactStatus`, from its statement on.
  unfoldable pub set_status : Service → Database → String → String → String → Outcome
  set_status s db id target now =
      let (stored, changed) = update_status id target now db in
      let done = report_artifact host id s stored in
      if changed == 0
      then finished (fail (String.◌++◌ "no artifact '" (String.◌++◌ id "'")) s stored)
      else done

  -- The status that `setArtifactStatus` sets.
  unfoldable pub status_of : Service → Json → String
  status_of s input =
      if truthy s.status then s.status else text host (value_of "status" (as_record input))

  -- `setArtifactStatus`
  unfoldable pub decide_artifact : Service → Database → Json → ℕ → Outcome
  decide_artifact s db input clock =
      let id = artifact_id_of s input in
      let target = status_of s input in
      let done = set_status s db id target (iso clock) in
      if not (truthy id)
      then finished (fail "set-artifact-status needs an artifact id" s db)
      else if not (truthy target)
      then finished (fail "set-artifact-status needs a status" s db)
      else done
