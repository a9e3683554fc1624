-- ===== src/Services/Conversations/Polling.antt =====
-- services/conversations.ts, `actionable`: which conversations a poll finds.
use hkp_node.Shared.{
  ℕ, ◌≡◌, ◌≤◌, ◌∙◌, zero, suc, refl, arith, inl, inr, Bool-cases, if◌then◌else◌, ◌==◌, none, not,
  ap, String, Bool, true, false, ◌&&◌, List, ◌∷◌, Option, some, any, keep, All, string_eq, length,
  take, drop, ◌++◌, ◌⊎◌, map, [],
}
use hkp_node.Shared.Json.{
  Json, Number, nat, neg, fraction, negative_fraction, nan, infinity, minus_infinity,
}
use hkp_node.Shared.Tables.{
  order_by, IsOrdered, order_by-IsOrdered, take-append-drop, length-take-or, count-order_by,
  count-keep, keep-agree, length-take-le, All-take, All-order_by, keep-All,
}
use hkp_node.Services.Conversations.Rows.{
  Conversation, Database, is_actionable, conversation_before, select_actionable, limited,
}
use hkp_node.Services.Conversations.Values.{Host}
use hkp_node.Services.Conversations.Settings.{Service, actionable}
use hkp_node.Services.Conversations.Passes.{
  polled, returned, succeed, described_conversation, finished,
}
use hkp_node.Services.Conversations.Workflow.{poll, poll_states, answer_poll, cutoff}
use hkp_node.Services.Conversations.Processing.{pass_on, run_mode, caught}

-- Whether the conversation waits in one of the states.
abbrev pub waits_in : List String → Conversation → Bool
waits_in [] c = false
waits_in (state ∷ states) c =
    let later = waits_in states c in if state == c.state then true else later

-- Whether the last change lies far enough back: any does where a poll asks for no idle time, and else one
-- that is not after the time that long ago.
abbrev pub is_idle : (String → String → Bool) → Number → String → Conversation → Bool
is_idle text_lt (nat zero) time c = true
is_idle text_lt (nat (suc n)) time c = not (text_lt time c.updated_at)
is_idle text_lt (neg n) time c = true
is_idle text_lt (fraction n) time c = not (text_lt time c.updated_at)
is_idle text_lt negative_fraction time c = true
is_idle text_lt nan time c = true
is_idle text_lt infinity time c = not (text_lt time c.updated_at)
is_idle text_lt minus_infinity time c = true

abbrev pub is_due : (String → String → Bool) → List String → Number → String → Conversation → Bool
is_due text_lt in_state idle time c =
    if waits_in in_state c then is_idle text_lt idle time c else false

-- What a list of rows that a poll reports is, of the conversations that are due.
pub record IsPoll (text_lt : String → String → Bool) (is_found : Conversation → Bool) (n : ℕ)
    (db : Database) (rows : List Conversation) : Type 0 where
  -- What the limit left out.
  pub rest : List Conversation
  pub few : length rows ≤ n
  pub full : (length rows ≡ n) ⊎ (rest ≡ [])
  pub ordered : IsOrdered (λ a b. text_lt a.updated_at b.updated_at) (rows ++ rest)
  pub due : All (λ c. is_found c ≡ true) rows
  -- Every due conversation is there, and as often as it is in the table.
  pub complete :
      (q : Conversation → Bool)
      → length (keep q (rows ++ rest)) ≡ length (keep (λ c. is_found c && q c) db.conversations)

module _ (host : Host) where
  open host use {iso_before, text_lt}

  any-waits_in :
      (states : List String) (c : Conversation) → any (λ s. s == c.state) states ≡ waits_in states c
  any-waits_in [] c = refl
  any-waits_in (state ∷ states) c = ground (arith, any-waits_in states c)

  -- The date that a poll compares with, and what the comparison says.
  cutoff-is_idle :
      (idle : Number) (s : Service) (clock : ℕ) (time : String)
      → s.idle_seconds ≡ idle
      → iso_before clock idle ≡ some time
      → (before : Option String) × ((cutoff host s clock ≡ some before)
          × ((c : Conversation)
              → (elim before [ none ↦ true | some t ↦ not (text_lt t c.updated_at) ])
                ≡ is_idle text_lt idle time c))
  unfolding cutoff
  cutoff-is_idle (nat zero) s clock time e h = (none, (rw (e, cutoff) refl, λ c. refl))
  cutoff-is_idle (nat (suc n)) s clock time e h =
      (some time, (rw (e, h, cutoff) (ground arith), λ c. refl))
  cutoff-is_idle (neg n) s clock time e h = (none, (rw (e, cutoff) refl, λ c. refl))
  cutoff-is_idle (fraction n) s clock time e h = (some time, (rw (e, h, cutoff) refl, λ c. refl))
  cutoff-is_idle negative_fraction s clock time e h = (none, (rw (e, cutoff) refl, λ c. refl))
  cutoff-is_idle nan s clock time e h = (none, (rw (e, cutoff) refl, λ c. refl))
  cutoff-is_idle infinity s clock time e h = (some time, (rw (e, h, cutoff) refl, λ c. refl))
  cutoff-is_idle minus_infinity s clock time e h = (none, (rw (e, cutoff) refl, λ c. refl))

  is_actionable-is_due :
      (states : List String) (before : Option String) (idle : Number) (time : String)
      (c : Conversation)
      → (elim before [ none ↦ true | some t ↦ not (text_lt t c.updated_at) ])
        ≡ is_idle text_lt idle time c
      → is_actionable text_lt states before c ≡ is_due text_lt states idle time c
  is_actionable-is_due states before idle time c same =
      rw (any-waits_in states c, same)
        (elim (Bool-cases (waits_in states c)) [
          | inl met ↦ rw met refl
          | inr unmet ↦ rw unmet refl
        ])

  selected-IsPoll :
      (is_found : Conversation → Bool) (n : ℕ) (db : Database)
      → ((a b : String) → text_lt a b ≡ true → text_lt b a ≡ false)
      → IsPoll text_lt is_found n db
          (take n (order_by (conversation_before text_lt) (keep is_found db.conversations)))
  selected-IsPoll is_found n db asym =
      let found = keep is_found db.conversations in
      let sorted = order_by (conversation_before text_lt) found in
      let whole = take-append-drop n sorted in
      record {
        rest = drop n sorted;
        few = length-take-le n sorted;
        full = length-take-or n sorted;
        ordered = rw whole (
            order_by-IsOrdered (conversation_before text_lt) found
              (λ a b. asym a.updated_at b.updated_at));
        due =
            All-take (λ c. is_found c ≡ true) n sorted
              (All-order_by (λ c. is_found c ≡ true) (conversation_before text_lt) found
                (keep-All is_found db.conversations));
        complete = λ q.
            ap (λ l. length (keep q l)) whole
            ∙ count-order_by q (conversation_before text_lt) found
            ∙ count-keep is_found q db.conversations;
      }

  poll-finished :
      (s : Service) (db : Database) (clock n : ℕ) (state : String) (states : List String)
      (before : Option String)
      → s.in_state ≡ state ∷ states
      → s.limit ≡ nat n
      → cutoff host s clock ≡ some before
      → poll host s db clock ≡ (
          let rows = take n (
            order_by
              (conversation_before text_lt)
              (keep (is_actionable text_lt (state ∷ states) before) db.conversations)) in
          finished (
            succeed
              (length rows)
              (polled (map (described_conversation host) rows) (length rows))
              s
              db))
  unfolding poll_states answer_poll select_actionable limited
  poll-finished s db clock n state states before given limit time =
      let found =
        ap (λ l. select_actionable text_lt l before s.limit db) given
        ∙ ap (λ m. select_actionable text_lt (state ∷ states) before m db) limit in
      ap (λ l. poll_states host l s db clock) given
      ∙ rw (time, poll_states) (ap (answer_poll host s db) found)

  -- What a poll answers, by the rows that are due.
  poll-due :
      (s : Service) (db : Database) (clock n : ℕ) (state : String) (states : List String)
      (time : String)
      → s.in_state ≡ state ∷ states
      → s.limit ≡ nat n
      → iso_before clock s.idle_seconds ≡ some time
      → poll host s db clock ≡ (
          let rows = take n (
            order_by
              (conversation_before text_lt)
              (keep (is_due text_lt (state ∷ states) s.idle_seconds time) db.conversations)) in
          finished (
            succeed
              (length rows)
              (polled (map (described_conversation host) rows) (length rows))
              s
              db))
  poll-due s db clock n state states time given limit in_range =
      let (before, (date, idle)) = cutoff-is_idle s.idle_seconds s clock time refl in_range in
      let same =
        keep-agree (is_actionable text_lt (state ∷ states) before)
          (is_due text_lt (state ∷ states) s.idle_seconds time) db.conversations
          (λ c. is_actionable-is_due (state ∷ states) before s.idle_seconds time c (idle c)) in
      poll-finished s db clock n state states before given limit date
      ∙ ap
          (λ l.
            let rows = take n (order_by (conversation_before text_lt) l) in
            finished (
              succeed (length rows) (polled (map (described_conversation host) rows) (length rows))
                s db))
          same

  -- A poll with states to look for and a whole limit, at a time from which idleSeconds can be counted
  -- back, answers with the first of the conversations that are due, in the order of their last change: as
  -- many as the limit, or all of them, each as often as the table has it. Due are those that wait in one
  -- of the states and, where idleSeconds is above zero, did not change after the time that long ago. The
  -- poll changes no table. The order of texts never holds both ways.
  pub pass_on-IsPoll :
      (s : Service) (db : Database) (input : Json) (clock n : ℕ) (drawn state : String)
      (states : List String) (time : String)
      → s.mode ≡ actionable
      → s.in_state ≡ state ∷ states
      → s.limit ≡ nat n
      → iso_before clock s.idle_seconds ≡ some time
      → ((a b : String) → text_lt a b ≡ true → text_lt b a ≡ false)
      → (rows : List Conversation) × (IsPoll text_lt
            (is_due text_lt (state ∷ states) s.idle_seconds time)
            n
            db
            rows
          × ((returned (pass_on host s db input clock drawn).notice
                ≡ some (polled (map (described_conversation host) rows) (length rows)))
              × ((pass_on host s db input clock drawn).database ≡ db)))
  unfolding pass_on run_mode succeed caught
  pass_on-IsPoll s db input clock n drawn state states time mode given limit in_range asym =
      let due = is_due text_lt (state ∷ states) s.idle_seconds time in
      let rows = take n (order_by (conversation_before text_lt) (keep due db.conversations)) in
      let ran : run_mode host s.mode s db input clock drawn
          ≡ finished (
              succeed (length rows) (polled (map (described_conversation host) rows) (length rows))
                s db) =
        ap (λ m. run_mode host m s db input clock drawn) mode
        ∙ poll-due s db clock n state states time given limit in_range in
      (
        rows,
        (
          selected-IsPoll due n db asym,
          (
            ap (λ o. returned (caught host s o).notice) ran,
            ap (λ o. (caught host s o).database) ran,
          ),
        ),
      )
