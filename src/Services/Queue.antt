-- ===== src/Services/Queue.antt =====
-- services/queue-store.ts: a queue in one table. Each reading of the clock and each drawn id is an
-- argument; JSON, the printing of numbers and the order of ids come from the host.
pub mod Rows
pub mod Versions
pub mod Statements
pub mod Delivery
pub mod Visibility
pub mod Publishing
use Rows.{
  Status, pending, claimed, done, dead, Message, Table, is_open, find, insert_new, update_where,
  changes, order_by, newest_first, select_claimable,
}
use Prim.Native.String
use hkp_node.Shared.{
  ℕ, zero, suc, ◌+◌, ◌*◌, String, Bool, true, false, ◌&&◌, List, [], ◌∷◌, ◌++◌, Option, none, some,
  leb, ltb, keep, take, if◌then◌else◌, ◌==◌, string_eq, nat_eq, truthy, or_else, map, length,
}

abbrev pub default_limit : ℕ
default_limit = 10

abbrev pub default_visibility_seconds : ℕ
default_visibility_seconds = 300

abbrev pub default_max_attempts : ℕ
default_max_attempts = 5

-- What the code uses of JavaScript and SQLite.
pub record Host : Type 1 where
  pub Value : Type 0
  pub stringify : Value → String
  pub parse : String → Option Value
  pub decimal : ℕ → String
  pub id_lt : String → String → Bool

-- A payload as `parsed` leaves it: opened, or the text itself where it is no JSON.
pub data Payload (Value : Type 0) : Type 0 where
  opened : Value → Payload Value
  raw : String → Payload Value

-- What `describedMessage` returns.
pub record Described (Value : Type 0) : Type 0 where
  pub id : String
  pub topic : String
  pub payload : Payload Value
  pub status : Status
  pub published_by : String
  pub published_at : ℕ
  pub available_at : ℕ
  pub claimed_at : Option ℕ
  pub attempts : ℕ
  pub updated_at : ℕ
  pub error : String

-- A status as its column holds it.
abbrev pub status_text : Status → String
status_text pending = "pending"
status_text claimed = "claimed"
status_text done = "done"
status_text dead = "dead"

-- The fields of `consume`'s parameters that may be left out.
pub record Consume : Type 0 where
  pub topic : String
  pub limit : Option ℕ
  pub visibility_seconds : Option ℕ
  pub max_attempts : Option ℕ

pub data Outcome : Type 0 where
  acknowledged handed_back : Outcome

-- What `close` answers.
pub record Closed : Type 0 where
  pub id : String
  pub status : Status
  pub attempts : ℕ

-- `close`'s status for an outcome.
unfoldable pub closed_status : Outcome → ℕ → ℕ → Status
closed_status acknowledged attempts max_attempts = done
closed_status handed_back attempts max_attempts =
    if leb max_attempts attempts then dead else pending

abbrev pub closed_error : Outcome → Option String → String
closed_error acknowledged error = ""
closed_error handed_back error = or_else error ""

-- The `UPDATE` of `close`.
unfoldable pub set_closed : String → Status → String → ℕ → Table → Table
unfolding update_where
set_closed id status error now =
    update_where (λ r. r.id == id)
      (λ r. record r {
        status = status;
        available_at = now;
        claimed_at = none;
        updated_at = now;
        error = error;
      })

unfoldable pub close :
    String → Outcome → Option String → Option ℕ → ℕ → Table → Table × Option Closed
unfolding closed_status find set_closed
close id outcome error max_attempts now t = elim (find id t) [
  | none ↦ (t, none)
  | some row ↦
      let status = closed_status outcome row.attempts (or_else max_attempts default_max_attempts) in
      (
        set_closed id status (closed_error outcome error) now t,
        some (record { id = id; status = status; attempts = row.attempts }),
      )
]

-- The conditions that a claim states again, with `attempts` as the row's version.
abbrev pub may_claim : ℕ → Message → Message → Bool
may_claim now row r =
    r.id == row.id && r.attempts == row.attempts && is_open r.status && leb r.available_at now

-- The second `UPDATE` of `consume`: the table, and the number of rows changed.
unfoldable pub claim : ℕ → ℕ → Message → Table → Table × ℕ
unfolding update_where changes
claim now visibility row t = (
  update_where (may_claim now row)
      (λ r. record r {
        status = claimed;
        attempts = row.attempts + 1;
        claimed_at = some now;
        available_at = now + visibility * 1000;
        updated_at = now;
      })
      t,
  changes (may_claim now row) t,
)

module _ (host : Host) where
  open host use {Value, stringify, parse, decimal, id_lt}

  unfoldable pub parsed : String → Payload Value
  parsed text = elim (parse text) [ none ↦ raw text | some value ↦ opened value ]

  unfoldable pub described_message : Message → Described Value
  unfolding parsed
  described_message row = record {
    id = row.id;
    topic = row.topic;
    payload = parsed row.payload;
    status = row.status;
    published_by = row.published_by;
    published_at = row.published_at;
    available_at = row.available_at;
    claimed_at = row.claimed_at;
    attempts = row.attempts;
    updated_at = row.updated_at;
    error = row.error;
  }

  -- The row that `publish` offers; `drawn` is the `randomUUID` used where the caller names no id.
  unfoldable pub new_row : String → Value → String → Option String → String → ℕ → Message
  new_row topic payload published_by id drawn now = record {
    id = if truthy (or_else id "") then or_else id "" else drawn;
    topic = topic;
    payload = stringify payload;
    status = pending;
    published_by = published_by;
    published_at = now;
    available_at = now;
    claimed_at = none;
    attempts = 0;
    updated_at = now;
    error = "";
  }

  unfoldable pub publish :
      String
      → Value
      → String
      → Option String
      → String
      → ℕ
      → Table
      → Table × Option (Described Value)
  unfolding new_row insert_new find described_message
  publish topic payload published_by id drawn now t =
      let row = new_row topic payload published_by id drawn now in
      let t' = insert_new row t in
      (t', elim (find row.id t') [ none ↦ none | some stored ↦ some (described_message stored) ])

  -- The first `UPDATE` of `consume`: a message whose attempts are used up.
  unfoldable pub bury : ℕ → ℕ → Message → Table → Table
  unfolding update_where
  bury now max_attempts row =
      update_where (λ r. r.id == row.id && r.attempts == row.attempts)
        (λ r. record r {
          status = dead;
          updated_at = now;
          error =
              String.◌++◌ "not acknowledged after "
                (String.◌++◌ (decimal max_attempts) " attempts");
        })

  -- One round of the loop over the selected rows.
  unfoldable pub consume_row : ℕ → ℕ → ℕ → Message → Table → Table × List (Described Value)
  unfolding bury claim described_message
  consume_row now visibility max_attempts row t =
      if ltb max_attempts (row.attempts + 1) then (bury now max_attempts row t, []) else (
        (claim now visibility row t).0,
        if (claim now visibility row t).1 == 0
            then []
            else described_message (record row { status = claimed; attempts = row.attempts + 1 })
              ∷ [],
      )

  unfoldable pub consume_rows : ℕ → ℕ → ℕ → List Message → Table → Table × List (Described Value)
  unfolding consume_row
  consume_rows now visibility max_attempts [] t = (t, [])
  consume_rows now visibility max_attempts (row ∷ rows) t =
      let (t', here) = consume_row now visibility max_attempts row t in
      let (t'', later) = consume_rows now visibility max_attempts rows t' in (t'', here ++ later)

  unfoldable pub consume : Consume → ℕ → Table → Table × List (Described Value)
  unfolding consume_rows select_claimable
  consume params now t =
      consume_rows now (or_else params.visibility_seconds default_visibility_seconds)
        (or_else params.max_attempts default_max_attempts)
        (select_claimable id_lt params.topic now (or_else params.limit default_limit) t) t

  -- The `WHERE` that `list` builds from the conditions it is given.
  abbrev pub asked : String → String → Bool
  asked wanted found = if truthy wanted then found == wanted else true

  abbrev pub is_listed : Option String → Option String → Message → Bool
  is_listed topic status row =
      asked (or_else topic "") row.topic && asked (or_else status "") (status_text row.status)

  unfoldable pub list : Option String → Option String → Option ℕ → Table → List (Described Value)
  unfolding described_message order_by
  list topic status limit t = map described_message (
      take (or_else limit default_limit)
        (order_by (newest_first id_lt) (keep (is_listed topic status) t)))
