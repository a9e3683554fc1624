-- ===== src/Coordinator/Participants.antt =====
-- coordinator/participants.ts, ParticipantRegistry: the tickets of runtime servers and the connections
-- that came in with them. The text of a ticket, the reading of the clock and the hash are arguments;
-- a socket is a number, and what is done to sockets and listeners is answered as a list of effects.
pub mod Connections
pub mod Forgetting
pub mod Histories
pub mod Operations
pub mod Requests
pub mod Revocation
pub mod Unticketed
use Prim.Native.String
use text.Mathlib.Text.{starts_with}
use hkp_node.Shared.{
  ℕ, String, Bool, true, false, not, ◌&&◌, List, [], ◌∷◌, ◌++◌, Option, none, some, if◌then◌else◌,
  string_eq, nat_eq, ◌==◌, truthy, is_some, keep, any,
}
use hkp_node.Shared.OrderedMap.{OrderedMap, get, has, set, delete, values}
use hkp_node.Shared.Json.{Json}

-- `TicketBinding`
pub record Binding : Type 0 where
  pub user_id : String
  pub board_name : String
  pub runtime_id : String

-- `TicketRecord`
pub record TicketRecord : Type 0 where
  pub binding : Binding
  pub hash : String
  pub issued_at : ℕ

-- `StoredTicket`
pub record StoredTicket : Type 0 where
  pub runtime_id : String
  pub hash : String
  pub issued_at : ℕ

-- A `SocketParticipant`, without what it waits for: `server`, `registry` and `runtime_exists` are the
-- fields of its hello.
pub record Connection : Type 0 where
  pub socket : ℕ
  pub runtime_id : String
  pub server : Option String
  pub registry : List Json
  pub runtime_exists : Bool

-- The maps of `ParticipantRegistry`.
pub record Registry : Type 0 where
  pub tickets_by_hash : OrderedMap String TicketRecord
  pub hash_by_runtime : OrderedMap String String
  pub pending_by_runtime : OrderedMap String String
  pub connections : OrderedMap String Connection
  pub waiting : OrderedMap String Connection

pub data Effect : Type 0 where
  closed : ℕ → ℕ → Effect
  joined : Binding → Connection → Effect
  left tickets_changed : Binding → Effect
  welcomed : ℕ → Binding → Effect

abbrev pub ticket_prefix : String
ticket_prefix = "hkpt_"

abbrev pub close_ticket_revoked : ℕ
close_ticket_revoked = 4403

abbrev pub close_replaced : ℕ
close_replaced = 4409

abbrev pub empty : Registry
empty = record {
  tickets_by_hash = [];
  hash_by_runtime = [];
  pending_by_runtime = [];
  connections = [];
  waiting = [];
}

unfoldable pub board_key : String → String → String
board_key user_id board_name = String.◌++◌ user_id (String.◌++◌ "\0" board_name)

unfoldable pub runtime_key : Binding → String
unfolding board_key
runtime_key binding =
    String.◌++◌ (board_key binding.user_id binding.board_name) (String.◌++◌ "\0" binding.runtime_id)

-- A hash that a test of its truth lets through.
unfoldable pub present : Option String → Option String
present none = none
present (some hash) = if truthy hash then some hash else none

-- `map.get(key) === hash`
unfoldable pub holds : String → String → OrderedMap String String → Bool
holds key hash hashes = elim (get key hashes) [ none ↦ false | some other ↦ other == hash ]

abbrev pub close_of : ℕ → Option Connection → List Effect
close_of code none = []
close_of code (some connection) = closed connection.socket code ∷ []

-- `dropPending`
unfoldable pub drop_pending : String → Registry → Registry × List Effect
unfolding present
drop_pending key s = elim (present (get key s.pending_by_runtime)) [
  | none ↦ (s, [])
  | some pending ↦ (
    record s {
      tickets_by_hash = delete pending s.tickets_by_hash;
      pending_by_runtime = delete key s.pending_by_runtime;
      waiting = delete key s.waiting;
    },
    close_of close_ticket_revoked (get key s.waiting),
  )
]
