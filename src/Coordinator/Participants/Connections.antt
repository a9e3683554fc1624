-- ===== src/Coordinator/Participants/Connections.antt =====
-- coordinator/participants.ts, `accept` after its first lines: what the hello and the close of a socket
-- do, and who is connected. A socket remembers what its ticket stood for and the ticket's hash.
use hkp_node.Shared.{
  ℕ, String, Bool, false, not, List, [], ◌∷◌, ◌++◌, Option, none, some, if◌then◌else◌, string_eq,
  nat_eq, ◌==◌, is_some, map,
}
use hkp_node.Shared.OrderedMap.{OrderedMap, get, has, set, delete}
use hkp_node.Shared.Json.{Json, property?, elements}
use hkp_node.Coordinator.Participants.{
  Binding, StoredTicket, Connection, Registry, Effect, closed, joined, left, tickets_changed,
  welcomed, close_ticket_revoked, close_replaced, runtime_key, holds, close_of,
}
use hkp_node.Coordinator.Participants.Operations.{promote, export_tickets}

abbrev text? : Option Json → Option String
text? (some (Json.str s)) = some s
text? _ = none

abbrev list_of : Option Json → List Json
list_of (some (Json.arr items)) = elements items
list_of _ = []

abbrev is_true : Option Json → Bool
is_true (some (Json.flag b)) = b
is_true _ = false

-- The participant that a socket becomes by its hello.
unfoldable pub participant_of : ℕ → Binding → Json → Connection
participant_of socket binding message = record {
  socket = socket;
  runtime_id = binding.runtime_id;
  server = text? (property? "server" message);
  registry = list_of (property? "registry" message);
  runtime_exists = is_true (property? "runtimeExists" message);
}

-- A participant with a pending ticket takes over where its runtime has no server.
unfoldable pub arrive_pending : Binding → Registry → Registry × List Effect
unfolding promote runtime_key
arrive_pending binding s =
    if not (has (runtime_key binding) s.connections)
    then ((promote binding s).0, (promote binding s).1 ++ tickets_changed binding ∷ [])
    else (s, [])

-- The hello of a socket that is no participant yet.
unfoldable pub hello : ℕ → Binding → String → Json → Registry → Registry × List Effect
unfolding participant_of arrive_pending holds runtime_key
hello socket binding hash message s =
    let key = runtime_key binding in
    let participant = participant_of socket binding message in
    let waits : Registry = record s { waiting = set key participant s.waiting } in
    let arrived = arrive_pending binding waits in
    if holds key hash s.pending_by_runtime
    then (
      arrived.0,
      close_of close_replaced (get key s.waiting) ++ welcomed socket binding ∷ arrived.1,
    )
    else if not (holds key hash s.hash_by_runtime)
    then (s, closed socket close_ticket_revoked ∷ [])
    else (
      record s { connections = set key participant s.connections },
      close_of close_replaced (get key s.connections)
          ++ welcomed socket binding ∷ joined binding participant ∷ [],
    )

abbrev pub is_held : String → ℕ → OrderedMap String Connection → Bool
is_held key socket held = elim (get key held) [
  | none ↦ false
  | some connection ↦ connection.socket == socket
]

-- The close of a socket that has become a participant.
unfoldable pub close_participant : ℕ → Binding → Registry → Registry × List Effect
unfolding runtime_key
close_participant socket binding s =
    let key = runtime_key binding in
    if is_held key socket s.waiting
    then (record s { waiting = delete key s.waiting }, [])
    else if not (is_held key socket s.connections)
    then (s, [])
    else (record s { connections = delete key s.connections }, left binding ∷ [])

-- What `describe` says of a runtime.
pub record Description : Type 0 where
  pub runtime_id : String
  pub connected : Bool
  pub server : Option String
  pub issued_at : ℕ

abbrev server_of : Option Connection → Option String
server_of none = none
server_of (some connection) = connection.server

-- `forBoard(…).get`
unfoldable pub participant_for : String → String → String → Registry → Option Connection
unfolding runtime_key
participant_for user_id board_name runtime_id s =
    get
      (runtime_key (record { user_id = user_id; board_name = board_name; runtime_id = runtime_id }))
      s.connections

-- `describe`
unfoldable pub describe : String → String → Registry → List Description
unfolding export_tickets participant_for
describe user_id board_name s =
    map
      (λ (ticket : StoredTicket).
        let connection = participant_for user_id board_name ticket.runtime_id s in
        record {
          runtime_id = ticket.runtime_id;
          connected = is_some connection;
          server = server_of connection;
          issued_at = ticket.issued_at;
        })
      (export_tickets user_id board_name s)
