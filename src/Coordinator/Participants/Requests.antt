-- ===== src/Coordinator/Participants/Requests.antt =====
-- coordinator/participants.ts, SocketParticipant: the requests that wait for a runtime server's answer,
-- and what else it says. Request ids and the ids of runs are drawn, so they are arguments; the timer of
-- a request is an event, which comes to nothing once the request was settled and the timer cleared.
pub mod Settling
use hkp_node.Shared.{
  String, Bool, true, false, List, [], ◌∷◌, ◌++◌, Option, none, some, if◌then◌else◌, string_eq,
  truthy,
}
use hkp_node.Shared.OrderedMap.{OrderedMap, get, has, set, delete}
use hkp_node.Shared.Json.{Json}
use hkp_node.Runtime.Context.{Context, context_from_link}
use Prim.Native.String

-- How the promise of a request ends.
pub data Outcome : Type 0 where
  resolved : Json → Outcome
  rejected : String → Outcome

-- What the listener is told.
pub data Heard : Type 0 where
  heard_result : Json → Option Context → Heard
  heard_notification : String → Json → Option Context → Heard
  heard_log : Json → Heard

pub data Effect : Type 0 where
  sent : String → String → Effect
  settled : String → Outcome → Effect
  told : Heard → Effect

-- What a runtime server says, as far as its type is read.
pub data Message : Type 0 where
  response : String → Bool → Json → String → Message
  result : Json → Json → Message
  notification : String → Json → Json → Message
  log_entry : Json → Message
  unread : Message

-- `is_open` is the socket's state; `pending` has the operation of each request that waits.
pub record Link : Type 0 where
  pub is_open : Bool
  pub has_listener : Bool
  pub pending : OrderedMap String String

-- `request`
unfoldable pub request : String → String → Link → Link × List Effect
request id op s =
    if s.is_open
    then (record s { pending = set id op s.pending }, sent id op ∷ [])
    else (s, settled id (rejected "its runtime server is not connected") ∷ [])

-- The timer of `request`.
unfoldable pub expire : String → Link → Link × List Effect
expire id s = elim (get id s.pending) [
  | none ↦ (s, [])
  | some op ↦ (
    record s { pending = delete id s.pending },
    settled id (rejected (String.◌++◌ "its runtime server did not answer \"" (String.◌++◌ op "\"")))
        ∷ [],
  )
]

-- `this.listener?.(…)`
unfoldable pub tell : Heard → Link → Link × List Effect
tell heard s = (s, if s.has_listener then told heard ∷ [] else [])

-- `receive`; `drawn` is the id of a run that the message does not name.
unfoldable pub receive : String → Message → Link → Link × List Effect
unfolding tell
receive drawn (response id ok answer error) s =
    if has id s.pending
    then (
      record s { pending = delete id s.pending },
      settled id (
            if ok
            then resolved answer
            else rejected (if truthy error then error else "the request failed"))
          ∷ [],
    )
    else (s, [])
receive drawn (result answer context) s =
    tell (heard_result answer (context_from_link drawn context)) s
receive drawn (notification uuid payload context) s =
    tell (heard_notification uuid payload (context_from_link drawn context)) s
receive drawn (log_entry entry) s = tell (heard_log entry) s
receive drawn unread s = (s, [])

-- The loop of `abandon` over the requests that wait.
unfoldable pub reject_all : OrderedMap String String → List Effect
reject_all [] = []
reject_all ((id, op) ∷ pending) =
    settled id (rejected "its runtime server disconnected") ∷ reject_all pending

-- `abandon`, which the close of the socket calls.
unfoldable pub abandon : Link → Link × List Effect
unfolding reject_all
abandon s = (record s { is_open = false; pending = [] }, reject_all s.pending)
