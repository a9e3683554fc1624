-- ===== src/Server/WsTickets.antt =====
-- wsTickets.ts: single-use tickets that open a WebSocket. A minted ticket's text is drawn by
-- `randomBytes`, so it is an argument; so is each reading of the clock.
pub mod SingleUse
use hkp_node.Shared.{
  ℕ, ◌+◌, String, Bool, true, false, List, [], ◌∷◌, Option, none, some, leb, ltb, length,
  if◌then◌else◌, string_eq,
}
use hkp_node.Shared.OrderedMap.{OrderedMap, get, set, delete}
use hkp_node.Server.Auth.{AuthenticatedUser}

-- `TicketHolder`
pub record TicketHolder : Type 0 where
  pub identity : Option AuthenticatedUser
  pub owner : Option AuthenticatedUser

pub record Held : Type 0 where
  pub holder : TicketHolder
  pub expires : ℕ

abbrev pub ticket_ttl_ms : ℕ
ticket_ttl_ms = 30_000

abbrev pub max_outstanding : ℕ
max_outstanding = 10_000

abbrev pub Tickets : Type 0
Tickets = OrderedMap String Held

-- `prune`: the loop over the map that deletes what has expired.
unfoldable pub prune : ℕ → Tickets → Tickets
prune now [] = []
prune now ((ticket, held) ∷ m) =
    let rest = prune now m in if ltb held.expires now then rest else (ticket, held) ∷ rest

-- The `while` of `mint`: past the limit the oldest go first.
unfoldable pub evict : Tickets → Tickets
evict [] = []
evict (oldest ∷ m) =
    let rest = evict m in if leb max_outstanding (length (oldest ∷ m)) then rest else oldest ∷ m

-- `mint`: `pruned_at` and `now` are the clock's two readings, `ticket` what was drawn.
unfoldable pub mint : TicketHolder → String → ℕ → ℕ → Tickets → Tickets
unfolding prune evict
mint holder ticket pruned_at now m =
    set ticket (record { holder = holder; expires = now + ticket_ttl_ms })
      (evict (prune pruned_at m))

unfoldable pub answer : ℕ → Held → Option TicketHolder
answer now held = if ltb held.expires now then none else some held.holder

-- `redeem`: the table afterwards, and who the ticket was minted for.
unfoldable pub redeem : String → ℕ → Tickets → Tickets × Option TicketHolder
unfolding answer
redeem ticket now m = elim (get ticket m) [
  | none ↦ (m, none)
  | some held ↦ (delete ticket m, answer now held)
]

-- A history of calls, in the order in which the event loop runs them.
pub data Call : Type 0 where
  mints : TicketHolder → String → ℕ → ℕ → Call
  redeems : String → ℕ → Call

unfoldable pub step : Call → Tickets → Tickets
unfolding mint redeem
step (mints holder ticket pruned_at now) m = mint holder ticket pruned_at now m
step (redeems ticket now) m = (redeem ticket now m).0
