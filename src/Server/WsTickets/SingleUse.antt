-- ===== src/Server/WsTickets/SingleUse.antt =====
-- What the tickets of wsTickets.ts promise: one socket each, in time, and a bounded table.
use hkp_node.Shared.{
  ℕ, ◌+◌, ◌≤◌, ◌<◌, ◌≡◌, String, Bool, true, false, ◌&&◌, List, [], ◌∷◌, none, some, arith, eq_iff,
  length, string_eq, is_some, ◌==◌,
}
use hkp_node.Shared.OrderedMap.{has, get-set, has-set, has-delete, length-set, has-get}
use hkp_node.Server.WsTickets.{
  TicketHolder, Tickets, ticket_ttl_ms, max_outstanding, prune, evict, mint, redeem, Call, mints,
  redeems, step,
}

-- A ticket redeemed within its time answers its holder, however full the table was.
redeem-mint :
    (holder : TicketHolder) (ticket : String) (pruned_at now later : ℕ) (m : Tickets)
    → later ≤ now + ticket_ttl_ms
    → (redeem ticket later (mint holder ticket pruned_at now m)).1 ≡ some holder
unfolding mint redeem
redeem-mint holder ticket pruned_at now later m h = ground (
  arith,
  get-set ticket ticket (record { holder = holder; expires = now + ticket_ttl_ms })
      (evict (prune pruned_at m)),
  eq_iff ticket ticket,
)

-- Past its time it answers nobody.
redeem-mint_late :
    (holder : TicketHolder) (ticket : String) (pruned_at now later : ℕ) (m : Tickets)
    → now + ticket_ttl_ms < later
    → (redeem ticket later (mint holder ticket pruned_at now m)).1 ≡ none
unfolding mint redeem
redeem-mint_late holder ticket pruned_at now later m h = ground (
  arith,
  get-set ticket ticket (record { holder = holder; expires = now + ticket_ttl_ms })
      (evict (prune pruned_at m)),
  eq_iff ticket ticket,
)

length-evict_lt : (m : Tickets) → length (evict m) < max_outstanding
unfolding evict
length-evict_lt [] = omega arith
length-evict_lt (e ∷ m) = ground (arith, length-evict_lt m)

-- The table never holds more than `MAX_OUTSTANDING` tickets after a mint.
length-mint-le :
    (holder : TicketHolder) (ticket : String) (pruned_at now : ℕ) (m : Tickets)
    → length (mint holder ticket pruned_at now m) ≤ max_outstanding
unfolding mint
length-mint-le holder ticket pruned_at now m = ground (
  arith,
  length-evict_lt (prune pruned_at m),
  length-set ticket (record { holder = holder; expires = now + ticket_ttl_ms })
      (evict (prune pruned_at m)),
)

-- Counting: a ticket that is in the table, one that a call puts there, one that a call redeems.
abbrev pub one_if : Bool → ℕ
one_if true = 1
one_if false = 0

abbrev pub minted : String → Call → ℕ
minted t (mints holder ticket pruned_at now) = one_if (ticket == t)
minted t (redeems ticket now) = 0

abbrev pub opened : String → Call → Tickets → ℕ
opened t (mints holder ticket pruned_at now) m = 0
opened t (redeems ticket now) m = one_if ((ticket == t) && is_some (redeem ticket now m).1)

-- How often a history mints a ticket, and how many sockets it opens with it.
pub total_minted : String → List Call → ℕ
total_minted t [] = 0
total_minted t (c ∷ cs) = minted t c + total_minted t cs

pub total_opened : String → List Call → Tickets → ℕ
total_opened t [] m = 0
total_opened t (c ∷ cs) m = opened t c m + total_opened t cs (step c m)

has-prune : (t : String) (now : ℕ) (m : Tickets) → has t (prune now m) ≡ true → has t m ≡ true
unfolding has prune
has-prune t now [] h = h
has-prune t now ((ticket, held) ∷ m) h = ground (arith, has-prune t now m)

has-evict : (t : String) (m : Tickets) → has t (evict m) ≡ true → has t m ≡ true
unfolding has evict
has-evict t [] h = h
has-evict t ((ticket, held) ∷ m) h = ground (arith, has-evict t m)

has-mint :
    (t : String) (holder : TicketHolder) (ticket : String) (pruned_at now : ℕ) (m : Tickets)
    → one_if (has t (mint holder ticket pruned_at now m)) ≤ one_if (ticket == t) + one_if (has t m)
unfolding mint
has-mint t holder ticket pruned_at now m = ground (
  arith,
  has-set ticket t (record { holder = holder; expires = now + ticket_ttl_ms })
      (evict (prune pruned_at m)),
  has-evict t (prune pruned_at m),
  has-prune t pruned_at m,
)

opened-redeem :
    (t ticket : String) (now : ℕ) (m : Tickets)
    → opened t (redeems ticket now) m + one_if (has t (redeem ticket now m).0) ≤ one_if (has t m)
unfolding redeem
opened-redeem t ticket now m =
    ground (arith, has-get ticket m, has-delete ticket t m, eq_iff ticket t)

step-balance :
    (t : String) (c : Call) (m : Tickets)
    → opened t c m + one_if (has t (step c m)) ≤ minted t c + one_if (has t m)
unfolding step
step-balance t (mints holder ticket pruned_at now) m =
    omega (arith, has-mint t holder ticket pruned_at now m)
step-balance t (redeems ticket now) m = omega (arith, opened-redeem t ticket now m)

total_opened-balance :
    (t : String) (cs : List Call) (m : Tickets)
    → total_opened t cs m ≤ total_minted t cs + one_if (has t m)
unfolding total_opened total_minted
total_opened-balance t [] m = omega arith
total_opened-balance t (c ∷ cs) m =
    omega (arith, step-balance t c m, total_opened-balance t cs (step c m))

-- A ticket opens one socket: over every history of mints and redemptions that starts with an empty
-- table, no ticket opens more sockets than it was minted times.
pub total_opened-le-total_minted :
    (t : String) (cs : List Call) → total_opened t cs [] ≤ total_minted t cs
unfolding has
total_opened-le-total_minted t cs = omega (arith, total_opened-balance t cs [])
