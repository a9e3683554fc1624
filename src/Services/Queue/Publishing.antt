-- ===== src/Services/Queue/Publishing.antt =====
-- Publishing and closing messages, services/queue-store.ts.
use mathlib.Core.Option
use hkp_node.Shared.{
  ℕ, ◌≤◌, ◌<◌, ◌≡◌, refl, ap, ◌↔◌, String, true, [], ◌∷◌, ◌++◌, Option, none, some, arith, eq_iff,
  if◌then◌else◌, string_eq, nat_eq, ◌==◌, truthy, or_else, is_some,
}
use hkp_node.Services.Queue.Rows.{Message, Table, find, insert_new, update_where, is_claimable}
use hkp_node.Services.Queue.{
  Host, Outcome, acknowledged, handed_back, close, closed_status, closed_error, publish, new_row,
  default_max_attempts,
}
use hkp_node.Services.Queue.Versions.{has_id}

find-append :
    (id : String) (row : Message) (t : Table)
    → find id (t ++ row ∷ [])
      ≡ (if has_id id t then find id t else if row.id == id then some row else none)
unfolding find
find-append id row [] = refl
find-append id row (r ∷ t) = ground (arith, find-append id row t)

has_id-find : (id : String) (t : Table) → is_some (find id t) ≡ has_id id t
unfolding find
has_id-find id [] = refl
has_id-find id (r ∷ t) = ground (arith, has_id-find id t)

has_id-append :
    (id : String) (row : Message) (t : Table)
    → has_id id (t ++ row ∷ []) ≡ (if has_id id t then true else row.id == id)
has_id-append id row [] = ground arith
has_id-append id row (r ∷ t) = ground (arith, has_id-append id row t)

insert_new-insert_new :
    (row again : Message) (t : Table)
    → again.id ≡ row.id
    → insert_new again (insert_new row t) ≡ insert_new row t
unfolding insert_new
insert_new-insert_new row again t e =
    ground (
      arith,
      has_id-append again.id row t,
      eq_iff row.id again.id,
      ap (λ (i : String). has_id i t) e,
    )

module _ (host : Host) where
  open host use {Value}

  -- A message that its sender identifies lands once: delivered again, with whatever content and at
  -- whatever time, it changes nothing, and the publisher is answered with the message that landed.
  publish-publish :
      (topic again_topic : String) (payload again_payload : Value)
      (published_by again_by id drawn again_drawn : String) (now later : ℕ) (t : Table)
      → truthy id ≡ true
      → publish host again_topic again_payload again_by
          (some id)
          again_drawn
          later
          (publish host topic payload published_by (some id) drawn now t).0
        ≡ publish host topic payload published_by (some id) drawn now t
  unfolding publish new_row
  publish-publish topic again_topic payload again_payload published_by again_by id drawn again_drawn
        now later t full =
      let row = new_row host topic payload published_by (some id) drawn now in
      let again = new_row host again_topic again_payload again_by (some id) again_drawn later in
      let same : again.id ≡ row.id = ground (arith, full) in
      ground (arith, full, insert_new-insert_new row again t same)

-- A row that `close` has closed.
abbrev pub closed_row : Outcome → Option String → ℕ → ℕ → Message → Message
closed_row outcome error max_attempts now r = record r {
  status = closed_status outcome r.attempts max_attempts;
  available_at = now;
  claimed_at = none;
  updated_at = now;
  error = closed_error outcome error;
}

find-update_where :
    (id j : String) (f : Message → Message) (t : Table)
    → ((r : Message) → (f r).id ≡ r.id)
    → find j (update_where (λ r. r.id == id) f t)
      ≡ (if id == j then Option.map f (find j t) else find j t)
unfolding find update_where
find-update_where id j f [] h = ground arith
find-update_where id j f (r ∷ t) h =
    ground (arith, h r, eq_iff r.id id, eq_iff r.id j, eq_iff id j, find-update_where id j f t h)

-- Closing a message that is there answers its new status and attempts, leaves the row pending and
-- available at once, done or dead as the outcome and its attempts say, and touches no other message.
find-close :
    (id j : String) (outcome : Outcome) (error : Option String) (max_attempts : Option ℕ) (now : ℕ)
    (t : Table) (r : Message)
    → find id t ≡ some r
    → (find j (close id outcome error max_attempts now t).0 ≡ (
        if id == j
        then some (closed_row outcome error (or_else max_attempts default_max_attempts) now r)
        else find j t))
      × ((close id outcome error max_attempts now t).1
          ≡ some (record {
            id = id;
            status = closed_status outcome r.attempts (or_else max_attempts default_max_attempts);
            attempts = r.attempts;
          }))
unfolding close
find-close id j outcome error max_attempts now t r found =
    rw (found, close)
      (
        ground (
          arith,
          found,
          eq_iff id j,
          ap (λ (i : String). find i t),
          find-update_where id j
              (λ q. record q {
                status =
                    closed_status outcome r.attempts (or_else max_attempts default_max_attempts);
                available_at = now;
                claimed_at = none;
                updated_at = now;
                error = closed_error outcome error;
              })
              t (λ q. refl),
        ),
        refl,
      )

-- A message that was acknowledged, or whose attempts are used up, is not claimable at any time; one
-- that was handed back with attempts to spare is claimable at once.
closed_row-claimable :
    (outcome : Outcome) (error : Option String) (max_attempts now later : ℕ) (r : Message)
    → now ≤ later
    → (is_claimable r.topic later (closed_row outcome error max_attempts now r) ≡ true)
      ↔ ((outcome ≡ handed_back) × (r.attempts < max_attempts))
unfolding closed_status
closed_row-claimable acknowledged error max_attempts now later r h =
    ((λ e. ground arith), λ e. cc (e.0))
closed_row-claimable handed_back error max_attempts now later r h =
    ((λ e. (refl, ground arith)), λ e. ground (arith, eq_iff r.topic r.topic))
