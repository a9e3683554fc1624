-- ===== src/Coordinator/MemberRate.antt =====
-- coordinator/session.ts, overMemberRate and the end of evictMember: how often a member may ask for
-- something to be processed.
pub mod Window
use hkp_node.Shared.{
  ℕ, ◌-◌, String, Bool, true, false, List, [], ◌∷◌, ◌++◌, leb, ltb, length, keep, or_else,
  if◌then◌else◌, string_eq,
}
use hkp_node.Shared.OrderedMap.{OrderedMap, get, set, delete}

abbrev pub window_ms : ℕ
window_ms = 60_000

-- `now - at < 60_000`; a time in the future counts, as it does where the difference is negative.
abbrev pub is_recent : ℕ → ℕ → Bool
is_recent now at = ltb (now - at) window_ms

-- `overMemberRate`, with the limit and the clock's reading.
unfoldable pub over_member_rate :
    ℕ → ℕ → String → OrderedMap String (List ℕ) → OrderedMap String (List ℕ) × Bool
over_member_rate limit now email times =
    let recent = keep (is_recent now) (or_else (get email times) []) in
    if leb limit (length recent)
    then (set email recent times, true)
    else (set email (recent ++ now ∷ []) times, false)

-- `evictMember`'s `memberProcessTimes.delete(email)`: what is counted of somebody who is taken off the
-- board goes.
unfoldable pub forget_times : String → OrderedMap String (List ℕ) → OrderedMap String (List ℕ)
forget_times email times = delete email times
