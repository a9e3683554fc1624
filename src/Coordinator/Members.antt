-- ===== src/Coordinator/Members.antt =====
-- coordinator/members.ts: the members of a shared board, and what a person may act on. `trim`,
-- `toLowerCase`, the length of a text and the regular expression are the host's.
pub mod Lookup
use hkp_node.Shared.{
  ℕ, String, Bool, true, false, not, ◌&&◌, List, [], ◌∷◌, Option, none, some, leb, if◌then◌else◌,
  string_eq, ◌==◌, truthy, is_some,
}
use hkp_node.Shared.OrderedMap.{OrderedMap, set, values}
use hkp_node.Shared.Json.{Json, property?, elements}
use hkp_node.Shared.Json
use hkp_node.Server.Auth.{normalize_email}
use hkp_node.Runtime.Context.{Role, owner, member, Caller}

-- `BoardMember`
pub record BoardMember : Type 0 where
  pub email : String
  pub name : String

abbrev pub max_email_length : ℕ
max_email_length = 254

abbrev pub max_name_length : ℕ
max_name_length = 80

-- What the code uses of JavaScript on texts.
pub record Texts : Type 0 where
  pub trim : String → String
  pub to_lower_case : String → String
  pub utf16_length : String → ℕ
  pub looks_like_address : String → Bool

module _ (texts : Texts) where
  open texts use {trim, to_lower_case, utf16_length, looks_like_address}

  -- The checks of `readMember` on an address and a label.
  unfoldable pub member_of : String → String → Option BoardMember
  member_of address label =
      if truthy address
        && leb (utf16_length address) max_email_length
        && looks_like_address address
        && truthy label
        && leb (utf16_length label) max_name_length
      then some (record { email = address; name = label })
      else none

  unfoldable pub member_of_fields : Option Json → Option Json → Option BoardMember
  unfolding member_of
  member_of_fields (some (Json.str email)) (some (Json.str name)) =
      member_of (normalize_email trim to_lower_case email) (trim name)
  member_of_fields _ _ = none

  -- `readMember`
  unfoldable pub read_member : Json → Option BoardMember
  unfolding member_of_fields property?
  read_member value = member_of_fields (property? "email" value) (property? "name" value)

  abbrev pub put :
      Option BoardMember → OrderedMap String BoardMember → OrderedMap String BoardMember
  put none by_email = by_email
  put (some entry) by_email = set entry.email entry by_email

  -- The loop of `readMembers`.
  unfoldable pub read_entries :
      List Json → OrderedMap String BoardMember → OrderedMap String BoardMember
  unfolding read_member
  read_entries [] by_email = by_email
  read_entries (entry ∷ entries) by_email = read_entries entries (put (read_member entry) by_email)

  -- `readMembers`
  unfoldable pub read_members : Json → List BoardMember
  unfolding read_entries elements
  read_members (Json.arr items) = values (read_entries (elements items) [])
  read_members Json.null = []
  read_members Json.undefined = []
  read_members (Json.flag b) = []
  read_members (Json.number n) = []
  read_members (Json.str s) = []
  read_members (Json.bytes b) = []
  read_members (Json.obj fields) = []

  -- `members.find((member) => member.email === address)`
  unfoldable pub find_by : String → List BoardMember → Option BoardMember
  find_by address [] = none
  find_by address (entry ∷ members) =
      let rest = find_by address members in if entry.email == address then some entry else rest

  -- `findMember`
  unfoldable pub find_member : List BoardMember → Option String → Option BoardMember
  unfolding find_by
  find_member members none = none
  find_member members (some email) =
      if truthy email then find_by (normalize_email trim to_lower_case email) members else none

  abbrev pub claims_owner : Option Role → Bool
  claims_owner (some owner) = true
  claims_owner (some member) = false
  claims_owner none = false

  -- `mayActOn`
  unfoldable pub may_act_on : String → List BoardMember → Caller → Bool
  unfolding find_member
  may_act_on board_owner members caller =
      if caller.sub == board_owner
      then true
      else not (claims_owner caller.role) && is_some (find_member members caller.email)
