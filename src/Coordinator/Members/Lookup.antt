-- ===== src/Coordinator/Members/Lookup.antt =====
-- Whom a list of members admits.
use hkp_node.Shared.{
  ◌≡◌, refl, ap, ◌∙◌, String, true, not, ◌&&◌, List, [], ◌∷◌, Option, none, some, if◌then◌else◌,
  string_eq, ◌==◌, truthy, is_some, arith, All,
}
use hkp_node.Shared.OrderedMap.{OrderedMap, get, values, get-set, All-set}
use hkp_node.Shared.Json.{Json, Items, elements}
use hkp_node.Server.Auth.{normalize_email}
use hkp_node.Runtime.Context.{Caller}
use hkp_node.Coordinator.Members.{
  BoardMember, Texts, read_member, put, read_entries, read_members, find_by, find_member,
  claims_owner, may_act_on,
}

module _ (texts : Texts) where
  open texts use {trim, to_lower_case}

  abbrev IsKeyed : String × BoardMember → Type 0
  IsKeyed entry = entry.1.email ≡ entry.0

  find_by-values :
      (address : String) (by_email : OrderedMap String BoardMember)
      → All IsKeyed by_email
      → find_by texts address (values by_email) ≡ get address by_email
  unfolding find_by get
  find_by-values address [] keyed = refl
  find_by-values address ((email, entry) ∷ by_email) keyed =
      ground (arith, keyed.0, find_by-values address by_email keyed.1)

  put-IsKeyed :
      (entry : Option BoardMember) (by_email : OrderedMap String BoardMember)
      → All IsKeyed by_email
      → All IsKeyed (put texts entry by_email)
  put-IsKeyed none by_email keyed = keyed
  put-IsKeyed (some entry) by_email keyed = All-set IsKeyed entry.email entry by_email refl keyed

  read_entries-IsKeyed :
      (entries : List Json) (by_email : OrderedMap String BoardMember)
      → All IsKeyed by_email
      → All IsKeyed (read_entries texts entries by_email)
  unfolding read_entries
  read_entries-IsKeyed [] by_email keyed = keyed
  read_entries-IsKeyed (entry ∷ entries) by_email keyed =
      read_entries-IsKeyed entries (put texts (read_member texts entry) by_email)
        (put-IsKeyed (read_member texts entry) by_email keyed)

  -- The last entry for an address that is well formed, over one found before.
  abbrev pub newer : String → Option BoardMember → Option BoardMember → Option BoardMember
  newer address none found = found
  newer address (some entry) found = if entry.email == address then some entry else found

  abbrev pub last_entry : String → List Json → Option BoardMember → Option BoardMember
  last_entry address [] found = found
  last_entry address (entry ∷ entries) found =
      last_entry address entries (newer address (read_member texts entry) found)

  get-put :
      (address : String) (entry : Option BoardMember) (by_email : OrderedMap String BoardMember)
      → get address (put texts entry by_email) ≡ newer address entry (get address by_email)
  get-put address none by_email = refl
  get-put address (some entry) by_email = get-set entry.email address entry by_email

  get-read_entries :
      (address : String) (entries : List Json) (by_email : OrderedMap String BoardMember)
      → get address (read_entries texts entries by_email)
        ≡ last_entry address entries (get address by_email)
  unfolding read_entries
  get-read_entries address [] by_email = refl
  get-read_entries address (entry ∷ entries) by_email =
      get-read_entries address entries (put texts (read_member texts entry) by_email)
      ∙ ap (last_entry address entries) (get-put address (read_member texts entry) by_email)

  -- A stored list admits by the last well-formed entry for an address: a lookup of an email that is not
  -- empty finds the entry that stands last for the normalised email, and none where there is none.
  find_member-read_members :
      (items : Items) (email : String)
      → truthy email ≡ true
      → find_member texts (read_members texts (Json.arr items)) (some email)
        ≡ last_entry (normalize_email trim to_lower_case email) (elements items) none
  unfolding find_member read_members get
  find_member-read_members items email full =
      let address = normalize_email trim to_lower_case email in
      let by_email = read_entries texts (elements items) [] in
      rw (full, find_member)
        (find_by-values address by_email (read_entries-IsKeyed (elements items) [] tt)
          ∙ get-read_entries address (elements items) [])

  -- Of people with an email that is not empty, those may act on a board who are its owner, or who do
  -- not claim to be an owner and for whose normalised email the stored list has a well-formed entry.
  may_act_on-read_members :
      (board_owner : String) (items : Items) (caller : Caller) (email : String)
      → caller.email ≡ some email
      → truthy email ≡ true
      → may_act_on texts board_owner (read_members texts (Json.arr items)) caller ≡ (
          if caller.sub == board_owner
          then true
          else not (claims_owner texts caller.role)
            && is_some
                (last_entry (normalize_email trim to_lower_case email) (elements items) none))
  unfolding may_act_on
  may_act_on-read_members board_owner items caller email mail full =
      let found =
        ap (λ e. find_member texts (read_members texts (Json.arr items)) e) mail
        ∙ find_member-read_members items email full in
      rw (found, may_act_on) refl
