-- ===== src/Server/Auth.antt =====
-- auth.ts: identities, the email allowlist, and what a token is resolved to. Checking a token is
-- jsonwebtoken's, so `verify`, or `decode` up to the claims, is a parameter; so are `trim` and `toLowerCase` on texts.
pub mod Allowlist
use hkp_node.Shared.{
  String, ◌≡◌, Bool, true, false, ◌&&◌, List, [], ◌∷◌, Option, none, some, truthy, any, ◌==◌,
  string_eq, if◌then◌else◌, or_else,
}
use hkp_node.Shared.OrderedMap.{OrderedMap, get}

-- `AuthenticatedUser`
pub record AuthenticatedUser : Type 0 where
  pub sub : String
  pub email : Option String

-- `ANONYMOUS_SUB`
abbrev pub anonymous_sub : String
anonymous_sub = "anonymous"

-- `ownerKeyOf`
unfoldable pub owner_key_of : Option AuthenticatedUser → String
owner_key_of none = anonymous_sub
owner_key_of (some user) = user.sub

-- The value of a claim, as far as the code tells values apart.
pub data Claim : Type 0 where
  text : String → Claim
  flag : Bool → Claim
  other : Claim

-- A token's own claims; `ownClaim` is a lookup, so nothing inherited is among them.
abbrev pub Claims : Type 0
Claims = OrderedMap String Claim

unfoldable pub own_claim : Claims → String → Option Claim
own_claim claims name = get name claims

unfoldable pub is_true : Option Claim → Bool
is_true (some (flag b)) = b
is_true (some (text _)) = false
is_true (some other) = false
is_true none = false

-- `list.includes(email)`
abbrev pub includes : List String → String → Bool
includes list email = any (λ entry. entry == email) list

module _ (trim to_lower_case : String → String) where
  -- `normalizeEmail`
  unfoldable pub normalize_email : String → String
  normalize_email email = to_lower_case (trim email)

  unfoldable pub email_listed : List String → Option Claim → Bool → Bool
  unfolding normalize_email
  email_listed list (some (text email)) verified =
      if verified then includes list (normalize_email email) else false
  email_listed list (some (flag _)) verified = false
  email_listed list (some other) verified = false
  email_listed list none verified = false

  -- `isEmailAllowed`
  unfoldable pub is_email_allowed : Claims → Option (List String) → Bool
  unfolding own_claim is_true email_listed
  is_email_allowed claims none = true
  is_email_allowed claims (some list) =
      email_listed list (own_claim claims "email") (is_true (own_claim claims "email_verified"))

  -- The address that `identityFromClaims` keeps: the empty text where there is none.
  unfoldable pub verified_address : Option Claim → Bool → String
  unfolding normalize_email
  verified_address (some (text email)) verified = if verified then normalize_email email else ""
  verified_address (some (flag _)) verified = ""
  verified_address (some other) verified = ""
  verified_address none verified = ""

  unfoldable pub identity_of_sub : Option Claim → String → Option AuthenticatedUser
  identity_of_sub (some (text sub)) address =
      if truthy sub
      then some (record { sub = sub; email = if truthy address then some address else none })
      else none
  identity_of_sub (some (flag _)) address = none
  identity_of_sub (some other) address = none
  identity_of_sub none address = none

  -- `identityFromClaims`
  unfoldable pub identity_from_claims : Claims → Option AuthenticatedUser
  unfolding own_claim is_true verified_address identity_of_sub
  identity_from_claims claims =
      identity_of_sub (own_claim claims "sub")
        (verified_address (own_claim claims "email") (is_true (own_claim claims "email_verified")))

-- `mayOwn`
unfoldable pub may_own : AuthenticatedUser → Option (List String) → Bool
may_own user none = true
may_own user (some list) = elim user.email [
  | none ↦ false
  | some email ↦ truthy email && includes list email
]

-- The functions of `createAuthenticator` in its `jwt` mode: `verify` answers who a JWT speaks
-- for, `resolve_opaque` who a session token was minted for.
module _ (verify resolve_opaque : String → Option AuthenticatedUser) where
  unfoldable pub resolve_token : String → Option AuthenticatedUser
  resolve_token token = elim (resolve_opaque token) [ some user ↦ some user | none ↦ verify token ]

  -- `identifyToken`
  unfoldable pub identify_token : Option String → Option AuthenticatedUser
  unfolding resolve_token
  identify_token none = none
  identify_token (some token) = if truthy token then resolve_token token else none

  abbrev pub owner_or_none :
      Option (List String) → Option AuthenticatedUser → Option AuthenticatedUser
  owner_or_none allowed none = none
  owner_or_none allowed (some user) = if may_own user allowed then some user else none

  unfoldable pub authorize_token : Option (List String) → String → Option AuthenticatedUser
  unfolding may_own
  authorize_token allowed token = elim (resolve_opaque token) [
    | some user ↦ some user
    | none ↦ owner_or_none allowed (verify token)
  ]

  -- `authorizeOwner`
  unfoldable pub authorize_owner : Option (List String) → Option String → Option AuthenticatedUser
  unfolding authorize_token
  authorize_owner allowed none = none
  authorize_owner allowed (some token) =
      if truthy token then authorize_token allowed token else none

-- `AuthConfig`'s mode.
pub data AuthMode : Type 0 where
  no_auth jwt : AuthMode

-- The principal of the mode `none`.
abbrev pub anonymous_user : AuthenticatedUser
anonymous_user = record { sub = anonymous_sub; email = none }

-- What `createAuthenticator` answers in either mode.
module _ (verify resolve_opaque : String → Option AuthenticatedUser) where
  unfoldable pub identify_in : AuthMode → Option String → Option AuthenticatedUser
  identify_in no_auth token = some anonymous_user
  identify_in jwt token = identify_token verify resolve_opaque token

  unfoldable pub authorize_in :
      AuthMode → Option (List String) → Option String → Option AuthenticatedUser
  authorize_in no_auth allowed token = some anonymous_user
  authorize_in jwt allowed token = authorize_owner verify resolve_opaque allowed token

-- The end of `createJwtVerifier`: `decode` gives the claims of a token that is signed well and carries
-- an expiry that has not passed, and nothing of any other.
module _ (trim to_lower_case : String → String) (decode : String → Option Claims) where
  unfoldable pub verified : String → Option AuthenticatedUser
  unfolding identity_from_claims
  verified token = elim (decode token) [
    | none ↦ none
    | some claims ↦ identity_from_claims trim to_lower_case claims
  ]
