-- ===== src/Server/Auth/Allowlist.antt =====
-- What the identities and the email allowlist of auth.ts promise.
use hkp_node.Shared.{
  String, ◌≡◌, refl, ◌⊎◌, inl, inr, Bool, true, false, List, Option, none, some, arith, truthy,
  if◌then◌else◌, Option-cases, truthy-cases, string_eq, ap, sym, any, ◌==◌, subst, ◌∙◌,
}
use hkp_node.Server.Auth.{
  AuthenticatedUser, Claim, text, flag, other, Claims, own_claim, is_true, includes,
  normalize_email, email_listed, is_email_allowed, verified_address, identity_of_sub,
  identity_from_claims, may_own, identify_token, authorize_owner, identify_in, AuthMode, no_auth,
  jwt, verified, authorize_in,
}

module _ (trim to_lower_case : String → String) where
  sub_of_identity :
      (sub : Option Claim) (address : String) (u : AuthenticatedUser)
      → identity_of_sub trim to_lower_case sub address ≡ some u
      → (sub ≡ some (text u.sub))
        × (truthy u.sub ≡ true)
        × (u.email ≡ (if truthy address then some address else none))
  unfolding identity_of_sub
  sub_of_identity (some (text sub)) address u h = ground arith
  sub_of_identity (some (flag b)) address u h = cc
  sub_of_identity (some other) address u h = cc
  sub_of_identity none address u h = cc

  email_of_address :
      (email : Option Claim) (verified : Bool) (e : String)
      → truthy e ≡ true
      → verified_address trim to_lower_case email verified ≡ e
      → (verified ≡ true)
        × ((raw : String) × (email ≡ some (text raw))
            × (e ≡ normalize_email trim to_lower_case raw))
  unfolding verified_address
  email_of_address (some (text raw)) true e t h = (refl, (raw, refl, cc))
  email_of_address (some (text raw)) false e t h = cc (ap truthy h)
  email_of_address (some (flag b)) verified e t h = cc (ap truthy h)
  email_of_address (some other) verified e t h = cc (ap truthy h)
  email_of_address none verified e t h = cc (ap truthy h)

  address_of_email :
      (address e : String)
      → (if truthy address then some address else none) ≡ some e
      → (truthy e ≡ true) × (address ≡ e)
  address_of_email address e h = ground arith

  is_true_flag : (c : Option Claim) → is_true c ≡ true → c ≡ some (flag true)
  unfolding is_true
  is_true_flag (some (flag true)) h = refl
  is_true_flag (some (flag false)) h = cc
  is_true_flag (some (text s)) h = cc
  is_true_flag (some other) h = cc
  is_true_flag none h = cc

  -- An identity is the token's own non-empty `sub`, and it carries an email only where the token
  -- carries one and says that it is verified; that email is the token's, normalised.
  identity_from_claims-verified :
      (claims : Claims) (u : AuthenticatedUser) (e : String)
      → identity_from_claims trim to_lower_case claims ≡ some u
      → u.email ≡ some e
      → (own_claim claims "sub" ≡ some (text u.sub))
        × (truthy u.sub ≡ true)
        × (own_claim claims "email_verified" ≡ some (flag true))
        × ((raw : String) × (own_claim claims "email" ≡ some (text raw))
            × (e ≡ normalize_email trim to_lower_case raw))
  unfolding identity_from_claims
  identity_from_claims-verified claims u e h k =
      let address : String =
        verified_address trim to_lower_case (own_claim claims "email")
          (is_true (own_claim claims "email_verified")) in
      let (is_sub, nonempty, is_email) = sub_of_identity (own_claim claims "sub") address u h in
      let (full, same) = address_of_email address e (sym is_email ∙ k) in
      let (verified, found) =
        email_of_address (own_claim claims "email") (is_true (own_claim claims "email_verified")) e
          full same in
      (is_sub, nonempty, is_true_flag (own_claim claims "email_verified") verified, found)

  listed_of_address :
      (email : Option Claim) (verified : Bool) (list : List String) (user : AuthenticatedUser)
      → includes list "" ≡ false
      → user.email ≡ (
          if truthy (verified_address trim to_lower_case email verified)
          then some (verified_address trim to_lower_case email verified)
          else none)
      → may_own user (some list) ≡ email_listed trim to_lower_case list email verified
  unfolding verified_address email_listed may_own
  listed_of_address (some (text raw)) true list user z h =
      elim (truthy-cases (normalize_email trim to_lower_case raw)) [
        | inl full ↦ rw (h, may_own) (ground (arith, full))
        | inr (empty, is_nil) ↦ rw (h, may_own) (ground (arith, empty, is_nil, z))
      ]
  listed_of_address (some (text raw)) false list user z h = rw (h, may_own)
  listed_of_address (some (flag b)) verified list user z h = rw (h, may_own)
  listed_of_address (some other) verified list user z h = rw (h, may_own)
  listed_of_address none verified list user z h = rw (h, may_own)

  -- Asking the allowlist of an identity is asking it of the claims that it was read from, for every
  -- list without an empty entry.
  pub may_own-identity_from_claims :
      (claims : Claims) (u : AuthenticatedUser) (list : List String)
      → identity_from_claims trim to_lower_case claims ≡ some u
      → includes list "" ≡ false
      → may_own u (some list) ≡ is_email_allowed trim to_lower_case claims (some list)
  unfolding identity_from_claims is_email_allowed
  may_own-identity_from_claims claims u list h z =
      listed_of_address (own_claim claims "email") (is_true (own_claim claims "email_verified"))
        list u z
        (sub_of_identity (own_claim claims "sub")
          (verified_address trim to_lower_case (own_claim claims "email")
            (is_true (own_claim claims "email_verified")))
          u h).2

-- What stands behind a token with claims that owns: they name the person, and where there is a list they
-- say that an email is verified which the list has, normalised.
abbrev pub IsCleared :
    (String → String)
    → (String → String)
    → Option (List String)
    → Claims
    → AuthenticatedUser
    → Type 0
IsCleared trim to_lower_case none claims u = own_claim claims "sub" ≡ some (text u.sub)
IsCleared trim to_lower_case (some list) claims u =
    (own_claim claims "sub" ≡ some (text u.sub))
    × (own_claim claims "email_verified" ≡ some (flag true))
    × ((raw : String) × (own_claim claims "email" ≡ some (text raw))
        × (any (λ entry. entry == to_lower_case (trim raw)) list ≡ true))

-- Who may own: in the mode `none` the anonymous user, and otherwise whoever a session token was minted
-- for, or a person that the token's claims clear.
abbrev pub IsOwner :
    (String → String)
    → (String → String)
    → (String → Option Claims)
    → (String → Option AuthenticatedUser)
    → Option (List String)
    → AuthMode
    → Option String
    → AuthenticatedUser
    → Type 0
IsOwner trim to_lower_case decode resolve_opaque allowed no_auth token u = u.sub ≡ "anonymous"
IsOwner trim to_lower_case decode resolve_opaque allowed jwt token u =
    (t : String) × (token ≡ some t)
    × (truthy t ≡ true)
    × ((resolve_opaque t ≡ some u)
        ⊎ ((claims : Claims) × (decode t ≡ some claims)
            × IsCleared trim to_lower_case allowed claims u))

module _ (trim to_lower_case : String → String) (decode : String → Option Claims)
    (resolve_opaque : String → Option AuthenticatedUser) where
  may_own-email :
      (u : AuthenticatedUser) (list : List String)
      → may_own u (some list) ≡ true
      → (e : String) × (u.email ≡ some e) × (includes list e ≡ true)
  unfolding may_own
  may_own-email u list h = elim (Option-cases u.email) [
    | inl nothing ↦ absurd (ground (arith, h, nothing))
    | inr (e, there) ↦ (e, there, ground (arith, h, there))
  ]

  IsCleared-identity_of_sub :
      (allowed : Option (List String)) (claims : Claims) (u : AuthenticatedUser)
      → identity_from_claims trim to_lower_case claims ≡ some u
      → may_own u allowed ≡ true
      → IsCleared trim to_lower_case allowed claims u
  unfolding identity_from_claims normalize_email
  IsCleared-identity_of_sub none claims u h k =
      (sub_of_identity trim to_lower_case (own_claim claims "sub")
        (verified_address trim to_lower_case (own_claim claims "email")
          (is_true (own_claim claims "email_verified")))
        u h).0
  IsCleared-identity_of_sub (some list) claims u h k =
      let (e, there, listed) = may_own-email u list k in
      let (is_sub, full, is_verified, (raw, from, same)) =
        identity_from_claims-verified trim to_lower_case claims u e h there in
      (is_sub, is_verified, (raw, from, subst (λ x. includes list x ≡ true) same listed))

  authorize_owner-IsOwner :
      (allowed : Option (List String)) (token : Option String) (u : AuthenticatedUser)
      → authorize_owner (verified trim to_lower_case decode) resolve_opaque allowed token ≡ some u
      → IsOwner trim to_lower_case decode resolve_opaque allowed jwt token u
  unfolding authorize_owner verified
  authorize_owner-IsOwner allowed none u h = cc
  authorize_owner-IsOwner allowed (some t) u h = elim (Option-cases (resolve_opaque t)) [
    | inr (v, found) ↦ (t, refl, ground arith, inl (ground arith))
    | inl missing ↦ elim (Option-cases (decode t)) [
      | inl bad ↦ absurd (ground (arith, h, missing, bad))
      | inr (claims, good) ↦ elim (Option-cases (identity_from_claims trim to_lower_case claims)) [
        | inl nobody ↦ absurd (ground (arith, h, missing, good, nobody))
        | inr (v, somebody) ↦ (
          t,
          refl,
          ground arith,
          inr (
            claims,
            good,
            IsCleared-identity_of_sub allowed claims u (ground arith) (ground arith),
          ),
        )
      ]
    ]
  ]

  -- Whoever owns by a token is whom the same token identifies.
  identify_token-authorize_owner :
      (verify : String → Option AuthenticatedUser) (allowed : Option (List String))
      (token : Option String) (u : AuthenticatedUser)
      → authorize_owner verify resolve_opaque allowed token ≡ some u
      → identify_token verify resolve_opaque token ≡ some u
  unfolding authorize_owner identify_token
  identify_token-authorize_owner verify allowed none u h = cc
  identify_token-authorize_owner verify allowed (some t) u h =
      elim (Option-cases (resolve_opaque t)) [
        | inr (v, found) ↦ ground arith
        | inl missing ↦ elim (Option-cases (verify t)) [
          | inl bad ↦ absurd (ground (arith, h, missing, bad))
          | inr (v, good) ↦ ground arith
        ]
      ]

  -- Who may own: in the mode `none` only the anonymous user, whatever the token; in the mode `jwt` the
  -- token is there and not empty, and a session token was minted for the person as whom it owns, or the
  -- token's own claims name that person and, where there is an allowlist, carry an email that they say is
  -- verified and that the list has once it is normalised. In both modes the same token identifies the
  -- owner.
  pub authorize_in-IsOwner :
      (mode : AuthMode) (allowed : Option (List String)) (token : Option String)
      (u : AuthenticatedUser)
      → authorize_in (verified trim to_lower_case decode) resolve_opaque mode allowed token ≡ some u
      → IsOwner trim to_lower_case decode resolve_opaque allowed mode token u
        × (identify_in (verified trim to_lower_case decode) resolve_opaque mode token ≡ some u)
  unfolding authorize_in identify_in
  authorize_in-IsOwner no_auth allowed token u h = (ground (arith, h), h)
  authorize_in-IsOwner jwt allowed token u h = (
    authorize_owner-IsOwner allowed token u h,
    identify_token-authorize_owner (verified trim to_lower_case decode) allowed token u h,
  )
