-- ===== src/Tests/Server.antt =====
-- The theorems on wsTickets.ts, mounts.ts and auth.ts at concrete inputs.
use hkp_node.Server.Mounts.{Claim, answering}
use hkp_node.Server.Mounts.Claims.{
  Event, registered, released, runtime_released, run, answers_in, row_run, answering-run,
}
use hkp_node.Shared.{
  ℕ, ◌≤◌, ◌≡◌, refl, String, true, List, [], ◌∷◌, Option, none, some, string_eq, nat_eq,
}
use hkp_node.Shared.OrderedMap.{get}
use hkp_node.Server.Auth.{
  AuthenticatedUser, text, flag, Claims, is_email_allowed, identity_from_claims, may_own, jwt,
  verified, authorize_in, identify_in, authorize_owner,
}
use hkp_node.Server.Auth.Allowlist.{may_own-identity_from_claims, IsOwner, authorize_in-IsOwner}
use hkp_node.Server.WsTickets.{TicketHolder, Call, mints, redeems}
use hkp_node.Server.WsTickets.SingleUse.{total_minted, total_opened, total_opened-le-total_minted}

abbrev ann : AuthenticatedUser
ann = record { sub = "ann"; email = some "ann@x" }

abbrev holder : TicketHolder
holder = record { identity = some ann; owner = some ann }

abbrev twice : List Call
twice = mints holder "t" 0 0 ∷ redeems "t" 5 ∷ redeems "t" 6 ∷ []

total_opened-le-total_minted_example : total_opened "t" twice [] ≤ total_minted "t" twice
total_opened-le-total_minted_example = total_opened-le-total_minted "t" twice

abbrev claims : Claims
claims = ("sub", text "ann") ∷ ("email", text "ann@x") ∷ ("email_verified", flag true) ∷ []

abbrev same : String → String
same s = s

ann_identified : identity_from_claims same same claims ≡ some ann
unfolding identity_from_claims get
ann_identified = refl

may_own-identity_from_claims_example :
    may_own ann (some ("bob@x" ∷ [])) ≡ is_email_allowed same same claims (some ("bob@x" ∷ []))
may_own-identity_from_claims_example =
    may_own-identity_from_claims same same claims ann ("bob@x" ∷ []) ann_identified refl

abbrev decode : String → Option Claims
decode token = some claims

abbrev no_session : String → Option AuthenticatedUser
no_session token = none

ann_owns :
    authorize_in (verified same same decode) no_session jwt (some ("ann@x" ∷ [])) (some "jwt")
    ≡ some ann
unfolding authorize_in authorize_owner verified identity_from_claims get
ann_owns = refl

authorize_in-IsOwner_example :
    IsOwner same same decode no_session (some ("ann@x" ∷ [])) jwt (some "jwt") ann
    × (identify_in (verified same same decode) no_session jwt (some "jwt") ≡ some ann)
authorize_in-IsOwner_example =
    authorize_in-IsOwner same same decode no_session jwt (some ("ann@x" ∷ [])) (some "jwt") ann
      ann_owns

-- A client's claim and a deployed board's to one address, and one that goes with its runtime.
abbrev claim_of : ℕ → String → String → Claim
claim_of number space runtime_id = record {
  number = number;
  owner = "ann";
  space = space;
  runtime_id = runtime_id;
  service_uuid = "s";
}

abbrev mount_events : List Event
mount_events =
    registered "m" (claim_of 1 "ann" "r")
    ∷ registered "m" (claim_of 2 "ann/board" "r")
    ∷ registered "m" (claim_of 3 "ann" "q")
    ∷ registered "k" (claim_of 4 "ann" "q")
    ∷ runtime_released "ann" "q"
    ∷ released "k" 1
    ∷ []

answering-run_example :
    answering "m" (run mount_events []) ≡ answers_in "m" none (row_run mount_events [])
answering-run_example = answering-run mount_events "m"
