-- ===== src/Server/Mounts.antt =====
-- mounts.ts, MountRegistry: the claims of services to public addresses. The keyed hash, the public URL of
-- a path and the parsing of URLs are arguments; what a claim's handlers do is its service's.
pub mod Claims
use Prim.Native.String
use text.Mathlib.Text.{starts_with}
use hkp_node.Shared.{
  ℕ, ◌+◌, ◌≡◌, refl, String, Bool, true, false, not, ◌&&◌, List, [], ◌∷◌, ◌++◌, Option, none, some,
  if◌then◌else◌, string_eq, nat_eq, ◌==◌, truthy, or_else, keep, length,
}
use hkp_node.Shared.OrderedMap.{OrderedMap, get, set, delete, keys, values}

-- `MountRecord`; `number` tells one record from another, as `===` does.
pub record Claim : Type 0 where
  pub number : ℕ
  pub owner : String
  pub space : String
  pub runtime_id : String
  pub service_uuid : String

abbrev pub Mounts : Type 0
Mounts = OrderedMap String (List Claim)

abbrev pub mount_prefix : String
mount_prefix = "/hosted"

-- `this.mounts.get(mountId) ?? []`
unfoldable pub claims_at : String → Mounts → List Claim
claims_at id mounts = or_else (get id mounts) []

-- `at(-1)`
abbrev pub last? : List Claim → Option Claim
last? [] = none
last? (claim ∷ []) = some claim
last? (claim ∷ next ∷ claims) = last? (next ∷ claims)

abbrev pub is_deployed : Claim → Bool
is_deployed claim = not (claim.space == claim.owner)

abbrev pub or_last : Option Claim → List Claim → Option Claim
or_last none claims = last? claims
or_last (some claim) claims = some claim

-- The one that answers, of the claims to one address.
abbrev pub newest : List Claim → Option Claim
newest claims = or_last (last? (keep is_deployed claims)) claims

-- `answering`
unfoldable pub answering : String → Mounts → Option Claim
unfolding claims_at
answering id mounts = newest (claims_at id mounts)

abbrev pub is_empty : List Claim → Bool
is_empty [] = true
is_empty (claim ∷ claims) = false

abbrev pub stays : (Claim → Bool) → Claim → Bool
stays gone claim = not (gone claim)

-- `drop`
unfoldable pub drop_claims : String → (Claim → Bool) → Mounts → Mounts
drop_claims id gone mounts = elim (get id mounts) [
  | none ↦ mounts
  | some claims ↦
      let kept = keep (stays gone) claims in
      if is_empty kept
      then delete id mounts
      else if length kept == length claims
      then mounts
      else set id kept mounts
]

-- The loop of `releaseRuntime` and `releaseOwner`.
unfoldable pub drop_each : List String → (Claim → Bool) → Mounts → Mounts
unfolding drop_claims
drop_each [] gone mounts = mounts
drop_each (id ∷ ids) gone mounts = drop_each ids gone (drop_claims id gone mounts)

abbrev pub is_of_runtime : String → String → Claim → Bool
is_of_runtime space runtime_id claim = claim.space == space && claim.runtime_id == runtime_id

abbrev pub is_of_space : String → Claim → Bool
is_of_space space claim = claim.space == space

abbrev pub is_number : ℕ → Claim → Bool
is_number number claim = claim.number == number

-- `releaseRuntime`
unfoldable pub release_runtime : String → String → Mounts → Mounts
unfolding drop_each
release_runtime space runtime_id mounts =
    drop_each (keys mounts) (is_of_runtime space runtime_id) mounts

-- `releaseOwner`
unfoldable pub release_owner : String → Mounts → Mounts
unfolding drop_each
release_owner owner mounts = drop_each (keys mounts) (is_of_space owner) mounts

-- The `release` of a handle.
unfoldable pub release : String → ℕ → Mounts → Mounts
unfolding drop_claims
release id number mounts = drop_claims id (is_number number) mounts

-- `countForOwner`
unfoldable pub count_for_owner : String → Mounts → ℕ
count_for_owner owner [] = 0
count_for_owner owner ((_, claims) ∷ mounts) =
    length (keep (λ (claim : Claim). claim.owner == owner) claims) + count_for_owner owner mounts

-- What `register` says of a mount.
pub record Handle : Type 0 where
  pub url : String
  pub path : String
  pub id : String
  pub number : ℕ

pub record Naming : Type 0 where
  pub board_name : Option String
  pub mount_name : Option String
  pub space : Option String

-- A new claim comes after the others to its address.
unfoldable pub add_claim : String → Claim → Mounts → Mounts
unfolding claims_at
add_claim id claim mounts = set id (claims_at id mounts ++ claim ∷ []) mounts

module _ (derive : String → String) (public_url_for : String → Option String) where
  -- `deriveId`, up to the hash.
  unfoldable pub derive_id : String → String → String → String → String
  derive_id owner board_name runtime_id name = derive (
      String.◌++◌ owner (
        String.◌++◌ "\0" (
          String.◌++◌ board_name
            (String.◌++◌ "\0" (String.◌++◌ runtime_id (String.◌++◌ "\0" name))))))

  -- `register`; the number of the new record comes from outside, as its identity does.
  unfoldable pub register : String → String → String → Naming → ℕ → Mounts → Mounts × Option Handle
  unfolding derive_id add_claim
  register owner runtime_id service_uuid naming number mounts =
      let named = or_else naming.mount_name "" in
      let id =
        derive_id owner (or_else naming.board_name "") runtime_id
          (if truthy named then named else service_uuid) in
      let path = String.◌++◌ mount_prefix (String.◌++◌ "/" id) in
      let claim : Claim = record {
        number = number;
        owner = owner;
        space = or_else naming.space owner;
        runtime_id = runtime_id;
        service_uuid = service_uuid;
      } in
      elim (public_url_for path) [
        | none ↦ (mounts, none)
        | some url ↦
            if truthy url
            then (
              add_claim id claim mounts,
              some (record { url = url; path = path; id = id; number = number }),
            )
            else (mounts, none)
      ]

-- What stands before the first slash, and from it on.
unfoldable pub before_slash : String → String
before_slash String.[] = ""
before_slash (String.◌∷◌ c s) =
    let rest = before_slash s in if String.◌∷◌ c String.[] == "/" then "" else String.◌∷◌ c rest

unfoldable pub from_slash : String → String
from_slash String.[] = ""
from_slash (String.◌∷◌ c s) =
    let rest = from_slash s in if String.◌∷◌ c String.[] == "/" then String.◌∷◌ c s else rest

-- `resolve`, of the path and the query that a request's URL has: the claim and its part of the path.
unfoldable pub resolve : Option (String × String) → Mounts → Option (Claim × String × String)
unfolding answering before_slash from_slash
resolve none mounts = none
resolve (some (pathname, search)) mounts =
    let start = String.◌++◌ mount_prefix "/" in
    let remainder = String.slice pathname (String.len start) (String.len pathname) in
    let id = before_slash remainder in
    let rest = from_slash remainder in
    if starts_with pathname start
    then elim (answering id mounts) [
      | none ↦ none
      | some claim ↦
          some (claim, String.◌++◌ start id, String.◌++◌ (if truthy rest then rest else "/") search)
    ]
    else none
