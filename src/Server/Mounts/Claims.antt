-- ===== src/Server/Mounts/Claims.antt =====
-- The registry of mounts keeps one row of claims, in the order in which they came.
use hkp_node.Shared.{
  ℕ, ◌≡◌, refl, sym, ap, ◌∙◌, inl, inr, String, Bool, true, false, ◌&&◌, List, [], ◌∷◌, ◌++◌,
  if◌then◌else◌, string_eq, nat_eq, ◌==◌, any, keep, length, not, Option, none, some, or_else,
  arith, eq_iff, Bool-cases, Option-cases, length-keep-le,
}
use hkp_node.Shared.OrderedMap.{get, set, keys, get-set, get-delete}
use hkp_node.Server.Mounts.{
  Claim, Mounts, claims_at, add_claim, answering, newest, last?, is_deployed, is_empty, stays,
  drop_claims, drop_each, is_of_runtime, is_of_space, is_number, release_runtime, release_owner,
  release,
}

-- What happens to the registry. A registration is told by the address that the mount gets and its
-- claim.
pub data Event : Type 0 where
  registered : String → Claim → Event
  released : String → ℕ → Event
  runtime_released : String → String → Event
  owner_released : String → Event

unfoldable pub step : Event → Mounts → Mounts
unfolding add_claim release release_runtime release_owner
step (registered id claim) mounts = add_claim id claim mounts
step (released id number) mounts = release id number mounts
step (runtime_released space runtime_id) mounts = release_runtime space runtime_id mounts
step (owner_released owner) mounts = release_owner owner mounts

unfoldable pub run : List Event → Mounts → Mounts
unfolding step
run [] mounts = mounts
run (event ∷ events) mounts = run events (step event mounts)

-- The specification: a row of claims with their addresses, in the order in which they came.
abbrev pub Row : Type 0
Row = List (String × Claim)

abbrev pub claims_in : String → Row → List Claim
claims_in id [] = []
claims_in id ((other, claim) ∷ row) =
    let rest = claims_in id row in if other == id then claim ∷ rest else rest

abbrev pub without : (String → Claim → Bool) → Row → Row
without gone [] = []
without gone ((id, claim) ∷ row) =
    let rest = without gone row in if gone id claim then rest else (id, claim) ∷ rest

abbrev pub row_step : Event → Row → Row
row_step (registered id claim) row = row ++ (id, claim) ∷ []
row_step (released id number) row =
    without (λ other claim. other == id && claim.number == number) row
row_step (runtime_released space runtime_id) row =
    without (λ other claim. claim.space == space && claim.runtime_id == runtime_id) row
row_step (owner_released owner) row = without (λ other claim. claim.space == owner) row

abbrev pub row_run : List Event → Row → Row
row_run [] row = row
row_run (event ∷ events) row = row_run events (row_step event row)

-- The claim that answers once another has come: the new one, unless a deployed board answers, whose space
-- is not its owner's own, and the new one is none of a deployed board.
abbrev pub next_to_answer : Option Claim → Claim → Claim
next_to_answer none claim = claim
next_to_answer (some current) claim =
    if claim.space == claim.owner && not (current.space == current.owner) then current else claim

-- What answers at an address, by the row from its start.
abbrev pub answers_in : String → Option Claim → Row → Option Claim
answers_in id current [] = current
answers_in id current ((other, claim) ∷ row) =
    answers_in id (if other == id then some (next_to_answer current claim) else current) row

last?-append : (claims : List Claim) (claim : Claim) → last? (claims ++ claim ∷ []) ≡ some claim
last?-append [] claim = refl
last?-append (c ∷ []) claim = refl
last?-append (c ∷ next ∷ claims) claim = last?-append (next ∷ claims) claim

keep-append_one :
    (p : Claim → Bool) (claims : List Claim) (claim : Claim)
    → keep p (claims ++ claim ∷ [])
      ≡ (if p claim then keep p claims ++ claim ∷ [] else keep p claims)
keep-append_one p [] claim = refl
keep-append_one p (c ∷ claims) claim = ground (arith, keep-append_one p claims claim)

last?-cons :
    (claim : Claim) (claims : List Claim)
    → last? (claim ∷ claims) ≡ some (or_else (last? claims) claim)
last?-cons claim [] = refl
last?-cons claim (next ∷ claims) = rw (last?-cons next claims) refl

last?-keep :
    (p : Claim → Bool) (claims : List Claim) (claim : Claim)
    → last? (keep p claims) ≡ some claim
    → p claim ≡ true
last?-keep p [] claim h = cc
last?-keep p (c ∷ claims) claim h = elim (Option-cases (last? (keep p claims))) [
  | inl nobody ↦ ground (arith, h, nobody, last?-cons c (keep p claims), last?-keep p claims claim)
  | inr (d, there) ↦
      ground (arith, h, there, last?-cons c (keep p claims), last?-keep p claims claim)
]

-- Where the filter keeps nothing, the last is none that it keeps.
last?-keep-none :
    (p : Claim → Bool) (claims : List Claim) (claim : Claim)
    → last? (keep p claims) ≡ none
    → last? claims ≡ some claim
    → p claim ≡ false
last?-keep-none p [] claim h k = cc
last?-keep-none p (c ∷ claims) claim h k = elim (Option-cases (last? claims)) [
  | inl nobody ↦ ground (
    arith,
    h,
    k,
    nobody,
    last?-cons c claims,
    last?-cons c (keep p claims),
    last?-keep-none p claims claim,
  )
  | inr (d, there) ↦ ground (
    arith,
    h,
    k,
    there,
    last?-cons c claims,
    last?-cons c (keep p claims),
    last?-keep-none p claims claim,
  )
]

newest-append :
    (claims : List Claim) (claim : Claim)
    → newest (claims ++ claim ∷ []) ≡ some (next_to_answer (newest claims) claim)
newest-append claims claim = elim (Option-cases (last? (keep is_deployed claims))) [
  | inl nobody ↦ elim (Option-cases (last? claims)) [
    | inl empty ↦ ground (
      arith,
      nobody,
      empty,
      last?-append claims claim,
      last?-append (keep is_deployed claims) claim,
      keep-append_one is_deployed claims claim,
    )
    | inr (c, ends) ↦ ground (
      arith,
      nobody,
      ends,
      last?-keep-none is_deployed claims c nobody ends,
      last?-append claims claim,
      last?-append (keep is_deployed claims) claim,
      keep-append_one is_deployed claims claim,
    )
  ]
  | inr (d, there) ↦ ground (
    arith,
    there,
    last?-keep is_deployed claims d there,
    last?-append claims claim,
    last?-append (keep is_deployed claims) claim,
    keep-append_one is_deployed claims claim,
  )
]

append_nil : (claims : List Claim) → claims ++ [] ≡ claims
append_nil [] = refl
append_nil (claim ∷ claims) = ap (◌∷◌ claim) (append_nil claims)

append_assoc :
    (xs : List Claim) (claim : Claim) (ys : List Claim)
    → (xs ++ claim ∷ []) ++ ys ≡ xs ++ claim ∷ ys
append_assoc [] claim ys = refl
append_assoc (x ∷ xs) claim ys = ap (◌∷◌ x) (append_assoc xs claim ys)

newest-claims_in :
    (id : String) (acc : List Claim) (row : Row)
    → newest (acc ++ claims_in id row) ≡ answers_in id (newest acc) row
newest-claims_in id acc [] = ap newest (append_nil acc)
newest-claims_in id acc ((other, claim) ∷ row) = elim (Bool-cases (other == id)) [
  | inl same ↦ rw same (
      ap newest (sym (append_assoc acc claim (claims_in id row)))
      ∙ newest-claims_in id (acc ++ claim ∷ []) row
      ∙ ap (λ o. answers_in id o row) (newest-append acc claim))
  | inr apart ↦ rw apart (newest-claims_in id acc row)
]

-- A filter that drops nothing leaves the list.
keep-length :
    (p : Claim → Bool) (claims : List Claim)
    → length (keep p claims) ≡ length claims
    → keep p claims ≡ claims
keep-length p [] h = refl
keep-length p (claim ∷ claims) h = ground (arith, h, length-keep-le p claims, keep-length p claims)

keep-keep : (p : Claim → Bool) (claims : List Claim) → keep p (keep p claims) ≡ keep p claims
keep-keep p [] = refl
keep-keep p (claim ∷ claims) = ground (arith, keep-keep p claims)

is_empty-nil : (claims : List Claim) → is_empty claims ≡ true → claims ≡ []
is_empty-nil [] h = refl
is_empty-nil (claim ∷ claims) h = absurd (cc)

claims_at-drop_claims :
    (id other : String) (gone : Claim → Bool) (mounts : Mounts)
    → claims_at id (drop_claims other gone mounts)
      ≡ (if other == id then keep (stays gone) (claims_at id mounts) else claims_at id mounts)
unfolding claims_at drop_claims
claims_at-drop_claims id other gone mounts = elim (Bool-cases (other == id)) [
  | inr apart ↦ elim (Option-cases (get other mounts)) [
    | inl nobody ↦ ground (arith, nobody, apart)
    | inr (claims, there) ↦ ground (
      arith,
      there,
      apart,
      get-delete other id mounts,
      get-set other id (keep (stays gone) claims) mounts,
    )
  ]
  | inl same ↦
      let key = ap (λ k. get k mounts) ((eq_iff other id).0 same) in
      elim (Option-cases (get other mounts)) [
        | inl nobody ↦ ground (arith, nobody, same, key)
        | inr (claims, there) ↦ ground (
          arith,
          there,
          same,
          key,
          is_empty-nil (keep (stays gone) claims),
          keep-length (stays gone) claims,
          get-delete other id mounts,
          get-set other id (keep (stays gone) claims) mounts,
        )
      ]
]

claims_at-drop_each :
    (id : String) (ids : List String) (gone : Claim → Bool) (mounts : Mounts)
    → claims_at id (drop_each ids gone mounts) ≡ (
        if any (λ other. other == id) ids
        then keep (stays gone) (claims_at id mounts)
        else claims_at id mounts)
unfolding drop_each
claims_at-drop_each id [] gone mounts = refl
claims_at-drop_each id (other ∷ ids) gone mounts = ground (
  arith,
  claims_at-drop_each id ids gone (drop_claims other gone mounts),
  claims_at-drop_claims id other gone mounts,
  keep-keep (stays gone) (claims_at id mounts),
)

claims_at_of_missing :
    (id : String) (mounts : Mounts)
    → any (λ other. other == id) (keys mounts) ≡ false
    → claims_at id mounts ≡ []
unfolding claims_at get
claims_at_of_missing id [] h = refl
claims_at_of_missing id ((other, claims) ∷ mounts) h =
    ground (arith, h, claims_at_of_missing id mounts)

claims_at-drop_keys :
    (id : String) (gone : Claim → Bool) (mounts : Mounts)
    → claims_at id (drop_each (keys mounts) gone mounts) ≡ keep (stays gone) (claims_at id mounts)
claims_at-drop_keys id gone mounts =
    ground (arith, claims_at-drop_each id (keys mounts) gone mounts, claims_at_of_missing id mounts)

claims_in-without :
    (id : String) (gone : String → Claim → Bool) (row : Row)
    → claims_in id (without gone row) ≡ keep (stays (gone id)) (claims_in id row)
claims_in-without id gone [] = refl
claims_in-without id gone ((other, claim) ∷ row) = elim (Bool-cases (other == id)) [
  | inl same ↦
      let key = ap (λ k. gone k claim) ((eq_iff other id).0 same) in
      ground (arith, same, key, claims_in-without id gone row)
  | inr apart ↦ ground (arith, apart, claims_in-without id gone row)
]

claims_in-append :
    (id other : String) (claim : Claim) (row : Row)
    → claims_in id (row ++ (other, claim) ∷ [])
      ≡ (if other == id then claims_in id row ++ claim ∷ [] else claims_in id row)
claims_in-append id other claim [] = refl
claims_in-append id other claim ((j, c) ∷ row) = ground (arith, claims_in-append id other claim row)

keep_all : (claims : List Claim) → keep (stays (λ claim. false)) claims ≡ claims
keep_all [] = refl
keep_all (claim ∷ claims) = ap (◌∷◌ claim) (keep_all claims)

keep_of_address :
    (here : Bool) (number : ℕ) (claims : List Claim)
    → keep (stays (λ claim. here && is_number number claim)) claims
      ≡ (if here then keep (stays (is_number number)) claims else claims)
keep_of_address true number claims = refl
keep_of_address false number claims = keep_all claims

claims_at-set :
    (id other : String) (claims : List Claim) (mounts : Mounts)
    → claims_at id (set other claims mounts) ≡ (if other == id then claims else claims_at id mounts)
unfolding claims_at
claims_at-set id other claims mounts = ground (arith, get-set other id claims mounts)

-- The registry and the row agree on every address.
abbrev Refines : Mounts → Row → Type 0
Refines mounts row = (id : String) → claims_at id mounts ≡ claims_in id row

step-Refines :
    (event : Event) (mounts : Mounts) (row : Row)
    → Refines mounts row
    → Refines (step event mounts) (row_step event row)
unfolding step add_claim release release_runtime release_owner
step-Refines (registered other claim) mounts row same id =
    let key =
      λ (here : (other == id) ≡ true). ap (λ k. claims_at k mounts) ((eq_iff other id).0 here) in
    ground (
      arith,
      key,
      same id,
      claims_at-set id other (claims_at other mounts ++ claim ∷ []) mounts,
      claims_in-append id other claim row,
    )
step-Refines (released other number) mounts row same id = ground (
  arith,
  eq_iff other id,
  eq_iff id other,
  same id,
  claims_at-drop_claims id other (is_number number) mounts,
  claims_in-without id (λ k claim. k == other && is_number number claim) row,
  keep_of_address (id == other) number (claims_in id row),
)
step-Refines (runtime_released space runtime_id) mounts row same id =
    claims_at-drop_keys id (is_of_runtime space runtime_id) mounts
    ∙ ap (keep (stays (is_of_runtime space runtime_id))) (same id)
    ∙ sym (claims_in-without id (λ other. is_of_runtime space runtime_id) row)
step-Refines (owner_released owner) mounts row same id =
    claims_at-drop_keys id (is_of_space owner) mounts
    ∙ ap (keep (stays (is_of_space owner))) (same id)
    ∙ sym (claims_in-without id (λ other. is_of_space owner) row)

run-Refines :
    (events : List Event) (mounts : Mounts) (row : Row)
    → Refines mounts row
    → Refines (run events mounts) (row_run events row)
unfolding run
run-Refines [] mounts row same = same
run-Refines (event ∷ events) mounts row same =
    run-Refines events (step event mounts) (row_step event row) (step-Refines event mounts row same)

-- The registry of mounts does what one row of claims does, from which a release takes its claim out, a
-- runtime's release those of the runtime in its space and an owner's release those in the owner's space:
-- through every history from an empty registry, what answers at an address is what the row says from its
-- start, where each newer claim to the address takes over, unless a deployed board answers and the newer
-- claim is none of a deployed board.
pub answering-run :
    (events : List Event) (id : String)
    → answering id (run events []) ≡ answers_in id none (row_run events [])
unfolding answering claims_at get
answering-run events id =
    ap newest (run-Refines events [] [] (λ other. refl) id)
    ∙ newest-claims_in id [] (row_run events [])
