-- ===== src/Tests/Facade.antt =====
-- What a facade shows, and what its paths pick, at concrete inputs.
use hkp_node.Shared.{◌≡◌, refl, String, false, List, [], ◌∷◌, none, All}
use hkp_node.Shared.Json.{Json, undefined, str, arr, obj, nil, cons, end, field, field?}
use hkp_node.Coordinator.FacadeAccess.Showing.{facade_for_members}
use hkp_node.Coordinator.FacadeAccess.Showing.Entries.{keeps_owners, IsProper}
use hkp_node.Coordinator.FacadeAccess.Showing.Hidden.{keeps_owners-facade_for_members}
use hkp_node.Coordinator.FacadeAccess.Projecting.{read_keys, pick_all}
use hkp_node.Coordinator.FacadeAccess.Projecting.Resolving.{pick_all-resolves}

abbrev hidden_panel : Json
hidden_panel = obj (field "id" (str "keys") (field "visibleTo" (str "owner") end))

abbrev shown_panel : Json
shown_panel = obj (field "id" (str "mail") end)

abbrev tab : Json
tab =
    obj (
      field "id" (str "all") (field "panels" (arr (cons (str "keys") (cons (str "mail") nil))) end))

abbrev facade : Json
facade = obj (
    field "tabs" (arr (cons tab nil))
      (field "panels" (arr (cons hidden_panel (cons shown_panel nil))) end))

facade-IsProper : IsProper facade
unfolding IsProper field?
facade-IsProper = (
  refl,
  (
    ((refl, (tt, (refl, ((tt, (tt, tt)), tt)))), tt),
    (refl, (((refl, (tt, (refl, (tt, tt)))), ((refl, (tt, tt)), tt)), tt)),
  ),
)

keeps_owners-facade_for_members_example :
    keeps_owners (facade_for_members (λ a b. false) facade) ≡ false
keeps_owners-facade_for_members_example =
    keeps_owners-facade_for_members (λ a b. false) facade facade-IsProper

abbrev spoken : Json
spoken = obj (field "rows" (arr nil) (field "user" (obj (field "name" (str "ann") end)) end))

abbrev paths : List (List String)
paths = ("rows" ∷ []) ∷ ("user" ∷ "name" ∷ []) ∷ []

pick_all-resolves_example :
    All
      (λ ks.
        read_keys (λ s. none) (obj (pick_all (λ s. none) spoken paths end)) ks
        ≡ read_keys (λ s. none) spoken ks)
      paths
    × (read_keys (λ s. none) (obj (pick_all (λ s. none) spoken paths end)) ("user" ∷ "mail" ∷ [])
        ≡ undefined)
pick_all-resolves_example =
    pick_all-resolves (λ s. none) spoken paths ("user" ∷ "mail" ∷ []) (refl, (refl, tt))
      ((refl, tt), (tt, tt)) refl (refl, (refl, tt))
