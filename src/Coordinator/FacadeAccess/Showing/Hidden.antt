-- ===== src/Coordinator/FacadeAccess/Showing/Hidden.antt =====
-- coordinator/facadeAccess.ts: nothing that a facade keeps for its owner is in what a member is shown.
use hkp_node.Shared.{◌≡◌, refl, Bool, false, string_eq}
use hkp_node.Shared.Json.{Json, null, undefined, flag, number, str, bytes, arr, obj}
use hkp_node.Coordinator.FacadeAccess.Showing.{without_fields, facade_for_members, without_panels}
use hkp_node.Coordinator.FacadeAccess.Showing.Entries.{
  IsProper, keeps_fields-without_fields, keeps_items-without_items, keeps_owners,
}
use hkp_node.Coordinator.FacadeAccess.Showing.Tabs.{keeps_fields-with_tabs}
use hkp_node.Coordinator.FacadeAccess.Showing.Objects.{without_panels-IsProper}

-- What a facade keeps for its owner, at any depth, is not in what a member is shown of it, as long as no
-- object has two fields of one name.
pub keeps_owners-facade_for_members :
    (same : Json → Json → Bool) (facade : Json)
    → IsProper facade
    → keeps_owners (facade_for_members same facade) ≡ false
unfolding facade_for_members keeps_owners IsProper
keeps_owners-facade_for_members same (obj fields) h =
    keeps_fields-with_tabs same (without_fields (without_panels same fields)) (
      keeps_fields-without_fields (without_panels same fields)
        (without_panels-IsProper same fields h))
keeps_owners-facade_for_members same (arr items) h = keeps_items-without_items items h
keeps_owners-facade_for_members same null h = refl
keeps_owners-facade_for_members same undefined h = refl
keeps_owners-facade_for_members same (flag b) h = refl
keeps_owners-facade_for_members same (number n) h = refl
keeps_owners-facade_for_members same (str s) h = refl
keeps_owners-facade_for_members same (bytes b) h = refl
