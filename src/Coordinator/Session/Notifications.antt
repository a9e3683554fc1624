-- ===== src/Coordinator/Session/Notifications.antt =====
-- coordinator/session.ts: what the browsers of a board are told of what its services say. What a facade
-- reads of a notification is an argument, `project`, with the services that it reads at all.
pub mod Hearing
use hkp_node.Shared.{
  ℕ, String, Bool, true, false, not, ◌&&◌, ◌||◌, List, [], ◌∷◌, ◌++◌, Option, none, some,
  if◌then◌else◌, string_eq, ◌==◌, is_some, keep,
}
use hkp_node.Shared.Json.{Json, property?}
use hkp_node.Runtime.Context.{Caller, Actor, person, board, mount, local_work, Context}
use hkp_node.Coordinator.Routing.{run_may_continue}
use hkp_node.Coordinator.Session.Processing.{BridgeRole, owner_bridge, member_bridge, Bridge}

-- A `BrowserBridge`, by its socket's number and whether that is open.
pub record BrowserBridge : Type 0 where
  pub attach : Bridge
  pub socket : ℕ
  pub is_open : Bool

-- A frame of the type `notification`.
pub record Frame : Type 0 where
  pub runtime_id : String
  pub service_uuid : String
  pub payload : Json

-- `isFlowNotification`
unfoldable pub is_flow_notification : Json → Bool
unfolding property?
is_flow_notification payload = is_some (property? "__internal" payload)

-- The person that a run acts for.
abbrev pub person_of : Option Context → Option Caller
person_of none = none
person_of (some context) = elim context.actor [
  | person expires_at caller ↦ some caller
  | board ↦ none
  | mount ↦ none
  | local_work ↦ none
]

abbrev pub is_member : BridgeRole → Bool
is_member owner_bridge = false
is_member member_bridge = true

-- `!caller || bridge.caller?.sub === caller.sub`
abbrev pub is_person : Caller → Option Caller → Bool
is_person caller none = false
is_person caller (some other) = other.sub == caller.sub

abbrev pub is_addressed : Option Caller → Bridge → Bool
is_addressed none bridge = true
is_addressed (some caller) bridge = is_person caller bridge.caller

-- `hostingBridges`
unfoldable pub hosting_bridges : List BrowserBridge → List BrowserBridge
hosting_bridges bridges =
    keep (λ (bridge : BrowserBridge). not (is_member bridge.attach.role) && bridge.is_open) bridges

abbrev pub to_socket : ℕ → Option Frame → List (ℕ × Frame)
to_socket socket none = []
to_socket socket (some frame) = (socket, frame) ∷ []

-- What is kept for the next bridge: the frame as projected, once it was asked for.
abbrev pub from_cache : Option (Option Frame) → Option Frame → Option Frame
from_cache none fresh = fresh
from_cache (some kept) fresh = kept

abbrev pub whole_frame : Option Frame → Frame → Frame
whole_frame none fresh = fresh
whole_frame (some kept) fresh = kept

module _ (has_source : String → Bool) (project : String → Json → Option Json)
    (runtime_id service_uuid : String) (payload : Json) where
  -- `frameOf`
  abbrev pub frame_of : Json → Frame
  frame_of said = record { runtime_id = runtime_id; service_uuid = service_uuid; payload = said }

  abbrev pub frame_of_said : Option Json → Option Frame
  frame_of_said none = none
  frame_of_said (some said) = some (frame_of said)

  unfoldable pub is_passed_over : Option Caller → BrowserBridge → Bool
  unfolding is_flow_notification
  is_passed_over caller bridge =
      not (is_addressed caller bridge.attach)
      || is_member bridge.attach.role
        && (not (has_source service_uuid) || is_flow_notification payload)
      || not bridge.is_open

  -- The loop of `deliverNotification`; `whole` and `projected` are the frames that it keeps.
  unfoldable pub deliver_each :
      Option Caller → List BrowserBridge → Option Frame → Option (Option Frame) → List (ℕ × Frame)
  unfolding is_passed_over
  deliver_each caller [] whole projected = []
  deliver_each caller (bridge ∷ bridges) whole projected = elim (is_passed_over caller bridge) [
    | true ↦ deliver_each caller bridges whole projected
    | false ↦ elim (is_member bridge.attach.role) [
      | true ↦
          let frame = from_cache projected (frame_of_said (project service_uuid payload)) in
          to_socket bridge.socket frame ++ deliver_each caller bridges whole (some frame)
      | false ↦
          let frame = whole_frame whole (frame_of payload) in
          (bridge.socket, frame) ∷ deliver_each caller bridges (some frame) projected
    ]
  ]

  -- `deliverNotification`, with who may still act and the time.
  unfoldable pub deliver_notification :
      (Caller → Bool) → ℕ → Option Context → List BrowserBridge → List (ℕ × Frame)
  unfolding run_may_continue deliver_each
  deliver_notification may_act_as now context bridges =
      if run_may_continue may_act_as now context
      then deliver_each (person_of context) bridges none none
      else []
