-- ===== src/Coordinator/Session/Notifications/Hearing.antt =====
-- Each browser of a board hears what it may hear.
use hkp_node.Shared.{
  ℕ, ◌≡◌, refl, ap, inl, inr, String, Bool, true, false, not, ◌&&◌, List, [], ◌∷◌, ◌++◌, Option,
  none, some, if◌then◌else◌, Bool-cases, arith,
}
use hkp_node.Shared.Json.{Json}
use hkp_node.Runtime.Context.{Caller, Context}
use hkp_node.Coordinator.Routing.{run_may_continue}
use hkp_node.Coordinator.Session.Notifications.{
  BrowserBridge, Frame, is_flow_notification, person_of, is_member, is_addressed, to_socket,
  from_cache, whole_frame, frame_of, frame_of_said, is_passed_over, deliver_each,
  deliver_notification,
}

module _ (has_source : String → Bool) (project : String → Json → Option Json)
    (runtime_id service_uuid : String) (payload : Json) where
  -- What one browser is to hear, whoever else is there: nothing where it is closed or the run is of
  -- another person; for a member what the facade reads of the payload, unless the facade reads nothing
  -- of the service or the payload is the runtime's own account; and the payload for an owner.
  unfoldable pub hears : Option Caller → BrowserBridge → Option Json
  hears caller bridge =
      if bridge.is_open && is_addressed caller bridge.attach
      then (if is_member bridge.attach.role
          then (if has_source service_uuid && not (is_flow_notification payload)
              then project service_uuid payload
              else none)
          else some payload)
      else none

  unfoldable pub frames_for : Option Caller → List BrowserBridge → List (ℕ × Frame)
  unfolding hears
  frames_for caller [] = []
  frames_for caller (bridge ∷ bridges) =
      to_socket bridge.socket
        (frame_of_said has_source project runtime_id service_uuid payload (hears caller bridge))
      ++ frames_for caller bridges

  hears-over :
      (caller : Option Caller) (bridge : BrowserBridge)
      → is_passed_over has_source project runtime_id service_uuid payload caller bridge ≡ true
      → hears caller bridge ≡ none
  unfolding hears is_passed_over
  hears-over caller bridge over = ground (arith, over)

  hears-member :
      (caller : Option Caller) (bridge : BrowserBridge)
      → is_passed_over has_source project runtime_id service_uuid payload caller bridge ≡ false
      → is_member bridge.attach.role ≡ true
      → hears caller bridge ≡ project service_uuid payload
  unfolding hears is_passed_over
  hears-member caller bridge may member = ground (arith, may, member)

  hears-owner :
      (caller : Option Caller) (bridge : BrowserBridge)
      → is_passed_over has_source project runtime_id service_uuid payload caller bridge ≡ false
      → is_member bridge.attach.role ≡ false
      → hears caller bridge ≡ some payload
  unfolding hears is_passed_over
  hears-owner caller bridge may owner = ground (arith, may, owner)

  -- What the loop keeps is what it would make anew.
  deliver_each-frames_for :
      (caller : Option Caller) (bridges : List BrowserBridge) (whole : Option Frame)
      (projected : Option (Option Frame))
      → whole_frame whole (frame_of has_source project runtime_id service_uuid payload payload)
        ≡ frame_of has_source project runtime_id service_uuid payload payload
      → from_cache projected (
          frame_of_said has_source project runtime_id service_uuid payload
            (project service_uuid payload))
        ≡ frame_of_said has_source project runtime_id service_uuid payload
            (project service_uuid payload)
      → deliver_each has_source project runtime_id service_uuid payload caller bridges whole
          projected
        ≡ frames_for caller bridges
  unfolding deliver_each frames_for
  deliver_each-frames_for caller [] whole projected w p = refl
  deliver_each-frames_for caller (bridge ∷ bridges) whole projected w p =
      elim (Bool-cases
        (is_passed_over has_source project runtime_id service_uuid payload caller bridge)) [
          | inl over ↦
              let rest = deliver_each-frames_for caller bridges whole projected w p in
              let nothing = hears-over caller bridge over in simp (over, nothing, deliver_each) rest
          | inr may ↦ elim (Bool-cases (is_member bridge.attach.role)) [
            | inl member ↦
                let said = hears-member caller bridge may member in
                let frame =
                  frame_of_said has_source project runtime_id service_uuid payload
                    (project service_uuid payload) in
                let rest = deliver_each-frames_for caller bridges whole (some frame) w refl in
                rw said (
                  rw (may, deliver_each)
                    (rw member (rw p (ap (◌++◌ (to_socket bridge.socket frame)) rest))))
            | inr owner ↦
                let said = hears-owner caller bridge may owner in
                let frame = frame_of has_source project runtime_id service_uuid payload payload in
                let rest = deliver_each-frames_for caller bridges (some frame) projected refl p in
                rw said
                  (rw (may, deliver_each) (rw owner (rw w (ap (◌∷◌ (bridge.socket, frame)) rest))))
          ]
        ]

  -- Every browser of a board hears exactly what it is to hear of what a service says, in the order of
  -- the browsers, although the loop makes each kind of frame once: the frames that go out are those
  -- that each browser for itself has to be sent, and none where the run may not continue.
  pub deliver_notification-frames_for :
      (may_act_as : Caller → Bool) (now : ℕ) (context : Option Context)
      (bridges : List BrowserBridge)
      → deliver_notification has_source project runtime_id service_uuid payload may_act_as now
          context bridges
        ≡ (if run_may_continue may_act_as now context
            then frames_for (person_of context) bridges
            else [])
  unfolding deliver_notification
  deliver_notification-frames_for may_act_as now context bridges =
      ap (λ frames. if run_may_continue may_act_as now context then frames else [])
        (deliver_each-frames_for (person_of context) bridges none none refl refl)
