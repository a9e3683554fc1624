-- ===== src/Coordinator/Session/Processing.antt =====
-- coordinator/session.ts: what a browser that is attached to a board asks of its runtimes.
pub mod Capability
use Prim.Native.String
use hkp_node.Shared.{
  ℕ, ◌+◌, String, Bool, true, false, not, ◌&&◌, List, [], ◌∷◌, Option, none, some, if◌then◌else◌,
  string_eq, ◌==◌, or_else, any,
}
use hkp_node.Shared.OrderedMap.{OrderedMap, get, has, set}
use hkp_node.Shared.Json.{Json, nat, property?}
use hkp_node.Shared.Json
use hkp_node.Runtime.Context.{Caller, Actor, person, local_work, Context}
use hkp_node.Coordinator.Board.{RuntimeDescriptor, BoardConfig}
use hkp_node.Coordinator.FacadeAccess.{runtime_holding}
use hkp_node.Coordinator.MemberRate.{over_member_rate}
use hkp_node.Coordinator.Participants.{Connection}
use hkp_node.Coordinator.Session.{Names, Result, answered, failed, Session, required}

-- `BridgeRole`
pub data BridgeRole : Type 0 where
  owner_bridge member_bridge : BridgeRole

-- `BridgeAttach`
pub record Bridge : Type 0 where
  pub role : BridgeRole
  pub caller : Option Caller

-- A message of the type `processService`; a field that is no text is `none`.
pub record ProcessMessage : Type 0 where
  pub request_id : Option String
  pub service_uuid : Option String
  pub runtime_id : String
  pub payload : Option Json

-- The request that a runtime server is sent.
pub record Request : Type 0 where
  pub target : String
  pub service_uuid : String
  pub params : Json
  pub context : Context

-- What the browser is answered.
pub data Reply : Type 0 where
  silent accepted : Reply
  refused : String → Reply

-- `beginRun`, with the id that is drawn and the clock's reading.
abbrev pub actor_for : ℕ → ℕ → Option Caller → Actor
actor_for now max_age none = local_work
actor_for now max_age (some caller) = person (nat (now + max_age)) caller

unfoldable pub begin_run : String → ℕ → ℕ → Bridge → Context
begin_run drawn now max_age bridge = record {
  run_id = drawn;
  parent_run_id = none;
  request_id = none;
  actor = actor_for now max_age bridge.caller;
}

abbrev pub email_of : Option Caller → String
email_of none = ""
email_of (some caller) = or_else caller.email ""

-- Who is asked: `this.live.has(runtimeId) ? this.participants.get(runtimeId) : undefined`.
unfoldable pub live_participant :
    (String → Option Connection) → Session → String → Option Connection
live_participant connected s id = if has id s.live then connected id else none

abbrev requires : BoardConfig → String → Bool
requires config id = any (λ (runtime : RuntimeDescriptor). runtime.id == id) (required config)

-- Why a runtime cannot be asked.
unfoldable pub unreachable : BoardConfig → BridgeRole → String → String
unreachable config member_bridge id = "This board is not running right now"
unreachable config owner_bridge id =
    if requires config id
    then String.◌++◌ "Runtime \"" (String.◌++◌ id "\" is not connected")
    else String.◌++◌ "Unknown runtime \"" (String.◌++◌ id "\"")

abbrev pub reply_of : BridgeRole → String → Result (Unit {0}) → Reply
reply_of role id (answered done) = accepted
reply_of member_bridge id (failed reason) = refused "This board could not take that right now"
reply_of owner_bridge id (failed reason) =
    refused (String.◌++◌ "Runtime \"" (String.◌++◌ id (String.◌++◌ "\": " reason)))

-- A session's settings: the services that a facade asks to process, and the limits of members.
pub record Policy : Type 0 where
  pub process_targets : Names
  pub max_per_minute : ℕ
  pub max_run_age : ℕ

module _ (config : BoardConfig) (policy : Policy) (connected : String → Option Connection)
    (answer : Request → Result (Unit {0})) (now : ℕ) (drawn : String) where
  -- The checks on a member: the times that are counted, and the runtime or the reason against it.
  unfoldable pub admit :
      Bridge
      → String
      → String
      → OrderedMap String (List ℕ)
      → OrderedMap String (List ℕ) × Result String
  unfolding over_member_rate runtime_holding
  admit bridge service_uuid runtime_id times = elim bridge.role [
    | owner_bridge ↦ (times, answered runtime_id)
    | member_bridge ↦
        if not (has service_uuid policy.process_targets)
        then (times, failed "This board does not offer that")
        else let rate = over_member_rate policy.max_per_minute now (email_of bridge.caller) times in
          (
            rate.0,
            if rate.1
                then failed "Too many requests — try again in a moment"
                else answered (or_else (runtime_holding config service_uuid) ""),
          )
  ]

  -- What follows once the runtime is known.
  unfoldable pub dispatch : Bridge → String → Json → String → Session → Option Request × Reply
  unfolding begin_run live_participant unreachable
  dispatch bridge service_uuid payload runtime_id s =
      let request : Request = record {
        target = runtime_id;
        service_uuid = service_uuid;
        params = payload;
        context = begin_run drawn now policy.max_run_age bridge;
      } in
      if s.stopped
      then (none, refused "This board is stopped")
      else elim (live_participant connected s runtime_id) [
        | none ↦ (none, refused (unreachable config bridge.role runtime_id))
        | some participant ↦ (some request, reply_of bridge.role runtime_id (answer request))
      ]

  abbrev pub dispatch_to : Bridge → String → Json → Result String → Session → Option Request × Reply
  dispatch_to bridge service_uuid payload (failed reason) s = (none, refused reason)
  dispatch_to bridge service_uuid payload (answered runtime_id) s =
      dispatch bridge service_uuid payload runtime_id s

  -- `serveProcessRequest`: the request, if any, the browser's answer, and the times that are counted.
  unfoldable pub serve_process_request :
      Bridge
      → ProcessMessage
      → Session
      → OrderedMap String (List ℕ)
      → (Option Request × Reply) × OrderedMap String (List ℕ)
  unfolding admit dispatch
  serve_process_request bridge message s times = elim message.request_id [
    | none ↦ ((none, silent), times)
    | some id ↦ elim message.service_uuid [
      | none ↦ ((none, silent), times)
      | some uuid ↦
          let admitted = admit bridge uuid message.runtime_id times in
          (dispatch_to bridge uuid (or_else message.payload Json.null) admitted.1 s, admitted.0)
    ]
  ]

-- `serveBrowserRequest`: the states of services, and what every browser and the asking one is told.
pub data ConfigureReply : Type 0 where
  configured : Json → ConfigureReply
  not_configured : String → ConfigureReply

unfoldable pub serve_browser_request :
    BoardConfig
    → (String → Option Connection)
    → (String → String → Json → Result Json)
    → String
    → String
    → Option Json
    → Session
    → Session × ConfigureReply
unfolding live_participant unreachable
serve_browser_request config connected configure runtime_id service_uuid settings s =
    elim (live_participant connected s runtime_id) [
      | none ↦ (s, not_configured (unreachable config owner_bridge runtime_id))
      | some participant ↦
          elim (configure runtime_id service_uuid (or_else settings (Json.obj Json.end))) [
            | failed reason ↦ (
              s,
              not_configured
                  (String.◌++◌ "Runtime \"" (String.◌++◌ runtime_id (String.◌++◌ "\": " reason))),
            )
            | answered state ↦
                let states = or_else (get runtime_id s.service_states) [] in
                (
                  record s {
                    service_states =
                        set runtime_id (set service_uuid (some state) states) s.service_states;
                  },
                  configured state,
                )
          ]
    ]
