-- ===== src/Coordinator/Session/Processing/Capability.antt =====
-- Who may begin what on a board, and what they are told.
use Prim.Native.String
use hkp_node.Shared.{
  ℕ, ◌+◌, ◌≡◌, ◌⊎◌, refl, inl, inr, String, Bool, true, false, List, Option, none, some, string_eq,
  or_else, is_some, arith, Bool-cases, Option-cases,
}
use hkp_node.Shared.OrderedMap.{OrderedMap, has}
use hkp_node.Shared.Json.{Json, nat}
use hkp_node.Runtime.Context.{Caller, Actor, person, local_work}
use hkp_node.Coordinator.Board.{BoardConfig}
use hkp_node.Coordinator.FacadeAccess.{runtime_holding}
use hkp_node.Coordinator.MemberRate.{over_member_rate}
use hkp_node.Coordinator.Participants.{Connection}
use hkp_node.Coordinator.Session.{Result, answered, failed, Session}
use hkp_node.Coordinator.Session.Processing.{
  BridgeRole, owner_bridge, member_bridge, Bridge, ProcessMessage, Request, Reply, silent, accepted,
  refused, actor_for, email_of, begin_run, live_participant, reply_of, Policy, admit, dispatch,
  dispatch_to, serve_process_request,
}

-- Whom a run acts for: the person who attached, up to the end of the run, and nobody where it has none.
abbrev pub ActsFor : ℕ → ℕ → Option Caller → Actor → Type 0
ActsFor now max_age none actor = actor ≡ local_work
ActsFor now max_age (some caller) actor = actor ≡ person (nat (now + max_age)) caller

actor_for-ActsFor :
    (now max_age : ℕ) (caller : Option Caller)
    → ActsFor now max_age caller (actor_for now max_age caller)
actor_for-ActsFor now max_age none = refl
actor_for-ActsFor now max_age (some caller) = refl

-- What a request may be that a runtime server is sent for a browser.
abbrev pub IsAllowed :
    BoardConfig → Policy → (String → Option Connection) → ℕ → Bridge → Session → Request → Type 0
IsAllowed config policy connected now bridge s r =
    (s.stopped ≡ false)
    × (has r.target s.live ≡ true)
    × (is_some (connected r.target) ≡ true)
    × ActsFor now policy.max_run_age bridge.caller r.context.actor
    × (bridge.role ≡ member_bridge
        → (has r.service_uuid policy.process_targets ≡ true)
          × (r.target ≡ or_else (runtime_holding config r.service_uuid) ""))

-- Whether a browser was told of an error.
abbrev pub is_refused : Reply → Bool
is_refused silent = false
is_refused accepted = false
is_refused (refused reason) = true

-- What a browser is told of a request that was made: that it was taken, or that it failed, a member
-- without the reason and an owner with the runtime and the reason.
abbrev pub IsToldOf : BridgeRole → String → Result (Unit {0}) → Reply → Type 0
IsToldOf role id (answered done) reply = reply ≡ accepted
IsToldOf member_bridge id (failed reason) reply =
    reply ≡ refused "This board could not take that right now"
IsToldOf owner_bridge id (failed reason) reply =
    reply ≡ refused (String.◌++◌ "Runtime \"" (String.◌++◌ id (String.◌++◌ "\": " reason)))

reply_of-IsToldOf :
    (role : BridgeRole) (id : String) (result : Result (Unit {0}))
    → IsToldOf role id result (reply_of role id result)
reply_of-IsToldOf owner_bridge id (answered done) = refl
reply_of-IsToldOf member_bridge id (answered done) = refl
reply_of-IsToldOf owner_bridge id (failed reason) = refl
reply_of-IsToldOf member_bridge id (failed reason) = refl

-- What a browser is told: an error where no request was made.
abbrev pub Told : (Request → Result (Unit {0})) → BridgeRole → Option Request → Reply → Type 0
Told answer role none reply = is_refused reply ≡ true
Told answer role (some r) reply = IsToldOf role r.target (answer r) reply

-- What goes out once the runtime is known.
abbrev IsFrom :
    Policy
    → (String → Option Connection)
    → ℕ
    → Bridge
    → String
    → String
    → Session
    → Option Request
    → Type 0
IsFrom policy connected now bridge uuid id s none = Unit
IsFrom policy connected now bridge uuid id s (some r) =
    (s.stopped ≡ false)
    × (has id s.live ≡ true)
    × (is_some (connected id) ≡ true)
    × ActsFor now policy.max_run_age bridge.caller r.context.actor
    × (r.service_uuid ≡ uuid)
    × (r.target ≡ id)

-- The request, if any, is an allowed one.
abbrev pub SendsAllowed :
    BoardConfig
    → Policy
    → (String → Option Connection)
    → ℕ
    → Bridge
    → Session
    → Option Request
    → Type 0
SendsAllowed config policy connected now bridge s none = Unit
SendsAllowed config policy connected now bridge s (some r) =
    IsAllowed config policy connected now bridge s r

module _ (config : BoardConfig) (policy : Policy) (connected : String → Option Connection)
    (answer : Request → Result (Unit {0})) (now : ℕ) (drawn : String) where
  dispatch-IsFrom :
      (bridge : Bridge) (uuid : String) (payload : Json) (id : String) (s : Session)
      → IsFrom policy connected now bridge uuid id s
          (dispatch config policy connected answer now drawn bridge uuid payload id s).0
  unfolding dispatch live_participant begin_run
  dispatch-IsFrom bridge uuid payload id s = elim (Bool-cases s.stopped) [
    | inl down ↦ simp (down, dispatch) tt
    | inr up ↦ elim (Bool-cases (has id s.live)) [
      | inr away ↦ simp (up, away, dispatch) tt
      | inl live ↦ elim (Option-cases (connected id)) [
        | inl away ↦ simp (up, live, away, dispatch) tt
        | inr (participant, there) ↦
            simp (up, live, there, dispatch)
              (refl, refl, refl, actor_for-ActsFor now policy.max_run_age bridge.caller, refl, refl)
      ]
    ]
  ]

  dispatch-Told :
      (bridge : Bridge) (uuid : String) (payload : Json) (id : String) (s : Session)
      → Told answer bridge.role
          (dispatch config policy connected answer now drawn bridge uuid payload id s).0
          (dispatch config policy connected answer now drawn bridge uuid payload id s).1
  unfolding dispatch live_participant begin_run
  dispatch-Told bridge uuid payload id s = elim (Bool-cases s.stopped) [
    | inl down ↦ simp (down, dispatch) refl
    | inr up ↦ elim (Bool-cases (has id s.live)) [
      | inr away ↦ simp (up, away, dispatch) refl
      | inl live ↦ elim (Option-cases (connected id)) [
        | inl away ↦ simp (up, live, away, dispatch) refl
        | inr (participant, there) ↦
            simp (up, live, there, dispatch) (reply_of-IsToldOf bridge.role id _)
      ]
    ]
  ]

  role-cases : (role : BridgeRole) → (role ≡ owner_bridge) ⊎ (role ≡ member_bridge)
  role-cases owner_bridge = inl refl
  role-cases member_bridge = inr refl

  -- What a member must have for a runtime.
  abbrev MayReach : Bridge → String → String → Type 0
  MayReach bridge uuid id =
      bridge.role ≡ member_bridge
      → (has uuid policy.process_targets ≡ true) × (id ≡ or_else (runtime_holding config uuid) "")

  abbrev Admits : Bridge → String → Result String → Type 0
  Admits bridge uuid (failed reason) = Unit
  Admits bridge uuid (answered id) = MayReach bridge uuid id

  admit-Admits :
      (bridge : Bridge) (uuid id : String) (times : OrderedMap String (List ℕ))
      → Admits bridge uuid (admit config policy connected answer now drawn bridge uuid id times).1
  unfolding admit
  admit-Admits bridge uuid id times = elim (role-cases bridge.role) [
    | inl owns ↦ simp (owns, admit) (λ member. absurd (cc))
    | inr member ↦ elim (Bool-cases (has uuid policy.process_targets)) [
      | inr closed ↦ simp (member, closed, admit) tt
      | inl offered ↦
          elim (Bool-cases
            (over_member_rate policy.max_per_minute now (email_of bridge.caller) times).1) [
              | inl over ↦ simp (member, offered, over, admit) tt
              | inr under ↦ simp (member, offered, under, admit) (λ m. (refl, refl))
            ]
    ]
  ]

  IsFrom-allowed :
      (bridge : Bridge) (uuid id : String) (s : Session) (o : Option Request)
      → MayReach bridge uuid id
      → IsFrom policy connected now bridge uuid id s o
      → SendsAllowed config policy connected now bridge s o
  IsFrom-allowed bridge uuid id s none may from = tt
  IsFrom-allowed bridge uuid id s (some r) may (up, live, there, actor, service, target) =
      (up, rw target live, rw target there, actor, λ m. rw (service, target) (may m))

  dispatch_to-allowed :
      (bridge : Bridge) (uuid : String) (payload : Json) (result : Result String) (s : Session)
      → Admits bridge uuid result
      → SendsAllowed config policy connected now bridge s
          (dispatch_to config policy connected answer now drawn bridge uuid payload result s).0
  dispatch_to-allowed bridge uuid payload (failed reason) s may = tt
  dispatch_to-allowed bridge uuid payload (answered id) s may =
      IsFrom-allowed bridge uuid id s _ may (dispatch-IsFrom bridge uuid payload id s)

  dispatch_to-Told :
      (bridge : Bridge) (uuid : String) (payload : Json) (result : Result String) (s : Session)
      → Told answer bridge.role
          (dispatch_to config policy connected answer now drawn bridge uuid payload result s).0
          (dispatch_to config policy connected answer now drawn bridge uuid payload result s).1
  dispatch_to-Told bridge uuid payload (failed reason) s = refl
  dispatch_to-Told bridge uuid payload (answered id) s = dispatch-Told bridge uuid payload id s

  -- Whatever a browser sends, a runtime server is asked to process only as it is allowed to: the board
  -- is not stopped, the runtime runs and its server is connected, the run acts for the person who
  -- attached, and for a member the service is one that the facade asks to process, on the runtime that
  -- the board has it on.
  pub serve_process_request-allowed :
      (bridge : Bridge) (message : ProcessMessage) (s : Session)
      (times : OrderedMap String (List ℕ))
      → SendsAllowed config policy connected now bridge s
          (serve_process_request config policy connected answer now drawn bridge message s
            times).0.0
  unfolding serve_process_request
  serve_process_request-allowed bridge message s times = elim (Option-cases message.request_id) [
    | inl nothing ↦ simp (nothing, serve_process_request) tt
    | inr (request_id, asks) ↦ elim (Option-cases message.service_uuid) [
      | inl nowhere ↦ simp (asks, nowhere, serve_process_request) tt
      | inr (uuid, names) ↦
          simp (asks, names, serve_process_request)
            (dispatch_to-allowed bridge uuid (or_else message.payload Json.null) _ s
              (admit-Admits bridge uuid message.runtime_id times))
    ]
  ]

  -- A browser whose message has the texts it needs is always answered: with an error where no runtime
  -- server was asked, and where one was, that the request was taken exactly when the server answered it,
  -- and otherwise an error, which tells an owner the runtime and the server's reason and a member neither.
  pub serve_process_request-Told :
      (bridge : Bridge) (message : ProcessMessage) (s : Session)
      (times : OrderedMap String (List ℕ))
      → is_some message.request_id ≡ true
      → is_some message.service_uuid ≡ true
      → Told answer bridge.role
          (serve_process_request config policy connected answer now drawn bridge message s
            times).0.0
          (serve_process_request config policy connected answer now drawn bridge message s
            times).0.1
  unfolding serve_process_request
  serve_process_request-Told bridge message s times asks names =
      elim (Option-cases message.request_id) [
        | inl nothing ↦ absurd (ground (arith, nothing, asks))
        | inr (request_id, asks') ↦ elim (Option-cases message.service_uuid) [
          | inl nowhere ↦ absurd (ground (arith, nowhere, names))
          | inr (uuid, names') ↦
              simp (asks', names', serve_process_request)
                (dispatch_to-Told bridge uuid (or_else message.payload Json.null) _ s)
        ]
      ]
