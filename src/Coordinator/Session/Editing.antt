-- ===== src/Coordinator/Session/Editing.antt =====
-- What a stopped board leaves alone: the runtimes that are not its own leftovers.
use hkp_node.Shared.{
  ◌≡◌, refl, ap, String, Bool, true, false, List, [], ◌∷◌, string_eq, ◌==◌, any, arith, eq_iff,
  Bool-cases, inl, inr, ◌∙◌,
}
use hkp_node.Shared.OrderedMap.{has, has-delete}
use hkp_node.Coordinator.Board.{RuntimeDescriptor, BoardConfig}
use hkp_node.Coordinator.Participants.{Connection}
use hkp_node.Coordinator.Session.{Result, answered, failed, Answers, Session, Effect, required}
use hkp_node.Coordinator.Session.Lifecycle.{removal, release_late, on_join, on_leave}
use hkp_node.Coordinator.Session.Events.{
  Event, started, stopped, destroyed, joined, left, step, run,
}
use hkp_node.Coordinator.Session.Ending.{is_removed, is_passing, all_passing, is_removed-append}

-- Whether a board requires a runtime.
abbrev pub is_required : BoardConfig → String → Bool
is_required config id = any (λ (runtime : RuntimeDescriptor). runtime.id == id) (required config)

-- A stopped session leaves a runtime alone.
abbrev IsLeft : String → Session → List Effect → Type 0
IsLeft id s effects =
    (is_removed id effects ≡ false) × (has id s.pending_release ≡ false) × (s.stopped ≡ true)

removal-other :
    (id other : String) (result : Result (Unit {0}))
    → (other == id) ≡ false
    → is_removed id (removal other result) ≡ false
removal-other id other (answered done) h = ground (arith, h)
removal-other id other (failed reason) h = refl

release_late-other :
    (id other : String) (result : Result (Unit {0})) (s : Session)
    → (other == id) ≡ false
    → has id s.pending_release ≡ false
    → s.stopped ≡ true
    → IsLeft id (release_late other result s).0 (release_late other result s).1
unfolding release_late
release_late-other id other (answered done) s h apart down =
    (ground (arith, h), ground (arith, has-delete other id s.pending_release, h, apart), down)
release_late-other id other (failed reason) s h apart down = (refl, apart, down)

on_join-IsLeft :
    (config : BoardConfig) (id : String) (connection : Connection) (asking : Answers) (s : Session)
    → is_required config id ≡ true
    → s.stopped ≡ true
    → has id s.pending_release ≡ false
    → IsLeft id (on_join config connection asking s).0 (on_join config connection asking s).1
unfolding on_join
on_join-IsLeft config id connection asking s known down apart =
    elim (Bool-cases (connection.runtime_id == id)) [
      | inl same ↦
          let e = (eq_iff connection.runtime_id id).0 same in
          let known' : is_required config connection.runtime_id ≡ true =
            ap (is_required config) e ∙ known in
          let apart' : has connection.runtime_id s.pending_release ≡ false =
            ap (λ k. has k s.pending_release) e ∙ apart in
          ground (arith, known', apart', apart, down)
      | inr other ↦ ground (
        arith,
        down,
        apart,
        removal-other id connection.runtime_id asking.remove other,
        release_late-other id connection.runtime_id asking.remove s other apart down,
      )
    ]

step-IsLeft :
    (config : BoardConfig) (id : String) (event : Event) (s : Session)
    → is_passing event ≡ true
    → is_required config id ≡ true
    → s.stopped ≡ true
    → has id s.pending_release ≡ false
    → IsLeft id (step config event s).0 (step config event s).1
unfolding step on_leave
step-IsLeft config id (joined connection asking) s passing known down apart =
    on_join-IsLeft config id connection asking s known down apart
step-IsLeft config id (left other) s passing known down apart = (refl, apart, down)
step-IsLeft config id (started connected asking) s passing known down apart = absurd (cc)
step-IsLeft config id (stopped connected asking) s passing known down apart = absurd (cc)
step-IsLeft config id (destroyed connected asking) s passing known down apart = absurd (cc)

-- A stopped board removes no runtime but its own leftovers: through any joins and leaves, no server is
-- made to remove a runtime that the board requires and that is not among those the session could not
-- release, so an editor may run it meanwhile.
pub run-stopped :
    (config : BoardConfig) (id : String) (events : List Event) (s : Session)
    → all_passing events ≡ true
    → is_required config id ≡ true
    → s.stopped ≡ true
    → has id s.pending_release ≡ false
    → is_removed id (run config events s).1 ≡ false
unfolding run
run-stopped config id [] s passing known down apart = refl
run-stopped config id (event ∷ events) s passing known down apart =
    let here = step config event s in
    let (kept, still, low) =
      step-IsLeft config id event s (ground (arith, passing)) known down apart in
    let rest = run-stopped config id events here.0 (ground (arith, passing)) known low still in
    ground (arith, kept, rest, is_removed-append id here.1 (run config events here.0).1)
