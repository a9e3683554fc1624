-- ===== src/Coordinator/Session/Invariant.antt =====
-- What holds of a session in every history.
use hkp_node.Shared.{
  refl, ap, ◌∙◌, inl, inr, String, Bool, true, false, ◌&&◌, List, [], ◌∷◌, Option, none, some,
  string_eq, ◌==◌, any, arith, Bool-cases,
}
use hkp_node.Shared.OrderedMap.{has, delete, keys, has-delete}
use hkp_node.Coordinator.Board.{RuntimeDescriptor, BoardConfig}
use hkp_node.Coordinator.Participants.{Connection}
use hkp_node.Coordinator.Session.{Result, answered, failed, Answers, Session, required, new_session}
use hkp_node.Coordinator.Session.Lifecycle.{
  bring_up, bring_up_all, start, release, teardown, stop, destroy, release_late, on_join, on_leave,
}
use hkp_node.Coordinator.Session.Events.{
  Event, started, stopped, destroyed, joined, left, step, run,
}
use hkp_node.Coordinator.Session.States.{
  IsHeld, IsSame, IsUp-IsHeld, bring_up-IsUp, bring_up_all-IsUp,
}

release-IsSame :
    (id : String) (connection : Option Connection) (result : Result (Unit {0})) (s : Session)
    → IsSame (release id connection result s).0 s
unfolding release
release-IsSame id none result s = (refl, refl, refl)
release-IsSame id (some connection) (answered done) s = (refl, refl, refl)
release-IsSame id (some connection) (failed reason) s = (refl, refl, refl)

teardown-IsSame :
    (ids : List String) (connected : String → Option Connection) (asking : String → Answers)
    (s : Session)
    → IsSame (teardown ids connected asking s).0 s
unfolding teardown
teardown-IsSame [] connected asking s = (refl, refl, refl)
teardown-IsSame (id ∷ ids) connected asking s =
    let here = release-IsSame id (connected id) (asking id).remove s in
    let rest =
      teardown-IsSame ids connected asking (release id (connected id) (asking id).remove s).0 in
    (rest.0 ∙ here.0, rest.1 ∙ here.1, rest.2 ∙ here.2)

IsHeld-IsSame : (s t : Session) → IsSame s t → IsHeld t → IsHeld s
IsHeld-IsSame s t (l, b, d) held = rw (l, b, d) held

release_late-IsHeld :
    (id : String) (result : Result (Unit {0})) (s : Session)
    → IsHeld s
    → IsHeld (release_late id result s).0
unfolding release_late
release_late-IsHeld id (answered done) s held = held
release_late-IsHeld id (failed reason) s held = held

on_join-IsHeld :
    (config : BoardConfig) (connection : Connection) (asking : Answers) (s : Session)
    → IsHeld s
    → IsHeld (on_join config connection asking s).0
unfolding on_join
on_join-IsHeld config connection asking s held =
    let id = connection.runtime_id in
    elim (Bool-cases s.destroyed) [
      | inl over ↦ simp (over, on_join) held
      | inr open_still ↦
          elim (Bool-cases
            (any (λ (runtime : RuntimeDescriptor). runtime.id == id) (required config))) [
              | inr foreign ↦ simp (open_still, foreign, on_join) held
              | inl known ↦ elim (Bool-cases s.stopped) [
                | inr up ↦
                    simp (open_still, known, up, on_join)
                      (IsUp-IsHeld (bring_up id connection asking s).0
                        (bring_up-IsUp id connection asking s (held.0, up)))
                | inl down ↦
                    elim (Bool-cases (connection.runtime_exists && has id s.pending_release)) [
                      | inl leftover ↦
                          simp (open_still, known, down, leftover, on_join)
                            (release_late-IsHeld id asking.remove s held)
                      | inr alien ↦
                          simp (open_still, known, down, alien, on_join)
                            (held.0, λ still. held.1 down)
                    ]
              ]
            ]
    ]

step-IsHeld :
    (config : BoardConfig) (event : Event) (s : Session) → IsHeld s → IsHeld (step config event s).0
unfolding step start stop destroy on_leave has delete
step-IsHeld config (started connected asking) s held =
    let fresh : Session = record s { stopped = false; residue = []; pending_release = [] } in
    IsUp-IsHeld (bring_up_all (required config) connected asking fresh).0
      (bring_up_all-IsUp (required config) connected asking fresh (held.0, refl))
step-IsHeld config (stopped connected asking) s held =
    (λ id live. absurd (cc), λ down. (refl, refl))
step-IsHeld config (destroyed connected asking) s held =
    let over : Session = record s { destroyed = true } in
    IsHeld-IsSame (teardown (keys s.built) connected asking over).0 over
      (teardown-IsSame (keys s.built) connected asking over) held
step-IsHeld config (joined connection asking) s held =
    on_join-IsHeld config connection asking s held
step-IsHeld config (left id) s held = (
  λ other live. held.0 other (ground (arith, has-delete id other s.live, live)),
  λ down. (ap (delete id) (held.1 down).0, (held.1 down).1),
)

new_session-IsHeld : (restored : Option Bool) → IsHeld (new_session restored)
unfolding has
new_session-IsHeld restored = (λ id live. absurd (cc), λ down. (refl, refl))

events-IsHeld :
    (config : BoardConfig) (events : List Event) (s : Session)
    → IsHeld s
    → IsHeld (run config events s).0
unfolding run
events-IsHeld config [] s held = held
events-IsHeld config (event ∷ events) s held =
    events-IsHeld config events (step config event s).0 (step-IsHeld config event s held)

-- In every history of a session, from its start or its restoring on, whatever servers answer and
-- whenever they come and go: a runtime that runs was built by this session, and a stopped board runs
-- and holds none.
pub run-IsHeld :
    (config : BoardConfig) (restored : Option Bool) (events : List Event)
    → IsHeld (run config events (new_session restored)).0
run-IsHeld config restored events =
    events-IsHeld config events (new_session restored) (new_session-IsHeld restored)
