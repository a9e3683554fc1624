-- ===== src/Coordinator/Session/Leftovers.antt =====
-- Who takes away what a stop left behind.
use hkp_node.Shared.{
  ◌≡◌, refl, ◌∙◌, inl, inr, String, true, false, List, [], ◌∷◌, ◌++◌, Option, string_eq, ◌==◌, any,
  arith, eq_iff, Bool-cases,
}
use hkp_node.Shared.OrderedMap.{has, keys}
use hkp_node.Coordinator.Board.{RuntimeDescriptor, BoardConfig}
use hkp_node.Coordinator.Participants.{Connection}
use hkp_node.Coordinator.Session.{Result, answered, failed, Answers, Session, Effect, required}
use hkp_node.Coordinator.Session.Lifecycle.{stop, release_late, on_join, on_leave}
use hkp_node.Coordinator.Session.Events.{
  Event, started, stopped, destroyed, joined, left, step, run,
}
use hkp_node.Coordinator.Session.Ending.{
  is_removed, is_passing, all_passing, is_removed-append, IsOwed, on_join-IsOwed, stop-IsOwed,
  teardown-destroyed,
}

-- A stopped board stays stopped, and a session that is not over goes on.
release_late-IsDown :
    (id : String) (result : Result (Unit {0})) (s : Session)
    → (s.stopped ≡ true) × (s.destroyed ≡ false)
    → ((release_late id result s).0.stopped ≡ true)
      × ((release_late id result s).0.destroyed ≡ false)
unfolding release_late
release_late-IsDown id (answered done) s down = down
release_late-IsDown id (failed reason) s down = down

step-IsDown :
    (config : BoardConfig) (event : Event) (s : Session)
    → is_passing event ≡ true
    → (s.stopped ≡ true) × (s.destroyed ≡ false)
    → ((step config event s).0.stopped ≡ true) × ((step config event s).0.destroyed ≡ false)
unfolding step on_join on_leave
step-IsDown config (joined connection asking) s passing down =
    ground (arith, down, release_late-IsDown connection.runtime_id asking.remove s down)
step-IsDown config (left id) s passing down = down
step-IsDown config (started connected asking) s passing down = absurd (cc)
step-IsDown config (stopped connected asking) s passing down = absurd (cc)
step-IsDown config (destroyed connected asking) s passing down = absurd (cc)

step-IsOwed :
    (config : BoardConfig) (id : String) (event : Event) (s : Session)
    → is_passing event ≡ true
    → s.stopped ≡ true
    → has id s.pending_release ≡ true
    → IsOwed id (step config event s).0 (step config event s).1
unfolding step on_leave
step-IsOwed config id (joined connection asking) s passing down owed =
    on_join-IsOwed config id connection asking s down owed
step-IsOwed config id (left other) s passing down owed = owed
step-IsOwed config id (started connected asking) s passing down owed = absurd (cc)
step-IsOwed config id (stopped connected asking) s passing down owed = absurd (cc)
step-IsOwed config id (destroyed connected asking) s passing down owed = absurd (cc)

run-IsOwed :
    (config : BoardConfig) (id : String) (events : List Event) (s : Session)
    → all_passing events ≡ true
    → (s.stopped ≡ true) × (s.destroyed ≡ false)
    → has id s.pending_release ≡ true
    → IsOwed id (run config events s).0 (run config events s).1
unfolding run
run-IsOwed config id [] s passing down owed = owed
run-IsOwed config id (event ∷ events) s passing down owed =
    let here = step config event s in
    let first = step-IsOwed config id event s (ground (arith, passing)) down.0 owed in
    let both = is_removed-append id here.1 (run config events here.0).1 in
    let later =
      run-IsOwed config id events here.0 (ground (arith, passing))
        (step-IsDown config event s (ground (arith, passing)) down) in
    elim (Bool-cases (has id here.0.pending_release)) [
      | inl still ↦ ground (arith, both, later still)
      | inr done ↦ ground (arith, both, done, first)
    ]

run-IsDown :
    (config : BoardConfig) (events : List Event) (s : Session)
    → all_passing events ≡ true
    → (s.stopped ≡ true) × (s.destroyed ≡ false)
    → ((run config events s).0.stopped ≡ true) × ((run config events s).0.destroyed ≡ false)
unfolding run
run-IsDown config [] s passing down = down
run-IsDown config (event ∷ events) s passing down =
    run-IsDown config events (step config event s).0 (ground (arith, passing))
      (step-IsDown config event s (ground (arith, passing)) down)

-- The server of a runtime that is still to be removed joins, and removes it when asked.
obliging_join :
    (config : BoardConfig) (connection : Connection) (asking : Answers) (s : Session)
    → any (λ (runtime : RuntimeDescriptor). runtime.id == connection.runtime_id) (required config)
      ≡ true
    → (s.stopped ≡ true) × (s.destroyed ≡ false)
    → connection.runtime_exists ≡ true
    → asking.remove ≡ answered tt
    → has connection.runtime_id s.pending_release ≡ true
    → is_removed connection.runtime_id (on_join config connection asking s).1 ≡ true
unfolding on_join release_late
obliging_join config connection asking s known (down, alive) exists obliges owed =
    rw (alive, known, down, exists, owed, obliges, release_late, on_join)
      (ground (arith, eq_iff connection.runtime_id connection.runtime_id))

last_removed :
    (id : String) (xs ys zs : List Effect)
    → is_removed id zs ≡ true
    → is_removed id (xs ++ ys ++ zs) ≡ true
last_removed id xs ys zs h = ground (arith, is_removed-append id (xs ++ ys) zs, h)

-- Stopping a board releases its runtimes in the end: a runtime that the session built has been removed
-- by a server once its own server joins, still runs it and removes it when asked, whatever servers
-- answered to the stop and whatever joins and leaves came in between, as long as the board requires the
-- runtime and the session is not destroyed.
pub stop-run_joined :
    (config : BoardConfig) (connected : String → Option Connection) (asking : String → Answers)
    (s : Session) (events : List Event) (connection : Connection) (obliging : Answers)
    → any (λ (runtime : RuntimeDescriptor). runtime.id == connection.runtime_id) (required config)
      ≡ true
    → s.destroyed ≡ false
    → has connection.runtime_id s.built ≡ true
    → all_passing events ≡ true
    → connection.runtime_exists ≡ true
    → obliging.remove ≡ answered tt
    → is_removed connection.runtime_id (
        (stop connected asking s).1
        ++ (run config events (stop connected asking s).0).1
        ++ (on_join config connection obliging (run config events (stop connected asking s).0).0).1)
      ≡ true
unfolding stop
stop-run_joined config connected asking s events connection obliging known alive built passing
      exists obliges =
    let id = connection.runtime_id in
    let ended = stop connected asking s in
    let after = run config events ended.0 in
    let final = on_join config connection obliging after.0 in
    let down : (ended.0.stopped ≡ true) × (ended.0.destroyed ≡ false) =
      (refl, teardown-destroyed (keys s.built) connected asking s ∙ alive) in
    let whole = is_removed-append id (ended.1 ++ after.1) final.1 in
    let parts = is_removed-append id ended.1 after.1 in
    elim (Bool-cases (has id ended.0.pending_release)) [
      | inr done ↦ ground (arith, whole, parts, done, stop-IsOwed id connected asking s built)
      | inl pending ↦ elim (Bool-cases (has id after.0.pending_release)) [
        | inr done ↦
            ground
              (arith, whole, parts, done, run-IsOwed config id events ended.0 passing down pending)
        | inl still ↦ last_removed id ended.1 after.1 final.1 (
            obliging_join config connection obliging after.0 known
              (run-IsDown config events ended.0 passing down) exists obliges still)
      ]
    ]
