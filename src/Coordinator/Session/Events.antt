-- ===== src/Coordinator/Session/Events.antt =====
-- The histories of a session.
use hkp_node.Shared.{String, List, [], ◌∷◌, ◌++◌, Option, string_eq}
use hkp_node.Coordinator.Board.{BoardConfig}
use hkp_node.Coordinator.Participants.{Connection}
use hkp_node.Coordinator.Session.{Answers, Session, Effect}
use hkp_node.Coordinator.Session.Lifecycle.{start, stop, destroy, on_join, on_leave}

-- What happens to a session; who is connected and what servers answer may differ at each event.
pub data Event : Type 0 where
  started stopped destroyed : (String → Option Connection) → (String → Answers) → Event
  joined : Connection → Answers → Event
  left : String → Event

unfoldable pub step : BoardConfig → Event → Session → Session × List Effect
unfolding start stop destroy on_join on_leave
step config (started connected asking) s = start config connected asking s
step config (stopped connected asking) s = stop connected asking s
step config (destroyed connected asking) s = destroy connected asking s
step config (joined connection asking) s = on_join config connection asking s
step config (left id) s = (on_leave id s, [])

unfoldable pub run : BoardConfig → List Event → Session → Session × List Effect
unfolding step
run config [] s = (s, [])
run config (event ∷ events) s =
    let rest = run config events (step config event s).0 in
    (rest.0, (step config event s).1 ++ rest.1)
