-- ===== src/Coordinator/Session/Ending.antt =====
-- What a stopped board leaves behind, and who takes it away.
use hkp_node.Shared.{
  ◌≡◌, refl, ◌∙◌, inl, inr, String, Bool, true, false, ◌&&◌, ◌||◌, List, [], ◌∷◌, ◌++◌, Option,
  none, some, string_eq, ◌==◌, any, arith, Bool-cases,
}
use hkp_node.Shared.OrderedMap.{has, keys, has-set, has-delete}
use hkp_node.Coordinator.Board.{BoardConfig}
use hkp_node.Coordinator.Participants.{Connection}
use hkp_node.Coordinator.Session.{
  Names, Result, answered, failed, Answers, Session, Effect, provisioned, removed,
}
use hkp_node.Coordinator.Session.Lifecycle.{release, teardown, stop, release_late, on_join}
use hkp_node.Coordinator.Session.Events.{Event, started, stopped, destroyed, joined, left}

-- Whether a server removed a runtime.
abbrev pub is_removed : String → List Effect → Bool
is_removed id [] = false
is_removed id (removed other ∷ effects) = other == id || is_removed id effects
is_removed id (provisioned other ∷ effects) = is_removed id effects

-- The events while a board stays stopped.
abbrev pub is_passing : Event → Bool
is_passing (joined connection asking) = true
is_passing (left id) = true
is_passing (started connected asking) = false
is_passing (stopped connected asking) = false
is_passing (destroyed connected asking) = false

abbrev pub all_passing : List Event → Bool
all_passing [] = true
all_passing (event ∷ events) = is_passing event && all_passing events

pub is_removed-append :
    (id : String) (xs ys : List Effect)
    → is_removed id (xs ++ ys) ≡ (is_removed id xs || is_removed id ys)
is_removed-append id [] ys = refl
is_removed-append id (removed other ∷ xs) ys = ground (arith, is_removed-append id xs ys)
is_removed-append id (provisioned other ∷ xs) ys = is_removed-append id xs ys

-- A runtime that was to be removed was, or still is to be.
abbrev pub IsOwed : String → Session → List Effect → Type 0
IsOwed id s effects = (is_removed id effects || has id s.pending_release) ≡ true

release-IsOwed :
    (id other : String) (connection : Option Connection) (result : Result (Unit {0})) (s : Session)
    → ((other == id) || has id s.pending_release) ≡ true
    → IsOwed id (release other connection result s).0 (release other connection result s).2
unfolding release
release-IsOwed id other none result s h = ground (arith, has-set other id tt s.pending_release)
release-IsOwed id other (some connection) (answered done) s h =
    ground (arith, has-delete other id s.pending_release)
release-IsOwed id other (some connection) (failed reason) s h =
    ground (arith, has-set other id tt s.pending_release)

teardown-IsOwed :
    (id : String) (ids : List String) (connected : String → Option Connection)
    (asking : String → Answers) (s : Session)
    → (any (λ other. other == id) ids || has id s.pending_release) ≡ true
    → IsOwed id (teardown ids connected asking s).0 (teardown ids connected asking s).2
unfolding teardown
teardown-IsOwed id [] connected asking s h = h
teardown-IsOwed id (other ∷ ids) connected asking s h =
    let here = release other (connected other) (asking other).remove s in
    let rest = teardown-IsOwed id ids connected asking here.0 in
    let first = release-IsOwed id other (connected other) (asking other).remove s in
    let both = is_removed-append id here.2 (teardown ids connected asking here.0).2 in
    elim (Bool-cases (any (λ later. later == id) ids || has id here.0.pending_release)) [
      | inl still ↦ ground (arith, both, rest still)
      | inr done ↦ ground (arith, both, done, h, first)
    ]

any-keys : (id : String) (names : Names) → any (λ other. other == id) (keys names) ≡ has id names
unfolding has
any-keys id [] = refl
any-keys id ((other, _) ∷ names) = ground (arith, any-keys id names)

release_late-IsOwed :
    (id other : String) (result : Result (Unit {0})) (s : Session)
    → has id s.pending_release ≡ true
    → IsOwed id (release_late other result s).0 (release_late other result s).1
unfolding release_late
release_late-IsOwed id other (answered done) s owed =
    ground (arith, has-delete other id s.pending_release, owed)
release_late-IsOwed id other (failed reason) s owed = owed

pub on_join-IsOwed :
    (config : BoardConfig) (id : String) (connection : Connection) (asking : Answers) (s : Session)
    → s.stopped ≡ true
    → has id s.pending_release ≡ true
    → IsOwed id (on_join config connection asking s).0 (on_join config connection asking s).1
unfolding on_join
on_join-IsOwed config id connection asking s down owed =
    ground (arith, down, owed, release_late-IsOwed id connection.runtime_id asking.remove s owed)

release-destroyed :
    (id : String) (connection : Option Connection) (result : Result (Unit {0})) (s : Session)
    → (release id connection result s).0.destroyed ≡ s.destroyed
unfolding release
release-destroyed id none result s = refl
release-destroyed id (some connection) (answered done) s = refl
release-destroyed id (some connection) (failed reason) s = refl

pub teardown-destroyed :
    (ids : List String) (connected : String → Option Connection) (asking : String → Answers)
    (s : Session)
    → (teardown ids connected asking s).0.destroyed ≡ s.destroyed
unfolding teardown
teardown-destroyed [] connected asking s = refl
teardown-destroyed (id ∷ ids) connected asking s =
    teardown-destroyed ids connected asking (release id (connected id) (asking id).remove s).0
    ∙ release-destroyed id (connected id) (asking id).remove s

pub stop-IsOwed :
    (id : String) (connected : String → Option Connection) (asking : String → Answers) (s : Session)
    → has id s.built ≡ true
    → IsOwed id (stop connected asking s).0 (stop connected asking s).1
unfolding stop
stop-IsOwed id connected asking s built =
    teardown-IsOwed id (keys s.built) connected asking s
      (ground (arith, any-keys id s.built, built))
