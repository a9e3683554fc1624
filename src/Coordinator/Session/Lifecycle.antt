-- ===== src/Coordinator/Session/Lifecycle.antt =====
-- coordinator/session.ts, BoardSession: starting and stopping a board, and runtime servers that come and
-- go. `asking` is what the server of a runtime answers, `connected` who is connected.
use Prim.Native.String
use text.Mathlib.Text.{starts_with}
use hkp_node.Shared.{
  String, true, false, not, ◌&&◌, List, [], ◌∷◌, ◌++◌, Option, none, some, if◌then◌else◌, string_eq,
  ◌==◌, or_else, keep, any,
}
use hkp_node.Shared.OrderedMap.{OrderedMap, get, has, set, delete, keys}
use hkp_node.Coordinator.Board.{RuntimeDescriptor, BoardConfig}
use hkp_node.Coordinator.Participants.{Connection}
use hkp_node.Coordinator.Session.{
  add, Result, answered, failed, ReportedService, ProvisionResult, Answers, Session, Effect,
  provisioned, removed, required, runtime_label, record_services,
}

-- `join(", ")`
abbrev join : List String → String
join [] = ""
join (name ∷ []) = name
join (name ∷ next ∷ names) = String.◌++◌ name (String.◌++◌ ", " (join (next ∷ names)))

-- The catch of `bringUp`.
unfoldable pub fail_runtime : String → String → Session → Session
fail_runtime id reason s = record s {
  live = delete id s.live;
  runtime_errors = set id reason s.runtime_errors;
}

-- The last lines of `bringUp`'s try.
unfoldable pub go_live : String → List ReportedService → Session → Session
unfolding record_services
go_live id services s =
    let recorded = record_services id services s in record recorded { live = add id recorded.live }

-- A runtime that is picked up where it is: `services` is what the server described.
unfoldable pub pick_up : String → Connection → Result (List ReportedService) → Session → Session
unfolding go_live fail_runtime
pick_up id connection (failed reason) s = fail_runtime id reason s
pick_up id connection (answered services) s =
    let lacking = starts_with (or_else (get id s.runtime_errors) "") "needs configuration" in
    go_live id services (record s {
      registries = set id connection.registry s.registries;
      runtime_errors = if lacking then s.runtime_errors else delete id s.runtime_errors;
    })

-- The errors after a runtime was built.
abbrev pub without_secrets :
    String → List String → OrderedMap String String → OrderedMap String String
without_secrets id [] errors = delete id errors
without_secrets id (name ∷ names) errors =
    set id
      (String.◌++◌ "needs configuration — its runtime server holds no value for "
        (join (name ∷ names)))
      errors

-- What a built runtime runs, said with its provisioning or on being asked.
abbrev pub services_of :
    Option (List ReportedService) → Result (List ReportedService) → Result (List ReportedService)
services_of none described = described
services_of (some services) described = answered services

-- A runtime that was built.
unfoldable pub take_built : String → List String → Result (List ReportedService) → Session → Session
unfolding go_live fail_runtime
take_built id missing (failed reason) s = fail_runtime id reason s
take_built id missing (answered services) s = go_live id services (record s {
  built = add id s.built;
  runtime_errors = without_secrets id missing s.runtime_errors;
})

-- A runtime that is built anew.
unfoldable pub build :
    String → Connection → Answers → Result ProvisionResult → Session → Session × List Effect
unfolding take_built fail_runtime
build id connection asking (failed reason) s = (fail_runtime id reason s, [])
build id connection asking (answered result) s = (
  take_built id result.missing_secrets (services_of result.services asking.describe)
      (record s { registries = set id (or_else result.registry connection.registry) s.registries }),
  provisioned id ∷ [],
)

-- `bringUp`
unfoldable pub bring_up : String → Connection → Answers → Session → Session × List Effect
unfolding pick_up build
bring_up id connection asking s =
    if has id s.built && connection.runtime_exists
    then (pick_up id connection asking.describe s, [])
    else build id connection asking asking.provision s

-- A required runtime as the board starts.
abbrev pub bring_up_present : String → Option Connection → Answers → Session → Session × List Effect
bring_up_present id none asking s = (s, [])
bring_up_present id (some connection) asking s = bring_up id connection asking s

-- The loop of `start` over the required runtimes.
unfoldable pub bring_up_all :
    List RuntimeDescriptor
    → (String → Option Connection)
    → (String → Answers)
    → Session
    → Session × List Effect
unfolding bring_up
bring_up_all [] connected asking s = (s, [])
bring_up_all (runtime ∷ runtimes) connected asking s =
    let id = runtime.id in
    let here = bring_up_present id (connected id) (asking id) s in
    let rest = bring_up_all runtimes connected asking here.0 in (rest.0, here.1 ++ rest.1)

-- `start`
unfoldable pub start :
    BoardConfig
    → (String → Option Connection)
    → (String → Answers)
    → Session
    → Session × List Effect
unfolding bring_up_all
start config connected asking s =
    bring_up_all (required config) connected asking
      (record s { stopped = false; residue = []; pending_release = [] })

-- A removal that did not succeed, on the list of what a stop left.
abbrev unreleased_away : String → String
unreleased_away id =
    String.◌++◌ (runtime_label id)
      " could not be released because its runtime server is not connected; it may still be running, and is released when that server reconnects."

abbrev unreleased_failed : String → String → String
unreleased_failed id reason =
    String.◌++◌ (runtime_label id)
      (String.◌++◌ " could not be released (" (String.◌++◌ reason "); it may still be running."))

-- What `teardownRuntimes` does for one runtime: the session, what it says, the effects.
unfoldable pub release :
    String → Option Connection → Result (Unit {0}) → Session → Session × List String × List Effect
release id none result s =
    (record s { pending_release = add id s.pending_release }, unreleased_away id ∷ [], [])
release id (some connection) (answered done) s =
    (record s { pending_release = delete id s.pending_release }, [], removed id ∷ [])
release id (some connection) (failed reason) s =
    (record s { pending_release = add id s.pending_release }, unreleased_failed id reason ∷ [], [])

-- `teardownRuntimes`
unfoldable pub teardown :
    List String
    → (String → Option Connection)
    → (String → Answers)
    → Session
    → Session × List String × List Effect
unfolding release
teardown [] connected asking s = (s, [], [])
teardown (id ∷ ids) connected asking s =
    let here = release id (connected id) (asking id).remove s in
    let rest = teardown ids connected asking here.0 in (rest.0, here.1 ++ rest.1, here.2 ++ rest.2)

-- `stop`
unfoldable pub stop :
    (String → Option Connection) → (String → Answers) → Session → Session × List Effect
unfolding teardown
stop connected asking s =
    let ended = teardown (keys s.built) connected asking s in
    (
      record (ended.0) {
        live = [];
        built = [];
        runtime_errors = [];
        mount_addresses = [];
        service_states = [];
        registries = [];
        residue = ended.1;
        stopped = true;
      },
      ended.2,
    )

-- What `destroy` does to the runtimes.
unfoldable pub destroy :
    (String → Option Connection) → (String → Answers) → Session → Session × List Effect
unfolding teardown
destroy connected asking s =
    let ended = teardown (keys s.built) connected asking (record s { destroyed = true }) in
    (ended.0, ended.2)

abbrev drop_residue : String → List String → List String
drop_residue id lines = keep (λ line. not (starts_with line (runtime_label id))) lines

-- A removal that a runtime server was asked for on joining a stopped board.
unfoldable pub release_late : String → Result (Unit {0}) → Session → Session × List Effect
release_late id (failed reason) s = (s, [])
release_late id (answered done) s = (
  record s { pending_release = delete id s.pending_release; residue = drop_residue id s.residue },
  removed id ∷ [],
)

abbrev pub removal : String → Result (Unit {0}) → List Effect
removal id (answered done) = removed id ∷ []
removal id (failed reason) = []

-- `onJoin`
unfoldable pub on_join : BoardConfig → Connection → Answers → Session → Session × List Effect
unfolding release_late bring_up
on_join config connection asking s =
    let id = connection.runtime_id in
    if s.destroyed
    then (s, [])
    else if not (any (λ (runtime : RuntimeDescriptor). runtime.id == id) (required config))
    then (s, if connection.runtime_exists then removal id asking.remove else [])
    else if s.stopped
    then (if connection.runtime_exists && has id s.pending_release
        then release_late id asking.remove s
        else (s, []))
    else bring_up id connection asking s

-- `onLeave`
unfoldable pub on_leave : String → Session → Session
on_leave id s = record s { live = delete id s.live }
