-- ===== src/Tests/Session.antt =====
-- The theorems on coordinator/session.ts at concrete inputs.
use hkp_node.Shared.{
  ◌==◌, string_eq, arith, length, keep, if◌then◌else◌, ◌≤◌, Option, ◌++◌, ℕ, ◌≡◌, refl, String,
  true, false, List, [], ◌∷◌, none, some, string_eq,
}
use hkp_node.Shared.OrderedMap.{has, set}
use hkp_node.Shared.Json.{Json, nat}
use hkp_node.Runtime.Context.{member}
use hkp_node.Coordinator.Board.{RuntimeType, RuntimeDescriptor, BoardConfig, browser, rest}
use hkp_node.Coordinator.Routing.{Surroundings}
use hkp_node.Coordinator.Routing.Forward.{Ends, route_result-Ends}
use hkp_node.Coordinator.MemberRate.{is_recent}
use hkp_node.Coordinator.MemberRate.Window
use hkp_node.Coordinator.MemberRate.Window.{Event, asked, evicted, times_of, length-run}
use hkp_node.Coordinator.Participants.{Connection}
use hkp_node.Coordinator.Session.{Session, Answers, answered, failed, new_session, get_status}
use hkp_node.Coordinator.Session.Lifecycle.{stop, start, on_join}
use hkp_node.Coordinator.Session.Events.{started, stopped, joined, left, run}
use hkp_node.Coordinator.Session.Invariant.{run-IsHeld}
use hkp_node.Coordinator.Session.States.{IsHeld}
use hkp_node.Coordinator.Session.Ending.{is_removed}
use hkp_node.Coordinator.Session.Leftovers.{stop-run_joined}
use hkp_node.Coordinator.Session.Editing.{run-stopped}
use hkp_node.Coordinator.Session.Reporting.{meant_status, get_status-meant}
use hkp_node.Coordinator.Session.Notifications.{BrowserBridge, deliver_notification, person_of}
use hkp_node.Coordinator.Session.Notifications.Hearing.{frames_for, deliver_notification-frames_for}
use hkp_node.Coordinator.Routing.{run_may_continue}
use hkp_node.Coordinator.Session.Processing.{
  owner_bridge, Bridge, member_bridge, ProcessMessage, Policy, serve_process_request,
}
use hkp_node.Coordinator.Session.Processing.Capability.{
  SendsAllowed, Told, serve_process_request-allowed, serve_process_request-Told,
}

-- A board of a remote runtime, two in a browser and one more remote runtime.
abbrev runtime : String → RuntimeType → RuntimeDescriptor
runtime id kind = record { id = id; name = id; kind = kind; state = none; unit = none }

abbrev runtimes : List RuntimeDescriptor
runtimes =
    runtime "in" rest ∷ runtime "map" browser ∷ runtime "show" browser ∷ runtime "out" rest ∷ []

-- A browser that answers everything with a number, and servers that are all connected.
abbrev surroundings : ℕ → Surroundings
surroundings n = record {
  now = n;
  may_act_as = λ caller. true;
  is_live = λ id. true;
  is_hosted = true;
  answer = λ id value. Json.number (nat n);
}

route_result-Ends_example : Ends runtimes none surroundings 5 0 "in" (Json.str "go")
route_result-Ends_example =
    route_result-Ends runtimes none surroundings (refl, (refl, (refl, (refl, tt)))) "in"
      (Json.str "go")

-- Three requests of one person and one of another, who is then taken off the board; two allowed in a
-- minute.
abbrev asks : List Event
asks = asked 10 "ann" ∷ asked 20 "bob" ∷ evicted "bob" ∷ asked 30 "ann" ∷ asked 40 "ann" ∷ []

length-run_example :
    length (keep (is_recent 45) (times_of "ann" (Window.run 2 asks ([], [])).1)) ≤ 2
length-run_example =
    length-run 2 asks "ann" 45 (omega arith, (omega arith, (omega arith, (omega arith, tt))))
      (omega arith)

-- The board that has one service, on one of its remote runtimes.
abbrev config : BoardConfig
config = record {
  board_name = "board";
  runtimes = runtimes;
  services =
      (
        "out",
        record {
          uuid = "mail";
          service_id = "mail";
          service_name = none;
          name = none;
          state = none;
        }
            ∷ [],
      )
      ∷ [];
  facade = Json.null;
}

-- Servers that build whatever they are asked to, and others that remove nothing.
abbrev willing : Answers
willing = record {
  describe = answered [];
  provision = answered (record { registry = none; services = some []; missing_secrets = [] });
  remove = answered tt;
}

abbrev stubborn : Answers
stubborn = record willing { remove = failed "busy" }

abbrev server_of : String → Connection
server_of id = record {
  socket = 1;
  runtime_id = id;
  server = none;
  registry = [];
  runtime_exists = true;
}

abbrev all_there : String → Option Connection
all_there id = some (server_of id)

-- The board as it runs.
abbrev up : Session
up = (start config all_there (λ id. willing) (new_session none)).0

run-IsHeld_example :
    IsHeld
      (run config
        (started all_there (λ id. willing)
          ∷ left "in"
          ∷ stopped all_there (λ id. stubborn)
          ∷ joined (server_of "in") willing
          ∷ [])
        (new_session none)).0
run-IsHeld_example = run-IsHeld config none (
    started all_there (λ id. willing)
    ∷ left "in"
    ∷ stopped all_there (λ id. stubborn)
    ∷ joined (server_of "in") willing
    ∷ [])

stop-run_joined_example :
    is_removed "out" (
      (stop all_there (λ id. stubborn) up).1
      ++ (run config (left "out" ∷ []) (stop all_there (λ id. stubborn) up).0).1
      ++ (on_join config
          (server_of "out")
          willing
          (run config (left "out" ∷ []) (stop all_there (λ id. stubborn) up).0).0).1)
    ≡ true
unfolding start has set
stop-run_joined_example =
    stop-run_joined config all_there (λ id. stubborn) up (left "out" ∷ []) (server_of "out") willing
      refl refl refl refl refl refl

run-stopped_example :
    is_removed "out"
      (run config
        (joined (server_of "out") willing ∷ joined (server_of "gone") willing ∷ [])
        (new_session (some true))).1
    ≡ false
unfolding has
run-stopped_example =
    run-stopped config "out"
      (joined (server_of "out") willing ∷ joined (server_of "gone") willing ∷ [])
      (new_session (some true)) refl refl refl refl

get_status-meant_example :
    get_status config (new_session none) ≡ meant_status config (new_session none)
get_status-meant_example = get_status-meant config (new_session none)

-- A member who asks for what the facade offers.
abbrev policy : Policy
policy = record { process_targets = ("mail.send", tt) ∷ []; max_per_minute = 2; max_run_age = 900 }

abbrev bridge : Bridge
bridge = record {
  role = member_bridge;
  caller = some (record { sub = "u"; email = some "ann"; name = none; role = some member });
}

abbrev message : ProcessMessage
message = record {
  request_id = some "1";
  service_uuid = some "mail.send";
  runtime_id = "in";
  payload = none;
}

serve_process_request-allowed_example :
    SendsAllowed config policy all_there 5 bridge up
      (serve_process_request config policy all_there
        (λ r. answered tt)
        5
        "run"
        bridge
        message
        up
        []).0.0
serve_process_request-allowed_example =
    serve_process_request-allowed config policy all_there (λ r. answered tt) 5 "run" bridge message
      up []

serve_process_request-Told_example :
    Told
      (λ r. answered tt)
      member_bridge
      (serve_process_request config policy all_there
        (λ r. answered tt)
        5
        "run"
        bridge
        message
        up
        []).0.0
      (serve_process_request config policy all_there
        (λ r. answered tt)
        5
        "run"
        bridge
        message
        up
        []).0.1
serve_process_request-Told_example =
    serve_process_request-Told config policy all_there (λ r. answered tt) 5 "run" bridge message up
      [] refl refl

-- Two members and an owner, and a facade that reads one word of a mail service.
abbrev attached : List BrowserBridge
attached =
    record { attach = bridge; socket = 1; is_open = true }
    ∷ record { attach = record { role = owner_bridge; caller = none }; socket = 2; is_open = true }
    ∷ record { attach = bridge; socket = 3; is_open = false }
    ∷ []

abbrev word : String → Json → Option Json
word service_uuid payload = some (Json.str "sent")

deliver_notification-frames_for_example :
    deliver_notification
      (λ id. id == "mail")
      word
      "out"
      "mail"
      (Json.str "all of it")
      (λ caller. true)
      5
      none
      attached
    ≡ (if run_may_continue (λ caller. true) 5 none
        then frames_for
            (λ id. id == "mail")
            word
            "out"
            "mail"
            (Json.str "all of it")
            (person_of none)
            attached
        else [])
deliver_notification-frames_for_example =
    deliver_notification-frames_for (λ id. id == "mail") word "out" "mail" (Json.str "all of it")
      (λ caller. true) 5 none attached
