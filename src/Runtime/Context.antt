-- ===== src/Runtime/Context.antt =====
-- runtime.ts: the context of a run, as clients, links and nested runs come by it. Drawn ids and the
-- clock's readings are arguments.
pub mod Callers
pub mod Links
use hkp_node.Shared.{
  ℕ, ◌+◌, ◌*◌, String, Bool, true, false, not, ◌||◌, List, [], ◌∷◌, Option, none, some,
  if◌then◌else◌, string_eq, ◌==◌, truthy, or_else,
}
use hkp_node.Shared.Json.{Json, Number, nat, property?, is_object, full_text, is_finite, at_most}
use hkp_node.Shared.Json
use hkp_node.Server.Auth.{AuthenticatedUser, anonymous_sub}

abbrev pub default_person_run_ttl_ms : ℕ
default_person_run_ttl_ms = 15 * 60 * 1000

-- `CallerRole`
pub data Role : Type 0 where
  owner member : Role

-- `Caller`
pub record Caller : Type 0 where
  pub sub : String
  pub email : Option String
  pub name : Option String
  pub role : Option Role

-- `RunActor`; a person has the time at which their authority ends.
pub data Actor : Type 0 where
  person : Number → Caller → Actor
  board mount local_work : Actor

-- `ProcessContext`
pub record Context : Type 0 where
  pub run_id : String
  pub parent_run_id : Option String
  pub request_id : Option String
  pub actor : Actor

unfoldable pub new_run : String → Actor → Context
new_run drawn actor = record {
  run_id = drawn;
  parent_run_id = none;
  request_id = none;
  actor = actor;
}

unfoldable pub context_from_wire : String → Json → Option Context
context_from_wire drawn value =
    if is_object value
    then some (record {
      run_id = or_else (full_text (property? "runId" value)) drawn;
      parent_run_id = full_text (property? "parentRunId" value);
      request_id = full_text (property? "requestId" value);
      actor = local_work;
    })
    else none

unfoldable pub caller_of : Option AuthenticatedUser → Option Caller
caller_of none = none
caller_of (some user) =
    if user.sub == anonymous_sub
    then none
    else some (record {
      sub = user.sub;
      email = elim user.email [
        | none ↦ none
        | some email ↦ if truthy email then some email else none
      ];
      name = none;
      role = some owner;
    })

-- The actor of `contextForClient`.
unfoldable pub client_actor : ℕ → Option Caller → Actor
client_actor now none = local_work
client_actor now (some caller) = person (nat (now + default_person_run_ttl_ms)) caller

unfoldable pub context_for_client : String → ℕ → Json → Option AuthenticatedUser → Context
unfolding context_from_wire new_run caller_of client_actor
context_for_client drawn now wire user =
    record (or_else (context_from_wire drawn wire) (new_run drawn local_work)) {
      actor = client_actor now (caller_of user);
    }

abbrev pub role_from_wire : Option Json → Option Role
role_from_wire (some (Json.str s)) =
    if s == "owner" then some owner else if s == "member" then some member else none
role_from_wire _ = none

unfoldable pub caller_from_wire : Json → Option Caller
unfolding property?
caller_from_wire wire = elim (full_text (property? "sub" wire)) [
  | none ↦ none
  | some sub ↦ some (record {
    sub = sub;
    email = full_text (property? "email" wire);
    name = full_text (property? "name" wire);
    role = role_from_wire (property? "role" wire);
  })
]

abbrev pub expiry_from_wire : Option Json → Number
expiry_from_wire (some (Json.number n)) = if is_finite n then n else nat 0
expiry_from_wire _ = nat 0

-- Somebody whose name was not stated.
abbrev pub nobody : Caller
nobody = record { sub = ""; email = none; name = none; role = none }

-- The person that `actorFromWire` reads.
unfoldable pub person_from_wire : Json → Actor
unfolding caller_from_wire
person_from_wire wire = elim (caller_from_wire wire) [
  | some caller ↦ person (expiry_from_wire (property? "expiresAt" wire)) caller
  | none ↦ person (nat 0) nobody
]

unfoldable pub actor_of_kind : Option Json → Json → Option Actor
unfolding person_from_wire
actor_of_kind (some (Json.str kind)) wire =
    if kind == "person"
    then some (person_from_wire wire)
    else if kind == "board"
    then some board
    else if kind == "mount"
    then some mount
    else if kind == "local"
    then some local_work
    else none
actor_of_kind _ wire = none

unfoldable pub actor_from_wire : Json → Option Actor
unfolding actor_of_kind property?
actor_from_wire value =
    if is_object value then actor_of_kind (property? "kind" value) value else none

unfoldable pub context_from_link : String → Json → Option Context
unfolding context_from_wire actor_from_wire property?
context_from_link drawn value = elim (context_from_wire drawn value) [
  | none ↦ none
  | some context ↦ some (record context {
    request_id = none;
    actor = or_else (actor_from_wire (or_else (property? "actor" value) Json.undefined)) board;
  })
]

-- `contextToWire`
unfoldable pub context_to_wire : Option Context → Option Context
context_to_wire none = none
context_to_wire (some context) = some (record {
  run_id = context.run_id;
  parent_run_id = elim context.parent_run_id [
    | none ↦ none
    | some parent ↦ if truthy parent then some parent else none
  ];
  request_id = none;
  actor = context.actor;
})

-- `childRun`
unfoldable pub child_run : String → Option Context → Context
unfolding new_run
child_run drawn none = new_run drawn board
child_run drawn (some parent) = record {
  run_id = drawn;
  parent_run_id = some parent.run_id;
  request_id = none;
  actor = parent.actor;
}

-- `runExpired`
unfoldable pub actor_expired : Actor → ℕ → Bool
actor_expired (person expires_at caller) now = at_most expires_at now
actor_expired board now = false
actor_expired mount now = false
actor_expired local_work now = false

unfoldable pub run_expired : Option Context → ℕ → Bool
unfolding actor_expired
run_expired none now = false
run_expired (some context) now = actor_expired context.actor now
