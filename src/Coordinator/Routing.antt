-- ===== src/Coordinator/Routing.antt =====
-- coordinator/session.ts, routeResult: what one runtime made goes on to the next. The environment says
-- at each hop what time it is, who may still act, which servers are connected, whether a browser hosts
-- the board, and what a browser answers; a browser that does not answer in time answers null.
pub mod Forward
use hkp_node.Shared.{
  ℕ, zero, suc, ◌+◌, String, Bool, true, false, not, ◌&&◌, ◌||◌, List, [], ◌∷◌, Option, none, some,
  if◌then◌else◌, string_eq, ◌==◌,
}
use hkp_node.Shared.Json.{Json, Number, is_finite, at_most}
use hkp_node.Shared.Json
use hkp_node.Runtime.Context.{Context, Caller, Actor, person, board, mount, local_work}
use hkp_node.Coordinator.Board.{RuntimeDescriptor, is_browser_runtime, is_remote_runtime}

-- `runMayContinue`
abbrev pub actor_may_continue : (Caller → Bool) → ℕ → Actor → Bool
actor_may_continue may_act_as now (person expires_at caller) =
    is_finite expires_at && not (at_most expires_at now) && may_act_as caller
actor_may_continue may_act_as now board = true
actor_may_continue may_act_as now mount = true
actor_may_continue may_act_as now local_work = true

unfoldable pub run_may_continue : (Caller → Bool) → ℕ → Option Context → Bool
run_may_continue may_act_as now none = true
run_may_continue may_act_as now (some context) = actor_may_continue may_act_as now context.actor

-- The runtimes after the first that has an id; `none` where no runtime has it.
unfoldable pub rest_of : String → List RuntimeDescriptor → Option (List RuntimeDescriptor)
rest_of id [] = none
rest_of id (runtime ∷ runtimes) = if runtime.id == id then some runtimes else rest_of id runtimes

-- What the loop of `nextRuntime` runs over: all runtimes, where `findIndex` finds none.
unfoldable pub after : String → List RuntimeDescriptor → List RuntimeDescriptor
unfolding rest_of
after id runtimes = elim (rest_of id runtimes) [ none ↦ runtimes | some rest ↦ rest ]

-- The loop of `nextRuntime`.
unfoldable pub first_hop : List RuntimeDescriptor → Option RuntimeDescriptor
first_hop [] = none
first_hop (next ∷ runtimes) =
    let rest = first_hop runtimes in
    if is_browser_runtime next || is_remote_runtime next then some next else rest

unfoldable pub next_runtime : String → List RuntimeDescriptor → Option RuntimeDescriptor
unfolding after first_hop
next_runtime id runtimes = first_hop (after id runtimes)

-- What the session does with a result, by the runtime that it goes to.
pub data Hop : Type 0 where
  processed_by : String → Json → Option Context → Hop
  asked_browser : String → Json → Option Context → Hop

abbrev pub hop_id : Hop → String
hop_id (processed_by id value context) = id
hop_id (asked_browser id value context) = id

-- The surroundings of a hop.
pub record Surroundings : Type 0 where
  pub now : ℕ
  pub may_act_as : Caller → Bool
  pub is_live : String → Bool
  pub is_hosted : Bool
  pub answer : String → Json → Json

abbrev pub is_null : Json → Bool
is_null Json.null = true
is_null Json.undefined = false
is_null (Json.flag b) = false
is_null (Json.number n) = false
is_null (Json.str s) = false
is_null (Json.bytes b) = false
is_null (Json.arr items) = false
is_null (Json.obj fields) = false

abbrev pub then_hop : Hop → Option (List Hop) → Option (List Hop)
then_hop hop none = none
then_hop hop (some hops) = some (hop ∷ hops)

module _ (runtimes : List RuntimeDescriptor) (context : Option Context)
    (at : ℕ → Surroundings) where
  -- `routeResult`, the hops that it takes in their order; `n` counts them, and `none` means that the
  -- fuel ran out.
  unfoldable pub route_result : ℕ → ℕ → String → Json → Option (List Hop)
  unfolding run_may_continue next_runtime
  route_result zero n from value = none
  route_result (suc fuel) n from value =
      elim (run_may_continue (at n).may_act_as (at n).now context) [
        | false ↦ some []
        | true ↦ elim (next_runtime from runtimes) [
          | none ↦ some []
          | some next ↦ elim (is_remote_runtime next) [
            | true ↦
                some
                  (if (at n).is_live next.id then processed_by next.id value context ∷ [] else [])
            | false ↦ elim ((at n).is_hosted) [
              | false ↦ some []
              | true ↦
                  then_hop (asked_browser next.id value context)
                    (elim (is_null ((at n).answer next.id value)) [
                      | true ↦ some []
                      | false ↦ route_result fuel (n + 1) next.id ((at n).answer next.id value)
                    ])
            ]
          ]
        ]
      ]
