-- ===== src/Runtime/Pipeline.antt =====
-- runtime.ts, HostedRuntime: the services of a runtime, their order, and the call that runs through
-- them. What a service does is the host's, a parameter; the logs are not modelled.
pub mod Order
pub mod Stages
use hkp_node.Shared.{
  ℕ, ◌+◌, String, Bool, true, false, not, ◌&&◌, List, [], ◌∷◌, ◌++◌, Option, none, some, any, keep,
  drop, length, nat_beq, if◌then◌else◌, string_eq, ◌==◌,
}
use hkp_node.Shared.OrderedMap.{OrderedMap, get, has, set, delete}
use hkp_node.Shared.Json.{Json, is_nullish}
use hkp_node.Shared.Json
use hkp_node.Runtime.Context.{Context, run_expired}

-- What a service is to its runtime: the name it has, how it is created (`none` where that throws), and
-- what a call makes of a value: the world it leaves, what it says meanwhile, and its result.
pub record Hosting : Type 1 where
  pub Service : Type 0
  pub Config : Type 0
  pub World : Type 0
  pub uuid : Service → String
  pub config_uuid : Config → String
  pub create : Config → Option Service
  pub process : Service → Json → World → World × List Json × Json

-- `RuntimeNotification`, by its kind.
pub data Notification : Type 0 where
  called : String → Json → Notification
  finished : String → Json → Notification
  said : String → Json → Notification

-- `list.includes(uuid)`
abbrev pub lists : List String → String → Bool
lists order uuid = any (λ u. u == uuid) order

-- `indexOf(uuid) + 1`, which is 0 where the list does not have it.
unfoldable pub index_after : String → List String → ℕ
index_after uuid [] = 0
index_after uuid (u ∷ order) =
    let rest = index_after uuid order in
    if u == uuid then 1 else if lists order uuid then rest + 1 else 0

-- The loop of `rearrangeServices`.
abbrev pub all_known : List String → List String → Bool
all_known order [] = true
all_known order (u ∷ new_order) = lists order u && all_known order new_order

module _ (hosting : Hosting) where
  open hosting use {Service, Config, World, uuid, config_uuid, create, process}

  pub record Runtime : Type 0 where
    pub services : OrderedMap String Service
    pub service_order : List String

  -- `listServices`, the services themselves.
  unfoldable pub listed : OrderedMap String Service → List String → List Service
  listed services [] = []
  listed services (u ∷ order) = elim (get u services) [
    | none ↦ listed services order
    | some service ↦ service ∷ listed services order
  ]

  abbrev pub put_last : Service → Runtime → Runtime
  put_last service runtime = record {
    services = set (uuid service) service runtime.services;
    service_order = runtime.service_order ++ uuid service ∷ [];
  }

  -- `addService`, `none` where it throws.
  unfoldable pub add_service : Config → Runtime → Option Runtime
  add_service config runtime =
      if has (config_uuid config) runtime.services
      then none
      else (elim (create config) [ none ↦ none | some service ↦ some (put_last service runtime) ])

  unfoldable pub remove_service : String → Runtime → Runtime × Bool
  remove_service u runtime =
      if has u runtime.services
      then (
        record {
          services = delete u runtime.services;
          service_order = keep (λ v. not (v == u)) runtime.service_order;
        },
        true,
      )
      else (runtime, false)

  unfoldable pub rearrange_services : List String → Runtime → Runtime × Bool
  rearrange_services new_order runtime =
      if not (nat_beq (length new_order) (length runtime.service_order))
      then (runtime, false)
      else if all_known runtime.service_order new_order
      then (record runtime { service_order = new_order }, true)
      else (runtime, false)

  -- What a call has come to: the world, what was notified, and the value.
  abbrev pub Progress : Type 0
  Progress = World × List Notification × Json

  abbrev pub say_all : String → List Json → List Notification
  say_all u [] = []
  say_all u (payload ∷ payloads) = said u payload ∷ say_all u payloads

  -- One service's turn.
  unfoldable pub process_service : String → Service → Json → World → Progress
  process_service u service input world =
      let (world', payloads, output) = process service input world in
      (world', called u input ∷ say_all u payloads ++ finished u output ∷ [], output)

  abbrev pub prefixed : List Notification → Progress → Progress
  prefixed notices (world, later, output) = (world, notices ++ later, output)

  module _ (services : OrderedMap String Service) (context : Context) (clock : ℕ → ℕ) where
    -- The loop of `processFromIndex`; `n` counts the readings of the clock.
    unfoldable pub run_services : ℕ → List String → Json → World → Progress
    unfolding process_service
    run_services n [] input world = (world, [], input)
    run_services n (u ∷ order) input world = elim (run_expired (some context) (clock n)) [
      | true ↦ (world, [], Json.null)
      | false ↦ elim (get u services) [
        | none ↦ run_services (n + 1) order input world
        | some service ↦
            let (world', notices, output) = process_service u service input world in
            elim (is_nullish output) [
              | true ↦ (world', notices, output)
              | false ↦ prefixed notices (run_services (n + 1) order output world')
            ]
      ]
    ]

  unfoldable pub process_from_index : Runtime → Context → (ℕ → ℕ) → ℕ → Json → World → Progress
  unfolding run_services
  process_from_index runtime context clock start input world =
      run_services runtime.services context clock 0 (drop start runtime.service_order) input world

  -- `process` of the runtime, in the run that it is given or begins.
  unfoldable pub process_runtime : Runtime → Context → (ℕ → ℕ) → Json → World → Progress
  unfolding process_from_index
  process_runtime runtime context clock input world =
      process_from_index runtime context clock 0 input world

  -- `processFrom`: what a service sends on by itself.
  unfoldable pub process_from : Runtime → Context → (ℕ → ℕ) → String → Json → World → Progress
  unfolding process_from_index index_after
  process_from runtime context clock u input world =
      prefixed (called u Json.null ∷ finished u input ∷ [])
        (process_from_index runtime context clock (index_after u runtime.service_order) input world)
