-- ===== src/Coordinator/Session/States.antt =====
-- A board that is up runs only what it built.
use hkp_node.Shared.{
  ◌≡◌, refl, ap, ◌∙◌, inl, inr, String, true, false, ◌&&◌, List, [], ◌∷◌, Option, if◌then◌else◌,
  string_eq, ◌==◌, or_else, arith, eq_iff, truthy, Bool-cases, Option-cases,
}
use hkp_node.Shared.OrderedMap.{OrderedMap, has, set, has-set, has-delete}
use hkp_node.Shared.Json.{Json}
use hkp_node.Coordinator.Board.{RuntimeDescriptor}
use hkp_node.Coordinator.Participants.{Connection}
use hkp_node.Coordinator.Session.{
  Result, answered, failed, ReportedService, ProvisionResult, Answers, Session,
  record_mount_address, published, record_each, record_services,
}
use hkp_node.Coordinator.Session.Lifecycle.{
  fail_runtime, go_live, pick_up, take_built, build, bring_up, bring_up_all, services_of,
}

-- What runs was built, and a stopped board holds nothing.
abbrev pub IsHeld : Session → Type 0
IsHeld s =
    ((id : String) → has id s.live ≡ true → has id s.built ≡ true)
    × (s.stopped ≡ true → (s.live ≡ []) × (s.built ≡ []))

-- A board that is not stopped, with what runs built.
abbrev pub IsUp : Session → Type 0
IsUp s = ((id : String) → has id s.live ≡ true → has id s.built ≡ true) × (s.stopped ≡ false)

pub IsUp-IsHeld : (s : Session) → IsUp s → IsHeld s
IsUp-IsHeld s (h, up) = (h, λ down. absurd (ground (arith, up, down)))

-- Recording what a runtime serves changes nothing of what is held.
abbrev pub IsSame : Session → Session → Type 0
IsSame s t = (s.live ≡ t.live) × (s.built ≡ t.built) × (s.stopped ≡ t.stopped)

record_mount_address-IsSame :
    (runtime_id uuid url : String) (s : Session)
    → IsSame (record_mount_address runtime_id uuid url s).0 s
unfolding record_mount_address
record_mount_address-IsSame runtime_id uuid url s = ground arith

record_each-IsSame :
    (runtime_id : String) (services : List ReportedService)
    (states : OrderedMap String (Option Json)) (s : Session)
    → IsSame (record_each runtime_id services states s).0 s
unfolding record_each
record_each-IsSame runtime_id [] states s = (refl, refl, refl)
record_each-IsSame runtime_id (service ∷ services) states s =
    let uuid = or_else service.uuid "" in
    let url = published service.state in
    let states' = if truthy uuid then set uuid service.state states else states in
    let next = (record_mount_address runtime_id uuid url s).0 in
    elim (Bool-cases (truthy uuid && truthy url)) [
      | inl says ↦
          let rest = record_each-IsSame runtime_id services states' next in
          let here = record_mount_address-IsSame runtime_id uuid url s in
          rw (says, record_each) (rest.0 ∙ here.0, rest.1 ∙ here.1, rest.2 ∙ here.2)
      | inr silent ↦ rw (silent, record_each) (record_each-IsSame runtime_id services states' s)
    ]

go_live-IsUp :
    (id : String) (services : List ReportedService) (s : Session)
    → has id s.built ≡ true
    → IsUp s
    → IsUp (go_live id services s)
unfolding go_live record_services
go_live-IsUp id services s there (h, up) =
    let same = record_each-IsSame id services [] s in
    (
      λ other live. ground (
        arith,
        there,
        h other,
        eq_iff id other,
        same.0,
        same.1,
        live,
        has-set id other tt (record_each id services [] s).0.live,
        λ (e : (id == other) ≡ true). ap (λ k. has k s.built) ((eq_iff id other).0 e),
      ),
      same.2 ∙ up,
    )

fail_runtime-IsUp : (id reason : String) (s : Session) → IsUp s → IsUp (fail_runtime id reason s)
unfolding fail_runtime
fail_runtime-IsUp id reason s (h, up) =
    (λ other live. h other (ground (arith, has-delete id other s.live, live)), up)

pick_up-IsUp :
    (id : String) (connection : Connection) (result : Result (List ReportedService)) (s : Session)
    → has id s.built ≡ true
    → IsUp s
    → IsUp (pick_up id connection result s)
unfolding pick_up
pick_up-IsUp id connection (failed reason) s there up = fail_runtime-IsUp id reason s up
pick_up-IsUp id connection (answered services) s there up = go_live-IsUp id services _ there up

take_built-IsUp :
    (id : String) (missing : List String) (result : Result (List ReportedService)) (s : Session)
    → IsUp s
    → IsUp (take_built id missing result s)
unfolding take_built
take_built-IsUp id missing (failed reason) s up = fail_runtime-IsUp id reason s up
take_built-IsUp id missing (answered services) s (h, up) =
    go_live-IsUp id services _ (ground (arith, has-set id id tt s.built, eq_iff id id))
      (λ other live. ground (arith, h other live, has-set id other tt s.built), up)

build-IsUp :
    (id : String) (connection : Connection) (asking : Answers) (result : Result ProvisionResult)
    (s : Session)
    → IsUp s
    → IsUp (build id connection asking result s).0
unfolding build
build-IsUp id connection asking (failed reason) s up = fail_runtime-IsUp id reason s up
build-IsUp id connection asking (answered result) s up =
    take_built-IsUp id result.missing_secrets (services_of result.services asking.describe) _ up

pub bring_up-IsUp :
    (id : String) (connection : Connection) (asking : Answers) (s : Session)
    → IsUp s
    → IsUp (bring_up id connection asking s).0
unfolding bring_up
bring_up-IsUp id connection asking s up = elim (Bool-cases (has id s.built)) [
  | inr fresh ↦ rw (fresh, bring_up) (build-IsUp id connection asking asking.provision s up)
  | inl there ↦ elim (Bool-cases connection.runtime_exists) [
    | inl kept ↦ rw (there, kept, bring_up) (pick_up-IsUp id connection asking.describe s there up)
    | inr lost ↦ rw (there, lost, bring_up) (build-IsUp id connection asking asking.provision s up)
  ]
]

pub bring_up_all-IsUp :
    (runtimes : List RuntimeDescriptor) (connected : String → Option Connection)
    (asking : String → Answers) (s : Session)
    → IsUp s
    → IsUp (bring_up_all runtimes connected asking s).0
unfolding bring_up_all
bring_up_all-IsUp [] connected asking s up = up
bring_up_all-IsUp (runtime ∷ runtimes) connected asking s up =
    elim (Option-cases (connected runtime.id)) [
      | inl away ↦ rw (away, bring_up_all) (bring_up_all-IsUp runtimes connected asking s up)
      | inr (connection, here) ↦
          rw (here, bring_up_all)
            (bring_up_all-IsUp runtimes connected asking _
              (bring_up-IsUp runtime.id connection (asking runtime.id) s up))
    ]
