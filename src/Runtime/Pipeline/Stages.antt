-- ===== src/Runtime/Pipeline/Stages.antt =====
-- A call through the services of a runtime, split at a service.
use mathlib.Core.List.{append_assoc}
use hkp_node.Shared.{
  ℕ, suc, ◌+◌, ◌≡◌, refl, sym, ap, ◌∙◌, String, true, false, List, [], ◌∷◌, ◌++◌, some, drop,
  length, string_eq, arith, eq_iff, Bool-cases, Option-cases, inl, inr, drop-length-append,
  length-append,
}
use hkp_node.Shared.OrderedMap.{OrderedMap, get}
use hkp_node.Shared.Json.{Json, is_nullish}
use hkp_node.Runtime.Context.{Context, run_expired}
use hkp_node.Runtime.Pipeline.{
  Hosting, Notification, lists, index_after, Runtime, Progress, process_service, prefixed,
  run_services, process_from_index, process_runtime, process_from,
}

module _ (hosting : Hosting) where
  open hosting use {Service, World}

  module _ (services : OrderedMap String Service) (context : Context) (clock : ℕ → ℕ) where
    -- Where the services `order` go on after what a call has come to, unless it stopped.
    abbrev pub go_on : ℕ → List String → Progress hosting → Progress hosting
    go_on n order (world, notices, output) = elim (is_nullish output) [
      | true ↦ (world, notices, output)
      | false ↦
          prefixed hosting notices
            (run_services hosting services context clock n order output world)
    ]

    go_on_stopped :
        (n : ℕ) (order : List String) (p : Progress hosting)
        → is_nullish p.2 ≡ true
        → go_on n order p ≡ p
    go_on_stopped n order (world, notices, output) stopped = rw (stopped, go_on) refl

    go_on-prefixed :
        (n : ℕ) (order : List String) (notices : List Notification) (p : Progress hosting)
        → go_on n order (prefixed hosting notices p) ≡ prefixed hosting notices (go_on n order p)
    go_on-prefixed n order notices (world, later, output) = elim (Bool-cases (is_nullish output)) [
      | inl stopped ↦ rw (stopped, go_on, prefixed) refl
      | inr going ↦ rw (going, go_on, prefixed, append_assoc) refl
    ]

    -- Services in a row are stages: a call with a value runs through the first of them and, unless it
    -- stopped there, takes what they made through the rest.
    run_services-append :
        (n : ℕ) (first rest : List String) (input : Json) (world : World)
        → is_nullish input ≡ false
        → run_services hosting services context clock n (first ++ rest) input world
          ≡ go_on
              (n + length first)
              rest
              (run_services hosting services context clock n first input world)
    unfolding run_services
    run_services-append n [] rest input world h =
        let same : n + 0 ≡ n = omega arith in rw (h, same) refl
    run_services-append n (u ∷ first) rest input world h =
        let later : n + suc (length first) ≡ n + 1 + length first = omega arith in
        elim (Bool-cases (run_expired (some context) (clock n))) [
          | inl expired ↦ rw (expired, run_services) refl
          | inr fresh ↦ elim (Option-cases (get u services)) [
            | inl missing ↦
                rw (fresh, missing, later, run_services)
                  (run_services-append (n + 1) first rest input world h)
            | inr (service, there) ↦
                let p = process_service hosting u service input world in
                elim (Bool-cases (is_nullish p.2)) [
                  | inl stopped ↦
                      rw (fresh, there, stopped, run_services)
                        (sym (go_on_stopped (n + suc (length first)) rest p stopped))
                  | inr going ↦
                      rw (fresh, there, going, later, run_services)
                        (ap (prefixed hosting p.1)
                            (run_services-append (n + 1) first rest p.2 p.0 going)
                          ∙ sym (
                              go_on-prefixed (n + 1 + length first) rest p.1 (
                                run_services hosting services context clock (n + 1) first p.2 p.0)))
                ]
          ]
        ]

  -- Readings of a clock that is ahead.
  run_services-shifted :
      (services : OrderedMap String Service) (context : Context) (clock : ℕ → ℕ) (m n : ℕ)
      (order : List String) (input : Json) (world : World)
      → run_services hosting services context clock (m + n) order input world
        ≡ run_services hosting services context (λ k. clock (m + k)) n order input world
  unfolding run_services
  run_services-shifted services context clock m n [] input world = refl
  run_services-shifted services context clock m n (u ∷ order) input world =
      let later : m + n + 1 ≡ m + (n + 1) = omega arith in
      elim (Bool-cases (run_expired (some context) (clock (m + n)))) [
        | inl expired ↦ rw (expired, run_services) refl
        | inr fresh ↦ elim (Option-cases (get u services)) [
          | inl missing ↦
              rw (fresh, missing, later, run_services)
                (run_services-shifted services context clock m (n + 1) order input world)
          | inr (service, there) ↦
              let p = process_service hosting u service input world in
              elim (Bool-cases (is_nullish p.2)) [
                | inl stopped ↦ rw (fresh, there, stopped, run_services) refl
                | inr going ↦
                    rw (fresh, there, going, later, run_services)
                      (ap (prefixed hosting p.1)
                        (run_services-shifted services context clock m (n + 1) order p.2 p.0))
              ]
        ]
      ]

  lists-append : (u : String) (first rest : List String) → lists (first ++ u ∷ rest) u ≡ true
  lists-append u [] rest = ground (arith, eq_iff u u)
  lists-append u (v ∷ first) rest = ground (arith, lists-append u first rest)

  index_after-append :
      (u : String) (first rest : List String)
      → lists first u ≡ false
      → index_after u (first ++ u ∷ rest) ≡ length first + 1
  unfolding index_after
  index_after-append u [] rest h = ground (arith, eq_iff u u)
  index_after-append u (v ∷ first) rest h =
      ground (arith, h, lists-append u first rest, index_after-append u first rest)

  append_one :
      (u : String) (first rest : List String) → first ++ u ∷ rest ≡ (first ++ u ∷ []) ++ rest
  append_one u first rest = sym (append_assoc first (u ∷ []) rest)

  after_lem :
      (u : String) (first rest : List String)
      → lists first u ≡ false
      → drop (index_after u (first ++ u ∷ rest)) (first ++ u ∷ rest) ≡ rest
  after_lem u first rest new =
      let count : index_after u (first ++ u ∷ rest) ≡ length (first ++ u ∷ []) =
        omega (arith, index_after-append u first rest new, length-append first (u ∷ [])) in
      rw (count, append_one u first rest) (drop-length-append (first ++ u ∷ []) rest)

  through_lem :
      (services : OrderedMap String Service) (context : Context) (clock : ℕ → ℕ)
      (first rest : List String) (u : String) (input : Json) (world : World) (p : Progress hosting)
      → is_nullish input ≡ false
      → run_services hosting services context clock 0 (first ++ u ∷ []) input world ≡ p
      → is_nullish p.2 ≡ false
      → run_services hosting services context clock 0 (first ++ u ∷ rest) input world
        ≡ prefixed hosting p.1 (
            run_services hosting services context
              (λ n. clock (length first + 1 + n))
              0
              rest
              p.2
              p.0)
  through_lem services context clock first rest u input world p full h going =
      let count : 0 + length (first ++ u ∷ []) ≡ length first + 1 + 0 =
        omega (arith, length-append first (u ∷ [])) in
      ap (λ order. run_services hosting services context clock 0 order input world)
        (append_one u first rest)
      ∙ run_services-append services context clock 0 (first ++ u ∷ []) rest input world full
      ∙ ap
          (λ m.
            go_on services context clock m rest
              (run_services hosting services context clock 0 (first ++ u ∷ []) input world))
          count
      ∙ ap (go_on services context clock (length first + 1 + 0) rest) h
      ∙ rw (going, go_on)
          (ap (prefixed hosting p.1)
            (run_services-shifted services context clock (length first + 1) 0 rest p.2 p.0))

  -- What a service sends on by itself goes the way of what it returns: after a call that ran through
  -- the services up to and including `u` and did not stop, `processFrom` at `u` with what `u` made
  -- leaves the same world and answers the same as the call itself.
  pub process_runtime-process_from :
      (runtime : Runtime hosting) (context : Context) (clock : ℕ → ℕ) (first rest : List String)
      (u : String) (input : Json) (world : World) (p : Progress hosting)
      → runtime.service_order ≡ first ++ u ∷ rest
      → lists first u ≡ false
      → is_nullish input ≡ false
      → run_services hosting runtime.services context clock 0 (first ++ u ∷ []) input world ≡ p
      → is_nullish p.2 ≡ false
      → ((process_runtime hosting runtime context clock input world).0
          ≡ (process_from hosting runtime context (λ n. clock (length first + 1 + n)) u p.2 p.0).0)
        × ((process_runtime hosting runtime context clock input world).2
            ≡ (process_from hosting runtime context
                (λ n. clock (length first + 1 + n))
                u
                p.2
                p.0).2)
  unfolding process_runtime process_from process_from_index
  process_runtime-process_from runtime context clock first rest u input world p order new full h
        going =
      let all =
        ap (λ o. run_services hosting runtime.services context clock 0 o input world) order
        ∙ through_lem runtime.services context clock first rest u input world p full h going in
      let tail : drop (index_after u runtime.service_order) runtime.service_order ≡ rest =
        rw order (after_lem u first rest new) in
      rw tail (ap (λ (q : Progress hosting). q.0) all, ap (λ (q : Progress hosting). q.2) all)
