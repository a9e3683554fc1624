-- ===== src/Runtime/Pipeline/Order.antt =====
-- The order of a runtime's services against the services themselves, through every edit.
use hkp_node.Shared.{
  suc, ◌≡◌, refl, ap, ◌∙◌, String, true, false, not, List, [], ◌∷◌, ◌++◌, none, some, keep, length,
  nat_beq, if◌then◌else◌, string_eq, ◌==◌, arith, eq_iff, Bool-cases, Option-cases, inl, inr, All,
}
use hkp_node.Shared.OrderedMap.{has, Distinct, set-Distinct, delete-Distinct, has-set, has-delete}
use hkp_node.Runtime.Pipeline.{
  Hosting, lists, Runtime, put_last, add_service, remove_service, all_known, rearrange_services,
}

-- Nothing stands twice in an order.
abbrev pub IsApart : List String → Type 0
IsApart [] = Unit
IsApart (u ∷ order) = (lists order u ≡ false) × IsApart order

lists-append_one :
    (order : List String) (u v : String)
    → lists (order ++ u ∷ []) v ≡ (if u == v then true else lists order v)
lists-append_one [] u v = ground arith
lists-append_one (w ∷ order) u v = ground (arith, lists-append_one order u v)

append_one-IsApart :
    (order : List String) (u : String)
    → lists order u ≡ false
    → IsApart order
    → IsApart (order ++ u ∷ [])
append_one-IsApart [] u new apart = (refl, tt)
append_one-IsApart (v ∷ order) u new apart =
    ground (arith, lists-append_one order u v, eq_iff u v, eq_iff v u, append_one-IsApart order u)

lists-keep :
    (order : List String) (u v : String)
    → lists (keep (λ w. not (w == u)) order) v ≡ (if u == v then false else lists order v)
lists-keep [] u v = ground arith
lists-keep (w ∷ order) u v =
    ground (arith, eq_iff w u, eq_iff w v, eq_iff u v, lists-keep order u v)

keep-IsApart :
    (order : List String) (u : String) → IsApart order → IsApart (keep (λ w. not (w == u)) order)
keep-IsApart [] u apart = tt
keep-IsApart (v ∷ order) u apart = ground (arith, lists-keep order u v, keep-IsApart order u)

-- An order without one entry of a name.
without : String → List String → List String
without u [] = []
without u (v ∷ order) = let rest = without u order in if v == u then order else v ∷ rest

length-without :
    (u : String) (order : List String)
    → lists order u ≡ true
    → suc (length (without u order)) ≡ length order
unfolding without
length-without u [] h = cc
length-without u (v ∷ order) h = ground (arith, length-without u order)

lists-without :
    (u v : String) (order : List String)
    → (u == v) ≡ false
    → lists (without u order) v ≡ lists order v
unfolding without
lists-without u v [] h = refl
lists-without u v (w ∷ order) h =
    ground (arith, h, eq_iff w u, eq_iff w v, eq_iff u v, lists-without u v order h)

all_known-without :
    (u : String) (order new_order : List String)
    → lists new_order u ≡ false
    → all_known order new_order ≡ true
    → all_known (without u order) new_order ≡ true
all_known-without u order [] new known = refl
all_known-without u order (v ∷ new_order) new known =
    ground
      (arith, eq_iff u v, eq_iff v u, lists-without u v order, all_known-without u order new_order)

-- Names that are known, as many as there are and none twice, are all the names.
lists-all_known :
    (new_order order : List String) (u : String)
    → length new_order ≡ length order
    → IsApart new_order
    → all_known order new_order ≡ true
    → lists new_order u ≡ lists order u
lists-all_known [] [] u count apart known = refl
lists-all_known [] (v ∷ order) u count apart known = absurd (omega (arith, count))
lists-all_known (v ∷ new_order) order u count apart known =
    let there : lists order v ≡ true = ground (arith, known) in
    let later : all_known order new_order ≡ true = ground (arith, known) in
    let fewer : length new_order ≡ length (without v order) =
      omega (arith, count, length-without v order there) in
    let rest =
      lists-all_known new_order (without v order) u fewer apart.1
        (all_known-without v order new_order apart.0 later) in
    ground (arith, rest, there, eq_iff v u, lists-without v u order)

-- The edits of a runtime's services.
pub data Edit (Config : Type 0) : Type 0 where
  adds : Config → Edit Config
  removes : String → Edit Config
  rearranges : List String → Edit Config

module _ (hosting : Hosting) where
  open hosting use {Service, Config, uuid, config_uuid, create}

  -- Services and order agree: each service stands in the order once, and nothing else does.
  pub record IsConsistent (runtime : Runtime hosting) : Type 0 where
    pub distinct : Distinct runtime.services
    pub apart : IsApart runtime.service_order
    pub same : (u : String) → lists runtime.service_order u ≡ has u runtime.services

  -- An edit; one that throws or is refused leaves the runtime as it is.
  unfoldable pub edit : Edit Config → Runtime hosting → Runtime hosting
  edit (adds config) runtime = elim (add_service hosting config runtime) [
    | none ↦ runtime
    | some runtime' ↦ runtime'
  ]
  edit (removes u) runtime = (remove_service hosting u runtime).0
  edit (rearranges new_order) runtime = (rearrange_services hosting new_order runtime).0

  unfoldable pub edit_all : List (Edit Config) → Runtime hosting → Runtime hosting
  unfolding edit
  edit_all [] runtime = runtime
  edit_all (e ∷ es) runtime = edit_all es (edit e runtime)

  put_last-IsConsistent :
      (service : Service) (runtime : Runtime hosting)
      → has (uuid service) runtime.services ≡ false
      → IsConsistent runtime
      → IsConsistent (put_last hosting service runtime)
  put_last-IsConsistent service runtime new c = record {
    distinct = set-Distinct (uuid service) service runtime.services c.distinct;
    apart =
        append_one-IsApart runtime.service_order (uuid service) (c.same (uuid service) ∙ new)
          c.apart;
    same = λ u. ground (
      arith,
      c.same u,
      lists-append_one runtime.service_order (uuid service) u,
      has-set (uuid service) u service runtime.services,
    );
  }

  remove_service-IsConsistent :
      (u : String) (runtime : Runtime hosting)
      → IsConsistent runtime
      → IsConsistent (remove_service hosting u runtime).0
  unfolding remove_service
  remove_service-IsConsistent u runtime c = elim (Bool-cases (has u runtime.services)) [
    | inl there ↦ rw there (record {
      distinct = delete-Distinct u runtime.services c.distinct;
      apart = keep-IsApart runtime.service_order u c.apart;
      same = λ v.
          ground (
            arith,
            c.same v,
            lists-keep runtime.service_order u v,
            has-delete u v runtime.services,
          );
    })
    | inr missing ↦ rw missing c
  ]

  -- What an edit must bring: an order without duplicates.
  abbrev pub IsFit : Edit Config → Type 0
  IsFit (adds config) = Unit
  IsFit (removes u) = Unit
  IsFit (rearranges new_order) = IsApart new_order

  add_service-IsConsistent :
      (config : Config) (runtime : Runtime hosting)
      → ((c : Config) (s : Service) → create c ≡ some s → uuid s ≡ config_uuid c)
      → IsConsistent runtime
      → IsConsistent (edit (adds config) runtime)
  unfolding edit add_service
  add_service-IsConsistent config runtime named c =
      elim (Bool-cases (has (config_uuid config) runtime.services)) [
        | inl there ↦ rw (there, edit, add_service) c
        | inr new ↦ elim (Option-cases (create config)) [
          | inl thrown ↦ rw (new, thrown, edit, add_service) c
          | inr (service, made) ↦
              rw (new, made, edit, add_service)
                (put_last-IsConsistent service runtime
                  (ap (λ u. has u runtime.services) (named config service made) ∙ new) c)
        ]
      ]

  rearrange_services-IsConsistent :
      (new_order : List String) (runtime : Runtime hosting)
      → IsApart new_order
      → IsConsistent runtime
      → IsConsistent (rearrange_services hosting new_order runtime).0
  unfolding rearrange_services
  rearrange_services-IsConsistent new_order runtime apart c =
      elim (Bool-cases (nat_beq (length new_order) (length runtime.service_order))) [
        | inr other ↦ rw other c
        | inl count ↦ elim (Bool-cases (all_known runtime.service_order new_order)) [
          | inr unknown ↦ rw (count, unknown) c
          | inl known ↦
              rw (count, known)
                (record {
                  distinct = c.distinct;
                  apart = apart;
                  same = λ u.
                      lists-all_known new_order runtime.service_order u (ground (arith, count))
                        apart known
                      ∙ c.same u;
                })
        ]
      ]

  edit-IsConsistent :
      (e : Edit Config) (runtime : Runtime hosting)
      → ((c : Config) (s : Service) → create c ≡ some s → uuid s ≡ config_uuid c)
      → IsFit e
      → IsConsistent runtime
      → IsConsistent (edit e runtime)
  unfolding edit
  edit-IsConsistent (adds config) runtime named fit c =
      add_service-IsConsistent config runtime named c
  edit-IsConsistent (removes u) runtime named fit c = remove_service-IsConsistent u runtime c
  edit-IsConsistent (rearranges new_order) runtime named fit c =
      rearrange_services-IsConsistent new_order runtime fit c

  -- From a runtime whose order and services agree, through every history of additions, removals and
  -- rearrangements, also those that throw or are refused, they still agree: each service stands in
  -- the order once and nothing else does. A service must bear the name of its configuration, and no
  -- new order may name a service twice.
  pub edit_all-IsConsistent :
      (es : List (Edit Config)) (runtime : Runtime hosting)
      → ((c : Config) (s : Service) → create c ≡ some s → uuid s ≡ config_uuid c)
      → All IsFit es
      → IsConsistent runtime
      → IsConsistent (edit_all es runtime)
  unfolding edit_all
  edit_all-IsConsistent [] runtime named fit c = c
  edit_all-IsConsistent (e ∷ es) runtime named fit c =
      edit_all-IsConsistent es (edit e runtime) named fit.1
        (edit-IsConsistent e runtime named fit.0 c)
