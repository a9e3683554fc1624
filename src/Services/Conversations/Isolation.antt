-- ===== src/Services/Conversations/Isolation.antt =====
-- services/conversations.ts: a pass stays in the databases of the owner of its runtime.
use hkp_node.Shared.{
  ℕ, ◌≡◌, ◌≢◌, refl, sym, ◌∙◌, ap, inl, inr, String, Option, none, some, string_eq, arith,
  Option-cases,
}
use hkp_node.Shared.Json.{Json}
use hkp_node.Shared.OrderedMap.{get, set, get-set}
use hkp_node.Services.Databases.{
  DatabaseKey, board_key, named_key, shared_key, database_key_eq, same_key_iff, open_in_memory,
  named_key?,
}
use hkp_node.Services.Conversations.Rows.{Database, new_database}
use hkp_node.Services.Conversations.Values.{Host}
use hkp_node.Services.Conversations.Settings.{Service}
use hkp_node.Services.Conversations.Processing.{Scope, Store, pass_on, key_of, pass_at, process}

abbrev pub owner_of : DatabaseKey → String
owner_of (board_key owner board) = owner
owner_of (named_key owner name) = owner
owner_of (shared_key owner) = owner

key_of-owner :
    (to_lower : String → String) (s : Service) (scope : Scope) (k : DatabaseKey)
    → key_of to_lower s scope ≡ some k
    → owner_of k ≡ scope.owner
unfolding key_of named_key?
key_of-owner to_lower s scope k h =
    let owner : Option DatabaseKey → String =
      λ o. elim o [ none ↦ scope.owner | some l ↦ owner_of l ] in
    let same : owner (key_of to_lower s scope) ≡ scope.owner = ground arith in
    sym (ap owner h) ∙ same

module _ (host : Host) where
  pass_at-other :
      (s : Service) (k l : DatabaseKey) (store : Store) (input : Json) (clock : ℕ) (drawn : String)
      → k ≢ l
      → get l (pass_at host s k store input clock drawn).store ≡ get l store
  unfolding pass_at open_in_memory
  pass_at-other s k l store input clock drawn apart =
      let opened_eq : (db : Database) (opened : Store)
          → open_in_memory new_database k store ≡ (db, opened)
          → open_in_memory new_database k store ≡ (db, opened) =
        λ db opened e. e in
      elim (Option-cases (get k store)) [
        | inl e ↦
            rw
              (
                opened_eq new_database (set k new_database store) (rw (e, open_in_memory) refl),
                pass_at,
              )
              (get-set k l (pass_on host s new_database input clock drawn).database
                  (set k new_database store)
                ∙ ground (arith, get-set k l new_database store, same_key_iff k l, apart))
        | inr (db, e) ↦
            rw (opened_eq db store (rw (e, open_in_memory) refl), pass_at)
              (get-set k l (pass_on host s db input clock drawn).database store
                ∙ ground (arith, same_key_iff k l, apart))
      ]

  -- A call of any service, configured in any way, leaves every database of another owner as it is.
  pub process-other :
      (to_lower wrong_name : String → String) (s : Service) (scope : Scope) (l : DatabaseKey)
      (store : Store) (input : Json) (clock : ℕ) (drawn : String)
      → owner_of l ≢ scope.owner
      → get l (process host to_lower wrong_name s (some scope) store input clock drawn).store
        ≡ get l store
  unfolding process
  process-other to_lower wrong_name s scope l store input clock drawn other =
      elim (Option-cases (key_of to_lower s scope)) [
        | inl e ↦ rw (e, process) refl
        | inr (k, e) ↦
            rw (e, process)
              (pass_at-other s k l store input clock drawn
                (λ same. other (sym (ap owner_of same) ∙ key_of-owner to_lower s scope k e)))
      ]
