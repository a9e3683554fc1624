-- ===== src/Services/Queue/Visibility.antt =====
-- How long a message that `consume` of services/queue-store.ts has delivered stays hidden.
use hkp_node.Shared.{
  ℕ, ◌+◌, ◌*◌, ◌<◌, ◌≡◌, ◌≢◌, refl, sym, ◌∙◌, inl, inr, String, Bool, true, false, ◌&&◌, List, [],
  ◌∷◌, arith, eq_iff, leb, ltb, any, keep, string_eq, nat_eq, ◌==◌, Bool-cases, or_else, All,
  All-append, Option-cases, subst, ◌++◌,
}
use hkp_node.Services.Queue.Rows.{
  Status, Message, Table, find, insert_new, changes, is_claimable, select_claimable,
}
use hkp_node.Services.Queue.{
  Host, bury, may_claim, claim, consume_row, consume_rows, consume, described_message, Described,
  close, set_closed, default_limit, default_visibility_seconds, default_max_attempts, Consume,
}
use hkp_node.Services.Queue.Versions.{
  has_id, Unique, update_where-Unique, Statement, inserts, buries, claims, closes, sets, exec,
  exec_all, exec_all-Unique,
}
use hkp_node.Services.Queue.Delivery.{
  All-select_claimable, All-consume_rows, consume_row-cases, as_claimed,
}

-- A row of the id is not available before the time `end`.
abbrev pub is_hidden : String → ℕ → Table → Bool
is_hidden id end = any (λ r. r.id == id && leb end r.available_at)

hidden-has_id : (id : String) (end : ℕ) (t : Table) → is_hidden id end t ≡ true → has_id id t ≡ true
hidden-has_id id end [] h = h
hidden-has_id id end (r ∷ t) h = ground (arith, hidden-has_id id end t)

absent-keep :
    (p : Message → Bool) (id : String) (t : Table)
    → has_id id t ≡ false
    → All (λ r. r.id ≢ id) (keep p t)
absent-keep p id [] h = tt
absent-keep p id (r ∷ t) h = ground (arith, eq_iff r.id id, absent-keep p id t)

-- A statement that closes no message of the id, and claims at a time before `end` if it claims at all.
abbrev pub Spares : String → ℕ → Statement → Type 0
Spares id end (inserts row) = Unit
Spares id end (buries now max_attempts row) = Unit
Spares id end (claims now visibility row) = now < end
Spares id end (closes other outcome error max_attempts now) = other ≢ id
Spares id end (sets other status error now) = other ≢ id

module _ (host : Host) where
  claim-hides :
      (now visibility : ℕ) (row : Message) (t : Table)
      → changes (may_claim now row) t ≢ 0
      → is_hidden row.id (now + visibility * 1000) (claim now visibility row t).0 ≡ true
  unfolding claim changes
  claim-hides now visibility row [] h = absurd (h refl)
  claim-hides now visibility row (r ∷ t) h = ground (arith, claim-hides now visibility row t)

  claim-keeps_hidden :
      (now visibility : ℕ) (row : Message) (id : String) (end : ℕ) (t : Table)
      → now < end
      → is_hidden id end t ≡ true
      → is_hidden id end (claim now visibility row t).0 ≡ true
  unfolding claim
  claim-keeps_hidden now visibility row id end [] l h = h
  claim-keeps_hidden now visibility row id end (r ∷ t) l h =
      ground (arith, claim-keeps_hidden now visibility row id end t l)

  bury-keeps_hidden :
      (now max_attempts : ℕ) (row : Message) (id : String) (end : ℕ) (t : Table)
      → is_hidden id end t ≡ true
      → is_hidden id end (bury host now max_attempts row t) ≡ true
  unfolding bury
  bury-keeps_hidden now max_attempts row id end [] h = h
  bury-keeps_hidden now max_attempts row id end (r ∷ t) h =
      ground (arith, bury-keeps_hidden now max_attempts row id end t)

  row-keeps_hidden :
      (now visibility max_attempts : ℕ) (row : Message) (id : String) (end : ℕ) (t : Table)
      → now < end
      → is_hidden id end t ≡ true
      → is_hidden id end (consume_row host now visibility max_attempts row t).0 ≡ true
  unfolding consume_row
  row-keeps_hidden now visibility max_attempts row id end t l h = ground (
    arith,
    bury-keeps_hidden now max_attempts row id end t,
    claim-keeps_hidden now visibility row id end t l,
  )

  rows-keep_hidden :
      (now visibility max_attempts : ℕ) (rows : List Message) (id : String) (end : ℕ) (t : Table)
      → now < end
      → is_hidden id end t ≡ true
      → is_hidden id end (consume_rows host now visibility max_attempts rows t).0 ≡ true
  unfolding consume_rows
  rows-keep_hidden now visibility max_attempts [] id end t l h = h
  rows-keep_hidden now visibility max_attempts (row ∷ rows) id end t l h =
      rows-keep_hidden now visibility max_attempts rows id end _ l
        (row-keeps_hidden now visibility max_attempts row id end t l h)

  consume_rows-hides :
      (now visibility max_attempts : ℕ) (rows : List Message) (t : Table)
      → 0 < visibility
      → All
          (λ d.
            is_hidden d.id
              (now + visibility * 1000)
              (consume_rows host now visibility max_attempts rows t).0
            ≡ true)
          (consume_rows host now visibility max_attempts rows t).1
  unfolding consume_rows as_claimed described_message
  consume_rows-hides now visibility max_attempts [] t v = tt
  consume_rows-hides now visibility max_attempts (row ∷ rows) t v =
      let t' : Table = (consume_row host now visibility max_attempts row t).0 in
      All-append _ (consume_row host now visibility max_attempts row t).1 _
        (elim (consume_row-cases host now visibility max_attempts row t) [
          | inl nothing ↦ rw nothing tt
          | inr (same, left, changed) ↦ rw same (
            rows-keep_hidden now visibility max_attempts rows row.id (now + visibility * 1000) _
                (omega arith) (claim-hides now visibility row t changed),
            tt,
          )
        ])
        (consume_rows-hides now visibility max_attempts rows t' v)

  not-claimable_of_hidden :
      (topic id : String) (later end : ℕ) (t : Table)
      → Unique t
      → later < end
      → is_hidden id end t ≡ true
      → All (λ r. r.id ≢ id) (keep (is_claimable topic later) t)
  not-claimable_of_hidden topic id later end [] u l h = tt
  not-claimable_of_hidden topic id later end (r ∷ t) u l h = ground (
    arith,
    eq_iff r.id id,
    hidden-has_id id end t,
    absent-keep (is_claimable topic later) id t,
    not-claimable_of_hidden topic id later end t u.1 l,
  )

  consume_rows-Unique :
      (now visibility max_attempts : ℕ) (rows : List Message) (t : Table)
      → Unique t
      → Unique (consume_rows host now visibility max_attempts rows t).0
  unfolding consume_rows consume_row bury claim
  consume_rows-Unique now visibility max_attempts [] t u = u
  consume_rows-Unique now visibility max_attempts (row ∷ rows) t u =
      consume_rows-Unique now visibility max_attempts rows _
        (elim (Bool-cases (ltb max_attempts (row.attempts + 1))) [
          | inl used ↦ rw used (update_where-Unique _ _ t (λ r. refl) u)
          | inr left ↦ rw left (update_where-Unique _ _ t (λ r. refl) u)
        ])

  update-keeps_hidden :
      (status : Status) (other error id : String) (now end : ℕ) (t : Table)
      → other ≢ id
      → is_hidden id end t ≡ true
      → is_hidden id end (set_closed other status error now t) ≡ true
  unfolding set_closed
  update-keeps_hidden status other error id now end [] apart h = h
  update-keeps_hidden status other error id now end (r ∷ t) apart h = ground (
    arith,
    apart,
    eq_iff r.id other,
    eq_iff r.id id,
    update-keeps_hidden status other error id now end t apart,
  )

  hidden-append :
      (id : String) (end : ℕ) (row : Message) (t : Table)
      → is_hidden id end t ≡ true
      → is_hidden id end (t ++ row ∷ []) ≡ true
  hidden-append id end row [] h = cc
  hidden-append id end row (r ∷ t) h = ground (arith, hidden-append id end row t)

  exec-keeps_hidden :
      (id : String) (end : ℕ) (s : Statement) (t : Table)
      → Spares id end s
      → is_hidden id end t ≡ true
      → is_hidden id end (exec host s t) ≡ true
  unfolding exec insert_new close
  exec-keeps_hidden id end (inserts row) t k h = ground (arith, h, hidden-append id end row t)
  exec-keeps_hidden id end (buries now max_attempts row) t k h =
      bury-keeps_hidden now max_attempts row id end t h
  exec-keeps_hidden id end (claims now visibility row) t k h =
      claim-keeps_hidden now visibility row id end t k h
  exec-keeps_hidden id end (closes other outcome error max_attempts now) t k h =
      elim (Option-cases (find other t)) [
        | inl missing ↦ rw (missing, exec, close) h
        | inr (row, found) ↦
            rw (found, exec, close) (update-keeps_hidden _ other _ id now end t k h)
      ]
  exec-keeps_hidden id end (sets other status error now) t k h =
      update-keeps_hidden status other error id now end t k h

  exec_all-keeps_hidden :
      (id : String) (end : ℕ) (ss : List Statement) (t : Table)
      → All (Spares id end) ss
      → is_hidden id end t ≡ true
      → is_hidden id end (exec_all host ss t) ≡ true
  unfolding exec_all
  exec_all-keeps_hidden id end [] t k h = h
  exec_all-keeps_hidden id end (s ∷ ss) t k h =
      exec_all-keeps_hidden id end ss (exec host s t) k.1 (exec-keeps_hidden id end s t k.0 h)

  hidden_of_delivered :
      {V : Type 0} (id : String) (end : ℕ) (t : Table) (ds : List (Described V))
      → All (λ d. is_hidden d.id end t ≡ true) ds
      → any (λ d. d.id == id) ds ≡ true
      → is_hidden id end t ≡ true
  hidden_of_delivered id end t [] h k = cc
  hidden_of_delivered id end t (d ∷ ds) h k = elim (Bool-cases (d.id == id)) [
    | inl same ↦ subst (λ i. is_hidden i end t ≡ true) ((eq_iff d.id id).0 same) h.0
    | inr other ↦ hidden_of_delivered id end t ds h.1 (ground (arith, other, k))
  ]

  -- A claim is a deadline: on a table whose ids are unique, what one `consume` delivers no later
  -- `consume` delivers, whatever it asks for, before the visibility of the first has run out, as long as
  -- the message is not closed in between; whatever else the processes that share the table run in
  -- between, their claims made before that time too.
  pub consume-consume :
      (first second : Consume) (now later : ℕ) (id : String) (ss : List Statement) (t : Table)
      → Unique t
      → 0 < or_else first.visibility_seconds default_visibility_seconds
      → any (λ d. d.id == id) (consume host first now t).1 ≡ true
      → All
          (Spares id (now + or_else first.visibility_seconds default_visibility_seconds * 1000))
          ss
      → later < now + or_else first.visibility_seconds default_visibility_seconds * 1000
      → All
          (λ e. e.id ≢ id)
          (consume host second later (exec_all host ss (consume host first now t).0)).1
  unfolding consume
  consume-consume first second now later id ss t u v there spared l =
      let visibility = or_else first.visibility_seconds default_visibility_seconds in
      let max_attempts = or_else first.max_attempts default_max_attempts in
      let end = now + visibility * 1000 in
      let rows =
        select_claimable host.id_lt first.topic now (or_else first.limit default_limit) t in
      let claimed : Table = (consume_rows host now visibility max_attempts rows t).0 in
      let hidden =
        hidden_of_delivered id end claimed (consume_rows host now visibility max_attempts rows t).1
          (consume_rows-hides now visibility max_attempts rows t v) there in
      let t' : Table = exec_all host ss claimed in
      let unique : Unique t' =
        exec_all-Unique host ss claimed
          (consume_rows-Unique now visibility max_attempts rows t u) in
      All-consume_rows host (λ r. r.id ≢ id) (λ e. e.id ≢ id) later
        (or_else second.visibility_seconds default_visibility_seconds)
        (or_else second.max_attempts default_max_attempts) (λ row e p q same. p (sym q.0 ∙ same))
        (select_claimable host.id_lt second.topic later (or_else second.limit default_limit) t') t'
        (All-select_claimable (λ r. r.id ≢ id) host.id_lt second.topic later
          (or_else second.limit default_limit) t'
          (not-claimable_of_hidden second.topic id later end t' unique l
            (exec_all-keeps_hidden id end ss claimed spared hidden)))
