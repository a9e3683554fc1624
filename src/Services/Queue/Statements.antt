-- ===== src/Services/Queue/Statements.antt =====
-- The operations of the queue as the statements that they run, and how often they deliver one attempt.
use hkp_node.Shared.{
  ℕ, ◌+◌, ◌≤◌, Option, ◌≡◌, refl, String, ◌&&◌, List, [], ◌∷◌, ◌++◌, map, arith, ltb, if◌then◌else◌,
  string_eq, nat_eq, ◌==◌, or_else,
}
use hkp_node.Services.Queue.Rows.{Message, Table, select_claimable}
use hkp_node.Services.Queue.{
  Host, Outcome, close, publish, new_row, claim, consume_row, consume_rows, consume, Described,
  described_message, default_limit, default_visibility_seconds, default_max_attempts, Consume,
}
use hkp_node.Services.Queue.Versions.{
  Unique, Statement, inserts, closes, exec_all, exec_all-Unique, total_handed_out-le-one, buries,
  claims, exec, handed_out, total_handed_out, exec-Unique, changes-le-one,
}

-- The messages delivered as attempt `n + 1` of `id`.
delivered : {V : Type 0} → String → ℕ → List (Described V) → ℕ
delivered id n [] = 0
delivered id n (d ∷ ds) = (if d.id == id && d.attempts == n + 1 then 1 else 0) + delivered id n ds

module _ (host : Host) where
  -- The statement that the loop of `consume` runs for a selected row.
  statement_of : ℕ → ℕ → ℕ → Message → Statement
  statement_of now visibility max_attempts row =
      if ltb max_attempts (row.attempts + 1)
      then buries now max_attempts row
      else claims now visibility row

  table-consume_row :
      (now visibility max_attempts : ℕ) (row : Message) (t : Table)
      → (consume_row host now visibility max_attempts row t).0
        ≡ exec host (statement_of now visibility max_attempts row) t
  unfolding consume_row statement_of exec
  table-consume_row now visibility max_attempts row t = ground arith

  delivered-consume_row :
      (id : String) (n now visibility max_attempts : ℕ) (row : Message) (t : Table)
      → Unique t
      → delivered id n (consume_row host now visibility max_attempts row t).1
        ≡ handed_out host id n (statement_of now visibility max_attempts row) t
  unfolding consume_row statement_of handed_out claim delivered described_message
  delivered-consume_row id n now visibility max_attempts row t u =
      ground (arith, changes-le-one now row t u)

  delivered-append :
      {V : Type 0} (id : String) (n : ℕ) (ds es : List (Described V))
      → delivered id n (ds ++ es) ≡ delivered id n ds + delivered id n es
  unfolding delivered
  delivered-append id n [] es = omega arith
  delivered-append id n (d ∷ ds) es = omega (arith, delivered-append id n ds es)

  table-consume_rows :
      (now visibility max_attempts : ℕ) (rows : List Message) (t : Table)
      → (consume_rows host now visibility max_attempts rows t).0
        ≡ exec_all host (map (statement_of now visibility max_attempts) rows) t
  unfolding consume_rows exec_all
  table-consume_rows now visibility max_attempts [] t = refl
  table-consume_rows now visibility max_attempts (row ∷ rows) t = cc (
    table-consume_row now visibility max_attempts row t,
    table-consume_rows now visibility max_attempts rows
        (consume_row host now visibility max_attempts row t).0,
  )

  delivered-consume_rows :
      (id : String) (n now visibility max_attempts : ℕ) (rows : List Message) (t : Table)
      → Unique t
      → delivered id n (consume_rows host now visibility max_attempts rows t).1
        ≡ total_handed_out host id n (map (statement_of now visibility max_attempts) rows) t
  unfolding consume_rows total_handed_out delivered
  delivered-consume_rows id n now visibility max_attempts [] t u = refl
  delivered-consume_rows id n now visibility max_attempts (row ∷ rows) t u =
      let t' : Table = (consume_row host now visibility max_attempts row t).0 in
      let same : t' ≡ exec host (statement_of now visibility max_attempts row) t =
        table-consume_row now visibility max_attempts row t in
      let unique : Unique t' =
        rw same (exec-Unique host (statement_of now visibility max_attempts row) t u) in
      cc (
        delivered-append id n (consume_row host now visibility max_attempts row t).1
            (consume_rows host now visibility max_attempts rows t').1,
        delivered-consume_row id n now visibility max_attempts row t u,
        delivered-consume_rows id n now visibility max_attempts rows t' unique,
        same,
      )

  abbrev statements_of : Consume → ℕ → Table → List Statement
  statements_of params now t =
      map
        (statement_of now (or_else params.visibility_seconds default_visibility_seconds)
          (or_else params.max_attempts default_max_attempts))
        (select_claimable host.id_lt params.topic now (or_else params.limit default_limit) t)

  -- A call of one of the store's operations that write.
  pub data Call : Type 0 where
    published : String → host.Value → String → Option String → String → ℕ → Call
    consumed : Consume → ℕ → Call
    closed : String → Outcome → Option String → Option ℕ → ℕ → Call

  -- The table that a call leaves, and the messages that it delivers.
  unfoldable pub perform : Call → Table → Table × List (Described host.Value)
  unfolding publish consume close
  perform (published topic payload by id drawn now) t =
      ((publish host topic payload by id drawn now t).0, [])
  perform (consumed params now) t = consume host params now t
  perform (closed id outcome error max_attempts now) t =
      ((close id outcome error max_attempts now t).0, [])

  -- The messages delivered by a row of calls as attempt `n + 1` of `id`.
  unfoldable pub total_delivered : String → ℕ → List Call → Table → ℕ
  unfolding perform delivered
  total_delivered id n [] t = 0
  total_delivered id n (call ∷ calls) t =
      delivered id n (perform call t).1 + total_delivered id n calls (perform call t).0

  -- The statements that a call runs, on the table that it finds.
  abbrev statements : Call → Table → List Statement
  statements (published topic payload by id drawn now) t =
      inserts (new_row host topic payload by id drawn now) ∷ []
  statements (consumed params now) t = statements_of params now t
  statements (closed id outcome error max_attempts now) t =
      closes id outcome error max_attempts now ∷ []

  table-perform :
      (call : Call) (t : Table) → (perform call t).0 ≡ exec_all host (statements call t) t
  unfolding perform exec_all exec publish consume
  table-perform (published topic payload by id drawn now) t = refl
  table-perform (consumed params now) t =
      table-consume_rows now (or_else params.visibility_seconds default_visibility_seconds)
        (or_else params.max_attempts default_max_attempts)
        (select_claimable host.id_lt params.topic now (or_else params.limit default_limit) t) t
  table-perform (closed id outcome error max_attempts now) t = refl

  delivered-perform :
      (id : String) (n : ℕ) (call : Call) (t : Table)
      → Unique t
      → delivered id n (perform call t).1 ≡ total_handed_out host id n (statements call t) t
  unfolding perform delivered total_handed_out handed_out consume
  delivered-perform id n (published topic payload by i drawn now) t u = refl
  delivered-perform id n (consumed params now) t u = delivered-consume_rows id n now _ _ _ t u
  delivered-perform id n (closed i outcome error max_attempts now) t u = refl

  history : List Call → Table → List Statement
  history [] t = []
  history (call ∷ calls) t =
      statements call t ++ history calls (exec_all host (statements call t) t)

  total_handed_out-append :
      (id : String) (n : ℕ) (ss rest : List Statement) (t : Table)
      → total_handed_out host id n (ss ++ rest) t
        ≡ total_handed_out host id n ss t + total_handed_out host id n rest (exec_all host ss t)
  unfolding total_handed_out exec_all
  total_handed_out-append id n [] rest t = omega arith
  total_handed_out-append id n (s ∷ ss) rest t =
      omega (arith, total_handed_out-append id n ss rest (exec host s t))

  total_delivered-history :
      (id : String) (n : ℕ) (calls : List Call) (t : Table)
      → Unique t
      → total_delivered id n calls t ≡ total_handed_out host id n (history calls t) t
  unfolding total_delivered history total_handed_out
  total_delivered-history id n [] t u = refl
  total_delivered-history id n (call ∷ calls) t u =
      let t' = exec_all host (statements call t) t in
      rw (table-perform call t) (
        omega (
          arith,
          delivered-perform id n call t u,
          total_handed_out-append id n (statements call t) (history calls t') t,
          total_delivered-history id n calls t' (exec_all-Unique host (statements call t) t u),
        ))

  -- No attempt of a message is delivered twice: through every row of publishing, consuming and closing,
  -- whatever the parameters and the clock, from a table whose ids are unique, at most one of all the
  -- messages that the consumes deliver has one id and one count of attempts.
  pub total_delivered-le-one :
      (id : String) (n : ℕ) (calls : List Call) (t : Table)
      → Unique t
      → total_delivered id n calls t ≤ 1
  total_delivered-le-one id n calls t u =
      rw (total_delivered-history id n calls t u)
        (total_handed_out-le-one host id n (history calls t) t u)
