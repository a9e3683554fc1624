-- ===== src/Services/Queue/Delivery.antt =====
-- What `consume` of services/queue-store.ts selects and delivers.
use hkp_node.Shared.{
  ℕ, zero, suc, ◌+◌, ◌≤◌, ◌≡◌, ◌≢◌, refl, ◌∙◌, inl, inr, ◌⊎◌, String, Bool, List, [], ◌∷◌, arith,
  eq_iff, ltb, length, keep, take, string_eq, nat_eq, ◌==◌, Bool-cases, or_else, All, All-append,
  length-append,
}
use native.Mathlib.Nat.{le_trans}
use hkp_node.Services.Queue.Rows.{
  claimed, Message, Table, changes, insert_sorted, order_by, oldest_first, is_claimable,
  select_claimable,
}
use hkp_node.Services.Queue.{
  Host, may_claim, claim, consume_row, consume_rows, consume, Described, described_message,
  default_limit, default_visibility_seconds, default_max_attempts, Consume,
}

module _ {ℓ} (P : Message → Type ℓ) where
  All-insert_sorted :
      (before : Message → Message → Bool) (row : Message) (t : Table)
      → P row
      → All P t
      → All P (insert_sorted before row t)
  unfolding insert_sorted
  All-insert_sorted before row [] p h = (p, tt)
  All-insert_sorted before row (r ∷ t) p h = ground (arith, All-insert_sorted before row t p h.1)

  All-order_by :
      (before : Message → Message → Bool) (t : Table) → All P t → All P (order_by before t)
  unfolding order_by
  All-order_by before [] h = tt
  All-order_by before (row ∷ t) h =
      All-insert_sorted before row (order_by before t) h.0 (All-order_by before t h.1)

  All-take : (n : ℕ) (t : Table) → All P t → All P (take n t)
  All-take zero t h = tt
  All-take (suc n) [] h = tt
  All-take (suc n) (row ∷ t) h = (h.0, All-take n t h.1)

length-take-le {ℓ} : {A : Type ℓ} (n : ℕ) (xs : List A) → length (take n xs) ≤ n
length-take-le zero xs = omega arith
length-take-le (suc n) [] = omega arith
length-take-le (suc n) (x ∷ xs) = omega (arith, length-take-le n xs)

-- Whatever holds of the selected rows holds of what is selected.
pub All-select_claimable {ℓ} :
    (P : Message → Type ℓ) (id_lt : String → String → Bool) (topic : String) (now limit : ℕ)
    (t : Table)
    → All P (keep (is_claimable topic now) t)
    → All P (select_claimable id_lt topic now limit t)
unfolding select_claimable
All-select_claimable P id_lt topic now limit t h =
    All-take P limit _ (All-order_by P (oldest_first id_lt) _ h)

keep-topic :
    (topic : String) (now : ℕ) (t : Table)
    → All (λ r. r.topic ≡ topic) (keep (is_claimable topic now) t)
keep-topic topic now [] = tt
keep-topic topic now (r ∷ t) = ground (arith, eq_iff r.topic topic, keep-topic topic now t)

module _ (host : Host) where
  open host use {Value}

  -- A delivered message is a selected row, told as claimed and with one more attempt.
  abbrev pub IsDelivery : ℕ → Message → Described Value → Type 0
  IsDelivery max_attempts row d =
      (d.id ≡ row.id)
      × (d.topic ≡ row.topic)
      × (d.status ≡ claimed)
      × (d.attempts ≡ row.attempts + 1)
      × (d.attempts ≤ max_attempts)

  unfoldable pub as_claimed : Message → Described Value
  as_claimed row =
      described_message host (record row { status = claimed; attempts = row.attempts + 1 })

  -- A round delivers nothing, or the selected row, having claimed it.
  pub consume_row-cases :
      (now visibility max_attempts : ℕ) (row : Message) (t : Table)
      → ((consume_row host now visibility max_attempts row t).1 ≡ [])
        ⊎ (((consume_row host now visibility max_attempts row t)
              ≡ ((claim now visibility row t).0, as_claimed row ∷ []))
            × (row.attempts + 1 ≤ max_attempts)
            × (changes (may_claim now row) t ≢ 0))
  unfolding consume_row as_claimed claim
  consume_row-cases now visibility max_attempts row t =
      elim (Bool-cases (ltb max_attempts (row.attempts + 1))) [
        | inl used ↦ inl (ground (arith, used))
        | inr left ↦ elim (Bool-cases (changes (may_claim now row) t == 0)) [
          | inl nothing ↦ inl (ground (arith, left, nothing))
          | inr one ↦ inr (ground (arith, left, one), ground arith, ground arith)
        ]
      ]

  pub All-consume_rows {ℓ} :
      (P : Message → Type ℓ) (Q : Described Value → Type ℓ) (now visibility max_attempts : ℕ)
      → ((row : Message) (d : Described Value) → P row → IsDelivery max_attempts row d → Q d)
      → (rows : List Message) (t : Table) → All P rows
      → All Q (consume_rows host now visibility max_attempts rows t).1
  unfolding consume_rows as_claimed described_message
  All-consume_rows P Q now visibility max_attempts give [] t h = tt
  All-consume_rows P Q now visibility max_attempts give (row ∷ rows) t h =
      All-append Q (consume_row host now visibility max_attempts row t).1 _ one
        (All-consume_rows P Q now visibility max_attempts give rows _ h.1)
    where
      one : All Q (consume_row host now visibility max_attempts row t).1
      one = elim (consume_row-cases now visibility max_attempts row t) [
        | inl nothing ↦ rw nothing tt
        | inr (same, left, changed) ↦
            rw same (give row (as_claimed row) h.0 (refl, refl, refl, refl, left), tt)
      ]

  length-consume_rows :
      (now visibility max_attempts : ℕ) (rows : List Message) (t : Table)
      → length (consume_rows host now visibility max_attempts rows t).1 ≤ length rows
  unfolding consume_rows
  length-consume_rows now visibility max_attempts [] t = omega arith
  length-consume_rows now visibility max_attempts (row ∷ rows) t =
      let t' : Table = (consume_row host now visibility max_attempts row t).0 in
      omega (
        arith,
        length-append (consume_row host now visibility max_attempts row t).1
            (consume_rows host now visibility max_attempts rows t').1,
        length-consume_rows now visibility max_attempts rows t',
        one,
      )
    where
      one : length (consume_row host now visibility max_attempts row t).1 ≤ 1
      one = elim (consume_row-cases now visibility max_attempts row t) [
        | inl nothing ↦ rw nothing (omega arith)
        | inr (same, left, changed) ↦ rw same (omega arith)
      ]

  abbrev pub IsFit : Consume → Described Value → Type 0
  IsFit params d =
      (d.topic ≡ params.topic)
      × (d.status ≡ claimed)
      × (1 ≤ d.attempts)
      × (d.attempts ≤ or_else params.max_attempts default_max_attempts)

  -- Every delivered message is on the topic asked for, is told as claimed, and has been handed out
  -- at least once and at most `maxAttempts` times; no more are delivered than the limit.
  pub consume_sound :
      (params : Consume) (now : ℕ) (t : Table)
      → All (IsFit params) (consume host params now t).1
        × (length (consume host params now t).1 ≤ or_else params.limit default_limit)
  unfolding consume select_claimable
  consume_sound params now t =
      let visibility = or_else params.visibility_seconds default_visibility_seconds in
      let max_attempts = or_else params.max_attempts default_max_attempts in
      let limit = or_else params.limit default_limit in
      let rows = select_claimable host.id_lt params.topic now limit t in
      (
        All-consume_rows (λ r. r.topic ≡ params.topic) (IsFit params) now visibility max_attempts
            (λ row d p q. (q.1 ∙ p, q.2, omega (arith, q.3), q.4)) rows t
            (All-select_claimable (λ r. r.topic ≡ params.topic) host.id_lt params.topic now limit t
              (keep-topic params.topic now t)),
        le_trans (length-consume_rows now visibility max_attempts rows t) (
            length-take-le limit
              (order_by (oldest_first host.id_lt) (keep (is_claimable params.topic now) t))),
      )
