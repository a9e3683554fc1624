-- ===== src/Services/Queue/Rows.antt =====
-- The `message` table of services/queue-store.ts and its SQL statements, each as a function on the
-- list of rows. Timestamps are numbers of milliseconds: ISO texts of one length sort as the times
-- they name. The order of ids is the collation's, a parameter.
use hkp_node.Shared.{
  ℕ, ◌+◌, String, Bool, true, false, ◌&&◌, ◌||◌, List, [], ◌∷◌, ◌++◌, Option, none, some, leb, ltb,
  keep, any, take, if◌then◌else◌, ◌==◌, string_eq, nat_eq,
}

-- `Status`
pub data Status : Type 0 where
  pending claimed done dead : Status

-- A row of `message`.
pub record Message : Type 0 where
  pub id : String
  pub topic : String
  pub payload : String
  pub status : Status
  pub published_by : String
  pub published_at : ℕ
  pub available_at : ℕ
  pub claimed_at : Option ℕ
  pub attempts : ℕ
  pub updated_at : ℕ
  pub error : String

abbrev pub Table : Type 0
Table = List Message

-- `status IN ('pending', 'claimed')`
abbrev pub is_open : Status → Bool
is_open pending = true
is_open claimed = true
is_open done = false
is_open dead = false

-- `SELECT * FROM message WHERE id = $id`, its first row.
unfoldable pub find : String → Table → Option Message
find id [] = none
find id (row ∷ t) = if row.id == id then some row else find id t

-- `INSERT … ON CONFLICT (id) DO NOTHING`
unfoldable pub insert_new : Message → Table → Table
insert_new row t = if any (λ r. r.id == row.id) t then t else t ++ row ∷ []

-- `UPDATE message SET … WHERE …`
unfoldable pub update_where : (Message → Bool) → (Message → Message) → Table → Table
update_where p f [] = []
update_where p f (row ∷ t) = (if p row then f row else row) ∷ update_where p f t

-- The `changes` that an update reports.
unfoldable pub changes : (Message → Bool) → Table → ℕ
changes p [] = 0
changes p (row ∷ t) = (if p row then 1 else 0) + changes p t

-- `ORDER BY …`, by insertion.
module _ (before : Message → Message → Bool) where
  unfoldable pub insert_sorted : Message → Table → Table
  insert_sorted row [] = row ∷ []
  insert_sorted row (r ∷ t) = if before row r then row ∷ r ∷ t else r ∷ insert_sorted row t

  unfoldable pub order_by : Table → Table
  unfolding insert_sorted
  order_by [] = []
  order_by (row ∷ t) = insert_sorted row (order_by t)

-- `publishedAt ASC, id ASC`, and its reverse.
abbrev pub oldest_first : (String → String → Bool) → Message → Message → Bool
oldest_first id_lt a b =
    ltb a.published_at b.published_at || (a.published_at == b.published_at && id_lt a.id b.id)

abbrev pub newest_first : (String → String → Bool) → Message → Message → Bool
newest_first id_lt a b = oldest_first id_lt b a

-- The conditions under which `consume` selects a row.
abbrev pub is_claimable : String → ℕ → Message → Bool
is_claimable topic now row = row.topic == topic && is_open row.status && leb row.available_at now

unfoldable pub select_claimable : (String → String → Bool) → String → ℕ → ℕ → Table → Table
unfolding order_by
select_claimable id_lt topic now limit t =
    take limit (order_by (oldest_first id_lt) (keep (is_claimable topic now) t))
