-- ===== src/State/Sql.antt =====
-- The SQL statements of history.go on a table with an AUTOINCREMENT key and a time stamp, as
-- daemon/internal/state/migrations/0002_history.sql declares it, and what the code relies on of a database.
use envorca.Prelude.{
  ℕ, ◌+◌, ◌≡◌, Bool, false, ◌||◌, Option, none, some, List, [], ◌∷◌, ◌++◌, take, filter_by, ltb,
  ◌==◌, if◌then◌else◌,
}
use envorca.Text.{Text}

-- A row has its key, the time at which it was inserted, and the inserted values.
pub record Row (V : Type 0) : Type 0 where
  pub id : ℕ
  pub performed_at : Text
  pub values : V

pub record Table (V : Type 0) : Type 0 where
  pub rows : List (Row V)
  pub last_id : ℕ

-- `INSERT INTO t(…) VALUES (…)`, and `DELETE FROM t WHERE id NOT IN (SELECT id FROM t ORDER BY id DESC LIMIT k)`.
pub data Statement (V : Type 0) : Type 0 where
  insert_values : V → Statement V
  delete_not_in_latest : ℕ → Statement V

module _ {V : Type 0} where
  -- ORDER BY id DESC
  unfoldable pub insert_desc : Row V → List (Row V) → List (Row V)
  insert_desc r [] = r ∷ []
  insert_desc r (s ∷ rest) =
      let later = s ∷ insert_desc r rest in if ltb s.id r.id then r ∷ s ∷ rest else later

  unfoldable pub order_by_id_desc : List (Row V) → List (Row V)
  unfolding insert_desc
  order_by_id_desc [] = []
  order_by_id_desc (r ∷ rest) = insert_desc r (order_by_id_desc rest)

  -- `id IN (…)`
  unfoldable pub id_in : ℕ → List (Row V) → Bool
  id_in id [] = false
  id_in id (r ∷ rest) = id == r.id || id_in id rest

  -- `SELECT … FROM t ORDER BY id DESC LIMIT k`
  unfoldable pub select_latest : ℕ → Table V → List (Row V)
  unfolding order_by_id_desc
  select_latest k t = take k (order_by_id_desc t.rows)

  -- What a statement makes of a table at a time.
  unfoldable pub meaning : Text → Statement V → Table V → Table V
  unfolding select_latest id_in
  meaning now (insert_values v) t = record {
    rows = t.rows ++ record { id = t.last_id + 1; performed_at = now; values = v } ∷ [];
    last_id = t.last_id + 1;
  }
  meaning now (delete_not_in_latest k) t = record t {
    rows = filter_by (λ r. id_in r.id (select_latest k t)) t.rows;
  }

-- What a query comes to: it fails, a row cannot be read, or rows come until an error or the end.
pub data Query (V : Type 0) : Type 0 where
  query_failed : Text → Query V
  scan_failed : Text → Query V
  rows_until : List (Row V) → Option Text → Query V

-- A database handle for one table. A statement takes effect whole, or fails and changes nothing; a query
-- changes nothing.
pub record Database (V : Type 0) : Type 1 where
  pub Db : Type 0
  pub table : Db → Table V
  pub clock : Db → Text
  pub exec : Statement V → Db → Option Text × Db
  pub query_latest : ℕ → Db → Query V
  pub exec_done :
      (s : Statement V) (d : Db) {d' : Db}
      → exec s d ≡ (none, d')
      → table d' ≡ meaning (clock d) s (table d)
  pub exec_failed :
      (s : Statement V) (d : Db) {e : Text} {d' : Db} → exec s d ≡ (some e, d') → table d' ≡ table d
  pub query_done :
      (k : ℕ) (d : Db) {rs : List (Row V)}
      → query_latest k d ≡ rows_until rs none
      → rs ≡ select_latest k (table d)
