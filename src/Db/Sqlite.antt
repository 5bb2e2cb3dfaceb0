-- ===== src/Db/Sqlite.antt =====
-- The sqlite backend of a tree (src/db/sqlite.rs). A table is SQLite's, and comes as an interface with what
-- its documentation says of the five statements that a tree prepares; the loops over rows and over the
-- writes of a batch are the code's own.
pub mod Scans
pub mod Laws
use scherzo.Prelude.{
  Bool, true, false, ◌≡◌, ◌↔◌, Option, none, some, List, [], ◌∷◌, Bytes, bytes_eq, if◌then◌else◌,
  not, map,
}
use scherzo.Db.Ids.{bytes_lt}
use scherzo.Db.Tree.{Batch, In, is_prefix, is_some}

abbrev pub Row : Type 0
Row = Bytes × Bytes

-- Rows by ascending key, each key once.
abbrev pub Ascending : List Row → Type 0
Ascending [] = Unit
Ascending (r ∷ rows) = ((q : Row) → In q rows → bytes_lt r.0 q.0 ≡ true) × Ascending rows

-- A table `( "key" BLOB PRIMARY KEY, "value" BLOB NOT NULL )` and its statements.
pub record Table : Type 1 where
  pub State : Type 0
  -- `SELECT value FROM t WHERE key = ?`
  pub select_value : State → Bytes → Option Bytes
  -- `SELECT EXISTS (SELECT value FROM t WHERE key = ?)`
  pub select_exists : State → Bytes → Bool
  -- `INSERT OR REPLACE INTO t (key, value) VALUES (?, ?)`
  pub insert_or_replace : State → Bytes → Bytes → State
  -- `DELETE FROM t WHERE key = ?`
  pub delete : State → Bytes → State
  -- `SELECT key, value FROM t WHERE key >= ? ORDER BY key ASC`; BLOBs are compared bytewise.
  pub select_from : State → Bytes → List Row
  pub select_exists-value : (s : State) (k : Bytes) → select_exists s k ≡ is_some (select_value s k)
  pub select_value-insert :
      (s : State) (k v j : Bytes)
      → select_value (insert_or_replace s k v) j
        ≡ (if bytes_eq k j then some v else select_value s j)
  pub select_value-delete :
      (s : State) (k j : Bytes)
      → select_value (delete s k) j ≡ (if bytes_eq k j then none else select_value s j)
  pub mem-select_from :
      (s : State) (low k v : Bytes)
      → In (k, v) (select_from s low) ↔ ((bytes_lt k low ≡ false) × (select_value s k ≡ some v))
  pub select_from-Ascending : (s : State) (low : Bytes) → Ascending (select_from s low)

-- What the stream of a query gives: a row, or a failure to read one.
pub data Fetched : Type 0 where
  row : Bytes → Bytes → Fetched
  read_failed : Fetched

-- The loop of `scan_prefix`: failures are handed on, the first other key ends it.
unfoldable pub collect_prefix : Bytes → List Fetched → List Fetched
collect_prefix prefix [] = []
collect_prefix prefix (row key value ∷ stream) =
    let items = collect_prefix prefix stream in
    if is_prefix prefix key then row key value ∷ items else []
collect_prefix prefix (read_failed ∷ stream) = read_failed ∷ collect_prefix prefix stream

-- The loop of `range`.
unfoldable pub collect_up_to : Bytes → List Fetched → List Fetched
collect_up_to end_key [] = []
collect_up_to end_key (row key value ∷ stream) =
    let items = collect_up_to end_key stream in
    if not (bytes_lt end_key key) then row key value ∷ items else []
collect_up_to end_key (read_failed ∷ stream) = read_failed ∷ collect_up_to end_key stream

-- The entries of the items, for a caller that meets no failure.
unfoldable pub entries : List Fetched → List Row
entries [] = []
entries (row key value ∷ items) = (key, value) ∷ entries items
entries (read_failed ∷ items) = entries items

abbrev pub fetched : Row → Fetched
fetched r = row r.0 r.1

module _ (t : Table) where
  -- `fetch` of the rows from a key on, when every read succeeds.
  unfoldable pub fetch : t.State → Bytes → List Fetched
  fetch s low = map fetched (t.select_from s low)

  unfoldable pub scan_prefix : t.State → Bytes → List Row
  unfolding collect_prefix entries fetch
  scan_prefix s prefix = entries (collect_prefix prefix (fetch s prefix))

  unfoldable pub range : t.State → Bytes → Bytes → List Row
  unfolding collect_up_to entries fetch
  range s start_key end_key = entries (collect_up_to end_key (fetch s start_key))

  -- The loop of `apply_batch`, inside one transaction.
  unfoldable pub write_all : t.State → List (Bytes × Option Bytes) → t.State
  write_all s [] = s
  write_all s ((key, some value) ∷ inserts) = write_all (t.insert_or_replace s key value) inserts
  write_all s ((key, none) ∷ inserts) = write_all (t.delete s key) inserts

  unfoldable pub apply_batch : t.State → Batch → t.State
  unfolding write_all
  apply_batch s batch = write_all s batch.inserts
