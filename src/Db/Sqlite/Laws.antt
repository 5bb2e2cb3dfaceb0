-- ===== src/Db/Sqlite/Laws.antt =====
-- The sqlite backend fills the interface of a tree (src/db/sqlite.rs). What is proved of the services over any tree
-- holds over it; but not what asks that a removal gives back the value that was there, as it does with sled.
use scherzo.Prelude.{◌≡◌, refl, ◌∙◌, ap, Option, none, some, List, [], ◌∷◌, Bytes}
use scherzo.Db.Tree.{Tree, Batch, after_writes}
use scherzo.Db.Sqlite.{Table, scan_prefix, range, apply_batch, write_all}
use scherzo.Db.Sqlite.Scans.{mem-scan_prefix}

module _ (t : Table) where
  select_value-write_all :
      (s : t.State) (inserts : List (Bytes × Option Bytes)) (j : Bytes)
      → t.select_value (write_all t s inserts) j ≡ after_writes inserts j (t.select_value s j)
  unfolding write_all after_writes
  select_value-write_all s [] j = refl
  select_value-write_all s ((k, some v) ∷ ws) j =
      select_value-write_all (t.insert_or_replace s k v) ws j
      ∙ ap (after_writes ws j) (t.select_value-insert s k v j)
  select_value-write_all s ((k, none) ∷ ws) j =
      select_value-write_all (t.delete s k) ws j
      ∙ ap (after_writes ws j) (t.select_value-delete s k j)

  -- After `apply_batch` on a table of sqlite, every key holds what the last write of the batch to it says, and
  -- what it held before where the batch has no write to it.
  pub select_value-apply_batch :
      (s : t.State) (b : Batch) (j : Bytes)
      → t.select_value (apply_batch t s b) j ≡ after_writes b.inserts j (t.select_value s j)
  unfolding apply_batch
  select_value-apply_batch s b j = select_value-write_all s b.inserts j

  -- `Tree` of src/db/sqlite.rs, over the statements it prepares. Without `RETURNING`, a `DELETE` gives no row, so that
  -- `remove` gives back nothing. The value that `insert` gives back, nothing too, no caller uses.
  abbrev pub sqlite_tree : Tree
  sqlite_tree = record {
    State = t.State;
    get = t.select_value;
    contains_key = t.select_exists;
    insert = t.insert_or_replace;
    remove = t.delete;
    removed = λ s key. none;
    apply_batch = apply_batch t;
    scan_prefix = scan_prefix t;
    range = range t;
    contains_key-get = t.select_exists-value;
    get-insert = t.select_value-insert;
    get-remove = t.select_value-delete;
    get-apply_batch = select_value-apply_batch;
    mem-scan_prefix = mem-scan_prefix t;
  }
