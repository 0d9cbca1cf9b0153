-- ===== src/Leveldb.antt =====
-- pkg/leveldb/database.go on goleveldb, which is a parameter.
pub mod Batches
pub mod Closing
use airfk.Shared.{
  ℕ, ◌+◌, ◌*◌, ◌/◌, ◌≡◌, Bool, true, false, Option, none, some, List, [], ◌∷◌, Bytes, ltb,
  if◌then◌else◌, length,
}
use airfk.Shared.Result.{Result, ok, err}
use airfk.Shared.Int.{ℤ, pos, negsuc}

pub record Options : Type 0 where
  pub open_files_cache_capacity : ℕ
  pub block_cache_capacity : ℕ
  pub write_buffer : ℕ

-- goleveldb. An error is its text; `corrupted` is ErrCorrupted.
pub data Opened (A : Type 0) : Type 0 where
  opened : A → Opened A
  corrupted open_failed : Bytes → Opened A

pub record Db : Type 1 where
  pub St : Type 0
  pub B : Type 0
  pub open_file : Bytes → Options → Opened St
  pub recover_file : Bytes → Opened St
  pub put : St → Bytes → Bytes → St × Option Bytes
  pub has : St → Bytes → Result Bytes Bool
  pub get : St → Bytes → Result Bytes Bytes
  pub delete : St → Bytes → St × Option Bytes
  pub new_batch : B
  pub batch_put : B → Bytes → Bytes → B
  pub batch_delete : B → Bytes → B
  pub batch_reset : B → B
  pub write : St → B → St × Option Bytes

abbrev pub mib : ℕ
mib = 1024 * 1024

-- The larger of a number and 16.
unfoldable pub at_least_16 : ℤ → ℕ
at_least_16 (negsuc n) = 16
at_least_16 (pos n) = if ltb n 16 then 16 else n

unfoldable pub options : ℤ → ℤ → Options
options cache handles = record {
  open_files_cache_capacity = at_least_16 handles;
  block_cache_capacity = at_least_16 cache / 2 * mib;
  write_buffer = at_least_16 cache / 4 * mib;
}

module _ (d : Db) where
  open d use {St, B, open_file, recover_file, new_batch, batch_put, batch_delete, batch_reset}

  -- The name is kept for reporting.
  pub record LevelDb : Type 0 where
    pub fn : Bytes
    pub db : St

  unfoldable pub opened_db : Bytes → Opened St → Result Bytes LevelDb
  opened_db file (opened db) = ok (record { fn = file; db = db })
  opened_db file (corrupted e) = err e
  opened_db file (open_failed e) = err e

  unfoldable pub recovered : Bytes → Opened St → Opened St
  recovered file (corrupted e) = recover_file file
  recovered file (opened db) = opened db
  recovered file (open_failed e) = open_failed e

  unfoldable pub new_ldb_database : Bytes → ℤ → ℤ → Result Bytes LevelDb
  new_ldb_database file cache handles =
      opened_db file (recovered file (open_file file (options cache handles)))

  unfoldable pub with_db : LevelDb → St × Option Bytes → LevelDb × Option Bytes
  with_db l (db, e) = (record l { db = db }, e)

  unfoldable pub put : LevelDb → Bytes → Bytes → LevelDb × Option Bytes
  put l key value = with_db l (d.put l.db key value)

  unfoldable pub has : LevelDb → Bytes → Result Bytes Bool
  has l key = d.has l.db key

  unfoldable pub get : LevelDb → Bytes → Result Bytes Bytes
  get l key = d.get l.db key

  unfoldable pub delete : LevelDb → Bytes → LevelDb × Option Bytes
  delete l key = with_db l (d.delete l.db key)

  -- LevelDBBatch; its database is the argument of `write`.
  pub record LevelDbBatch : Type 0 where
    pub b : B
    pub size : ℕ

  unfoldable pub new_level_batch : LevelDbBatch
  new_level_batch = record { b = new_batch; size = 0 }

  unfoldable pub put_in : LevelDbBatch → Bytes → Bytes → LevelDbBatch
  put_in x key value = record { b = batch_put x.b key value; size = x.size + length value }

  unfoldable pub delete_in : LevelDbBatch → Bytes → LevelDbBatch
  delete_in x key = record { b = batch_delete x.b key; size = x.size + 1 }

  unfoldable pub reset : LevelDbBatch → LevelDbBatch
  reset x = record { b = batch_reset x.b; size = 0 }

  unfoldable pub value_size : LevelDbBatch → ℕ
  value_size x = x.size

  unfoldable pub write : LevelDb → LevelDbBatch → LevelDb × Option Bytes
  write l x = with_db l (d.write l.db x.b)
