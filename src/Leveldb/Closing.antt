-- ===== src/Leveldb/Closing.antt =====
-- Path, LDB, the iterators and Close of pkg/leveldb/database.go.
use airfk.Shared.{Option, none, some, List, [], ◌∷◌, ◌++◌, Bytes}
use airfk.Leveldb.{Db, LevelDb}

-- The lines that Close logs.
pub data Line : Type 0 where
  metrics_failed close_failed : Bytes → Line
  database_closed : Line

-- The channel of the metrics, if it is made, with the answer that comes back on it.
abbrev pub QuitChan : Type 0
QuitChan = Option (Option Bytes)

unfoldable pub stop_metrics : QuitChan → List Line
stop_metrics none = []
stop_metrics (some none) = []
stop_metrics (some (some e)) = metrics_failed e ∷ []

unfoldable pub closing_line : Option Bytes → Line
closing_line none = database_closed
closing_line (some e) = close_failed e

module _ (d : Db) where
  open d use {St}

  unfoldable pub path : LevelDb d → Bytes
  path x = x.fn

  unfoldable pub ldb : LevelDb d → St
  ldb x = x.db

  module _ {I R : Type 0} (iterate : St → Option R → I) (bytes_prefix : Bytes → R) where
    unfoldable pub new_iterator : LevelDb d → I
    new_iterator x = iterate x.db none

    unfoldable pub new_iterator_with_prefix : LevelDb d → Bytes → I
    new_iterator_with_prefix x prefix = iterate x.db (some (bytes_prefix prefix))

  -- The channel and the database behind Close, and what is logged. `close_db` is Close of goleveldb.
  unfoldable pub close :
      (St → St × Option Bytes) → QuitChan → LevelDb d → (QuitChan × LevelDb d) × List Line
  unfolding stop_metrics closing_line
  close close_db quit_chan x =
      let (db, e) = close_db x.db in
      ((none, record x { db = db }), stop_metrics quit_chan ++ closing_line e ∷ [])
