-- ===== src/Leveldb/Batches.antt =====
-- A batch of pkg/leveldb/database.go against the list of what was asked of it.
use airfk.Shared.{
  ℕ, ◌+◌, ◌≡◌, refl, ◌∙◌, ap, Option, none, some, List, [], ◌∷◌, ◌++◌, Bytes, arith, if◌then◌else◌,
  length, text_eq, sym, Option-cases, inl, inr,
}
use airfk.Shared.Result.{Result, ok, err}
use airfk.Leveldb.{
  Db, LevelDb, LevelDbBatch, new_level_batch, put_in, delete_in, reset, value_size, write, get,
  with_db,
}

pub data Op : Type 0 where
  put_op : (key value : Bytes) → Op
  delete_op : (key : Bytes) → Op

pub data Command : Type 0 where
  doing : Op → Command
  resetting : Command

-- What stands under a key after operations.
unfoldable pub replay : Bytes → Option Bytes → List Op → Option Bytes
replay k v [] = v
replay k v (put_op key value ∷ ops) =
    if text_eq key k then replay k (some value) ops else replay k v ops
replay k v (delete_op key ∷ ops) = if text_eq key k then replay k none ops else replay k v ops

-- What goleveldb documents of a batch: it keeps the operations in order, and a write that succeeds
-- applies them in order.
pub record IsLog (d : Db) : Type 0 where
  pub ops : Db.B d → List Op
  pub contents : Db.St d → Bytes → Option Bytes
  pub ops_new : ops d.new_batch ≡ []
  pub ops_put :
      (b : Db.B d) (key value : Bytes)
      → ops (d.batch_put b key value) ≡ ops b ++ put_op key value ∷ []
  pub ops_delete :
      (b : Db.B d) (key : Bytes) → ops (d.batch_delete b key) ≡ ops b ++ delete_op key ∷ []
  pub ops_reset : (b : Db.B d) → ops (d.batch_reset b) ≡ []
  pub write_contents :
      (s s' : Db.St d) (b : Db.B d) (k : Bytes)
      → d.write s b ≡ (s', none)
      → contents s' k ≡ replay k (contents s k) (ops b)
  pub get_contents : (s : Db.St d) (k v : Bytes) → contents s k ≡ some v → d.get s k ≡ ok v
  -- ErrNotFound
  pub not_found : Bytes
  pub get_absent : (s : Db.St d) (k : Bytes) → contents s k ≡ none → d.get s k ≡ err not_found

-- What Get answers for the contents under a key.
abbrev pub found_or : Bytes → Option Bytes → Result Bytes Bytes
found_or missing none = err missing
found_or missing (some v) = ok v

-- The operations that commands leave in a batch, and their size.
unfoldable pub outstanding : List Op → List Command → List Op
outstanding ops [] = ops
outstanding ops (doing op ∷ cs) = outstanding (ops ++ op ∷ []) cs
outstanding ops (resetting ∷ cs) = outstanding [] cs

abbrev pub op_size : Op → ℕ
op_size (put_op key value) = length value
op_size (delete_op key) = 1

unfoldable pub ops_size : List Op → ℕ
ops_size [] = 0
ops_size (op ∷ ops) = op_size op + ops_size ops

module _ (d : Db) where
  unfoldable pub run_one : LevelDbBatch d → Command → LevelDbBatch d
  run_one x (doing (put_op key value)) = put_in d x key value
  run_one x (doing (delete_op key)) = delete_in d x key
  run_one x resetting = reset d x

  unfoldable pub run : LevelDbBatch d → List Command → LevelDbBatch d
  run x [] = x
  run x (c ∷ cs) = run (run_one x c) cs

  ops_size-append : (ops more : List Op) → ops_size (ops ++ more) ≡ ops_size ops + ops_size more
  unfolding ops_size
  ops_size-append [] more = omega arith
  ops_size-append (op ∷ ops) more = omega (arith, ops_size-append ops more)

  -- A batch that holds some operations.
  abbrev Keeps : IsLog d → LevelDbBatch d → List Op → Type 0
  Keeps log x ops = (log.ops x.b ≡ ops) × (x.size ≡ ops_size ops)

  run-Keeps :
      (log : IsLog d) (x : LevelDbBatch d) (ops : List Op) (cs : List Command)
      → Keeps log x ops
      → Keeps log (run x cs) (outstanding ops cs)
  unfolding run run_one outstanding put_in delete_in reset ops_size
  run-Keeps log x ops [] h = h
  run-Keeps log x ops (doing (put_op key value) ∷ cs) (e, n) =
      run-Keeps log (put_in d x key value) (ops ++ put_op key value ∷ []) cs (
        log.ops_put x.b key value ∙ ap (λ l. l ++ put_op key value ∷ []) e,
        omega (arith, n, ops_size-append ops (put_op key value ∷ [])),
      )
  run-Keeps log x ops (doing (delete_op key) ∷ cs) (e, n) =
      run-Keeps log (delete_in d x key) (ops ++ delete_op key ∷ []) cs (
        log.ops_delete x.b key ∙ ap (λ l. l ++ delete_op key ∷ []) e,
        omega (arith, n, ops_size-append ops (delete_op key ∷ [])),
      )
  run-Keeps log x ops (resetting ∷ cs) h = run-Keeps log (reset d x) [] cs (log.ops_reset x.b, refl)

  get_found_or :
      (log : IsLog d) (s : Db.St d) (k : Bytes)
      → d.get s k ≡ found_or log.not_found (log.contents s k)
  get_found_or log s k = elim (Option-cases (log.contents s k)) [
    | inl gone ↦ log.get_absent s k gone ∙ ap (found_or log.not_found) (sym gone)
    | inr (v, there) ↦ log.get_contents s k v there ∙ ap (found_or log.not_found) (sym there)
  ]

  -- Puts, deletes and resets on a new batch leave in it the operations behind the last reset, the
  -- deletes included, and its size is the sum of the sizes of their values, 1 for a delete. When it
  -- is written without an error, Get answers for every key with what these operations make, in
  -- their order, of what the database had: with the value, or with ErrNotFound when there is none.
  -- The batch and the database of goleveldb behave as documented.
  pub write-replay :
      (log : IsLog d) (l l' : LevelDb d) (cs : List Command) (k : Bytes)
      → write d l (run (new_level_batch d) cs) ≡ (l', none)
      → (get d l' k ≡ found_or log.not_found (replay k (log.contents l.db k) (outstanding [] cs)))
        × (log.ops (LevelDbBatch.b (run (new_level_batch d) cs)) ≡ outstanding [] cs)
        × (value_size d (run (new_level_batch d) cs) ≡ ops_size (outstanding [] cs))
  unfolding write with_db get value_size new_level_batch ops_size
  write-replay log l l' cs k e =
      let x = run (new_level_batch d) cs in
      let (kept, size) = run-Keeps log (new_level_batch d) [] cs (log.ops_new, refl) in
      let written : d.write l.db x.b ≡ (l'.db, none) = ap (λ p. (p.0.db, p.1)) e in
      let contents =
        log.write_contents l.db l'.db x.b k written ∙ ap (replay k (log.contents l.db k)) kept in
      (get_found_or log l'.db k ∙ ap (found_or log.not_found) contents, kept, size)
