-- ===== src/Tests/Batches.antt =====
-- A batch on a store in memory.
use airfk.Shared.{
  ◌≡◌, refl, ap, sym, ◌∙◌, Bool, true, false, Option, none, some, List, [], ◌∷◌, ◌++◌, Bytes, codes,
  if◌then◌else◌, text_eq,
}
use airfk.Shared.Result.{Result, ok, err}
use airfk.Shared.Map.{Map, lookup, insert, delete, lookup-insert, lookup-delete}
use airfk.Leveldb.{
  Db, Opened, opened, LevelDb, LevelDbBatch, new_level_batch, get, write, value_size,
}
use airfk.Leveldb.Batches.{
  Op, put_op, delete_op, Command, doing, resetting, replay, IsLog, outstanding, ops_size, run,
  write-replay,
}

spread_if :
    {A : Type 0} {B : Type 0} (b : Bool) (f : A → B) (x y : A)
    → f (if b then x else y) ≡ (if b then f x else f y)
spread_if true f x y = refl
spread_if false f x y = refl

unfoldable apply : List Op → Map Bytes → Map Bytes
apply [] m = m
apply (put_op k v ∷ ops) m = apply ops (insert k v m)
apply (delete_op k ∷ ops) m = apply ops (delete k m)

lookup-apply :
    (ops : List Op) (m : Map Bytes) (k : Bytes) → lookup k (apply ops m) ≡ replay k (lookup k m) ops
unfolding apply replay
lookup-apply [] m k = refl
lookup-apply (put_op j v ∷ ops) m k =
    lookup-apply ops (insert j v m) k
    ∙ ap (λ o. replay k o ops) (lookup-insert j k v m)
    ∙ spread_if (text_eq j k) (λ o. replay k o ops) (some v) (lookup k m)
lookup-apply (delete_op j ∷ ops) m k =
    lookup-apply ops (delete j m) k
    ∙ ap (λ o. replay k o ops) (lookup-delete j k m)
    ∙ spread_if (text_eq j k) (λ o. replay k o ops) none (lookup k m)

abbrev value_or_missing : Option Bytes → Result Bytes Bytes
value_or_missing none = err (codes "leveldb: not found")
value_or_missing (some v) = ok v

abbrev is_there : Option Bytes → Result Bytes Bool
is_there none = ok false
is_there (some v) = ok true

abbrev memory : Db
memory = record {
  St = Map Bytes;
  B = List Op;
  open_file = λ file o. opened [];
  recover_file = λ file. opened [];
  put = λ s k v. (insert k v s, none);
  has = λ s k. is_there (lookup k s);
  get = λ s k. value_or_missing (lookup k s);
  delete = λ s k. (delete k s, none);
  new_batch = [];
  batch_put = λ b k v. b ++ put_op k v ∷ [];
  batch_delete = λ b k. b ++ delete_op k ∷ [];
  batch_reset = λ b. [];
  write = λ s b. (apply b s, none);
}

abbrev memory_log : IsLog memory
memory_log = record {
  ops = λ b. b;
  contents = λ s k. lookup k s;
  ops_new = refl;
  ops_put = λ b k v. refl;
  ops_delete = λ b k. refl;
  ops_reset = λ b. refl;
  write_contents = λ s s' b k e.
      ap (λ (p : Map Bytes × Option Bytes). lookup k p.0) (sym e) ∙ lookup-apply b s k;
  get_contents = λ s k v e. ap value_or_missing e;
  not_found = codes "leveldb: not found";
  get_absent = λ s k e. ap value_or_missing e;
}

abbrev commands : List Command
commands =
    doing (put_op (codes "a") (codes "lost"))
    ∷ resetting
    ∷ doing (put_op (codes "a") (codes "one"))
    ∷ doing (delete_op (codes "b"))
    ∷ []

abbrev old_db : LevelDb memory
old_db = record { fn = codes "file"; db = (codes "b", codes "two") ∷ [] }

abbrev written_db : LevelDb memory
written_db = record { fn = codes "file"; db = (codes "a", codes "one") ∷ [] }

commands_written :
    write memory old_db (run memory (new_level_batch memory) commands) ≡ (written_db, none)
unfolding write airfk.Leveldb.with_db apply run airfk.Leveldb.Batches.run_one
    airfk.Leveldb.delete_in airfk.Leveldb.put_in airfk.Leveldb.reset delete insert text_eq
commands_written = refl

-- The key that the batch deletes, which the database had.
write-replay_example :
    (get memory written_db (codes "b") ≡ err (codes "leveldb: not found"))
    × (LevelDbBatch.b (run memory (new_level_batch memory) commands) ≡ outstanding [] commands)
    × (value_size memory (run memory (new_level_batch memory) commands)
        ≡ ops_size (outstanding [] commands))
unfolding replay outstanding text_eq
write-replay_example =
    write-replay memory memory_log old_db written_db commands (codes "b") commands_written
