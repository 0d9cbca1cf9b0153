-- ===== src/Tests/Files.antt =====
-- Examples of files and commands.
use airfk.Shared.{
  ℕ, zero, suc, ◌≡◌, refl, ◌⊎◌, inl, inr, arith, true, false, Option, none, some, Option-cases, [],
  ◌∷◌, Bytes, codes, text_eq, text_eq_iff,
}
use airfk.Shared.Int.{pos}
use airfk.Shared.Map.{Map, lookup, insert, delete, lookup-insert, lookup-delete}
use airfk.Shared.Result.{Result, ok, err}
use airfk.Common.Exec.{
  Answer, Shell, exec_cmdline, exec_cmdline_with_timeout, exec_cmdfile, exec_cmdfile_with_timeout,
  exec_cmd, exec_cmd_with_timeout, exec_cmd_file, exec_cmd_file_with_timeout,
}
use airfk.Common.Exec.First.{Retried, exec_cmd-Retried}
use airfk.GoStd.Strings.{push_head}
use airfk.Common.Files.{last_part, first_part, FileSystem, write_file, get_file_list}
use airfk.Common.Files.Atomic.{IsDocumented, Written, write_file-Written, Moved, Filled, Fresh}
use airfk.Common.Files.Listing.{get_file_list-listed, listed}

-- Commands that fail twice, and then print their program.
abbrev flaky : Bytes → ℕ → Answer × ℕ
flaky program zero = (record { result = program; error = none }, 0)
flaky program (suc n) = (record { result = []; error = some (codes "exit status 1") }, n)

abbrev flaky_shell : Shell
flaky_shell = record { St = ℕ; combined_output = λ program args timeout s. flaky program s }

exec_cmd_third :
    exec_cmd flaky_shell (codes "make") (pos 5) 2
    ≡ (record { result = codes "/bin/sh"; error = none }, 0)
unfolding exec_cmd
exec_cmd_third = refl

exec_cmd-Retried_example :
    Retried flaky_shell
      (exec_cmdline flaky_shell (codes "make"))
      (pos 5)
      2
      (exec_cmd flaky_shell (codes "make") (pos 5) 2)
    × Retried flaky_shell
        (exec_cmdline_with_timeout flaky_shell (codes "make") (pos 9))
        (pos 5)
        2
        (exec_cmd_with_timeout flaky_shell (codes "make") (pos 5) (pos 9) 2)
    × Retried flaky_shell
        (exec_cmdfile flaky_shell (codes "make"))
        (pos 5)
        2
        (exec_cmd_file flaky_shell (codes "make") (pos 5) 2)
    × Retried flaky_shell
        (exec_cmdfile_with_timeout flaky_shell (codes "make") (pos 9))
        (pos 5)
        2
        (exec_cmd_file_with_timeout flaky_shell (codes "make") (pos 5) (pos 9) 2)
exec_cmd-Retried_example = exec_cmd-Retried flaky_shell (codes "make") (pos 5) (pos 9) 2

-- Files in memory. A temporary file has its pattern for a name, if no file has that.
make_temp : Map Bytes → Bytes → Result Bytes Bytes × Map Bytes
make_temp m pattern = elim (lookup pattern m) [
  | none ↦ (ok pattern, insert pattern [] m)
  | some v ↦ (err (codes "file exists"), m)
]

move : Map Bytes → Bytes → Bytes → Option Bytes × Map Bytes
move m from to = elim (lookup from m) [
  | none ↦ (some (codes "no such file"), m)
  | some v ↦ (none, insert to v (delete from m))
]

abbrev stat_file : Map Bytes → Bytes → Option Bytes
stat_file m p = elim (lookup p m) [ none ↦ some (codes "no such file") | some v ↦ none ]

abbrev memory : FileSystem
memory = record {
  St = Map Bytes;
  stat = stat_file;
  is_not_exist = λ e. true;
  mkdir_all = λ m d. (none, m);
  temp_file = λ m d pattern. make_temp m pattern;
  write = λ m f text. (none, insert f text m);
  close = λ m f. m;
  remove = λ m f. (none, delete f m);
  rename = move;
  read_file = λ m p. elim (lookup p m) [ none ↦ err (codes "no such file") | some v ↦ ok v ];
  read_dir = λ m d. ok (
      record { name = codes "a.b.txt"; is_dir = false }
      ∷ record { name = codes "c.txt"; is_dir = true }
      ∷ record { name = codes "d.json"; is_dir = false }
      ∷ []);
  temp_dir = λ m d pattern. (ok pattern, m);
  is_abs = λ p. false;
  path_join = λ parts. [];
  dir = λ p. [];
  base = λ p. p;
}

abbrev contents : Map Bytes → Bytes → Option Bytes
contents m p = lookup p m

make_temp-Fresh : (m : Map Bytes) (pattern p : Bytes) → Fresh contents m (make_temp m pattern) p
unfolding make_temp
make_temp-Fresh m pattern p = ground (arith, lookup-insert pattern p [] m, text_eq_iff pattern p)

fill-Filled :
    (m : Map Bytes) (f text p : Bytes) → Filled contents m f text (none, insert f text m) p
fill-Filled m f text p = ground (arith, lookup-insert f p text m, text_eq_iff f p, text_eq_iff p f)

delete-other : (m : Map Bytes) (f p : Bytes) → (lookup p (delete f m) ≡ lookup p m) ⊎ (p ≡ f)
delete-other m f p = ground (arith, lookup-delete f p m, text_eq_iff f p)

move-Moved : (m : Map Bytes) (from to p : Bytes) → Moved contents m from to (move m from to) p
unfolding move
move-Moved m from to p = elim (Option-cases (lookup from m)) [
  | inl e ↦ ground arith
  | inr (v, e) ↦ ground (
    arith,
    lookup-insert to p v (delete from m),
    lookup-delete from p m,
    text_eq_iff to p,
    text_eq_iff p to,
    text_eq_iff from p,
    text_eq_iff p from,
  )
]

memory-IsDocumented : IsDocumented memory contents
memory-IsDocumented = record {
  content-mkdir_all = λ m d p. refl;
  content-temp_file = λ m d pattern p. make_temp-Fresh m pattern p;
  content-write = fill-Filled;
  content-close = λ m f p. refl;
  content-remove = delete-other;
  content-rename = move-Moved;
}

abbrev keys : Map Bytes
keys = (codes "key", codes "old") ∷ (codes "other", codes "text") ∷ []

write_file_key :
    (write_file memory keys (codes "key") (codes "new")).1
    ≡ (codes "key", codes "new") ∷ (codes "other", codes "text") ∷ []
unfolding write_file move make_temp lookup insert delete text_eq
write_file_key = refl

write_file-Written_example :
    Written contents keys
      (codes "key")
      (codes "new")
      (write_file memory keys (codes "key") (codes "new"))
      (codes "other")
write_file-Written_example =
    write_file-Written memory contents memory-IsDocumented keys (codes "key") (codes "new")
      (codes "other")

get_file_list_txt : get_file_list memory keys [] (codes "txt") false ≡ ok (codes "a" ∷ [])
unfolding get_file_list text_eq push_head last_part first_part
get_file_list_txt = refl

get_file_list-listed_example :
    get_file_list memory keys [] (codes "txt") false
    ≡ ok (
        listed (codes "txt") false (
          record { name = codes "a.b.txt"; is_dir = false }
          ∷ record { name = codes "c.txt"; is_dir = true }
          ∷ record { name = codes "d.json"; is_dir = false }
          ∷ []))
get_file_list-listed_example = get_file_list-listed memory keys [] (codes "txt") false (omega arith)
