-- ===== src/Zoo/Plan.antt =====
-- A project as a tree of folders, and the calls that write it, in their order.
pub mod Files
pub mod Rendered
use Prim.Native.Nat.{max}
use airfk.Shared.{
  ℕ, zero, suc, Option, none, some, List, [], ◌∷◌, ◌++◌, Bytes, codes, ◌≡◌, refl, arith,
  if◌then◌else◌,
}
use airfk.Shared.Result.{Result, ok, err, ◌>>=◌}
use airfk.GoStd.Strings.{has_infix}
use airfk.Zoo.World.{Call, parse_files, create, mkdir, write, execute_to, Log, World}
use airfk.Zoo.Folder.{ZooFile, ZooFolder, Heap}

mutual
  pub data Tree : Type 0 where
    tree : Bytes → List ZooFile → Trees → Tree

  pub data Trees : Type 0 where
    end : Trees
    sub : Tree → Trees → Trees

unfoldable mutual
  pub depth : Tree → ℕ
  depth (tree path files subs) = suc (depth_all subs)

  pub depth_all : Trees → ℕ
  depth_all end = 0
  depth_all (sub t ts) = max (depth t) (depth_all ts)

-- The folder and those that its pointers reach are the tree.
abbrev pub path_of : Tree → Bytes
path_of (tree path files subs) = path

unfoldable mutual
  pub Shows : Heap → ZooFolder → Tree → Type 0
  Shows h f (tree path files subs) =
      (f.abs_path ≡ path) × (f.files ≡ files) × ShowsAll h f.folders subs

  pub ShowsAll : Heap → List ℕ → Trees → Type 0
  ShowsAll h [] end = Unit
  ShowsAll h [] (sub t ts) = ⊥
  ShowsAll h (i ∷ is) end = ⊥
  ShowsAll h (i ∷ is) (sub t ts) = Shows h (h.folder i) t × ShowsAll h is ts

-- A call that must succeed, one whose error is dropped, or an error without a call.
pub data Task : Type 0 where
  must may : Call → Task
  fail : Bytes → Task

pub data Ran : Type 0 where
  finished : Log → Ran
  stopped : Bytes → Log → Ran

abbrev pub ran_then : Ran → (Log → Ran) → Ran
ran_then (finished l) f = f l
ran_then (stopped e l) f = stopped e l

module _ {P : Type 0} (w : World P) where
  -- The tasks in their order, until one fails.
  unfoldable pub run : List Task → Log → Ran
  run [] l = finished l
  run (fail e ∷ ts) l = stopped e l
  run (may c ∷ ts) l = run ts (l ++ (c ∷ []))
  run (must c ∷ ts) l =
      let rest = run ts (l ++ (c ∷ [])) in
      elim (w.answers l c) [ none ↦ rest | some e ↦ stopped e (l ++ (c ∷ [])) ]

  pub run-append : (us ts : List Task) (l : Log) → run (us ++ ts) l ≡ ran_then (run us l) (run ts)
  unfolding run
  run-append [] ts l = refl
  run-append (fail e ∷ us) ts l = refl
  run-append (may c ∷ us) ts l = run-append us ts (l ++ (c ∷ []))
  run-append (must c ∷ us) ts l = ground (arith, run-append us ts (l ++ (c ∷ [])))

  module _ (template_path : Bytes) (p : P) where
    -- The text that a file of Go gets.
    abbrev go_source : Bytes → Result Bytes Bytes
    go_source text = w.execute text p >>= w.format_source

    unfoldable pub fill_task : Bytes → Bytes → Task
    fill_task path text =
        if has_infix path (codes ".go")
        then elim (go_source text) [ ok b ↦ must (write path b) | err e ↦ fail e ]
        else must (execute_to path text)

    unfoldable pub file_tasks : List ZooFile → List Task
    file_tasks [] = []
    file_tasks (v ∷ vs) =
        let path = w.path_join (template_path ∷ v.template ∷ []) in
        must (parse_files path)
        ∷ must (create v.abs_path)
        ∷ fill_task v.abs_path (w.template_text path)
        ∷ file_tasks vs

    -- The files of a folder, then for each subfolder the folder itself and what it holds.
    unfoldable mutual
      pub plan : Tree → List Task
      plan (tree path files subs) = file_tasks files ++ plan_all subs

      pub plan_all : Trees → List Task
      plan_all end = []
      plan_all (sub t ts) = must (mkdir (path_of t)) ∷ (plan t ++ plan_all ts)
