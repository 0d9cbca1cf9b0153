-- ===== src/Zoo/Render.antt =====
-- render of pkg/zoo/file.go.
use airfk.Shared.{
  ℕ, zero, suc, Option, none, some, List, [], ◌∷◌, ◌++◌, Bytes, codes, text_eq, if◌then◌else◌,
}
use airfk.Shared.Result.{Result, ok, err}
use airfk.GoStd.Strings.{has_infix}
use airfk.Zoo.World.{Call, parse_files, create, mkdir, write, execute_to, Log, World}
use airfk.Zoo.Folder.{ZooFile, ZooFolder, Heap}

-- The calls made, and the files that are open.
pub record Disk : Type 0 where
  pub log : Log
  pub opened : List Bytes

-- A call of render: its disk and the files that it closes when it returns, the last one first.
pub record Frame : Type 0 where
  pub disk : Disk
  pub deferred : List Bytes

pub data Outcome : Type 0 where
  continued : Frame → Outcome
  failed : Bytes → Frame → Outcome

infixl 5 ◌>>=◌
abbrev pub ◌>>=◌ : Outcome → (Frame → Outcome) → Outcome
continued s >>= f = f s
failed e s >>= f = failed e s

abbrev pub or_fail : Result Bytes Bytes → Frame → (Bytes → Outcome) → Outcome
or_fail (ok a) s f = f a
or_fail (err e) s f = failed e s

unfoldable pub remove_first : Bytes → List Bytes → List Bytes
remove_first p [] = []
remove_first p (q ∷ qs) = if text_eq q p then qs else q ∷ remove_first p qs

-- The deferred calls of Close.
unfoldable pub close_all : List Bytes → Disk → Disk
close_all [] d = d
close_all (p ∷ ps) d = close_all ps (record d { opened = remove_first p d.opened })

unfoldable pub returned : Outcome → Option Bytes × Disk
returned (continued s) = (none, close_all s.deferred s.disk)
returned (failed e s) = (some e, close_all s.deferred s.disk)

-- What follows a call of render for a subfolder.
unfoldable pub resume : Option Bytes × Disk → Frame → (Frame → Outcome) → Outcome
resume (none, d) t f = f (record t { disk = d })
resume (some e, d) t f = failed e (record t { disk = d })

module _ {P : Type 0} (w : World P) where
  unfoldable pub attempt : Call → Disk → Option Bytes × Disk
  attempt c d = (w.answers d.log c, record d { log = d.log ++ (c ∷ []) })

  unfoldable pub perform : Call → Frame → Outcome
  unfolding attempt
  perform c s =
      let (e, d) = attempt c s.disk in
      elim e [
        | none ↦ continued (record s { disk = d })
        | some m ↦ failed m (record s { disk = d })
      ]

  -- os.Create, and the deferred call of Close.
  unfoldable pub create_file : Bytes → Frame → Outcome
  unfolding perform
  create_file path s = do
    t ← perform (create path) s
    continued (record {
      disk = record { log = t.disk.log; opened = path ∷ t.disk.opened };
      deferred = path ∷ t.deferred;
    })

  module _ (h : Heap) where
    -- The calls of render for the subfolders are made by `visit`.
    unfoldable pub render_folders :
        (ZooFolder → Disk → Option Bytes × Disk) → List ℕ → Frame → Outcome
    unfolding perform resume
    render_folders visit [] s = continued s
    render_folders visit (i ∷ is) s = do
      t ← perform (mkdir (h.folder i).abs_path) s
      resume (visit (h.folder i) t.disk) t (render_folders visit is)

  module _ (template_path : Bytes) (p : P) where
    -- What a parsed template makes of the project goes to the file, through gofmt if it is Go.
    unfoldable pub render_template : Bytes → Bytes → Frame → Outcome
    unfolding perform
    render_template abs_path text s =
        if has_infix abs_path (codes ".go")
        then or_fail (w.execute text p) s
            (λ out. or_fail (w.format_source out) s (λ b. perform (write abs_path b) s))
        else perform (execute_to abs_path text) s

    unfoldable pub render_file : ZooFile → Frame → Outcome
    unfolding perform create_file render_template
    render_file v s = do
      let path = w.path_join (template_path ∷ v.template ∷ [])
      s1 ← perform (parse_files path) s
      s2 ← create_file v.abs_path s1
      render_template v.abs_path (w.template_text path) s2

    unfoldable pub render_files : List ZooFile → Frame → Outcome
    unfolding render_file
    render_files [] s = continued s
    render_files (v ∷ vs) s = render_file v s >>= λ t. render_files vs t

    module _ (h : Heap) where
      -- On `fuel` levels of folders; below them nothing is rendered.
      unfoldable pub render : ℕ → ZooFolder → Disk → Option Bytes × Disk
      unfolding render_files render_folders returned
      render zero f d = (none, d)
      render (suc fuel) f d = returned (
          render_files f.files (record { disk = d; deferred = [] }) >>= λ s.
          render_folders h (render fuel) f.folders s)
