-- ===== src/Tests/Generated.antt =====
-- A project generated on a system that answers every call, or fails at one.
use airfk.Shared.{
  ℕ, ◌≡◌, refl, arith, true, none, some, List, [], ◌∷◌, ◌++◌, Bytes, codes, text_eq, has_prefix,
  if◌then◌else◌, length, ltb, ◌==◌,
}
use airfk.Shared.Result.{ok}
use airfk.Zoo.World.{parse_files, create, mkdir_all, remove_all, World, write}
use airfk.Zoo.Folder.{ZooFile, ZooFolder, Heap}
use airfk.Zoo.Render.{Disk, render, close_all, remove_first}
use airfk.GoStd.Strings.{has_infix}
use airfk.Zoo.Plan.{Tree, tree, end, sub, Shows, may, must, run, plan, depth}
use airfk.Zoo.Plan.Rendered.{closed, render-run}
use airfk.Zoo.Project.{Project, project_path, write as write_project}
use airfk.Zoo.Tool.{new_project, node_file_list, dist_file_list}
use airfk.Zoo.Tool.Listed.{project_tree}
use airfk.Zoo.Tool.Written.{write-new_project}

-- Paths are the parts with a slash behind each. Every call after the first `n` fails.
abbrev joined : List Bytes → Bytes
joined [] = []
joined (p ∷ ps) = p ++ (b'/' ∷ joined ps)

module _ {P : Type 0} (n : ℕ) where
  abbrev world : World P
  world = record {
    answers = λ log c. if ltb (length log) n then none else some (codes "no space left on device");
    template_text = λ path. path;
    execute = λ text p. ok text;
    format_source = λ text. ok (text ++ codes "// gofmt");
    path_join = joined;
    is_not_exist = λ e. true;
    gopath = codes "go";
    getwd = ok (codes "home");
  }

abbrev shop_world : World Project
shop_world = world 100

abbrev small_world : World (Unit {0})
small_world = world 2

abbrev nothing_done : Disk
nothing_done = record { log = []; opened = codes "stdout" ∷ [] }

abbrev shop : Project × Heap
shop = new_project shop_world (codes "shop") (codes "airman.com") node_file_list dist_file_list

write-new_project_example :
    write_project shop_world shop.1 shop.1.next (codes "tpl") shop.0 nothing_done
    ≡ closed (codes "stdout" ∷ []) (
        run shop_world
          (may (remove_all (project_path shop_world (codes "airman.com") (codes "shop")))
            ∷ must (mkdir_all (project_path shop_world (codes "airman.com") (codes "shop")))
            ∷ plan shop_world (codes "tpl") shop.0 (
                project_tree shop_world
                  (codes "shop")
                  (project_path shop_world (codes "airman.com") (codes "shop"))
                  node_file_list
                  dist_file_list))
          [])
write-new_project_example =
    write-new_project shop_world (codes "airman.com") (codes "shop") (codes "tpl") node_file_list
      dist_file_list nothing_done

-- A folder with one file and an empty subfolder.
abbrev small_file : ZooFile
small_file = record { name = codes "a.go"; abs_path = codes "p/a.go"; template = codes "t" }

abbrev small_folder : Bytes → List ZooFile → List ℕ → ZooFolder
small_folder path files folders = record {
  name = path;
  abs_path = path;
  files = files;
  folders = folders;
}

abbrev small_heap : Heap
small_heap = record {
  next = 2;
  folder = λ i.
      if i == 0
      then small_folder (codes "p") (small_file ∷ []) (1 ∷ [])
      else small_folder (codes "p/q") [] [];
}

abbrev small_tree : Tree
small_tree = tree (codes "p") (small_file ∷ []) (sub (tree (codes "p/q") [] end) end)

small_heap-Shows : Shows small_heap (small_heap.folder 0) small_tree
unfolding Shows
small_heap-Shows = (refl, refl, ((refl, refl, tt), tt))

-- The third call, the Write of what gofmt made, fails; the file is closed.
render_small : render small_world (codes "d") tt small_heap 2 (small_heap.folder 0) nothing_done ≡ (
  some (codes "no space left on device"),
  record {
    log =
        parse_files (codes "d/t/")
        ∷ create (codes "p/a.go")
        ∷ write (codes "p/a.go") (codes "d/t/// gofmt")
        ∷ [];
    opened = codes "stdout" ∷ [];
  },
)
unfolding render has_infix has_prefix close_all remove_first text_eq
render_small = refl

render-run_example :
    render small_world (codes "d") tt small_heap 2 (small_heap.folder 0) nothing_done
    ≡ closed (codes "stdout" ∷ []) (run small_world (plan small_world (codes "d") tt small_tree) [])
render-run_example =
    render-run small_world (codes "d") tt small_heap small_tree 2 (small_heap.folder 0) nothing_done
      small_heap-Shows (unfold depth in omega arith)
