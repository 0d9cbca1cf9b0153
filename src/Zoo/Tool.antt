-- ===== src/Zoo/Tool.antt =====
-- cmd/tool/tool.go.
pub mod Listed
pub mod Built
pub mod Written
use airfk.Shared.{
  ℕ, zero, suc, Bool, true, false, Option, none, some, List, [], ◌∷◌, ◌++◌, Bytes, codes, length,
  ◌==◌, map, if◌then◌else◌,
}
use airfk.GoStd.Strings.{replace_first}
use airfk.Zoo.World.{combined_output, World}
use airfk.Zoo.Folder.{ZooFile, ZooFolder, Heap, empty_heap, allocate, add_folder, add_file}
use airfk.Zoo.Render.{Disk, attempt}
use airfk.Zoo.Project.{Project, project_path, write, clone}

abbrev pub lib_name_default : Bytes
lib_name_default = codes "airman.com/airfk"

-- A map of names of folders to names of files, in an order that Go may take.
abbrev pub FileList : Type 0
FileList = List (Bytes × List Bytes)

abbrev pub node_file_list : FileList
node_file_list =
    (codes "admin", map codes ("api.go" ∷ "backend.go" ∷ "node.go" ∷ []))
    ∷ (codes "conf", map codes ("conf.go" ∷ []))
    ∷ (codes "version", map codes ("version.go" ∷ []))
    ∷ (codes "common", map codes ("errors.go" ∷ "result.go" ∷ []))
    ∷ (codes "subscribe", map codes ("interface.go" ∷ "subscribe.go" ∷ "subscribe_test.go" ∷ []))
    ∷ (codes "@@@@@", map codes ("@@@@@.go" ∷ "manager.go" ∷ []))
    ∷ []

abbrev pub dist_file_list : FileList
dist_file_list =
    (codes "etc", map codes ("@@@@@.json" ∷ [])) ∷ (codes "bin", map codes ("" ∷ [])) ∷ []

abbrev pub git_list : List Bytes
git_list = codes "airman.com/airfk" ∷ []

-- The place of the project's name in names of files.
unfoldable pub named : Bytes → Bytes → Bytes
named name s = replace_first s (codes "@@@@@") name

module _ (w : World Project) (name : Bytes) where
  -- The inner loops of NewProject.
  unfoldable pub add_listed_files : ℕ → List Bytes → Heap → Heap
  unfolding named add_file
  add_listed_files f [] h = h
  add_listed_files f (ff ∷ ffs) h =
      let fs = named name ff in
      add_listed_files f ffs
        (if length fs == 0 then h else add_file w.path_join f fs (ff ++ codes ".tpl") h)

  -- The outer loops; `rename` is what becomes of the key.
  unfoldable pub add_listed : (Bytes → Bytes) → ℕ → FileList → Heap → Heap
  unfolding add_folder add_listed_files
  add_listed rename parent [] h = h
  add_listed rename parent ((k, v) ∷ kvs) h =
      let (f, h1) = add_folder w.path_join parent (rename k) h in
      add_listed rename parent kvs (add_listed_files f v h1)

  module _ (website : Bytes) where
    -- NewProject up to the folder node. The address of `f`, the folder of the project, is 0.
    unfoldable pub root_with_files : Heap
    unfolding allocate project_path add_file
    root_with_files =
        let root : ZooFolder = record {
          name = name;
          abs_path = project_path w website name;
          files = [];
          folders = [];
        } in
        let h0 = allocate root empty_heap in
        let h1 = add_file w.path_join 0 (codes "main.go") (codes "main.go.tpl") h0 in
        let h2 = add_file w.path_join 0 (codes "Makefile") (codes "Makefile.tpl") h1 in
        let h3 = add_file w.path_join 0 (codes "Dockerfile") (codes "Dockerfile.tpl") h2 in
        add_file w.path_join 0 (codes ".gitignore") (codes "gitignore.tpl") h3

  module _ (website : Bytes) (node_list dist_list : FileList) where
    -- The heap that NewProject leaves.
    unfoldable pub build_folders : Heap
    unfolding root_with_files add_folder add_listed
    build_folders =
        let (node, h5) = add_folder w.path_join 0 (codes "node") (root_with_files website) in
        let h6 = add_listed (named name) node node_list h5 in
        let (dist, h7) = add_folder w.path_join 0 (codes "dist") h6 in
        add_listed (λ k. k) dist dist_list h7

    unfoldable pub new_project : Project × Heap
    unfolding build_folders
    new_project =
        let h = build_folders in
        (
          record {
            name = name;
            website = website;
            project_dir = project_path w website name;
            rel_dir = website ++ (codes "/" ++ name);
            lib_dir = lib_name_default;
            is_remove = true;
            folder = h.folder 0;
          },
          h,
        )

abbrev mod_cmd : Bytes → Bytes
mod_cmd project_dir =
    codes "cd "
    ++ (project_dir
        ++ codes
            "; go mod init ; go mod edit -require=airman.com/airfk@v0.0.0 ; go mod edit -replace=airman.com/airfk@v0.0.0=$GOPATH/src/airman.com/airfk ; go mod tidy && make")

-- The exit status of main without the flag for the version. Errors of Write and Clone are printed,
-- and the next step is taken.
unfoldable pub main : World Project → FileList → FileList → Bytes → Bytes → Bytes → Disk → ℕ × Disk
unfolding new_project write clone attempt
main w node_list dist_list website name template d =
    let (p, h) = new_project w name website node_list dist_list in
    let (written, d1) = write w h h.next template p d in
    let (cloned, d2) = clone w git_list d1 in
    let (e, d3) =
      attempt w (combined_output (codes "/bin/sh") (codes "-c" ∷ mod_cmd p.project_dir ∷ [])) d2 in
    elim e [ none ↦ (0, d3) | some m ↦ (1, d3) ]
