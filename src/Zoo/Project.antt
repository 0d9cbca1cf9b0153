-- ===== src/Zoo/Project.antt =====
-- pkg/zoo/project.go.
use airfk.Shared.{
  ℕ, Bool, true, false, not, Option, none, some, List, [], ◌∷◌, ◌++◌, Bytes, codes, length, ◌==◌,
  if◌then◌else◌,
}
use airfk.Shared.Result.{ok, err}
use airfk.GoStd.Strings.{replace_byte}
use airfk.Zoo.World.{mkdir_all, remove_all, stat, output, plain_clone, World}
use airfk.Zoo.Folder.{ZooFolder, Heap, empty_folder}
use airfk.Zoo.Render.{Disk, attempt, render}

pub record Project : Type 0 where
  pub name : Bytes
  pub website : Bytes
  pub project_dir : Bytes
  pub rel_dir : Bytes
  pub lib_dir : Bytes
  pub is_remove : Bool
  pub folder : ZooFolder

module _ (w : World Project) where
  unfoldable pub src_path : Bytes
  src_path = w.path_join (w.gopath ∷ codes "src" ∷ [])

  -- The directory of a project; empty if there is no working directory.
  unfoldable pub project_path : Bytes → Bytes → Bytes
  unfolding src_path
  project_path website name =
      if length website == 0
      then elim w.getwd [ err e ↦ [] | ok x ↦ w.path_join (x ∷ name ∷ []) ]
      else w.path_join (src_path ∷ website ∷ name ∷ [])

  unfoldable pub new_project : Bytes → Bytes → Bytes → Bool → Project
  new_project website name lib is_remove = record {
    name = name;
    website = website;
    project_dir = project_path website name;
    rel_dir = website ++ (codes "/" ++ name);
    lib_dir = lib;
    is_remove = is_remove;
    folder = empty_folder;
  }

  module _ (h : Heap) (fuel : ℕ) (template_path : Bytes) (p : Project) where
    unfoldable pub add_file : Disk → Option Bytes × Disk
    unfolding attempt
    add_file d =
        let (e, d1) = attempt w (mkdir_all p.project_dir) d in
        elim e [ some m ↦ (some m, d1) | none ↦ render w template_path p h fuel p.folder d1 ]

    unfoldable pub write : Disk → Option Bytes × Disk
    unfolding add_file
    write d =
        let d1 = if p.is_remove then (attempt w (remove_all p.project_dir) d).1 else d in
        add_file d1

  -- Whether there is a file, or an error other than that there is none.
  unfoldable pub file_exist : Bytes → Disk → Bool × Disk
  unfolding attempt
  file_exist path d =
      let (e, d1) = attempt w (stat path) d in
      (elim e [ none ↦ true | some m ↦ not (w.is_not_exist m) ], d1)

  unfoldable pub clone : List Bytes → Disk → Option Bytes × Disk
  unfolding src_path file_exist attempt
  clone [] d = (none, d)
  clone (url ∷ urls) d = elim (length url == 0) [
    | true ↦ clone urls d
    | false ↦
        let (found, d1) = file_exist (w.path_join (src_path ∷ url ∷ [])) d in
        elim found [
          | true ↦ clone urls d1
          | false ↦
              let (e, d2) = attempt w (output (codes "go get " ++ url)) d1 in
              elim e [ some m ↦ (some m, d2) | none ↦ clone urls d2 ]
        ]
  ]

  unfoldable pub build : Project → Disk → Option Bytes × Disk
  unfolding attempt
  build p d = attempt w (output (codes "cd " ++ (p.project_dir ++ codes " && make build"))) d

  unfoldable pub git_clone : Bytes → Bytes → Disk → Option Bytes × Disk
  unfolding attempt
  git_clone url place d = attempt w (plain_clone place url) d

-- The names for the templates; strcase is a parameter.
module _ (to_camel to_snake : Bytes → Bytes) (p : Project) where
  unfoldable pub camel_case_name : Bytes
  camel_case_name = to_camel p.name

  unfoldable pub snake_case_name : Bytes
  unfolding replace_byte
  snake_case_name = replace_byte b'-' b'_' (to_snake p.name)

  unfoldable pub dns_name : Bytes
  unfolding replace_byte
  dns_name = replace_byte b'_' b'-' (to_snake p.name)

unfoldable pub lib_name : Project → Bytes
lib_name p = p.lib_dir
