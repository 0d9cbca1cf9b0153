-- ===== src/Zoo/Tool/Written.antt =====
-- Write of pkg/zoo/project.go on the project of cmd/tool/tool.go.
use airfk.Shared.{ℕ, ◌≤◌, ◌≡◌, arith, [], ◌∷◌, ◌++◌, Bytes, if◌then◌else◌}
use airfk.Zoo.World.{mkdir_all, remove_all, World}
use airfk.Zoo.Folder.{Heap}
use airfk.Zoo.Render.{Disk, attempt}
use airfk.Zoo.Plan.{Tree, depth, depth_all, Shows, may, must, run, plan}
use airfk.Zoo.Plan.Rendered.{closed, render-run}
use airfk.Zoo.Project.{Project, project_path, add_file, write}
use airfk.Zoo.Tool.{FileList, new_project, named}
use airfk.Zoo.Tool.Listed.{listed_folders, project_tree}
use airfk.Zoo.Tool.Built.{new_project-Shows, next-build_folders}

module _ (w : World Project) (template : Bytes) where
  write-run :
      (h : Heap) (fuel : ℕ) (p : Project) (t : Tree) (d : Disk)
      → Shows h p.folder t
      → depth t ≤ fuel
      → write w h fuel template p d
        ≡ closed d.opened (
            run w
              ((if p.is_remove then may (remove_all p.project_dir) ∷ [] else [])
                ++ must (mkdir_all p.project_dir) ∷ plan w template p t)
              d.log)
  unfolding write add_file attempt run
  write-run h fuel p t d shown enough =
      let d1 = if p.is_remove then (attempt w (remove_all p.project_dir) d).1 else d in
      ground (
        arith,
        render-run w template p h t fuel p.folder (attempt w (mkdir_all p.project_dir) d1).1 shown
            enough,
      )

depth_all-listed_folders :
    (w : World Project) (name : Bytes) (rename : Bytes → Bytes) (dir : Bytes) (kvs : FileList)
    → depth_all (listed_folders w name rename dir kvs) ≤ 1
unfolding depth listed_folders
depth_all-listed_folders w name rename dir [] = omega arith
depth_all-listed_folders w name rename dir ((k, v) ∷ kvs) =
    omega (arith, depth_all-listed_folders w name rename dir kvs)

depth-project_tree :
    (w : World Project) (name dir : Bytes) (node_list dist_list : FileList)
    → depth (project_tree w name dir node_list dist_list) ≤ 3
unfolding depth project_tree
depth-project_tree w name dir node_list dist_list = omega (
  arith,
  depth_all-listed_folders w name (named name) _ node_list,
  depth_all-listed_folders w name (λ k. k) _ dist_list,
)

-- On the project of NewProject, Write removes the directory of the project, whatever comes of that,
-- makes it, and then makes the calls that the plan of the project's tree lists, in their order and up
-- to the first that fails: each file from its template, and each folder before what it holds. It
-- returns the error of that call or none, and has closed every file that it opened. The tree has
-- the four files at its top, and under node and dist a folder for each key of the lists with
-- the files listed there, named after the project.
pub write-new_project :
    (w : World Project) (website name template : Bytes) (node_list dist_list : FileList) (d : Disk)
    → let (p, h) = new_project w name website node_list dist_list in
      let dir = project_path w website name in
      write w h h.next template p d
      ≡ closed d.opened (
          run w
            (may (remove_all dir)
              ∷ must (mkdir_all dir)
              ∷ plan w template p (project_tree w name dir node_list dist_list))
            d.log)
unfolding new_project
write-new_project w website name template node_list dist_list d =
    write-run w template _ _ (new_project w name website node_list dist_list).0 _ d
      (new_project-Shows w name website node_list dist_list)
      (omega (
        arith,
        depth-project_tree w name (project_path w website name) node_list dist_list,
        next-build_folders w name website node_list dist_list,
      ))
