-- ===== src/Zoo/Tool/Built.antt =====
-- NewProject of cmd/tool/tool.go builds a tree of folders.
use airfk.Shared.{
  ℕ, suc, ◌+◌, ◌<◌, ◌≡◌, refl, ◌∙◌, arith, List, [], ◌∷◌, ◌++◌, Bytes, codes, length, ◌==◌,
  if◌then◌else◌,
}
use airfk.Zoo.World.{World}
use airfk.Zoo.Folder.{ZooFolder, Heap, allocate, store, add_folder, add_file}
use airfk.Zoo.Plan.{Shows, ShowsAll}
use airfk.Zoo.Project.{Project, project_path}
use airfk.Zoo.Tool.{FileList, named, add_listed, root_with_files, build_folders, new_project}
use airfk.Zoo.Tool.Listed.{
  in_dir, file_in, listed_folders, project_tree, range_from, Added, add_listed-Added,
  listed_folders-kept,
}

module _ (w : World Project) (name : Bytes) where
  module _ (website : Bytes) (node_list dist_list : FileList) where
    abbrev dir : Bytes
    dir = project_path w website name

    -- The folder of the project before the folders of its lists, and after.
    abbrev root_folder : List ℕ → ZooFolder
    root_folder folders = record {
      name = name;
      abs_path = dir;
      files =
          file_in w dir (codes "main.go") (codes "main.go.tpl")
          ∷ file_in w dir (codes "Makefile") (codes "Makefile.tpl")
          ∷ file_in w dir (codes "Dockerfile") (codes "Dockerfile.tpl")
          ∷ file_in w dir (codes ".gitignore") (codes "gitignore.tpl")
          ∷ [];
      folders = folders;
    }

    abbrev sub_folder : Bytes → List ℕ → ZooFolder
    sub_folder s folders = record {
      name = s;
      abs_path = in_dir w dir s;
      files = [];
      folders = folders;
    }

    -- The heaps before the loops.
    heap_of_node : Heap
    heap_of_node = (add_folder w.path_join 0 (codes "node") (root_with_files w name website)).1

    after_node : Heap
    unfolding heap_of_node
    after_node = add_listed w name (named name) 1 node_list heap_of_node

    heap_of_dist : Heap
    unfolding after_node
    heap_of_dist = (add_folder w.path_join 0 (codes "dist") after_node).1

    heap_of_node-root : heap_of_node.folder 0 ≡ root_folder (1 ∷ [])
    unfolding heap_of_node root_with_files add_folder add_file allocate store project_path
    heap_of_node-root = refl

    heap_of_node-node : heap_of_node.folder 1 ≡ sub_folder (codes "node") []
    unfolding heap_of_node root_with_files add_folder add_file allocate store project_path
    heap_of_node-node = refl

    next-heap_of_node : heap_of_node.next ≡ 2
    unfolding heap_of_node root_with_files add_folder add_file allocate store
    next-heap_of_node = refl

    build_folders-eq :
        build_folders w name website node_list dist_list
        ≡ add_listed w name (λ k. k) after_node.next dist_list heap_of_dist
    unfolding build_folders heap_of_dist after_node heap_of_node root_with_files add_folder add_file
        allocate store
    build_folders-eq = refl

    next-heap_of_dist : heap_of_dist.next ≡ suc after_node.next
    unfolding heap_of_dist add_folder allocate store
    next-heap_of_dist = refl

    heap_of_dist-folder :
        (j : ℕ)
        → heap_of_dist.folder j ≡ (
            if j == 0
            then record (after_node.folder 0) {
              folders = (after_node.folder 0).folders ++ (after_node.next ∷ []);
            }
            else if j == after_node.next
            then record {
              name = codes "dist";
              abs_path = in_dir w (after_node.folder 0).abs_path (codes "dist");
              files = [];
              folders = [];
            }
            else after_node.folder j)
    unfolding heap_of_dist add_folder allocate store
    heap_of_dist-folder j = ground arith

    node-Added : Added w name (named name) 1 node_list heap_of_node after_node
    unfolding after_node
    node-Added =
        add_listed-Added w name (named name) 1 node_list heap_of_node
          (omega (arith, next-heap_of_node))

    dist-Added :
        Added w name
          (λ k. k)
          after_node.next
          dist_list
          heap_of_dist
          (build_folders w name website node_list dist_list)
    dist-Added = rw build_folders-eq (
        add_listed-Added w name (λ k. k) after_node.next dist_list heap_of_dist
          (omega (arith, next-heap_of_dist)))

    next-after_node : after_node.next ≡ 2 + length node_list
    next-after_node = omega (arith, node-Added.next_added, next-heap_of_node)

    pub next-build_folders :
        (build_folders w name website node_list dist_list).next
        ≡ 3 + length node_list + length dist_list
    next-build_folders = omega (arith, dist-Added.next_added, next-heap_of_dist, next-after_node)

    built-older :
        (j : ℕ)
        → j < after_node.next
        → (build_folders w name website node_list dist_list).folder j ≡ heap_of_dist.folder j
    built-older j lt = dist-Added.older j (omega (arith, next-heap_of_dist)) (omega arith)

    built-root :
        (build_folders w name website node_list dist_list).folder 0
        ≡ root_folder (1 ∷ after_node.next ∷ [])
    built-root =
        built-older 0 (omega (arith, next-after_node))
        ∙ ground (
          arith,
          heap_of_dist-folder 0,
          node-Added.older 0 (omega (arith, next-heap_of_node)) (omega arith),
          heap_of_node-root,
        )

    built-node :
        (build_folders w name website node_list dist_list).folder 1
        ≡ sub_folder (codes "node") (range_from 2 (length node_list))
    built-node =
        built-older 1 (omega (arith, next-after_node))
        ∙ ground (
          arith,
          heap_of_dist-folder 1,
          next-after_node,
          node-Added.parent_added,
          next-heap_of_node,
          heap_of_node-node,
        )

    heap_of_dist-dist : heap_of_dist.folder after_node.next ≡ sub_folder (codes "dist") []
    heap_of_dist-dist = ground (
      arith,
      heap_of_dist-folder after_node.next,
      next-after_node,
      node-Added.older 0 (omega (arith, next-heap_of_node)) (omega arith),
      heap_of_node-root,
    )

    built-dist :
        (build_folders w name website node_list dist_list).folder after_node.next
        ≡ sub_folder (codes "dist") (range_from (suc after_node.next) (length dist_list))
    built-dist = dist-Added.parent_added ∙ rw (heap_of_dist-dist, next-heap_of_dist) refl

    node-shown :
        ShowsAll
          (build_folders w name website node_list dist_list)
          (range_from 2 (length node_list))
          (listed_folders w name (named name) (in_dir w dir (codes "node")) node_list)
    node-shown =
        listed_folders-kept w name (named name) _ node_list 2 after_node _
          (λ j le lt.
            built-older j (omega (arith, next-after_node))
            ∙ ground (arith, heap_of_dist-folder j, next-after_node))
          (rw (next-heap_of_node, heap_of_node-node) at node-Added.shown)

    dist-shown :
        ShowsAll
          (build_folders w name website node_list dist_list)
          (range_from (suc after_node.next) (length dist_list))
          (listed_folders w name (λ k. k) (in_dir w dir (codes "dist")) dist_list)
    dist-shown = rw (next-heap_of_dist, heap_of_dist-dist) at dist-Added.shown

    -- What NewProject returns is a tree: the folder of the project with its four files, node with a
    -- folder for each key, and dist with a folder for each key.
    pub new_project-Shows :
        Shows
          (new_project w name website node_list dist_list).1
          (new_project w name website node_list dist_list).0.folder
          (project_tree w name dir node_list dist_list)
    unfolding new_project project_tree Shows
    new_project-Shows = rw built-root (
      refl,
      refl,
      (rw built-node (refl, refl, node-shown), (rw built-dist (refl, refl, dist-shown), tt)),
    )
