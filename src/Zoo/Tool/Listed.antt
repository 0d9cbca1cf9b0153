-- ===== src/Zoo/Tool/Listed.antt =====
-- The loops of NewProject of cmd/tool/tool.go build a folder for each key of a list.
use airfk.Shared.{
  ℕ, zero, suc, ◌+◌, ◌≤◌, ◌<◌, ◌≡◌, ◌≢◌, refl, ◌∙◌, arith, List, [], ◌∷◌, ◌++◌, Bytes, codes,
  length, ◌==◌, if◌then◌else◌, append_assoc, append-nil,
}
use airfk.Zoo.World.{World}
use airfk.Zoo.Folder.{ZooFile, Heap, allocate, store, add_folder, add_file}
use airfk.Zoo.Plan.{Tree, tree, Trees, end, sub, Shows, ShowsAll}
use airfk.Zoo.Project.{Project}
use airfk.Zoo.Tool.{FileList, named, add_listed_files, add_listed}

-- The addresses of `k` folders that are allocated one after the other.
abbrev pub range_from : ℕ → ℕ → List ℕ
range_from n zero = []
range_from n (suc k) = n ∷ range_from (suc n) k

module _ (w : World Project) where
  abbrev pub in_dir : Bytes → Bytes → Bytes
  in_dir dir s = w.path_join (dir ∷ s ∷ [])

  abbrev pub file_in : Bytes → Bytes → Bytes → ZooFile
  file_in dir s template = record { name = s; abs_path = in_dir dir s; template = template }

module _ (w : World Project) (name : Bytes) where
  -- The files of a list, named after the project, without those that then have no name.
  unfoldable pub listed_files : Bytes → List Bytes → List ZooFile
  listed_files dir [] = []
  listed_files dir (ff ∷ ffs) =
      let rest = listed_files dir ffs in
      if length (named name ff) == 0
      then rest
      else file_in w dir (named name ff) (ff ++ codes ".tpl") ∷ rest

  unfoldable pub listed_folders : (Bytes → Bytes) → Bytes → FileList → Trees
  listed_folders rename dir [] = end
  listed_folders rename dir ((k, v) ∷ kvs) =
      sub (tree (in_dir w dir (rename k)) (listed_files (in_dir w dir (rename k)) v) end)
        (listed_folders rename dir kvs)

  -- Four files, and the folders node and dist with a folder for each key of their lists.
  unfoldable pub project_tree : Bytes → FileList → FileList → Tree
  project_tree dir node_list dist_list =
      tree dir
        (file_in w dir (codes "main.go") (codes "main.go.tpl")
          ∷ file_in w dir (codes "Makefile") (codes "Makefile.tpl")
          ∷ file_in w dir (codes "Dockerfile") (codes "Dockerfile.tpl")
          ∷ file_in w dir (codes ".gitignore") (codes "gitignore.tpl")
          ∷ [])
        (sub
          (tree (in_dir w dir (codes "node")) []
            (listed_folders (named name) (in_dir w dir (codes "node")) node_list))
          (sub
            (tree (in_dir w dir (codes "dist")) []
              (listed_folders (λ k. k) (in_dir w dir (codes "dist")) dist_list))
            end))

  folder-add_file :
      (p : ℕ) (s t : Bytes) (h : Heap) (j : ℕ)
      → (add_file w.path_join p s t h).folder j ≡ (
          if j == p
          then record (h.folder p) {
            files = (h.folder p).files ++ (file_in w (h.folder p).abs_path s t ∷ []);
          }
          else h.folder j)
  unfolding add_file store
  folder-add_file p s t h j = refl

  folder-add_listed_files :
      (f : ℕ) (ffs : List Bytes) (h : Heap) (j : ℕ)
      → (add_listed_files w name f ffs h).folder j ≡ (
          if j == f
          then record (h.folder f) {
            files = (h.folder f).files ++ listed_files (h.folder f).abs_path ffs;
          }
          else h.folder j)
  unfolding add_listed_files listed_files
  folder-add_listed_files f [] h j = ground (arith, append-nil (h.folder f).files)
  folder-add_listed_files f (ff ∷ ffs) h j =
      let s = named name ff in
      let t = ff ++ codes ".tpl" in
      let g = add_file w.path_join f s t h in
      let dir = (h.folder f).abs_path in
      ground (
        arith,
        folder-add_listed_files f ffs h j,
        folder-add_listed_files f ffs g j,
        folder-add_file f s t h j,
        folder-add_file f s t h f,
        append_assoc (h.folder f).files (file_in w dir s t ∷ []) (listed_files dir ffs),
      )

  next-add_listed_files :
      (f : ℕ) (ffs : List Bytes) (h : Heap) → (add_listed_files w name f ffs h).next ≡ h.next
  unfolding add_listed_files add_file store
  next-add_listed_files f [] h = refl
  next-add_listed_files f (ff ∷ ffs) h = ground (
    arith,
    next-add_listed_files f ffs h,
    next-add_listed_files f ffs (add_file w.path_join f (named name ff) (ff ++ codes ".tpl") h),
  )

  -- One round of the outer loop.
  round : (Bytes → Bytes) → ℕ → Bytes → List Bytes → Heap → Heap
  round rename parent k v h =
      let (f, h1) = add_folder w.path_join parent (rename k) h in add_listed_files w name f v h1

  next-round :
      (rename : Bytes → Bytes) (parent : ℕ) (k : Bytes) (v : List Bytes) (h : Heap)
      → (round rename parent k v h).next ≡ suc h.next
  unfolding round add_folder allocate store
  next-round rename parent k v h =
      next-add_listed_files h.next v (add_folder w.path_join parent (rename k) h).1

  folder-round :
      (rename : Bytes → Bytes) (parent : ℕ) (k : Bytes) (v : List Bytes) (h : Heap) (j : ℕ)
      → parent < h.next
      → (round rename parent k v h).folder j ≡ (
          if j == h.next
          then record {
            name = rename k;
            abs_path = in_dir w (h.folder parent).abs_path (rename k);
            files = listed_files (in_dir w (h.folder parent).abs_path (rename k)) v;
            folders = [];
          }
          else if j == parent
          then record (h.folder parent) { folders = (h.folder parent).folders ++ (h.next ∷ []) }
          else h.folder j)
  unfolding round add_folder allocate store
  folder-round rename parent k v h j lt =
      ground
        (arith, folder-add_listed_files h.next v (add_folder w.path_join parent (rename k) h).1 j)

  module _ (rename : Bytes → Bytes) (parent : ℕ) where
    -- What the outer loop leaves: the folders before it but the parent, the parent with pointers to
    -- the new folders, and these.
    pub record Added (kvs : FileList) (h h' : Heap) : Type 0 where
      pub next_added : h'.next ≡ h.next + length kvs
      pub parent_added : h'.folder parent ≡ record (h.folder parent) {
        folders = (h.folder parent).folders ++ range_from h.next (length kvs);
      }
      pub older : (j : ℕ) → j < h.next → j ≢ parent → h'.folder j ≡ h.folder j
      pub shown :
          ShowsAll h'
            (range_from h.next (length kvs))
            (listed_folders rename (h.folder parent).abs_path kvs)

    Added-round :
        (k : Bytes) (v : List Bytes) (kvs : FileList) (h h' : Heap)
        → parent < h.next
        → Added kvs (round rename parent k v h) h'
        → Added ((k, v) ∷ kvs) h h'
    unfolding Shows listed_folders
    Added-round k v kvs h h' lt ih =
        let g = round rename parent k v h in
        let n = next-round rename parent k v h in
        let dir = in_dir w (h.folder parent).abs_path (rename k) in
        let at_parent : g.folder parent
            ≡ record (h.folder parent) { folders = (h.folder parent).folders ++ (h.next ∷ []) } =
          ground (arith, folder-round rename parent k v h parent lt) in
        let at_new : h'.folder h.next
            ≡ record { name = rename k; abs_path = dir; files = listed_files dir v; folders = [] } =
          ground (
            arith,
            ih.older h.next (omega (arith, n)) (omega arith),
            folder-round rename parent k v h h.next lt,
          ) in
        record {
          next_added = omega (arith, n, ih.next_added);
          parent_added =
              ih.parent_added
              ∙ rw (at_parent, n)
                  (ground (
                    arith,
                    append_assoc (h.folder parent).folders (h.next ∷ [])
                        (range_from (suc h.next) (length kvs)),
                  ));
          older = λ j before other.
              ground
                (arith, ih.older j (omega (arith, n)) other, folder-round rename parent k v h j lt);
          shown = (rw at_new (refl, refl, tt), rw (n, at_parent) at ih.shown);
        }

    pub add_listed-Added :
        (kvs : FileList) (h : Heap)
        → parent < h.next
        → Added kvs h (add_listed w name rename parent kvs h)
    unfolding add_listed round Shows listed_folders
    add_listed-Added [] h lt = record {
      next_added = omega arith;
      parent_added = ground (arith, append-nil (h.folder parent).folders);
      older = λ j _ _. refl;
      shown = tt;
    }
    add_listed-Added ((k, v) ∷ kvs) h lt = Added-round k v kvs h _ lt (
        add_listed-Added kvs (round rename parent k v h)
          (omega (arith, next-round rename parent k v h)))

  ShowsAll-end : (h h' : Heap) (is : List ℕ) → ShowsAll h is end → ShowsAll h' is end
  unfolding Shows
  ShowsAll-end h h' [] s = tt
  ShowsAll-end h h' (i ∷ is) s = elim s [ ]

  -- New folders are shown in every heap that keeps them.
  pub listed_folders-kept :
      (rename : Bytes → Bytes) (dir : Bytes) (kvs : FileList) (n : ℕ) (h h' : Heap)
      → ((j : ℕ) → n ≤ j → j < n + length kvs → h'.folder j ≡ h.folder j)
      → ShowsAll h (range_from n (length kvs)) (listed_folders rename dir kvs)
      → ShowsAll h' (range_from n (length kvs)) (listed_folders rename dir kvs)
  unfolding Shows listed_folders
  listed_folders-kept rename dir [] n h h' kept shown = tt
  listed_folders-kept rename dir ((k, v) ∷ kvs) n h h' kept ((e, e', s), shown) = (
    rw (kept n (omega arith) (omega arith)) (e, e', ShowsAll-end h h' _ s),
    listed_folders-kept rename dir kvs (suc n) h h' (λ j le lt. kept j (omega arith) (omega arith))
        shown,
  )
