-- ===== src/Zoo/Folder.antt =====
-- ZooFile, ZooFolder, AddFolder and AddFile of pkg/zoo/file.go. Folders are reached by pointers, which
-- are the indices of a heap.
use airfk.Shared.{ℕ, suc, List, [], ◌∷◌, ◌++◌, Bytes, ◌==◌, if◌then◌else◌}

pub record ZooFile : Type 0 where
  pub name : Bytes
  pub abs_path : Bytes
  pub template : Bytes

pub record ZooFolder : Type 0 where
  pub name : Bytes
  pub abs_path : Bytes
  pub files : List ZooFile
  pub folders : List ℕ

-- `next` is the address of the next folder to be allocated.
pub record Heap : Type 0 where
  pub next : ℕ
  pub folder : ℕ → ZooFolder

abbrev pub empty_folder : ZooFolder
empty_folder = record { name = []; abs_path = []; files = []; folders = [] }

abbrev pub empty_heap : Heap
empty_heap = record { next = 0; folder = λ i. empty_folder }

-- A composite literal whose address is taken.
unfoldable pub allocate : ZooFolder → Heap → Heap
allocate f h = record { next = suc h.next; folder = λ i. if i == h.next then f else h.folder i }

unfoldable pub store : ℕ → ZooFolder → Heap → Heap
store p f h = record h { folder = λ i. if i == p then f else h.folder i }

module _ (path_join : List Bytes → Bytes) where
  -- The pointer to the new folder is `next` of the heap before.
  unfoldable pub add_folder : ℕ → Bytes → Heap → ℕ × Heap
  unfolding allocate store
  add_folder p name h =
      let f = h.folder p in
      let new_f : ZooFolder = record {
        name = name;
        abs_path = path_join (f.abs_path ∷ name ∷ []);
        files = [];
        folders = [];
      } in
      (h.next, store p (record f { folders = f.folders ++ (h.next ∷ []) }) (allocate new_f h))

  unfoldable pub add_file : ℕ → Bytes → Bytes → Heap → Heap
  unfolding store
  add_file p name tmpl h =
      let f = h.folder p in
      let file : ZooFile = record {
        name = name;
        abs_path = path_join (f.abs_path ∷ name ∷ []);
        template = tmpl;
      } in
      store p (record f { files = f.files ++ (file ∷ []) }) h
