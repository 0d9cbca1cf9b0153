-- ===== src/Common/Files.antt =====
-- pkg/common/files.go. The file system and path/filepath are parameters.
pub mod Atomic
pub mod Listing
use airfk.Shared.{
  Bool, true, false, not, ◌&&◌, Option, none, some, List, [], ◌∷◌, ◌++◌, Bytes, codes, text_eq,
  if◌then◌else◌,
}
use airfk.Shared.Result.{Result, ok, err, ◌>>=◌}
use airfk.GoStd.Strings.{split}

pub record FileInfo : Type 0 where
  pub name : Bytes
  pub is_dir : Bool

-- The calls of os, ioutil and filepath. An error is its text.
pub record FileSystem : Type 1 where
  pub St : Type 0
  pub stat : St → Bytes → Option Bytes
  pub is_not_exist : Bytes → Bool
  pub mkdir_all : St → Bytes → Option Bytes × St
  pub temp_file : St → Bytes → Bytes → Result Bytes Bytes × St
  pub write : St → Bytes → Bytes → Option Bytes × St
  pub close : St → Bytes → St
  pub remove : St → Bytes → Option Bytes × St
  pub rename : St → Bytes → Bytes → Option Bytes × St
  pub read_file : St → Bytes → Result Bytes Bytes
  pub read_dir : St → Bytes → Result Bytes (List FileInfo)
  pub temp_dir : St → Bytes → Bytes → Result Bytes Bytes × St
  pub is_abs : Bytes → Bool
  pub path_join : List Bytes → Bytes
  pub dir : Bytes → Bytes
  pub base : Bytes → Bytes

-- What may end the process.
pub data Returned (A : Type 0) : Type 0 where
  value : A → Returned A
  panicked : Bytes → Returned A

unfoldable pub last_part : List Bytes → Bytes
last_part [] = []
last_part (part ∷ []) = part
last_part (part ∷ next ∷ parts) = last_part (next ∷ parts)

unfoldable pub first_part : List Bytes → Bytes
first_part [] = []
first_part (part ∷ parts) = part

-- The loop of GetFileList.
unfoldable pub list_files : Bytes → Bool → List FileInfo → List Bytes
unfolding last_part first_part split
list_files ext is_ext_name [] = []
list_files ext is_ext_name (file ∷ files) =
    let rest = list_files ext is_ext_name files in
    let file_temp = split b'.' file.name in
    if not file.is_dir && text_eq (last_part file_temp) ext
    then (if is_ext_name then file.name else first_part file_temp) ∷ rest
    else rest

module _ (fs : FileSystem) where
  open fs use {St}

  -- The condition under which WriteFile makes the directory and RemoveFile gives up.
  unfoldable pub is_missing : Option Bytes → Bool
  is_missing none = false
  is_missing (some e) = fs.is_not_exist e

  unfoldable pub file_exists : St → Bytes → Bool
  unfolding is_missing
  file_exists s path = not (is_missing (fs.stat s path))

  unfoldable pub absolute_path : Bytes → Bytes → Bytes
  absolute_path datadir filename =
      if fs.is_abs filename then filename else fs.path_join (datadir ∷ filename ∷ [])

  -- The directory of a file that is missing.
  unfoldable pub make_dir : St → Bytes → Option Bytes × St
  unfolding is_missing
  make_dir s file = if is_missing (fs.stat s file) then fs.mkdir_all s (fs.dir file) else (none, s)

  -- WriteFile from the end backwards: after the Write to the temporary file `f`, after TempFile,
  -- and after the directory is made.
  unfoldable pub finish : Bytes → Bytes → Option Bytes × St → Option Bytes × St
  finish f file (some m, t) = (some m, (fs.remove (fs.close t f) f).1)
  finish f file (none, t) = fs.rename (fs.close t f) f file

  unfoldable pub fill_temp : Bytes → Bytes → Result Bytes Bytes × St → Option Bytes × St
  unfolding finish
  fill_temp file content (err m, u) = (some m, u)
  fill_temp file content (ok f, u) = finish f file (fs.write u f content)

  unfoldable pub write_in_dir : Bytes → Bytes → Option Bytes × St → Option Bytes × St
  unfolding fill_temp
  write_in_dir file content (some m, t) = (some m, t)
  write_in_dir file content (none, t) =
      fill_temp file content
        (fs.temp_file t (fs.dir file) (codes "." ++ (fs.base file ++ codes ".tmp")))

  unfoldable pub write_file : St → Bytes → Bytes → Option Bytes × St
  unfolding make_dir write_in_dir
  write_file s file content = write_in_dir file content (make_dir s file)

  unfoldable pub get_file_list : St → Bytes → Bytes → Bool → Result Bytes (List Bytes)
  unfolding list_files
  get_file_list s root ext is_ext_name = do
    files ← fs.read_dir s root
    ok (list_files ext is_ext_name files)

  unfoldable pub read_file : St → Bytes → Result Bytes Bytes
  read_file s file = fs.read_file s file

  unfoldable pub remove_file : St → Bytes → Option Bytes × St
  unfolding is_missing
  remove_file s file = let e = fs.stat s file in if is_missing e then (e, s) else fs.remove s file

  unfoldable pub get_rand_file_path : St → Returned Bytes × St
  get_rand_file_path s =
      let (r, t) = fs.temp_dir s [] (codes "temp") in
      elim r [ ok d ↦ (value d, t) | err e ↦ (panicked e, t) ]
