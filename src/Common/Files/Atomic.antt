-- ===== src/Common/Files/Atomic.antt =====
-- WriteFile of pkg/common/files.go on a file system that does what is documented.
use airfk.Shared.{
  ◌≡◌, ◌⊎◌, inr, arith, Option, none, some, Bytes, text_eq, text_eq_iff, if◌then◌else◌,
}
use airfk.Shared.Result.{Result, ok, err}
use airfk.Common.Files.{FileSystem, make_dir, finish, fill_temp, write_in_dir, write_file}

abbrev pub Moved :
    {S : Type 0}
    → (S → Bytes → Option Bytes)
    → S
    → Bytes
    → Bytes
    → Option Bytes × S
    → Bytes
    → Type 0
Moved content s from to (some e, t) p = content t p ≡ content s p
Moved content s from to (none, t) p =
    content t p
    ≡ (if text_eq p to then content s from else if text_eq p from then none else content s p)

abbrev pub Filled :
    {S : Type 0}
    → (S → Bytes → Option Bytes)
    → S
    → Bytes
    → Bytes
    → Option Bytes × S
    → Bytes
    → Type 0
Filled content s f text (none, t) p = content t p ≡ (if text_eq p f then some text else content s p)
Filled content s f text (some e, t) p = (content t p ≡ content s p) ⊎ (p ≡ f)

abbrev pub Fresh :
    {S : Type 0} → (S → Bytes → Option Bytes) → S → Result Bytes Bytes × S → Bytes → Type 0
Fresh content s (err e, t) p = content t p ≡ content s p
Fresh content s (ok f, t) p = (content s f ≡ none) × ((content t p ≡ content s p) ⊎ (p ≡ f))

-- `content s p` is what the file at `p` holds, if there is one. Making directories and closing files
-- changes no file; TempFile makes a file that was not there, at most one; Write of an open file
-- makes it hold the text or fails, and touches no other; Remove touches no other; Rename moves a file
-- in one step, or fails and changes nothing.
pub record IsDocumented (fs : FileSystem) (content : fs.St → Bytes → Option Bytes) : Type 0 where
  pub content-mkdir_all : (s : fs.St) (d p : Bytes) → content (fs.mkdir_all s d).1 p ≡ content s p
  pub content-temp_file :
      (s : fs.St) (d pattern p : Bytes) → Fresh content s (fs.temp_file s d pattern) p
  pub content-write : (s : fs.St) (f text p : Bytes) → Filled content s f text (fs.write s f text) p
  pub content-close : (s : fs.St) (f p : Bytes) → content (fs.close s f) p ≡ content s p
  pub content-remove :
      (s : fs.St) (f p : Bytes) → (content (fs.remove s f).1 p ≡ content s p) ⊎ (p ≡ f)
  pub content-rename :
      (s : fs.St) (from to p : Bytes) → Moved content s from to (fs.rename s from to) p

-- Without an error the file holds the text, and every other file is as it was; with an error every
-- file that was there is as it was.
abbrev pub Written :
    {S : Type 0}
    → (S → Bytes → Option Bytes)
    → S
    → Bytes
    → Bytes
    → Option Bytes × S
    → Bytes
    → Type 0
Written content s file text (none, t) p =
    content t p ≡ (if text_eq p file then some text else content s p)
Written content s file text (some e, t) p = (content s p ≡ none) ⊎ (content t p ≡ content s p)

module _ (fs : FileSystem) (content : fs.St → Bytes → Option Bytes)
    (L : IsDocumented fs content) where
  open fs use {St}

  -- The files are those of the state `s0`, but for one that was not there.
  abbrev Same : St → St → Bytes → Bytes → Type 0
  Same s0 s f p = (content s p ≡ content s0 p) ⊎ (p ≡ f)

  Same-removed :
      (s0 t : St) (f p : Bytes) → Same s0 t f p → Same s0 (fs.remove (fs.close t f) f).1 f p
  Same-removed s0 t f p same =
      ground (arith, L.content-remove (fs.close t f) f p, L.content-close t f p)

  renamed-Written :
      (s0 t : St) (f file text p : Bytes)
      → content s0 f ≡ none
      → content t f ≡ some text
      → Same s0 t f p
      → (r : Option Bytes × St) → Moved content (fs.close t f) f file r p
      → Written content s0 file text r p
  renamed-Written s0 t f file text p fresh filled same (none, u) moved =
      ground (arith, L.content-close t f p, L.content-close t f f, text_eq_iff p f)
  renamed-Written s0 t f file text p fresh filled same (some e, u) moved =
      ground (arith, L.content-close t f p)

  finish-Written :
      (s0 s : St) (f file text p : Bytes)
      → content s0 f ≡ none
      → Same s0 s f p
      → (r : Option Bytes × St) → Filled content s f text r p
      → Filled content s f text r f
      → Written content s0 file text (finish fs f file r) p
  unfolding finish
  finish-Written s0 s f file text p fresh same (some e, t) at_p at_f =
      ground (arith, Same-removed s0 t f p)
  finish-Written s0 s f file text p fresh same (none, t) at_p at_f =
      renamed-Written s0 t f file text p fresh (ground (arith, text_eq_iff f f))
        (ground (arith, text_eq_iff p f)) (fs.rename (fs.close t f) f file)
        (L.content-rename (fs.close t f) f file p)

  fill_temp-Written :
      (s0 s : St) (file text p : Bytes)
      → ((q : Bytes) → content s q ≡ content s0 q)
      → (r : Result Bytes Bytes × St) → ((q : Bytes) → Fresh content s r q)
      → Written content s0 file text (fill_temp fs file text r) p
  unfolding fill_temp
  fill_temp-Written s0 s file text p same (err e, u) fresh = ground (arith, fresh p, same p)
  fill_temp-Written s0 s file text p same (ok f, u) fresh =
      finish-Written s0 u f file text p (ground (arith, fresh f, same f))
        (ground (arith, fresh p, same p)) (fs.write u f text) (L.content-write u f text p)
        (L.content-write u f text f)

  write_in_dir-Written :
      (s0 : St) (file text p : Bytes) (r : Option Bytes × St)
      → ((q : Bytes) → content r.1 q ≡ content s0 q)
      → Written content s0 file text (write_in_dir fs file text r) p
  unfolding write_in_dir
  write_in_dir-Written s0 file text p (some e, t) same = inr (same p)
  write_in_dir-Written s0 file text p (none, t) same =
      fill_temp-Written s0 t file text p same _ (λ q. L.content-temp_file t _ _ q)

  content-make_dir : (s : St) (file q : Bytes) → content (make_dir fs s file).1 q ≡ content s q
  unfolding make_dir
  content-make_dir s file q = ground (arith, L.content-mkdir_all s (fs.dir file) q)

  -- On a file system as documented, where only paths with one spelling name one file: when WriteFile
  -- returns no error, the file holds the text and every other file is as it was, a temporary one
  -- is not left; when it returns an error, every file that was there is as it was, so that
  -- the file itself is never left with a part of the text.
  pub write_file-Written :
      (s : St) (file text p : Bytes) → Written content s file text (write_file fs s file text) p
  unfolding write_file
  write_file-Written s file text p =
      write_in_dir-Written s file text p (make_dir fs s file) (content-make_dir s file)
