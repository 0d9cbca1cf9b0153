-- ===== src/Common/Files/Listing.antt =====
-- What GetFileList of pkg/common/files.go lists.
use airfk.Shared.{
  ℕ, suc, ◌-◌, ◌≤◌, ◌<◌, ◌≡◌, ◌≢◌, refl, sym, ap, ◌∙◌, arith, Bool, false, not, ◌&&◌, ◌||◌,
  Bool-cases, inl, inr, List, [], ◌∷◌, Bytes, length, leb, ◌==◌, text_eq, text_eq_iff,
  if◌then◌else◌,
}
use airfk.Shared.Result.{ok, err, Result-cases}
use airfk.GoStd.Strings.{has_suffix, split, push_head, NoneOf, split_none}
use airfk.Common.Files.{FileInfo, FileSystem, last_part, first_part, list_files, get_file_list}

-- The text up to the first dot.
pub before_dot : Bytes → Bytes
before_dot [] = []
before_dot (c ∷ s) = let rest = before_dot s in if c == b'.' then [] else c ∷ rest

-- A name is the extension, or ends in a dot and the extension.
abbrev pub has_ext : Bytes → Bytes → Bool
has_ext ext name = text_eq name ext || has_suffix name (b'.' ∷ ext)

pub listed : Bytes → Bool → List FileInfo → List Bytes
listed ext is_ext_name [] = []
listed ext is_ext_name (file ∷ files) =
    let rest = listed ext is_ext_name files in
    if not file.is_dir && has_ext ext file.name
    then (if is_ext_name then file.name else before_dot file.name) ∷ rest
    else rest

text_eq_of_length : (s t : Bytes) → length s ≢ length t → text_eq s t ≡ false
text_eq_of_length s t h = elim (Bool-cases (text_eq s t)) [
  | inl e ↦ absurd (h (ap length ((text_eq_iff s t).0 e)))
  | inr e ↦ e
]

has_suffix-short : (s p : Bytes) → length s < length p → has_suffix s p ≡ false
unfolding has_suffix
has_suffix-short s p lt = ground arith

has_suffix-cons_of_le :
    (c : ℕ) (s p : Bytes)
    → length p ≤ length s
    → has_suffix (c ∷ s) p ≡ (text_eq (c ∷ s) p || has_suffix s p)
unfolding has_suffix
has_suffix-cons_of_le c s p le =
    let e : suc (length s) - length p ≡ suc (length s - length p) = omega arith in
    rw e (ground (arith, text_eq_of_length (c ∷ s) p))

has_suffix-cons_of_gt :
    (c : ℕ) (s p : Bytes)
    → length s < length p
    → has_suffix (c ∷ s) p ≡ (text_eq (c ∷ s) p || has_suffix s p)
unfolding has_suffix
has_suffix-cons_of_gt c s p lt =
    let e : suc (length s) - length p ≡ 0 = omega arith in
    rw e (ground (arith, text_eq_of_length (c ∷ s) p))

has_suffix-cons :
    (c : ℕ) (s p : Bytes) → has_suffix (c ∷ s) p ≡ (text_eq (c ∷ s) p || has_suffix s p)
has_suffix-cons c s p = elim (Bool-cases (leb (length p) (length s))) [
  | inl e ↦ has_suffix-cons_of_le c s p (ground arith)
  | inr e ↦ has_suffix-cons_of_gt c s p (ground arith)
]

first_part_nil : (ps : List Bytes) → first_part ([] ∷ ps) ≡ []
unfolding first_part
first_part_nil ps = refl

first_part-push_head : (c : ℕ) (ps : List Bytes) → first_part (push_head c ps) ≡ c ∷ first_part ps
unfolding first_part push_head
first_part-push_head c [] = refl
first_part-push_head c (p ∷ ps) = refl

first_part-split : (s : Bytes) → first_part (split b'.' s) ≡ before_dot s
unfolding split before_dot
first_part-split [] = unfold first_part in refl
first_part-split (c ∷ s) = ground (
  arith,
  first_part-push_head c (split b'.' s),
  first_part-split s,
  first_part_nil (split b'.' s),
)

-- The last part of a name without a dot is the name, which then ends in no dot and extension.
abbrev Parts : Bytes → Bytes → List Bytes → Type 0
Parts ext s [] = ⊥
Parts ext s (p ∷ []) = (p ≡ s) × (has_suffix s (b'.' ∷ ext) ≡ false)
Parts ext s (p ∷ q ∷ qs) = Unit

text_eq_head : (c d : ℕ) (s t : Bytes) → c ≢ d → (text_eq (c ∷ s) (d ∷ t) || false) ≡ false
unfolding text_eq
text_eq_head c d s t ne = ground arith

Parts-nil : (ext s t : Bytes) (ps : List Bytes) → Parts ext s ps → Parts ext t ([] ∷ ps)
Parts-nil ext s t [] h = elim h [ ]
Parts-nil ext s t (p ∷ ps) h = tt

Parts-push_head :
    (ext : Bytes) (c : ℕ) (s : Bytes) (ps : List Bytes)
    → c ≢ b'.'
    → Parts ext s ps
    → Parts ext (c ∷ s) (push_head c ps)
unfolding push_head
Parts-push_head ext c s [] ne h = elim h [ ]
Parts-push_head ext c s (p ∷ []) ne (e, no_suffix) =
    (ap (λ r. c ∷ r) e, rw has_suffix-cons (rw no_suffix (text_eq_head c b'.' s ext ne)))
Parts-push_head ext c s (p ∷ q ∷ qs) ne h = tt

split-Parts : (ext s : Bytes) → Parts ext s (split b'.' s)
unfolding split
split-Parts ext [] = (refl, has_suffix-short [] _ (omega arith))
split-Parts ext (c ∷ s) = elim (Bool-cases (c == b'.')) [
  | inl e ↦ rw e (Parts-nil ext s (c ∷ s) (split b'.' s) (split-Parts ext s))
  | inr e ↦ rw e (Parts-push_head ext c s (split b'.' s) (ground arith) (split-Parts ext s))
]

text_eq_of_dot : (ext s : Bytes) → NoneOf b'.' ext → text_eq (b'.' ∷ s) ext ≡ false
unfolding text_eq
text_eq_of_dot [] s h = refl
text_eq_of_dot (c ∷ ext) s h = ground (arith, h.0)

text_eq_of_parts :
    (ext s : Bytes) (p q : Bytes) (qs : List Bytes)
    → NoneOf b'.' ext
    → split b'.' s ≡ p ∷ q ∷ qs
    → text_eq s ext ≡ false
text_eq_of_parts ext s p q qs none_of e = elim (Bool-cases (text_eq s ext)) [
  | inl t ↦ ground (arith, text_eq_iff s ext, split_none b'.' ext none_of)
  | inr f ↦ f
]

last_part_nil :
    (ps : List Bytes) (ext s : Bytes) → Parts ext s ps → last_part ([] ∷ ps) ≡ last_part ps
unfolding last_part
last_part_nil [] ext s h = elim h [ ]
last_part_nil (p ∷ ps) ext s h = refl

has_ext_dot : (ext s : Bytes) → NoneOf b'.' ext → has_ext ext (b'.' ∷ s) ≡ has_ext ext s
unfolding text_eq
has_ext_dot ext s h = rw has_suffix-cons (ground (arith, text_eq_of_dot ext s h))

last_part-push_head :
    (ext : Bytes) (c : ℕ) (s : Bytes) (ps : List Bytes)
    → NoneOf b'.' ext
    → c ≢ b'.'
    → Parts ext s ps
    → split b'.' s ≡ ps
    → split b'.' (c ∷ s) ≡ push_head c ps
    → text_eq (last_part ps) ext ≡ has_ext ext s
    → text_eq (last_part (push_head c ps)) ext ≡ has_ext ext (c ∷ s)
unfolding last_part push_head
last_part-push_head ext c s [] h ne parts e e' ih = elim parts [ ]
last_part-push_head ext c s (p ∷ []) h ne (same, no_suffix) e e' ih =
    rw has_suffix-cons (ground (arith, text_eq_head c b'.' s ext ne))
last_part-push_head ext c s (p ∷ q ∷ qs) h ne parts e e' ih = rw has_suffix-cons (
    ground (
      arith,
      text_eq_head c b'.' s ext ne,
      text_eq_of_parts ext s p q qs h e,
      text_eq_of_parts ext (c ∷ s) (c ∷ p) q qs h e',
    ))

split_dot : (s : Bytes) → split b'.' (b'.' ∷ s) ≡ [] ∷ split b'.' s
unfolding split
split_dot s = refl

split_other : (c : ℕ) (s : Bytes) → c ≢ b'.' → split b'.' (c ∷ s) ≡ push_head c (split b'.' s)
unfolding split
split_other c s ne = ground arith

last_part-split :
    (ext s : Bytes) → NoneOf b'.' ext → text_eq (last_part (split b'.' s)) ext ≡ has_ext ext s
last_part-split ext [] h =
    unfold split last_part in rw (has_suffix-short [] (b'.' ∷ ext) (omega arith)) (ground arith)
last_part-split ext (c ∷ s) h =
    let ih = last_part-split ext s h in
    elim (Bool-cases (c == b'.')) [
      | inl e ↦
          let dot : c ≡ b'.' = ground arith in
          rw dot (
            rw (split_dot, last_part_nil (split b'.' s) ext s (split-Parts ext s))
              (ih ∙ sym (has_ext_dot ext s h)))
      | inr e ↦
          let other : c ≢ b'.' = ground arith in
          rw (split_other c s other) (
            last_part-push_head ext c s (split b'.' s) h other (split-Parts ext s) refl
              (split_other c s other) ih)
    ]

list_files-listed :
    (ext : Bytes) (is_ext_name : Bool) (files : List FileInfo)
    → NoneOf b'.' ext
    → list_files ext is_ext_name files ≡ listed ext is_ext_name files
unfolding list_files listed
list_files-listed ext is_ext_name [] h = refl
list_files-listed ext is_ext_name (file ∷ files) h = ground (
  arith,
  list_files-listed ext is_ext_name files,
  last_part-split ext file.name h,
  first_part-split file.name,
)

-- For an extension without a dot, GetFileList fails when the directory cannot be read, and else lists,
-- in the order of the directory, the entries that are no directories and whose name is the
-- extension or ends in a dot and the extension: their names, or what stands in them before the first
-- dot.
pub get_file_list-listed :
    (fs : FileSystem) (s : fs.St) (root ext : Bytes) (is_ext_name : Bool)
    → NoneOf b'.' ext
    → get_file_list fs s root ext is_ext_name
      ≡ elim (fs.read_dir s root) [ ok files ↦ ok (listed ext is_ext_name files) | err e ↦ err e ]
unfolding get_file_list
get_file_list-listed fs s root ext is_ext_name h = elim (Result-cases (fs.read_dir s root)) [
  | inl (files, e) ↦ rw e (ap ok (list_files-listed ext is_ext_name files h))
  | inr (m, e) ↦ rw e refl
]
