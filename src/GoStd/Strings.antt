-- ===== src/GoStd/Strings.antt =====
-- strings.HasSuffix, TrimSuffix, and Split and Join at one byte.
use airfk.Shared.{
  ℕ, ◌-◌, ◌≡◌, ◌≢◌, refl, ◌∙◌, ap, arith, All, ◌++◌, Bool, ◌&&◌, List, [], ◌∷◌, Bytes, leb, ◌==◌,
  if◌then◌else◌, length, take, drop, text_eq, has_prefix, ◌||◌,
}

unfoldable pub has_suffix : Bytes → Bytes → Bool
has_suffix s suffix =
    leb (length suffix) (length s) && text_eq (drop (length s - length suffix) s) suffix

unfoldable pub trim_suffix : Bytes → Bytes → Bytes
trim_suffix s suffix = if has_suffix s suffix then take (length s - length suffix) s else s

-- The parts between the separators; always at least one.
unfoldable pub push_head : ℕ → List Bytes → List Bytes
push_head c [] = (c ∷ []) ∷ []
push_head c (part ∷ parts) = (c ∷ part) ∷ parts

unfoldable pub split : ℕ → Bytes → List Bytes
split sep [] = [] ∷ []
split sep (c ∷ s) = let parts = split sep s in if c == sep then [] ∷ parts else push_head c parts

unfoldable pub join : ℕ → List Bytes → Bytes
join sep [] = []
join sep (s ∷ []) = s
join sep (s ∷ t ∷ ts) = s ++ sep ∷ join sep (t ∷ ts)

abbrev pub NoneOf : ℕ → Bytes → Type 0
NoneOf sep = All (λ c. c ≢ sep)

pub split_none : (sep : ℕ) (t : Bytes) → NoneOf sep t → split sep t ≡ t ∷ []
unfolding split push_head
split_none sep [] h = refl
split_none sep (c ∷ t) h = ground (arith, split_none sep t h.1, h.0)

pub split_once : (sep : ℕ) (s t : Bytes) → NoneOf sep s → split sep (s ++ sep ∷ t) ≡ s ∷ split sep t
unfolding split push_head
split_once sep [] t h = ground arith
split_once sep (c ∷ s) t h = ground (arith, split_once sep s t h.1, h.0)

pub split-join :
    (sep : ℕ) (s : Bytes) (ss : List Bytes)
    → All (NoneOf sep) (s ∷ ss)
    → split sep (join sep (s ∷ ss)) ≡ s ∷ ss
unfolding join
split-join sep s [] h = split_none sep s h.0
split-join sep s (t ∷ ts) h =
    split_once sep s (join sep (t ∷ ts)) h.0 ∙ ap (λ r. s ∷ r) (split-join sep t ts h.1)

-- strings.Contains
unfoldable pub has_infix : Bytes → Bytes → Bool
has_infix [] p = has_prefix [] p
has_infix (c ∷ s) p = has_prefix (c ∷ s) p || has_infix s p

-- strings.Replace of the first occurrence. The text is read on while nothing is found.
unfoldable pub replace_first : Bytes → Bytes → Bytes → Bytes
replace_first [] old new = if has_prefix [] old then new else []
replace_first (c ∷ s) old new =
    let rest = c ∷ replace_first s old new in
    if has_prefix (c ∷ s) old then new ++ drop (length old) (c ∷ s) else rest

-- strings.Replace of every occurrence of one byte.
unfoldable pub replace_byte : ℕ → ℕ → Bytes → Bytes
replace_byte old new [] = []
replace_byte old new (c ∷ s) = (if c == old then new else c) ∷ replace_byte old new s
