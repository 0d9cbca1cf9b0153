-- ===== src/Hexutil/Words.antt =====
-- The word-by-word digits of DecodeBig against the value that the digits spell.
use airfk.Shared.{
  ℕ, zero, suc, ◌+◌, ◌-◌, ◌*◌, ◌/◌, ◌^◌, ◌≤◌, ◌<◌, ◌≡◌, refl, ◌∙◌, Option, none, some, List, [],
  ◌∷◌, ◌++◌, Bytes, arith, length, take, drop, Option-cases, inl, inr, length-take, length-drop,
  ◌⊎◌, sym, ap,
}
use native.Mathlib.Nat.{pow-suc}
use native.Mathlib.Decide.{dec_le}
use airfk.GoStd.Hex.{from_hex_char, from_hex_char-lt}
use airfk.GoStd.Strconv.{hex_value}
use airfk.Hexutil.{bad_nibble, decode_nibble, decode_word, decode_words, set_bits}

-- The two digit readers agree.
pub nibble_good : (c d : ℕ) → from_hex_char c ≡ some d → decode_nibble c ≡ d
unfolding from_hex_char decode_nibble
nibble_good c d h = ground arith

pub nibble_bad : (c : ℕ) → from_hex_char c ≡ none → decode_nibble c ≡ bad_nibble
unfolding from_hex_char decode_nibble
nibble_bad c h = ground arith

-- What more digits do to the value read so far.
pub hex_value-append :
    (s t : Bytes) (n : ℕ)
    → hex_value n (s ++ t) ≡ (elim (hex_value n s) [ none ↦ none | some v ↦ hex_value v t ])
unfolding hex_value
hex_value-append [] t n = refl
hex_value-append (c ∷ s) t n = elim (Option-cases (from_hex_char c)) [
  | inl k ↦ ground arith
  | inr (d, k) ↦ ground (arith, hex_value-append s t (n * 16 + d))
]

pub pow16 : (k : ℕ) → (16 ^ suc k ≡ 16 ^ k * 16) × (1 ≤ 16 ^ k)
pow16 zero = omega arith
pow16 (suc k) = (pow-suc 16 (suc k), omega (arith, pow-suc 16 k, (pow16 k).1))

abbrev pub shifted : ℕ → Option ℕ → Option ℕ
shifted m none = none
shifted m (some v) = some (m + v)

-- The digits in front weigh 16 to the number of those behind.
pub hex_value-shift :
    (s : Bytes) (m n : ℕ) → hex_value (m + n) s ≡ shifted (m * 16 ^ length s) (hex_value n s)
unfolding hex_value
hex_value-shift [] m n = ground arith
hex_value-shift (c ∷ s) m n = elim (Option-cases (from_hex_char c)) [
  | inl k ↦ ground arith
  | inr (d, k) ↦
      let regroup : (m + n) * 16 + d ≡ m * 16 + (n * 16 + d) = omega arith in
      let weight : m * 16 * 16 ^ length s ≡ m * 16 ^ suc (length s) =
        rw ((pow16 (length s)).0) (omega arith) in
      ground (
        arith,
        ap (λ (t : ℕ). hex_value t s) regroup,
        hex_value-shift s (m * 16) (n * 16 + d),
        ap (λ (t : ℕ). shifted t (hex_value (n * 16 + d) s)) weight,
      )
]

word_step :
    (w d k : ℕ)
    → d < 16
    → (w + 1) * 16 ^ suc k ≤ 2 ^ 64
    → ((w * 16 + d + 1) * 16 ^ k ≤ 2 ^ 64) × (w * 16 + d < 2 ^ 64)
word_step w d k h fits =
    let room : d * 16 ^ k ≤ 15 * 16 ^ k = grind arith in
    let total : (w * 16 + d + 1) * 16 ^ k ≤ 2 ^ 64 =
      omega (arith, room, rw ((pow16 k).0) at fits) in
    let one : w * 16 + d + 1 ≤ (w * 16 + d + 1) * 16 ^ k = grind (arith, (pow16 k).1) in
    (total, omega (arith, one, total))

-- A word that holds all its digits is their value.
pub decode_word-hex_value :
    (s : Bytes) (w k : ℕ)
    → length s ≤ k
    → (w + 1) * 16 ^ k ≤ 2 ^ 64
    → decode_word w s ≡ hex_value w s
unfolding decode_word hex_value
decode_word-hex_value [] w k h fits = refl
decode_word-hex_value (c ∷ s) w zero h fits = absurd (omega arith)
decode_word-hex_value (c ∷ s) w (suc k) h fits = elim (Option-cases (from_hex_char c)) [
  | inl e ↦ ground (arith, nibble_bad c)
  | inr (d, e) ↦ ground (
    arith,
    from_hex_char-lt c d e,
    nibble_good c d,
    word_step w d k,
    decode_word-hex_value s (w * 16 + d) k,
  )
]

-- The words up to `end` stand for the digits up to `end`.
abbrev pub Reads : Option ℕ → Option (List ℕ) → Type 0
Reads value words = value ≡ (elim words [ none ↦ none | some ws ↦ some (set_bits ws) ])

take_nil : (n : ℕ) → take {A = ℕ} n [] ≡ []
take_nil zero = refl
take_nil (suc n) = refl

take_split : (s : Bytes) (a b : ℕ) → a ≤ b → take b s ≡ take a s ++ take (b - a) (drop a s)
take_split s zero b h = ap (λ (n : ℕ). take n s) (omega arith)
take_split s (suc a) zero h = absurd (omega arith)
take_split [] (suc a) (suc b) h = sym (take_nil _)
take_split (c ∷ s) (suc a) (suc b) h =
    ap (◌∷◌ c)
      (take_split s a b (omega arith) ∙ ap (λ (n : ℕ). take a s ++ take n (drop a s)) (omega arith))

-- The value of the digits in `word` behind digits of the value `v`.
behind :
    (v n : ℕ) (word : Bytes)
    → length word ≡ n
    → (v ≡ 0) ⊎ (n ≡ 16)
    → hex_value v word ≡ shifted (2 ^ 64 * v) (hex_value 0 word)
behind v n word e (inl z) = rw z (sym (shifted_zero (hex_value 0 word)))
  where
    shifted_zero : (o : Option ℕ) → shifted (2 ^ 64 * 0) o ≡ o
    shifted_zero none = refl
    shifted_zero (some m) = ap some (omega arith)
behind v n word e (inr full) =
    let weight : v * 16 ^ length word ≡ 2 ^ 64 * v = rw (e ∙ full) (omega arith) in
    let start : v ≡ v + 0 = omega arith in
    ap (λ (t : ℕ). hex_value t word) start
    ∙ hex_value-shift word v 0
    ∙ ap (λ (t : ℕ). shifted t (hex_value 0 word)) weight

length_word :
    (s : Bytes) (a b : ℕ) → a ≤ b → b ≤ length s → length (take (b - a) (drop a s)) ≡ b - a
length_word s a b h k = length-take (b - a) (drop a s) (omega (arith, length-drop a s))

join_words : Option ℕ → Option (List ℕ) → Option (List ℕ)
join_words none words = none
join_words (some w) none = none
join_words (some w) (some ws) = some (w ∷ ws)

combine :
    (front : Option ℕ) (words : Option (List ℕ)) (word : Bytes)
    → Reads front words
    → ((v : ℕ) → front ≡ some v → hex_value v word ≡ shifted (2 ^ 64 * v) (hex_value 0 word))
    → Reads
        (elim front [ none ↦ none | some v ↦ hex_value v word ])
        (join_words (hex_value 0 word) words)
unfolding join_words set_bits
combine none none word r f = ground arith
combine none (some ws) word r f = cc
combine (some v) none word r f = cc
combine (some v) (some ws) word r f = ground (arith, f v refl)

zero_digits : (v : ℕ) → hex_value 0 [] ≡ some v → v ≡ 0
unfolding hex_value
zero_digits v e = ground arith

front_value :
    (s : Bytes) (end v : ℕ)
    → hex_value 0 (take (end - 16) s) ≡ some v
    → (v ≡ 0) ⊎ (end - (end - 16) ≡ 16)
front_value s end v e = elim (dec_le 16 end) [
  | yes p ↦ inr (omega arith)
  | no p ↦
      let none_left : end - 16 ≡ 0 = omega arith in
      inl (zero_digits v (ap (λ (n : ℕ). hex_value 0 (take n s)) (sym none_left) ∙ e))
]

words_read :
    (count : ℕ) (s : Bytes) (end : ℕ)
    → end ≤ length s
    → end ≤ 16 * count
    → Reads (hex_value 0 (take end s)) (decode_words count s end)
unfolding decode_words join_words
words_read zero s zero h k = unfold hex_value set_bits in refl
words_read zero s (suc end) h k = absurd (omega arith)
words_read (suc count) s end h k =
    let start : ℕ = end - 16 in
    let word : Bytes = take (end - start) (drop start s) in
    let size : length word ≡ end - start = length_word s start end (omega arith) h in
    let both : Reads (elim (hex_value 0 (take start s)) [ none ↦ none | some v ↦ hex_value v word ])
        (join_words (hex_value 0 word) (decode_words count s start)) =
      combine (hex_value 0 (take start s)) (decode_words count s start) word
        (words_read count s start (omega arith) (omega arith))
        (λ v e. behind v (end - start) word size (front_value s end v e)) in
    ground (
      arith,
      ap (hex_value 0) (take_split s start end (omega arith)),
      hex_value-append (take start s) word 0,
      decode_word-hex_value word 0 16 (omega (arith, size)) (omega arith),
      both,
    )

take_all : (s : Bytes) → take (length s) s ≡ s
take_all [] = refl
take_all (c ∷ s) = ap (◌∷◌ c) (take_all s)

-- All the digits, in as many words as DecodeBig allots.
pub words_value :
    (s : Bytes) → Reads (hex_value 0 s) (decode_words (length s / 16 + 1) s (length s))
words_value s =
    rw (take_all s) at (words_read (length s / 16 + 1) s (length s) (omega arith) (omega arith))
