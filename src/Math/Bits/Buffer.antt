-- ===== src/Math/Bits/Buffer.antt =====
-- ReadBits against Byte (pkg/common/math/big.go).
use airfk.Shared.{
  ℕ, zero, suc, ◌+◌, ◌-◌, ◌*◌, ◌/◌, ◌%◌, ◌^◌, ◌≤◌, ◌<◌, ◌≡◌, refl, ◌∙◌, sym, ap, none, some, List,
  [], ◌∷◌, ◌++◌, append_assoc, append-nil, Bytes, arith, leb, get_elem?, length, take, false, ltb,
  if◌then◌else◌, Bool-cases, inl, inr,
}
use mathlib.Core.Path.{subst}
use native.Mathlib.Nat.{pow-suc, div-div-eq-div-mul}
use airfk.Math.Bits.{word_bytes, big_endian_byte_at, byte, read_word, read_bits_loop, read_bits}

-- The low bytes of a word, highest first.
unfoldable tail_bytes : ℕ → ℕ → Bytes
tail_bytes zero d = []
tail_bytes (suc k) d = (d / 2 ^ (8 * k) % 256) ∷ tail_bytes k d

-- The low bytes of words, highest first.
unfoldable tail_bytes_of : List ℕ → ℕ → Bytes
tail_bytes_of words zero = []
tail_bytes_of words (suc k) = big_endian_byte_at words k ∷ tail_bytes_of words k

power_step : (n : ℕ) → 2 ^ suc (suc (suc (suc n))) ≡ 16 * 2 ^ n
power_step n =
    omega (
      arith,
      pow-suc 2 n,
      pow-suc 2 (suc n),
      pow-suc 2 (suc (suc n)),
      pow-suc 2 (suc (suc (suc n))),
    )

next_power : (j : ℕ) → 256 * 2 ^ (8 * j) ≡ 2 ^ (8 * suc j)
next_power j =
    let n = 8 * j in
    let e : suc (suc (suc (suc (suc (suc (suc (suc n))))))) ≡ 8 * suc j = omega arith in
    subst (λ m. 256 * 2 ^ n ≡ 2 ^ m) e
      (omega (arith, power_step n, power_step (suc (suc (suc (suc n))))))

shift_byte : (d k : ℕ) → d / 256 / 2 ^ (8 * k) ≡ d / 2 ^ (8 * suc k)
shift_byte d k = div-div-eq-div-mul d 256 (2 ^ (8 * k)) ∙ ap (λ m. d / m) (next_power k)

tail_bytes-shift : (k d : ℕ) → tail_bytes k (d / 256) ++ (d % 256) ∷ [] ≡ tail_bytes (suc k) d
unfolding tail_bytes
tail_bytes-shift zero d = ap (λ b. (b % 256) ∷ []) (omega arith)
tail_bytes-shift (suc k) d =
    ap (λ b. (b % 256) ∷ (tail_bytes k (d / 256) ++ (d % 256) ∷ [])) (shift_byte d k)
    ∙ ap (λ l. (d / 2 ^ (8 * suc k) % 256) ∷ l) (tail_bytes-shift k d)

-- The inner loop with room for all its rounds, and with room for none of the rest.
read_word-room :
    (j i d : ℕ) (tail : Bytes) → read_word j (j + i) d tail ≡ (tail_bytes j d ++ tail, i)
unfolding read_word tail_bytes
read_word-room zero i d tail = ap (λ m. (tail, m)) (omega arith)
read_word-room (suc j) i d tail =
    ap (λ m. read_word (suc j) m d tail) {y = suc (j + i)} (omega arith)
    ∙ read_word-room j i (d / 256) (d % 256 ∷ tail)
    ∙ ap (λ (l : Bytes). (l, i))
        (sym (append_assoc (tail_bytes j (d / 256)) (d % 256 ∷ []) tail)
          ∙ ap (λ l. l ++ tail) (tail_bytes-shift j d))

read_word-short :
    (j i d : ℕ) (tail : Bytes) → i ≤ j → read_word j i d tail ≡ (tail_bytes i d ++ tail, 0)
unfolding read_word tail_bytes
read_word-short zero zero d tail h = refl
read_word-short (suc j) zero d tail h = refl
read_word-short zero (suc i) d tail h = absurd (omega arith)
read_word-short (suc j) (suc i) d tail h =
    read_word-short j i (d / 256) (d % 256 ∷ tail) (omega arith)
    ∙ ap (λ (l : Bytes). (l, 0))
        (sym (append_assoc (tail_bytes i (d / 256)) (d % 256 ∷ []) tail)
          ∙ ap (λ l. l ++ tail) (tail_bytes-shift i d))

tail_bytes_of-first :
    (d : ℕ) (words : List ℕ) (k : ℕ) → k ≤ 8 → tail_bytes_of (d ∷ words) k ≡ tail_bytes k d
unfolding tail_bytes_of tail_bytes big_endian_byte_at
tail_bytes_of-first d words zero h = refl
tail_bytes_of-first d words (suc k) h =
    let small : k / 8 ≡ 0 = omega arith in
    let q : k / word_bytes ≡ 0 = small in
    let low : k % 8 ≡ k = omega arith in
    let r : k % word_bytes ≡ k = low in
    rw (q, r, tail_bytes_of, big_endian_byte_at)
      (ap (λ l. (d / 2 ^ (8 * k) % 256) ∷ l) (tail_bytes_of-first d words k (omega arith)))

byte_of : List ℕ → ℕ → ℕ → ℕ
byte_of words q r = elim (get_elem? words q) [ none ↦ 0 | some word ↦ word / 2 ^ (8 * r) % 256 ]

next_byte :
    (d : ℕ) (words : List ℕ) (k : ℕ)
    → big_endian_byte_at (d ∷ words) (8 + k) ≡ big_endian_byte_at words k
unfolding big_endian_byte_at byte_of
next_byte d words k =
    let up : (8 + k) / 8 ≡ suc (k / 8) = omega arith in
    let same : (8 + k) % 8 ≡ k % 8 = omega arith in
    ap (λ q. byte_of (d ∷ words) q ((8 + k) % 8)) up
    ∙ ap (λ r. byte_of (d ∷ words) (suc (k / 8)) r) same

tail_bytes_of-next :
    (d : ℕ) (words : List ℕ) (k : ℕ)
    → tail_bytes_of (d ∷ words) (8 + k) ≡ tail_bytes_of words k ++ tail_bytes 8 d
unfolding tail_bytes_of big_endian_byte_at
tail_bytes_of-next d words zero = tail_bytes_of-first d words 8 (omega arith)
tail_bytes_of-next d words (suc k) =
    ap (tail_bytes_of (d ∷ words)) {y = suc (8 + k)} (omega arith)
    ∙ ap (λ b. b ∷ tail_bytes_of (d ∷ words) (8 + k)) (next_byte d words k)
    ∙ ap (λ l. big_endian_byte_at words k ∷ l) (tail_bytes_of-next d words k)

-- The bytes that the words do not reach stay in front.
read_bits_loop-tail_bytes_of :
    (words : List ℕ) (i : ℕ) (tail buf : Bytes)
    → read_bits_loop words i tail buf
      ≡ take (i - 8 * length words) buf
        ++ (tail_bytes_of words (i - (i - 8 * length words)) ++ tail)
unfolding read_bits_loop tail_bytes_of
read_bits_loop-tail_bytes_of [] i tail buf =
    ap (λ m. take m buf ++ tail) {x = i} {y = i - 8 * 0} (omega arith)
    ∙ ap (λ m. take (i - 8 * 0) buf ++ (tail_bytes_of [] m ++ tail)) {x = 0} {y = i - (i - 8 * 0)}
        (omega arith)
read_bits_loop-tail_bytes_of (d ∷ words) i tail buf = elim (Bool-cases (leb 8 i)) [
  | inl room ↦
      let k = i - 8 in
      let e : 8 + k ≡ i = ground (arith, room) in
      let kept = k - 8 * length words in
      let same : kept ≡ i - 8 * length (d ∷ words) = omega (arith, e) in
      let rest : 8 + (k - kept) ≡ i - kept = omega (arith, e) in
      ap (λ m. read_bits_loop (d ∷ words) m tail buf) (sym e)
      ∙ ap (λ (p : Bytes × ℕ). read_bits_loop words p.1 p.0 buf) (read_word-room 8 k d tail)
      ∙ read_bits_loop-tail_bytes_of words k (tail_bytes 8 d ++ tail) buf
      ∙ ap (λ l. take kept buf ++ l)
          (sym (append_assoc (tail_bytes_of words (k - kept)) (tail_bytes 8 d) tail)
            ∙ ap (λ l. l ++ tail) (sym (tail_bytes_of-next d words (k - kept)))
            ∙ ap (λ m. tail_bytes_of (d ∷ words) m ++ tail) rest)
      ∙ ap (λ m. take m buf ++ (tail_bytes_of (d ∷ words) (i - m) ++ tail)) same
  | inr short ↦
      let h : i ≤ 8 = ground (arith, short) in
      let none_kept : 0 ≡ i - 8 * length (d ∷ words) = omega (arith, h) in
      ap (λ (p : Bytes × ℕ). read_bits_loop words p.1 p.0 buf) (read_word-short 8 i d tail h)
      ∙ read_bits_loop-tail_bytes_of words 0 (tail_bytes i d ++ tail) buf
      ∙ ap (λ m. take m buf ++ (tail_bytes_of words (0 - m) ++ (tail_bytes i d ++ tail)))
          {x = 0 - 8 * length words} {y = 0} (omega arith)
      ∙ ap (λ l. l ++ tail) (sym (tail_bytes_of-first d words i h))
      ∙ ap (λ m. tail_bytes_of (d ∷ words) m ++ tail) {x = i} {y = i - 0} (omega arith)
      ∙ ap (λ m. take m buf ++ (tail_bytes_of (d ∷ words) (i - m) ++ tail)) none_kept
]

get_low_byte :
    (words : List ℕ) (k n : ℕ)
    → n < k
    → get_elem? (tail_bytes_of words k) n ≡ some (big_endian_byte_at words (k - 1 - n))
unfolding tail_bytes_of
get_low_byte words zero n h = absurd (omega arith)
get_low_byte words (suc k) zero h = ap (λ m. some (big_endian_byte_at words m)) (omega arith)
get_low_byte words (suc k) (suc n) h =
    get_low_byte words k n (omega arith) ∙ ap (λ m. some (big_endian_byte_at words m)) (omega arith)

get_kept :
    (n k : ℕ) (buf rest : Bytes)
    → n < k
    → k ≤ length buf
    → get_elem? (take k buf ++ rest) n ≡ get_elem? buf n
get_kept n zero buf rest h room = absurd (omega arith)
get_kept n (suc k) [] rest h room = absurd (omega arith)
get_kept zero (suc k) (b ∷ buf) rest h room = refl
get_kept (suc n) (suc k) (b ∷ buf) rest h room = get_kept n k buf rest (omega arith) (omega arith)

get_behind :
    (k m : ℕ) (buf rest : Bytes)
    → k ≤ length buf
    → get_elem? (take k buf ++ rest) (k + m) ≡ get_elem? rest m
get_behind zero m buf rest room = ap (get_elem? rest) (omega arith)
get_behind (suc k) m [] rest room = absurd (omega arith)
get_behind (suc k) m (b ∷ buf) rest room =
    ap (get_elem? (b ∷ (take k buf ++ rest))) {y = suc (k + m)} (omega arith)
    ∙ get_behind k m buf rest (omega arith)

-- ReadBits puts into a buffer of any length and contents, at each position that the words reach
-- from its end, the byte that Byte finds there, and leaves every other byte as it was.
pub read_bits-byte :
    (words : List ℕ) (buf : Bytes) (n : ℕ)
    → n < length buf
    → get_elem? (read_bits words buf) n ≡ (
        if ltb (length buf - 1 - n) (8 * length words)
        then some (byte words (length buf) n)
        else get_elem? buf n)
unfolding read_bits byte
read_bits-byte words buf n h =
    let len = length buf in
    let k = len - 8 * length words in
    let whole =
      read_bits_loop-tail_bytes_of words len [] buf
      ∙ ap (λ l. take k buf ++ l) (append-nil (tail_bytes_of words (len - k))) in
    ap (λ l. get_elem? l n) whole ∙ (elim (Bool-cases (ltb (len - 1 - n) (8 * length words))) [
      | inl reached ↦
          let m = n - k in
          let at : k + m ≡ n = ground (arith, reached, h) in
          let short : leb len n ≡ false = ground (arith, h) in
          rw (reached, short)
            (ap (get_elem? (take k buf ++ tail_bytes_of words (len - k))) (sym at)
              ∙ get_behind k m buf (tail_bytes_of words (len - k)) (omega arith)
              ∙ get_low_byte words (len - k) m (omega (arith, at, h))
              ∙ ap (λ x. some (big_endian_byte_at words x)) (omega (arith, at, h)))
      | inr kept ↦
          rw kept (
            get_kept n k buf (tail_bytes_of words (len - k)) (ground (arith, kept, h))
              (omega arith))
    ])
