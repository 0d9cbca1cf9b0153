-- ===== src/Math/Power.antt =====
-- Exp, U256, S256 and BigPow of pkg/common/math/big.go on numbers that are not negative; an exponent
-- is its words, lowest first.
use airfk.Shared.{
  ℕ, zero, suc, ◌+◌, ◌*◌, ◌/◌, ◌%◌, ◌^◌, ◌<◌, ◌≡◌, refl, ◌∙◌, sym, ap, Bool, true, false, List, [],
  ◌∷◌, arith, ◌==◌, if◌then◌else◌, All, inl, inr, ◌⊎◌,
}
use native.Mathlib.Nat.{
  pow-suc, mod-eq_of_lt, pow-zero, mul_comm, mod-mod, add-mul-mod_self_right, mod-add-div',
}

unfoldable pub u256 : ℕ → ℕ
u256 x = x % 2 ^ 256

abbrev pub word_bits : ℕ
word_bits = 64

-- The inner loop with `k` rounds left: the result and the base.
unfoldable pub exp_word : ℕ → ℕ → ℕ × ℕ → ℕ × ℕ
exp_word zero word s = s
exp_word (suc k) word s =
    exp_word k (word / 2) (if word % 2 == 1 then u256 (s.0 * s.1) else s.0, u256 (s.1 * s.1))

unfoldable pub exp_words : List ℕ → ℕ × ℕ → ℕ × ℕ
exp_words [] s = s
exp_words (word ∷ words) s = exp_words words (exp_word word_bits word s)

-- What Exp returns, and what it leaves in `base`.
unfoldable pub exp : ℕ → List ℕ → ℕ × ℕ
exp base exponent = exp_words exponent (1, base)

-- Equal remainders.
abbrev Same : ℕ → ℕ → ℕ → Type 0
Same m a b = a % m ≡ b % m

parts : (q r m b a : ℕ) → r + q * m ≡ a → r * b + q * b * m ≡ a * b
parts q r m b a e = rw (sym e) (grind arith)

reduce : (m a b : ℕ) → a % m * b % m ≡ a * b % m
reduce m a b =
    sym (add-mul-mod_self_right (a % m * b) (a / m * b) m)
    ∙ ap (λ x. x % m) (parts (a / m) (a % m) m b a (mod-add-div' a m))

mul_Same : (m a a' b b' : ℕ) → Same m a a' → Same m b b' → Same m (a * b) (a' * b')
mul_Same m a a' b b' e f =
    sym (reduce m a b)
    ∙ ap (λ x. x * b % m) e
    ∙ reduce m a' b
    ∙ ap (λ x. x % m) (mul_comm a' b)
    ∙ sym (reduce m b a')
    ∙ ap (λ x. x * a' % m) f
    ∙ reduce m b' a'
    ∙ ap (λ x. x % m) (mul_comm b' a')

pow_Same : (m a b n : ℕ) → Same m a b → Same m (a ^ n) (b ^ n)
pow_Same m a b zero e = ap (λ x. x % m) (pow-zero a ∙ sym (pow-zero b))
pow_Same m a b (suc n) e =
    rw (pow-suc a n) (rw (pow-suc b n) (mul_Same m (a ^ n) (b ^ n) a b (pow_Same m a b n e) e))

pow_add : (b m n : ℕ) → b ^ (m + n) ≡ b ^ m * b ^ n
pow_add b m zero = ap (λ k. b ^ k) {y = m} (omega arith) ∙ rw (pow-zero b) (omega arith)
pow_add b m (suc n) =
    ap (λ k. b ^ k) {y = suc (m + n)} (omega arith)
    ∙ pow-suc b (m + n)
    ∙ rw (pow-suc b n) (rw (pow_add b m n) (grind arith))

pow_mul : (b m n : ℕ) → b ^ (m * n) ≡ (b ^ m) ^ n
pow_mul b m zero = ap (λ k. b ^ k) {y = 0} (omega arith) ∙ pow-zero b ∙ sym (pow-zero (b ^ m))
pow_mul b m (suc n) =
    ap (λ k. b ^ k) {y = m * n + m} (grind arith)
    ∙ pow_add b (m * n) m
    ∙ rw (pow-suc (b ^ m) n) (ap (λ x. x * b ^ m) (pow_mul b m n))

pow_square : (b n : ℕ) → (b * b) ^ n ≡ b ^ n * b ^ n
pow_square b zero = rw (pow-zero (b * b)) (rw (pow-zero b) refl)
pow_square b (suc n) = rw (pow-suc (b * b) n) (rw (pow-suc b n) (rw (pow_square b n) (grind arith)))

odd_even : (w : ℕ) → ((w % 2 ≡ 1) × (w ≡ suc (w / 2 + w / 2))) ⊎ ((w % 2 ≡ 0) × (w ≡ w / 2 + w / 2))
odd_even w = ground arith

odd_power : (r b n : ℕ) → r * b ^ suc (n + n) ≡ r * b * (b ^ n * b ^ n)
odd_power r b n = rw (pow-suc b (n + n)) (rw (pow_add b n n) (grind arith))

pow_half : (r b w : ℕ) → (if w % 2 == 1 then r * b else r) * (b * b) ^ (w / 2) ≡ r * b ^ w
pow_half r b w = elim (odd_even w) [
  | inl (bit, whole) ↦
      rw bit (rw (pow_square b (w / 2)) (sym (ap (λ k. r * b ^ k) whole ∙ odd_power r b (w / 2))))
  | inr (bit, whole) ↦ rw bit (
      rw (pow_square b (w / 2))
        (sym (ap (λ k. r * b ^ k) whole ∙ ap (λ x. r * x) (pow_add b (w / 2) (w / 2)))))
]

reduced : (t : Bool) (x r : ℕ) → Same (2 ^ 256) (if t then u256 x else r) (if t then x else r)
unfolding u256
reduced true x r = mod-mod x (2 ^ 256)
reduced false x r = refl

two_powers : (b k : ℕ) → (b * b) ^ (2 ^ k) ≡ b ^ (2 ^ suc k)
two_powers b k =
    pow_square b (2 ^ k)
    ∙ sym (pow_add b (2 ^ k) (2 ^ k))
    ∙ ap (λ n. b ^ n) (omega (arith, pow-suc 2 k))

no_bits : (word r b : ℕ) → word < 1 → r ≡ r * b ^ word
no_bits zero r b h = rw (pow-zero b) (omega arith)
no_bits (suc word) r b h = absurd (omega arith)

pow_one : (b : ℕ) → b ≡ b ^ 1
pow_one b = sym (pow-suc b 0 ∙ rw (pow-zero b) (omega arith))

exp_word-Same :
    (k word r b : ℕ)
    → word < 2 ^ k
    → Same (2 ^ 256) (exp_word k word (r, b)).0 (r * b ^ word)
      × Same (2 ^ 256) (exp_word k word (r, b)).1 (b ^ (2 ^ k))
unfolding exp_word
exp_word-Same zero word r b h =
    (ap (λ x. x % 2 ^ 256) (no_bits word r b h), ap (λ x. x % 2 ^ 256) (pow_one b))
exp_word-Same (suc k) word r b h =
    let less : word / 2 < 2 ^ k = omega (arith, pow-suc 2 k) in
    let bit = word % 2 == 1 in
    let (result, base) =
      exp_word-Same k (word / 2) (if bit then u256 (r * b) else r) (u256 (b * b)) less in
    let square : Same (2 ^ 256) (u256 (b * b)) (b * b) = reduced true (b * b) 0 in
    (
      result
          ∙ mul_Same (2 ^ 256) (if bit then u256 (r * b) else r) (if bit then r * b else r)
              (u256 (b * b) ^ (word / 2)) ((b * b) ^ (word / 2)) (reduced bit (r * b) r)
              (pow_Same (2 ^ 256) (u256 (b * b)) (b * b) (word / 2) square)
          ∙ ap (λ x. x % 2 ^ 256) (pow_half r b word),
      base
          ∙ pow_Same (2 ^ 256) (u256 (b * b)) (b * b) (2 ^ k) square
          ∙ ap (λ x. x % 2 ^ 256) (two_powers b k),
    )

unfoldable pub value : List ℕ → ℕ
value [] = 0
value (word ∷ words) = word + 2 ^ word_bits * value words

split_power : (r b w p v : ℕ) → r * b ^ w * (b ^ p) ^ v ≡ r * b ^ (w + p * v)
split_power r b w p v = rw (pow_add b w (p * v)) (rw (pow_mul b p v) (grind arith))

exp_words-Same :
    (words : List ℕ) (r b : ℕ)
    → All (λ word. word < 2 ^ word_bits) words
    → Same (2 ^ 256) (exp_words words (r, b)).0 (r * b ^ value words)
unfolding exp_words value
exp_words-Same [] r b h = ap (λ x. x % 2 ^ 256) (no_bits 0 r b (omega arith))
exp_words-Same (word ∷ words) r b (h, hs) =
    let (result, base) = exp_word-Same word_bits word r b h in
    let (r', b') = exp_word word_bits word (r, b) in
    exp_words-Same words r' b' hs
    ∙ mul_Same (2 ^ 256) r' (r * b ^ word) (b' ^ value words) ((b ^ (2 ^ word_bits)) ^ value words)
        result (pow_Same (2 ^ 256) b' (b ^ (2 ^ word_bits)) (value words) base)
    ∙ ap (λ x. x % 2 ^ 256) (split_power r b word (2 ^ word_bits) (value words))

exp_word_lt : (k word : ℕ) (s : ℕ × ℕ) → s.0 < 2 ^ 256 → (exp_word k word s).0 < 2 ^ 256
unfolding exp_word u256
exp_word_lt zero word s h = h
exp_word_lt (suc k) word s h =
    exp_word_lt k (word / 2) (if word % 2 == 1 then u256 (s.0 * s.1) else s.0, u256 (s.1 * s.1))
      (ground arith)

exp_words_lt : (words : List ℕ) (s : ℕ × ℕ) → s.0 < 2 ^ 256 → (exp_words words s).0 < 2 ^ 256
unfolding exp_words
exp_words_lt [] s h = h
exp_words_lt (word ∷ words) s h =
    exp_words_lt words (exp_word word_bits word s) (exp_word_lt word_bits word s h)

-- Exp is exponentiation modulo 2 ^ 256, for an exponent given by its words.
pub exp-value :
    (base : ℕ) (exponent : List ℕ)
    → All (λ word. word < 2 ^ word_bits) exponent
    → (exp base exponent).0 ≡ base ^ value exponent % 2 ^ 256
unfolding exp
exp-value base exponent h =
    sym (mod-eq_of_lt (exp_words_lt exponent (1, base) (omega arith)))
    ∙ exp_words-Same exponent 1 base h
    ∙ ap (λ x. x % 2 ^ 256) (omega arith)
