-- ===== src/Common/Rand.antt =====
-- pkg/common/rand.go. rand.Int of crypto/rand is a parameter: a number below its argument, or an error.
use airfk.Shared.{ℕ, ◌+◌, ◌-◌, ◌%◌, ◌^◌, Bytes, codes, ◌++◌, ltb, if◌then◌else◌}
use airfk.Shared.Int.{ℤ, pos, negsuc}
use airfk.Shared.Result.{Result, ok, err}

pub data Drawn (A : Type 0) : Type 0 where
  drawn : A → Drawn A
  panicked : Bytes → Drawn A

abbrev pub max_int63 : ℕ
max_int63 = 2 ^ 63

abbrev pub max_uint64 : ℕ
max_uint64 = 2 ^ 64 - 1 + 1

-- Int64 and Uint64 of a big.Int that is not negative.
unfoldable pub to_int64 : ℕ → ℤ
to_int64 n = let m = n % 2 ^ 64 in if ltb m (2 ^ 63) then pos m else negsuc (2 ^ 64 - 1 - m)

abbrev pub rand_error : Bytes → Bytes
rand_error e = codes "crypto/rand.Int returned error: " ++ e

unfoldable pub int63_of : Result Bytes ℕ → Drawn ℤ
unfolding to_int64
int63_of (ok i) = drawn (to_int64 i)
int63_of (err e) = panicked (rand_error e)

unfoldable pub uint64_of : Result Bytes ℕ → Drawn ℕ
uint64_of (ok i) = drawn (i % 2 ^ 64)
uint64_of (err e) = panicked (rand_error e)

module _ {S : Type 0} (rand_int : ℕ → S → Result Bytes ℕ × S) where
  unfoldable pub int63 : S → Drawn ℤ × S
  unfolding int63_of
  int63 s = let (r, t) = rand_int max_int63 s in (int63_of r, t)

  unfoldable pub uint64 : S → Drawn ℕ × S
  unfolding uint64_of
  uint64 s = let (r, t) = rand_int max_uint64 s in (uint64_of r, t)

unfoldable pub seed : ℤ → Drawn (Unit {0})
seed n = panicked (codes "Seed() is not allowed on Source")
