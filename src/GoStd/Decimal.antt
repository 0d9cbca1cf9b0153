-- ===== src/GoStd/Decimal.antt =====
-- fmt's %d of a natural number.
use airfk.Shared.{
  ℕ, zero, suc, ◌+◌, ◌/◌, ◌%◌, ◌≡◌, refl, [], ◌∷◌, ◌++◌, Bytes, codes, ltb, if◌then◌else◌,
}

-- The fuel is more than the number, and so more than its digits.
unfoldable pub digits10 : ℕ → ℕ → Bytes
digits10 zero n = []
digits10 (suc fuel) n =
    let more = digits10 fuel (n / 10) ++ (n % 10 + 48) ∷ [] in
    if ltb n 10 then (n + 48) ∷ [] else more

unfoldable pub decimal : ℕ → Bytes
unfolding digits10
decimal n = digits10 (suc n) n

decimal_1203 : decimal 1203 ≡ codes "1203"
unfolding decimal
decimal_1203 = refl
