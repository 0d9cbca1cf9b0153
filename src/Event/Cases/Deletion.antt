-- ===== src/Event/Cases/Deletion.antt =====
-- The deletion of one case, index by index.
use airfk.Shared.{ℕ, zero, suc, ◌+◌, ◌≡◌, refl, ap, List, [], ◌∷◌, ◌++◌, arith, take, drop}
use airfk.Event.Cases.{Case, delete}

-- `delete` by cases on the index.
pub delete-suc : (x : Case) (cs : List Case) (i : ℕ) → delete (x ∷ cs) (suc i) ≡ x ∷ delete cs i
unfolding delete
delete-suc x cs i =
    let next : suc i + 1 ≡ suc (i + 1) = omega arith in
    ap (λ (m : ℕ). x ∷ (take i cs ++ drop m (x ∷ cs))) next

pub drop_nil : (n : ℕ) → drop {A = Case} n [] ≡ []
drop_nil zero = refl
drop_nil (suc n) = refl

pub delete_nil : (i : ℕ) → delete [] i ≡ []
unfolding delete
delete_nil zero = drop_nil (0 + 1)
delete_nil (suc i) = drop_nil (suc i + 1)

pub delete_zero : (x : Case) (cs : List Case) → delete (x ∷ cs) 0 ≡ cs
unfolding delete
delete_zero x cs = refl
