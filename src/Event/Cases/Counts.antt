-- ===== src/Event/Cases/Counts.antt =====
-- How the operations of a caseList change the number of times that a channel stands in it.
use airfk.Shared.{
  ℕ, zero, suc, ◌+◌, ◌-◌, ◌≤◌, ◌<◌, ◌≡◌, refl, ap, sym, ◌∙◌, none, some, List, [], ◌∷◌, ◌++◌, arith,
  ltb, ◌==◌, if◌then◌else◌, length, get_elem?, set, take, Option-cases, inl, inr, Bool-cases,
}
use airfk.Event.Cases.{Case, find, delete, deactivate, holds, count}
use airfk.Event.Cases.Deletion.{delete-suc, delete_zero, delete_nil}

pub count-append : (c : ℕ) (xs ys : List Case) → count c (xs ++ ys) ≡ count c xs + count c ys
unfolding count
count-append c [] ys = omega arith
count-append c (x ∷ xs) ys = omega (arith, count-append c xs ys)

pub length-set : (cs : List Case) (i : ℕ) (x : Case) → length (set cs i x) ≡ length cs
length-set [] i x = refl
length-set (c ∷ cs) zero x = refl
length-set (c ∷ cs) (suc i) x = ap suc (length-set cs i x)

pub get_in_range : (cs : List Case) (i : ℕ) → i < length cs → (x : Case) × (get_elem? cs i ≡ some x)
get_in_range [] i h = absurd (omega arith)
get_in_range (x ∷ cs) zero h = (x, refl)
get_in_range (x ∷ cs) (suc i) h = get_in_range cs i (omega arith)

take-set_beyond : (cs : List Case) (i n : ℕ) (x : Case) → n ≤ i → take n (set cs i x) ≡ take n cs
take-set_beyond cs i zero x h = refl
take-set_beyond [] i (suc n) x h = refl
take-set_beyond (c ∷ cs) zero (suc n) x h = absurd (omega arith)
take-set_beyond (c ∷ cs) (suc i) (suc n) x h = ap (◌∷◌ c) (take-set_beyond cs i n x (omega arith))

count-take-set :
    (c : ℕ) (cs : List Case) (i n : ℕ) (a x : Case)
    → get_elem? cs i ≡ some a
    → i < n
    → count c (take n (set cs i x)) + holds c a ≡ count c (take n cs) + holds c x
unfolding count
count-take-set c [] i n a x e h = cc
count-take-set c (y ∷ cs) i zero a x e h = absurd (omega arith)
count-take-set c (y ∷ cs) zero (suc n) a x e h =
    let same : y ≡ a = ground arith in rw same (omega arith)
count-take-set c (y ∷ cs) (suc i) (suc n) a x e h =
    omega (arith, count-take-set c cs i n a x e (omega arith))

count-take-suc :
    (c : ℕ) (cs : List Case) (n : ℕ) (b : Case)
    → get_elem? cs n ≡ some b
    → count c (take (suc n) cs) ≡ count c (take n cs) + holds c b
unfolding count
count-take-suc c [] n b e = cc
count-take-suc c (y ∷ cs) zero b e =
    let same : y ≡ b = ground arith in rw same (unfold count in omega arith)
count-take-suc c (y ∷ cs) (suc n) b e = omega (arith, count-take-suc c cs n b e)

count-take-all : (c : ℕ) (cs : List Case) → count c (take (length cs) cs) ≡ count c cs
unfolding count
count-take-all c [] = refl
count-take-all c (x ∷ cs) = omega (arith, count-take-all c cs)

get_set_same :
    (cs : List Case) (i j : ℕ) (b : Case)
    → get_elem? cs j ≡ some b
    → get_elem? (set cs i b) j ≡ some b
get_set_same [] i j b e = e
get_set_same (x ∷ cs) zero zero b e = refl
get_set_same (x ∷ cs) zero (suc j) b e = e
get_set_same (x ∷ cs) (suc i) zero b e = e
get_set_same (x ∷ cs) (suc i) (suc j) b e = get_set_same cs i j b e

pub get_range : (cs : List Case) (i : ℕ) (a : Case) → get_elem? cs i ≡ some a → i < length cs
get_range [] i a e = cc
get_range (x ∷ cs) zero a e = omega arith
get_range (x ∷ cs) (suc i) a e = omega (arith, get_range cs i a e)

count-set :
    (c : ℕ) (cs : List Case) (i : ℕ) (a x : Case)
    → get_elem? cs i ≡ some a
    → count c (set cs i x) + holds c a ≡ count c cs + holds c x
count-set c cs i a x e =
    let all : count c (take (length cs) (set cs i x)) ≡ count c (set cs i x) =
      ap (λ (m : ℕ). count c (take m (set cs i x))) (sym (length-set cs i x))
      ∙ count-take-all c (set cs i x) in
    omega (
      arith,
      all,
      count-take-all c cs,
      count-take-set c cs i (length cs) a x e (get_range cs i a e),
    )

-- The two places of `deactivate`: the case at `index` leaves the first `n` cases, and no other does.
module _ (cs : List Case) (n index : ℕ) (a b : Case) (here : get_elem? cs index ≡ some a)
    (last : get_elem? cs (n - 1) ≡ some b) (inside : index < n) where
  deactivate_lem : deactivate cs n index ≡ set (set cs index b) (n - 1) a
  unfolding deactivate
  deactivate_lem = ground arith

  count_prefix : (c : ℕ) → count c (take n cs) ≡ count c (take (n - 1) cs) + holds c b
  count_prefix c =
      let size : n ≡ suc (n - 1) = omega arith in
      ap (λ (m : ℕ). count c (take m cs)) size ∙ count-take-suc c cs (n - 1) b last

  count-swap :
      (c : ℕ)
      → count c (take (n - 1) (set (set cs index b) (n - 1) a)) + holds c a ≡ count c (take n cs)
  count-swap c =
      rw (take-set_beyond (set cs index b) (n - 1) (n - 1) a (omega arith))
        (elim (Bool-cases (ltb index (n - 1))) [
          | inl inner ↦
              omega
                (arith, count-take-set c cs index (n - 1) a b here (ground arith), count_prefix c)
          | inr outer ↦
              let end : index ≡ n - 1 = ground arith in
              let same : a ≡ b = ground (arith, here, last, ap (get_elem? cs) end) in
              rw (take-set_beyond cs index (n - 1) b (omega arith))
                (omega (arith, count_prefix c, ap (holds c) same))
        ])

  pub count-deactivate_prefix :
      (c : ℕ) → count c (take (n - 1) (deactivate cs n index)) + holds c a ≡ count c (take n cs)
  count-deactivate_prefix c = rw deactivate_lem (count-swap c)

  pub length-deactivate : length (deactivate cs n index) ≡ length cs
  length-deactivate =
      rw deactivate_lem (length-set (set cs index b) (n - 1) a ∙ length-set cs index b)

  pub count-deactivate : (c : ℕ) → count c (deactivate cs n index) ≡ count c cs
  count-deactivate c = rw deactivate_lem (
      omega (
        arith,
        count-set c cs index a b here,
        count-set c (set cs index b) (n - 1) b a (get_set_same cs index (n - 1) b last),
      ))

-- What `delete` takes out, and what it leaves of a prefix.
pub count-delete :
    (c : ℕ) (cs : List Case) (i : ℕ) (a : Case)
    → get_elem? cs i ≡ some a
    → (count c (delete cs i) + holds c a ≡ count c cs) × (length (delete cs i) + 1 ≡ length cs)
unfolding count
count-delete c [] i a e = cc
count-delete c (x ∷ cs) zero a e =
    let same : x ≡ a = ground arith in rw (delete_zero x cs) (omega (arith, ap (holds c) same))
count-delete c (x ∷ cs) (suc i) a e =
    rw (delete-suc x cs i) (omega (arith, count-delete c cs i a e))

pub count-take-delete :
    (c : ℕ) (cs : List Case) (i n : ℕ) (a : Case)
    → get_elem? cs i ≡ some a
    → i < n
    → count c (take (n - 1) (delete cs i)) + holds c a ≡ count c (take n cs)
unfolding count
count-take-delete c [] i n a e h = cc
count-take-delete c (x ∷ cs) i zero a e h = absurd (omega arith)
count-take-delete c (x ∷ cs) zero (suc n) a e h =
    let same : x ≡ a = ground arith in
    let less : suc n - 1 ≡ n = omega arith in
    rw (delete_zero x cs) (rw less (omega (arith, ap (holds c) same)))
count-take-delete c (x ∷ cs) (suc i) (suc zero) a e h = absurd (omega arith)
count-take-delete c (x ∷ cs) (suc i) (suc (suc n)) a e h =
    let less : suc (suc n) - 1 ≡ suc n = omega arith in
    let less' : suc n - 1 ≡ n = omega arith in
    rw (delete-suc x cs i) (
      rw less (
        omega (
          arith,
          count-take-delete c cs i (suc n) a e (omega arith),
          ap (λ (m : ℕ). count c (take m (delete cs i))) less',
        )))

pub take-delete_beyond : (cs : List Case) (i n : ℕ) → n ≤ i → take n (delete cs i) ≡ take n cs
take-delete_beyond cs i zero h = refl
take-delete_beyond [] zero (suc n) h = absurd (omega arith)
take-delete_beyond [] (suc i) (suc n) h = rw (delete_nil (suc i))
take-delete_beyond (x ∷ cs) zero (suc n) h = absurd (omega arith)
take-delete_beyond (x ∷ cs) (suc i) (suc n) h =
    rw (delete-suc x cs i) (ap (◌∷◌ x) (take-delete_beyond cs i n (omega arith)))

pub find-some :
    (ch : ℕ) (cs : List Case) (i : ℕ)
    → find ch cs ≡ some i
    → (a : Case) × (get_elem? cs i ≡ some a) × (a.chan ≡ ch) × (i < length cs)
unfolding find
find-some ch [] i e = cc
find-some ch (x ∷ cs) i e = elim (Bool-cases (x.chan == ch)) [
  | inl hit ↦
      let start : i ≡ 0 = ground arith in (x, rw start refl, ground arith, rw start (omega arith))
  | inr miss ↦ elim (Option-cases (find ch cs)) [
    | inl k ↦ ground arith
    | inr (j, k) ↦
        let next : i ≡ suc j = ground arith in
        let (a, here, same, inside) = find-some ch cs j k in
        (a, rw next here, same, rw next (omega arith))
  ]
]

pub find-none : (ch : ℕ) (cs : List Case) → find ch cs ≡ none → count ch cs ≡ 0
unfolding find count
find-none ch [] e = refl
find-none ch (x ∷ cs) e = ground (arith, Option-cases (find ch cs), find-none ch cs)

pub count-one : (k : ℕ) (x c : Case) → x.chan ≡ c.chan → count k (x ∷ []) ≡ holds k c
unfolding count
count-one k x c e = omega (arith, ap {B = ℕ} (λ (m : ℕ). if m == k then 1 else 0) e)
