-- ===== src/Event/Cases/Kept.antt =====
-- What the operations of a caseList leave alone: the first case, and properties of all cases.
use airfk.Shared.{
  ℕ, zero, suc, ◌-◌, ◌≤◌, ◌<◌, ◌≡◌, refl, some, List, [], ◌∷◌, ◌++◌, arith, get_elem?, set, All,
  Option-cases, inl, inr,
}
use mathlib.Core.Option.{some-injective}
use mathlib.Core.Path.{subst}
use airfk.Event.Cases.{Case, delete, deactivate}
use airfk.Event.Cases.Deletion.{delete-suc, delete_zero, delete_nil}

-- The first case stays where it is.
get_set_head :
    (cs : List Case) (i : ℕ) (x : Case) → 1 ≤ i → get_elem? (set cs i x) 0 ≡ get_elem? cs 0
get_set_head [] i x h = refl
get_set_head (c ∷ cs) zero x h = absurd (omega arith)
get_set_head (c ∷ cs) (suc i) x h = refl

pub get_deactivate_head :
    (cs : List Case) (n index : ℕ)
    → 1 ≤ index
    → 1 < n
    → get_elem? (deactivate cs n index) 0 ≡ get_elem? cs 0
unfolding deactivate
get_deactivate_head cs n index h k = elim (Option-cases (get_elem? cs index)) [
  | inl e ↦ ground arith
  | inr (a, e) ↦ elim (Option-cases (get_elem? cs (n - 1))) [
    | inl d ↦ ground arith
    | inr (b, d) ↦
        ground
          (arith, get_set_head (set cs index b) (n - 1) a (omega arith), get_set_head cs index b h)
  ]
]

pub get_delete_head :
    (cs : List Case) (index : ℕ) → 1 ≤ index → get_elem? (delete cs index) 0 ≡ get_elem? cs 0
get_delete_head cs zero h = absurd (omega arith)
get_delete_head [] (suc i) h = rw (delete_nil (suc i))
get_delete_head (c ∷ cs) (suc i) h = rw (delete-suc c cs i)

-- A property of all cases passes to the lists that are made of them.
module _ (P : Case → Type 0) where
  pub All-get : (cs : List Case) (i : ℕ) (a : Case) → All P cs → get_elem? cs i ≡ some a → P a
  All-get [] i a h e = absurd (cc e)
  All-get (c ∷ cs) zero a h e = subst P (some-injective _ _ e) h.0
  All-get (c ∷ cs) (suc i) a h e = All-get cs i a h.1 e

  pub All-set : (cs : List Case) (i : ℕ) (x : Case) → All P cs → P x → All P (set cs i x)
  All-set [] i x h k = h
  All-set (c ∷ cs) zero x h k = (k, h.1)
  All-set (c ∷ cs) (suc i) x h k = (h.0, All-set cs i x h.1 k)

  pub All-snoc : (cs : List Case) (x : Case) → All P cs → P x → All P (cs ++ x ∷ [])
  All-snoc [] x h k = (k, tt)
  All-snoc (c ∷ cs) x h k = (h.0, All-snoc cs x h.1 k)

  pub All-delete : (cs : List Case) (i : ℕ) → All P cs → All P (delete cs i)
  All-delete [] i h = rw (delete_nil i) tt
  All-delete (c ∷ cs) zero h = rw (delete_zero c cs) h.1
  All-delete (c ∷ cs) (suc i) h = rw (delete-suc c cs i) (h.0, All-delete cs i h.1)
