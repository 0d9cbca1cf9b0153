-- ===== src/Event/Feed/Loaded.antt =====
-- The cases of a Send (pkg/event/feed.go) that hold its value.
use airfk.Shared.{
  ℕ, zero, suc, ◌-◌, ◌≤◌, ◌<◌, ◌≡◌, some, List, [], ◌∷◌, arith, get_elem?, set, All, Option-cases,
  inl, inr,
}
use mathlib.Core.Path.{subst}
use airfk.Event.Cases.{Case, delete, deactivate}
use airfk.Event.Cases.Deletion.{delete-suc, delete_nil}
use airfk.Event.Cases.Kept.{All-get, All-set, All-delete}

abbrev pub Carries : ℕ → Case → Type 0
Carries value c = c.value ≡ some value

module _ (value : ℕ) where
  -- Every case behind the first holds the value.
  abbrev pub Loaded : List Case → Type 0
  Loaded [] = Unit {0}
  Loaded (c ∷ cs) = All (Carries value) cs

  pub Loaded-get :
      (cs : List Case) (i : ℕ) (a : Case)
      → Loaded cs
      → get_elem? cs (suc i) ≡ some a
      → Carries value a
  Loaded-get [] i a h e = absurd (cc e)
  Loaded-get (c ∷ cs) i a h e = All-get (Carries value) cs i a h e

  Loaded-set :
      (cs : List Case) (i : ℕ) (x : Case)
      → 1 ≤ i
      → Loaded cs
      → Carries value x
      → Loaded (set cs i x)
  Loaded-set [] i x low h k = h
  Loaded-set (c ∷ cs) zero x low h k = absurd (omega arith)
  Loaded-set (c ∷ cs) (suc i) x low h k = All-set (Carries value) cs i x h k

  Loaded-at :
      (cs : List Case) (i : ℕ) (a : Case)
      → 1 ≤ i
      → Loaded cs
      → get_elem? cs i ≡ some a
      → Carries value a
  Loaded-at cs zero a low h e = absurd (omega arith)
  Loaded-at cs (suc i) a low h e = Loaded-get cs i a h e

  pub Loaded-delete : (cs : List Case) (i : ℕ) → 1 ≤ i → Loaded cs → Loaded (delete cs i)
  Loaded-delete cs zero low h = absurd (omega arith)
  Loaded-delete [] (suc i) low h = rw (delete_nil (suc i)) tt
  Loaded-delete (c ∷ cs) (suc i) low h = rw (delete-suc c cs i) (All-delete (Carries value) cs i h)

  pub Loaded-deactivate :
      (cs : List Case) (n index : ℕ)
      → 1 ≤ index
      → 1 < n
      → Loaded cs
      → Loaded (deactivate cs n index)
  unfolding deactivate
  Loaded-deactivate cs n index low high h = elim (Option-cases (get_elem? cs index)) [
    | inl e ↦ subst Loaded {x = cs} {y = deactivate cs n index} (ground (arith, e)) h
    | inr (a, e) ↦ elim (Option-cases (get_elem? cs (n - 1))) [
      | inl d ↦ subst Loaded {x = cs} {y = deactivate cs n index} (ground (arith, e, d)) h
      | inr (b, d) ↦
          let swapped = set (set cs index b) (n - 1) a in
          subst Loaded {x = swapped} {y = deactivate cs n index} (ground (arith, e, d)) (
            Loaded-set (set cs index b) (n - 1) a (omega arith)
              (Loaded-set cs index b low h (Loaded-at cs (n - 1) b (omega arith) h d))
              (Loaded-at cs index a low h e))
    ]
  ]
