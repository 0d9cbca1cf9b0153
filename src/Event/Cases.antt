-- ===== src/Event/Cases.antt =====
-- The caseList of pkg/event/feed.go. A channel is a number; a case holds the channel and the value
-- that is to be sent on it. `take n cs` of the shared array `cs` is the slice `cases` of length n.
pub mod Deletion
pub mod Counts
pub mod Kept
use airfk.Shared.{
  ℕ, zero, suc, ◌+◌, ◌-◌, ◌≤◌, ◌<◌, ◌≡◌, refl, ap, sym, ◌∙◌, Bool, true, false, Option, none, some,
  List, [], ◌∷◌, ◌++◌, arith, ltb, ◌==◌, if◌then◌else◌, length, get_elem?, set, take, drop, All,
  length-append, Option-cases, inl, inr, ==_iff, Bool-cases, ◌≢◌,
}

pub record Case : Type 0 where
  pub chan : ℕ
  pub value : Option ℕ

-- caseList.find; `none` is -1.
unfoldable pub find : ℕ → List Case → Option ℕ
find ch [] = none
find ch (x ∷ xs) =
    if x.chan == ch then some 0 else elim (find ch xs) [ none ↦ none | some i ↦ some (suc i) ]

-- caseList.delete, for an index in range.
unfoldable pub delete : List Case → ℕ → List Case
delete cs index = take index cs ++ drop (index + 1) cs

-- caseList.deactivate on the first `n` cases: the case at `index` and the last of them change places.
unfoldable pub deactivate : List Case → ℕ → ℕ → List Case
deactivate cs n index = elim (get_elem? cs index) [
  | none ↦ cs
  | some a ↦ elim (get_elem? cs (n - 1)) [ none ↦ cs | some b ↦ set (set cs index b) (n - 1) a ]
]

-- How often a channel stands in a list of cases.
abbrev pub holds : ℕ → Case → ℕ
holds c x = if x.chan == c then 1 else 0

unfoldable pub count : ℕ → List Case → ℕ
count c [] = 0
count c (x ∷ xs) = holds c x + count c xs
