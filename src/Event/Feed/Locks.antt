-- ===== src/Event/Feed/Locks.antt =====
-- The shape that every operation of Feed keeps, unsubscribing, and the locks after a panic.
use airfk.Shared.{
  ℕ, ◌+◌, ◌≡◌, refl, ap, Bool, true, false, none, some, List, [], ◌∷◌, ◌++◌, arith, ◌==◌,
  if◌then◌else◌, Option-cases, inl, inr, ◌≢◌, ◌⊎◌,
}
use airfk.Event.Cases.{Case, find, count, holds}
use airfk.Event.Cases.Counts.{count-append, count-delete, find-some}
use airfk.Event.Feed.{
  Feed, Outcome, done, panicked, blocked, typecheck, subscribe, remove_idle, remove, FeedSub,
  unsubscribe, Round, send,
}

-- With both locks free a Send of a wrong type panics with the mutex held: from then on every call that wants it waits
-- for ever, Subscribe, Unsubscribe and Send alike.
pub send_mismatch :
    (f : Feed) (typ t value : ℕ) (rounds : List Round)
    → f.send_lock ≡ true
    → f.mu ≡ false
    → f.etype ≡ some t
    → t ≢ typ
    → (g : Feed) × (send f typ value rounds ≡ panicked g)
      × ((elem ch : ℕ) → subscribe g true elem ch ≡ blocked)
      × ((ch : ℕ) → remove g ch ≡ blocked)
      × ((u w : ℕ) (later : List Round) → send g u w later ≡ blocked)
unfolding send typecheck subscribe remove
send_mismatch f typ t value rounds token free etype other = (
  record f { send_cases = f.send_cases ++ f.inbox; inbox = []; mu = true },
  ground arith,
  λ elem ch. refl,
  λ ch. refl,
  λ u w later. ground arith,
)

-- How many cases a channel has in the feed.
abbrev pub subscribed : ℕ → Feed → ℕ
subscribed c f = count c f.send_cases + count c f.inbox

-- Subscribing adds one case of the channel and none of another.
subscribed-subscribe :
    (f g : Feed) (sendable : Bool) (elem ch r : ℕ)
    → subscribe f sendable elem ch ≡ done r g
    → (c : ℕ) → subscribed c g ≡ subscribed c f + (if ch == c then 1 else 0)
unfolding subscribe typecheck
subscribed-subscribe f g sendable elem ch r e c =
    ground (arith, count-append c f.inbox (record { chan = ch; value = none } ∷ []), one)
  where
    one : count c (record { chan = ch; value = none } ∷ []) ≡ (if ch == c then 1 else 0)
    one = unfold count in omega arith

remove_counts :
    (f g : Feed) (ch : ℕ) (u : Unit {0})
    → remove f ch ≡ done u g
    → (c : ℕ) → subscribed c g + (if ch == c then 1 else 0) ≡ subscribed c f
unfolding remove remove_idle
remove_counts f g ch u e c = elim (Option-cases (find ch f.inbox)) [
  | inr (i, k) ↦
      let (a, here, same, _) = find-some ch f.inbox i k in
      ground (arith, count-delete c f.inbox i a here, holds_of a same)
  | inl k ↦ elim (Option-cases (find ch f.send_cases)) [
    | inl m ↦ ground arith
    | inr (i, m) ↦
        let (a, here, same, _) = find-some ch f.send_cases i m in
        ground (arith, count-delete c f.send_cases i a here, holds_of a same)
  ]
]
  where
    holds_of : (a : Case) → a.chan ≡ ch → holds c a ≡ (if ch == c then 1 else 0)
    holds_of a same = ap {B = ℕ} (λ (m : ℕ). if m == c then 1 else 0) same

Outcome-cases :
    {A : Type 0} (o : Outcome A)
    → ((a : A) × (g : Feed) × (o ≡ done a g)) ⊎ (((g : Feed) × (o ≡ panicked g)) ⊎ (o ≡ blocked))
Outcome-cases (done a g) = inl (a, g, refl)
Outcome-cases (panicked g) = inr (inl (g, refl))
Outcome-cases blocked = inr (inr refl)

-- A first Unsubscribe that returns takes exactly one case of its channel out of the feed, and the
-- next one returns and changes nothing.
subscribed-unsubscribe :
    (f g : Feed) (sub sub' : FeedSub)
    → sub.unsubscribed ≡ false
    → unsubscribe f sub ≡ done sub' g
    → ((c : ℕ) → subscribed c g + (if sub.channel == c then 1 else 0) ≡ subscribed c f)
      × (unsubscribe g sub' ≡ done sub' g)
unfolding unsubscribe
subscribed-unsubscribe f g sub sub' fresh e = elim (Outcome-cases (remove f sub.channel)) [
  | inl (u, h, k) ↦
      let same : h ≡ g = ground arith in
      (λ c. remove_counts f g sub.channel u (rw (← same) k) c, ground arith)
  | inr k ↦ absurd (ground (arith, k))
]
