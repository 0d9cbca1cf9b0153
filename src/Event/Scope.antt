-- ===== src/Event/Scope.antt =====
-- pkg/event/subscription.go: SubscriptionScope and scopeSub. A tracked subscription is a number, the
-- pointer of its scopeSub; what the inner Unsubscribe does is logged.
use airfk.Shared.{
  ℕ, ◌+◌, ◌-◌, ◌≡◌, refl, ap, Bool, true, false, Option, none, some, List, [], ◌∷◌, ◌++◌, arith,
  ◌==◌, if◌then◌else◌, length, ◌≤◌, ◌<◌, ◌≢◌, Bool-cases, inl, inr,
}

pub record SubscriptionScope : Type 0 where
  -- the keys of the map, without duplicates
  pub subs : List ℕ
  pub closed : Bool
  -- the pointer of the next scopeSub
  pub fresh : ℕ
  -- the subscriptions whose Unsubscribe was called, oldest first
  pub calls : List ℕ

abbrev pub zero_scope : SubscriptionScope
zero_scope = record { subs = []; closed = false; fresh = 0; calls = [] }

-- `none` is the nil Subscription.
unfoldable pub track : SubscriptionScope → SubscriptionScope × Option ℕ
track sc =
    if sc.closed
    then (sc, none)
    else (record sc { subs = sc.subs ++ sc.fresh ∷ []; fresh = sc.fresh + 1 }, some sc.fresh)

-- The loop over the map calls every Unsubscribe, in some order: here that of tracking.
unfoldable pub close : SubscriptionScope → SubscriptionScope
close sc =
    if sc.closed then sc else record sc { closed = true; calls = sc.calls ++ sc.subs; subs = [] }

unfoldable pub scope_count : SubscriptionScope → ℕ
scope_count sc = length sc.subs

-- delete(s.sc.subs, s); a missing key is no error.
unfoldable pub delete_key : ℕ → List ℕ → List ℕ
delete_key s [] = []
delete_key s (t ∷ ts) = let rest = delete_key s ts in if t == s then ts else t ∷ rest

unfoldable pub unsubscribe : SubscriptionScope → ℕ → SubscriptionScope
unsubscribe sc s = record sc { calls = sc.calls ++ s ∷ []; subs = delete_key s sc.subs }

unfoldable pub occurs : ℕ → List ℕ → ℕ
occurs s [] = 0
occurs s (t ∷ ts) = (if t == s then 1 else 0) + occurs s ts

pub data Step : SubscriptionScope → SubscriptionScope → Type 0 where
  tracks : (sc : SubscriptionScope) → Step sc (track sc).0
  closes : (sc : SubscriptionScope) → Step sc (close sc)
  unsubscribes : (sc : SubscriptionScope) (s : ℕ) → s < sc.fresh → Step sc (unsubscribe sc s)

pub data Reach : SubscriptionScope → Type 0 where
  starts : Reach zero_scope
  then_step : {a b : SubscriptionScope} → Reach a → Step a b → Reach b

-- Keys are distinct and were handed out, a closed scope tracks nothing, and every subscription that
-- was handed out and is not tracked any more has been unsubscribed.
pub record IsScope (sc : SubscriptionScope) : Type 0 where
  pub known : (s : ℕ) → sc.fresh ≤ s → occurs s sc.subs ≡ 0
  pub distinct : (s : ℕ) → occurs s sc.subs ≤ 1
  pub emptied : sc.closed ≡ true → sc.subs ≡ []
  pub ended : (s : ℕ) → s < sc.fresh → 1 ≤ occurs s sc.subs + occurs s sc.calls

occurs-append : (s : ℕ) (xs ys : List ℕ) → occurs s (xs ++ ys) ≡ occurs s xs + occurs s ys
unfolding occurs
occurs-append s [] ys = omega arith
occurs-append s (x ∷ xs) ys = omega (arith, occurs-append s xs ys)

occurs-delete_key :
    (s t : ℕ) (xs : List ℕ)
    → (occurs t (delete_key s xs) ≤ occurs t xs)
      × (s ≢ t → occurs t (delete_key s xs) ≡ occurs t xs)
      × (occurs s (delete_key s xs) ≡ occurs s xs - 1)
unfolding occurs delete_key
occurs-delete_key s t [] = (omega arith, λ _. refl, omega arith)
occurs-delete_key s t (x ∷ xs) =
    let (a, b, c) = occurs-delete_key s t xs in
    elim (Bool-cases (x == s)) [
      | inl hit ↦ (ground arith, λ n. ground arith, ground arith)
      | inr miss ↦ (ground (arith, a), λ n. ground (arith, b n), ground (arith, c))
    ]

occurs-one : (s t : ℕ) → occurs s (t ∷ []) ≡ (if t == s then 1 else 0)
unfolding occurs
occurs-one s t = omega arith

track-IsScope : (sc : SubscriptionScope) → IsScope sc → IsScope (track sc).0
unfolding track
track-IsScope sc v = elim (Bool-cases sc.closed) [
  | inl shut ↦ simp shut v
  | inr up ↦ simp up (record {
    known = λ s h.
        ground (arith, v.known s, occurs-append s sc.subs (sc.fresh ∷ []), occurs-one s sc.fresh);
    distinct = λ s. ground (
      arith,
      v.known s,
      v.distinct s,
      occurs-append s sc.subs (sc.fresh ∷ []),
      occurs-one s sc.fresh,
    );
    emptied = λ e. absurd (ground arith);
    ended = λ s h.
        ground (arith, v.ended s, occurs-append s sc.subs (sc.fresh ∷ []), occurs-one s sc.fresh);
  })
]

close-IsScope : (sc : SubscriptionScope) → IsScope sc → IsScope (close sc)
unfolding close
close-IsScope sc v = elim (Bool-cases sc.closed) [
  | inl shut ↦ simp shut v
  | inr up ↦ simp up (record {
    known = λ s h. unfold occurs in refl;
    distinct = λ s. unfold occurs in omega arith;
    emptied = λ e. refl;
    ended = λ s h. omega (arith, v.ended s h, occurs-append s sc.calls sc.subs);
  })
]

unsubscribe-IsScope : (sc : SubscriptionScope) (u : ℕ) → IsScope sc → IsScope (unsubscribe sc u)
unfolding unsubscribe
unsubscribe-IsScope sc u v = record {
  known = λ s h. omega (arith, v.known s h, (occurs-delete_key u s sc.subs).0);
  distinct = λ s. omega (arith, v.distinct s, (occurs-delete_key u s sc.subs).0);
  emptied = λ e. rw (v.emptied e) (unfold delete_key in refl);
  ended = λ s h.
      let (_, other, _) = occurs-delete_key u s sc.subs in
      elim (Bool-cases (u == s)) [
        | inl same ↦ ground (arith, occurs-append s sc.calls (u ∷ []), occurs-one s u)
        | inr distinct ↦
            let apart : u ≢ s = ground arith in
            omega (arith, v.ended s h, other apart, occurs-append s sc.calls (u ∷ []))
      ];
}

pub Reach-IsScope : {sc : SubscriptionScope} → Reach sc → IsScope sc
Reach-IsScope starts = record {
  known = λ s h. unfold occurs in refl;
  distinct = λ s. unfold occurs in omega arith;
  emptied = λ e. refl;
  ended = λ s h. absurd (omega arith);
}
Reach-IsScope (then_step r (tracks sc)) = track-IsScope sc (Reach-IsScope r)
Reach-IsScope (then_step r (closes sc)) = close-IsScope sc (Reach-IsScope r)
Reach-IsScope (then_step r (unsubscribes sc s h)) = unsubscribe-IsScope sc s (Reach-IsScope r)

close_closed : (sc : SubscriptionScope) → ((close sc).closed ≡ true) × ((close sc).fresh ≡ sc.fresh)
unfolding close
close_closed sc = ground arith

occurs-nil : (s : ℕ) → occurs s [] ≡ 0
unfolding occurs
occurs-nil s = refl

close_calls :
    (sc : SubscriptionScope) (s : ℕ)
    → IsScope sc
    → occurs s (close sc).calls ≡ occurs s sc.calls + occurs s sc.subs
unfolding close
close_calls sc s v = elim (Bool-cases sc.closed) [
  | inl shut ↦ simp shut (omega (arith, ap (occurs s) (v.emptied shut), occurs-nil s))
  | inr up ↦ simp up (occurs-append s sc.calls sc.subs)
]

track-close : (sc : SubscriptionScope) → track (close sc) ≡ (close sc, none)
unfolding track
track-close sc = simp ((close_closed sc).0)

-- In every reachable scope, and for each subscription `s` that was tracked in it: Close leaves
-- nothing tracked and `s` unsubscribed, calling Unsubscribe on it once more if it was still tracked
-- and not at all if it was not; and after it Track returns nil and changes nothing.
pub close_ends_all :
    {sc : SubscriptionScope} (s : ℕ)
    → Reach sc
    → s < sc.fresh
    → (scope_count (close sc) ≡ 0)
      × (1 ≤ occurs s (close sc).calls)
      × (occurs s (close sc).calls ≡ occurs s sc.calls + occurs s sc.subs)
      × (occurs s sc.subs ≤ 1)
      × (track (close sc) ≡ (close sc, none))
close_ends_all {sc} s r h =
    let v : IsScope sc = Reach-IsScope r in
    let w : IsScope (close sc) = close-IsScope sc v in
    let (shut, fresh) = close_closed sc in
    let empty : (close sc).subs ≡ [] = w.emptied shut in
    (
      unfold scope_count in ap length empty,
      omega (arith, w.ended s (omega (arith, h, fresh)), ap (occurs s) empty, occurs-nil s),
      close_calls sc s v,
      v.distinct s,
      track-close sc,
    )
