-- ===== src/Event/Feed/Reach.antt =====
-- The shape that every operation of Feed keeps, over whole histories of calls.
use airfk.Shared.{
  ℕ, zero, suc, ◌≡◌, refl, ap, sym, ◌∙◌, Bool, Option, none, some, List, [], ◌∷◌, ◌++◌, arith,
  get_elem?, All, Option-cases, inl, inr, ◌≢◌,
}
use airfk.Event.Cases.{Case, find}
use airfk.Event.Cases.Counts.{find-some}
use airfk.Event.Cases.Kept.{get_delete_head}
use airfk.Event.Feed.{
  Feed, done, init, typecheck, subscribe, remove_idle, remove, Round, Pick, unsubscribes, ready,
  send, set_values,
}
use airfk.Event.Feed.Delivery.{IsForeign, send_loop-Balance}
use airfk.Event.Feed.Send.{IsFeed, IsSent, send-IsSent, start-Balance}

IsFeed_of_head :
    (f : Feed) (head : Case)
    → get_elem? f.send_cases 0 ≡ some head
    → head.chan ≡ f.remove_sub
    → IsFeed f
IsFeed_of_head f head e own = by_cases f.send_cases refl
  where
    by_cases : (cs : List Case) → cs ≡ f.send_cases → IsFeed f
    by_cases [] k = absurd (cc (ap (λ (l : List Case). get_elem? l 0) k))
    by_cases (x ∷ cs) k =
        let same : x ≡ head = ground (arith, ap (λ (l : List Case). get_elem? l 0) k) in
        record { head = x; subs = cs; front = sym k; own = ap (λ (y : Case). y.chan) same ∙ own }

init-IsFeed : (r : ℕ) → IsFeed (init r)
unfolding init
init-IsFeed r = record {
  head = record { chan = r; value = none };
  subs = [];
  front = refl;
  own = refl;
}

subscribe-IsFeed :
    (f g : Feed) (sendable : Bool) (elem ch r : ℕ)
    → subscribe f sendable elem ch ≡ done r g
    → IsFeed f
    → IsFeed g
unfolding subscribe typecheck
subscribe-IsFeed f g sendable elem ch r e v =
    IsFeed_of_head g v.head (ground (arith, v.front)) (ground (arith, v.own))

remove-IsFeed :
    (f g : Feed) (ch : ℕ) (u : Unit {0})
    → ch ≢ f.remove_sub
    → remove f ch ≡ done u g
    → IsFeed f
    → IsFeed g
unfolding remove remove_idle
remove-IsFeed f g ch u own e v = elim (Option-cases (find ch f.inbox)) [
  | inr (i, k) ↦ IsFeed_of_head g v.head (ground (arith, v.front)) (ground (arith, v.own))
  | inl k ↦ elim (Option-cases (find ch f.send_cases)) [
    | inl m ↦ absurd (ground arith)
    | inr (zero, m) ↦
        let (a, here, same, _) = find-some ch f.send_cases 0 m in
        let first : a ≡ v.head =
          ground (arith, here, ap (λ (l : List Case). get_elem? l 0) v.front) in
        absurd (own (sym same ∙ ap (λ (y : Case). y.chan) first ∙ v.own))
    | inr (suc i, m) ↦
        IsFeed_of_head g v.head
          (ground (arith, v.front, get_delete_head f.send_cases (suc i) (omega arith)))
          (ground (arith, v.own))
  ]
]

set_values_head :
    (value : Option ℕ) (cs : List Case) → get_elem? (set_values value cs) 0 ≡ get_elem? cs 0
unfolding set_values
set_values_head value [] = refl
set_values_head value (c ∷ cs) = refl

send-IsFeed :
    (f g : Feed) (typ value nsent : ℕ) (rounds : List Round) (delivered : List Case) (v : IsFeed f)
    → All (λ (r : Round). IsForeign v.head r.pick) rounds
    → send f typ value rounds ≡ done (nsent, delivered) g
    → IsFeed g
send-IsFeed f g typ value nsent rounds delivered v own e =
    let p : IsSent f g value nsent rounds delivered =
      send-IsSent f g typ value nsent rounds delivered e in
    let looped = rw (v.front) at p.looped in
    let (balance, _) =
      send_loop-Balance v.head (v.head ∷ (v.subs ++ f.inbox)) rounds value _ p.last own looped
        (start-Balance value v.head (v.subs ++ f.inbox)) in
    IsFeed_of_head g v.head
      (ap (λ (l : List Case). get_elem? l 0) p.cleared
        ∙ set_values_head none p.last.cases
        ∙ balance.front)
      (v.own ∙ sym p.named)

-- A history of calls by users, who do not hold removeSub, that all return.
pub data Call (r : ℕ) : Feed → Feed → Type 0 where
  subscribes :
      (f g : Feed) (sendable : Bool) (elem ch u : ℕ)
      → subscribe f sendable elem ch ≡ done u g
      → Call r f g
  removes : (f g : Feed) (ch : ℕ) (u : Unit {0}) → ch ≢ r → remove f ch ≡ done u g → Call r f g
  sends :
      (f g : Feed) (typ value nsent : ℕ) (rounds : List Round) (delivered : List Case)
      → All (λ (x : Round). IsForeign (record { chan = r; value = none }) x.pick) rounds
      → send f typ value rounds ≡ done (nsent, delivered) g
      → Call r f g

pub data Reach (r : ℕ) : Feed → Type 0 where
  starts : Reach r (init r)
  then_call : {f g : Feed} → Reach r f → Call r f g → Reach r g

IsForeign-cast : (h h' : Case) (p : Pick) → h.chan ≡ h'.chan → IsForeign h p → IsForeign h' p
IsForeign-cast h h' (unsubscribes ch) e own = λ k. own (k ∙ sym e)
IsForeign-cast h h' (ready j) e own = tt

All-IsForeign :
    (h h' : Case) (rs : List Round)
    → h.chan ≡ h'.chan
    → All (λ (x : Round). IsForeign h x.pick) rs
    → All (λ (x : Round). IsForeign h' x.pick) rs
All-IsForeign h h' [] e own = tt
All-IsForeign h h' (r ∷ rs) e own =
    (IsForeign-cast h h' r.pick e own.0, All-IsForeign h h' rs e own.1)

step :
    (r : ℕ) {f g : Feed}
    → Call r f g
    → IsFeed f × (f.remove_sub ≡ r)
    → IsFeed g × (g.remove_sub ≡ r)
step r (subscribes f g sendable elem ch u e) (v, own) =
    (subscribe-IsFeed f g sendable elem ch u e v, unfold subscribe typecheck in ground arith)
step r (removes f g ch u other e) (v, own) =
    (remove-IsFeed f g ch u (λ k. other (k ∙ own)) e v, unfold remove remove_idle in ground arith)
step r (sends f g typ value nsent rounds delivered foreign e) (v, own) = (
  send-IsFeed f g typ value nsent rounds delivered v
      (All-IsForeign (record { chan = r; value = none }) v.head rounds (sym (v.own ∙ own)) foreign)
      e,
  (send-IsSent f g typ value nsent rounds delivered e).named ∙ own,
)

-- In every feed that a history of returning calls reaches, the case of removeSub stands in front,
-- so that Select's index 0 is always the receipt of an unsubscription.
pub Reach-IsFeed : (r : ℕ) {f : Feed} → Reach r f → IsFeed f × (f.remove_sub ≡ r)
Reach-IsFeed r starts = (init-IsFeed r, unfold init in refl)
Reach-IsFeed r (then_call before call) = step r call (Reach-IsFeed r before)
