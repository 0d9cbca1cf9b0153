-- ===== src/Event/Feed/Send.antt =====
-- Send as a whole: whom it serves when it returns, and that it returns.
use airfk.Shared.{
  ℕ, suc, ◌+◌, ◌*◌, ◌<◌, ◌≤◌, ◌≡◌, refl, ap, sym, ◌∙◌, true, false, Option, none, some, List, [],
  ◌∷◌, ◌++◌, map, arith, length, get_elem?, take, All, inl, inr, ◌≢◌, ◌⊎◌,
}
use airfk.Event.Cases.{Case, count, holds}
use airfk.Event.Cases.Counts.{count-one}
use airfk.Event.Feed.{
  Feed, done, blocked, typecheck, Round, Sending, Progressed, finished, waiting, crashed, send_loop,
  set_values, start_sending, send,
}
use airfk.Event.Feed.Delivery.{Balance, IsForeign, send_loop-Balance}
use airfk.Event.Feed.Loaded.{Carries}
use airfk.Event.Feed.Served.{unsubscriptions, send_loop-Served, start-Served}
use airfk.Event.Feed.Progress.{work, send_loop-ne-waiting}

count-set_values :
    (c : ℕ) (value : Option ℕ) (cs : List Case) → count c (set_values value cs) ≡ count c cs
unfolding set_values count
count-set_values c value [] = refl
count-set_values c value (x ∷ cs) = ap (λ (m : ℕ). holds c x + m) (over cs)
  where
    over :
        (ds : List Case) → count c (map (λ (d : Case). record d { value = value }) ds) ≡ count c ds
    over [] = refl
    over (d ∷ ds) = ap (λ (m : ℕ). holds c d + m) (over ds)

length-set_values : (value : Option ℕ) (cs : List Case) → length (set_values value cs) ≡ length cs
unfolding set_values
length-set_values value [] = refl
length-set_values value (x ∷ cs) = ap suc (over cs)
  where
    over : (ds : List Case) → length (map (λ (d : Case). record d { value = value }) ds) ≡ length ds
    over [] = refl
    over (d ∷ ds) = ap suc (over ds)

take_all : (cs : List Case) → take (length cs) cs ≡ cs
take_all [] = refl
take_all (c ∷ cs) = ap (◌∷◌ c) (take_all cs)

count_nil : (c : ℕ) → count c [] ≡ 0
unfolding count
count_nil c = refl

pub start-Balance :
    (value : ℕ) (head : Case) (cs : List Case)
    → Balance head (head ∷ cs) (start_sending value (head ∷ cs))
unfolding start_sending
start-Balance value head cs = record {
  counts = λ c.
      let all = set_values (some value) (head ∷ cs) in
      let whole : count c (take (suc (length cs)) all) ≡ count c (head ∷ cs) =
        ap (λ (m : ℕ). count c (take m all)) (sym (length-set_values (some value) (head ∷ cs)))
        ∙ ap (count c) (take_all all)
        ∙ count-set_values c (some value) (head ∷ cs) in
      omega (arith, whole, count_nil c);
  bound = omega (arith, length-set_values (some value) (head ∷ cs));
  positive = omega arith;
  tally = refl;
  front = unfold set_values in refl;
}

-- The case of removeSub stands in front of the send cases.
pub record IsFeed (f : Feed) : Type 0 where
  pub head : Case
  pub subs : List Case
  pub front : f.send_cases ≡ head ∷ subs
  pub own : head.chan ≡ f.remove_sub

one_case :
    (c : ℕ) (s : Sending) (head : Case)
    → get_elem? s.cases 0 ≡ some head
    → count c (take 1 s.cases) ≡ holds c head
one_case c s head e = by_cases s.cases e
  where
    by_cases : (cs : List Case) → get_elem? cs 0 ≡ some head → count c (take 1 cs) ≡ holds c head
    by_cases [] k = cc
    by_cases (x ∷ cs) k = count-one c x head (ground arith)

finished_counts :
    (head : Case) (cs : List Case) (t : Sending) (c : ℕ)
    → Balance head (head ∷ cs) t
    → t.n ≡ 1
    → count c t.delivered + count c t.dropped ≡ count c cs
finished_counts head cs t c v one =
    let last : count c (take t.n t.cases) ≡ holds c head =
      ap (λ (m : ℕ). count c (take m t.cases)) one ∙ one_case c t head v.front in
    omega (arith, v.counts c, last, count_cons)
  where
    count_cons : count c (head ∷ cs) ≡ holds c head + count c cs
    count_cons = unfold count in refl

-- The facts behind a Send that returned.
pub record IsSent (f g : Feed) (value nsent : ℕ) (rounds : List Round) (delivered : List Case)
    : Type 0 where
  pub last : Sending
  pub looped :
      send_loop rounds value (start_sending value (f.send_cases ++ f.inbox)) ≡ finished last
  pub counted : nsent ≡ last.nsent
  pub listed : delivered ≡ last.delivered
  pub cleared : g.send_cases ≡ set_values none last.cases
  pub emptied : g.inbox ≡ []
  pub unlocked : (g.send_lock ≡ true) × (g.mu ≡ false)
  pub named : g.remove_sub ≡ f.remove_sub

Progressed-cases :
    (p : Progressed)
    → ((t : Sending) × (p ≡ finished t)) ⊎ ((t : Sending) × ((p ≡ waiting t) ⊎ (p ≡ crashed t)))
Progressed-cases (finished t) = inl (t, refl)
Progressed-cases (waiting t) = inr (t, inl refl)
Progressed-cases (crashed t) = inr (t, inr refl)

pub send-IsSent :
    (f g : Feed) (typ value nsent : ℕ) (rounds : List Round) (delivered : List Case)
    → send f typ value rounds ≡ done (nsent, delivered) g
    → IsSent f g value nsent rounds delivered
unfolding send typecheck
send-IsSent f g typ value nsent rounds delivered e =
    elim (Progressed-cases
      (send_loop rounds value (start_sending value (f.send_cases ++ f.inbox)))) [
        | inl (t, k) ↦ record {
          last = t;
          looped = k;
          counted = ground arith;
          listed = ground arith;
          cleared = ground arith;
          emptied = ground arith;
          unlocked = ground arith;
          named = ground arith;
        }
        | inr (t, k) ↦ absurd (ground arith)
      ]

-- In a feed whose removeSub case stands in front and is not unsubscribed itself: when Send returns,
-- every channel that was subscribed, also since the last Send, was sent to once for each of its
-- cases but the dropped ones, and a channel has at most as many dropped cases as it was unsubscribed
-- while Send waited, so none if it was not; what was sent is the value of the call each time; and
-- nsent is the number of sends made.
pub send-counts :
    (f g : Feed) (typ value nsent : ℕ) (rounds : List Round) (delivered : List Case) (v : IsFeed f)
    → All (λ (r : Round). IsForeign v.head r.pick) rounds
    → send f typ value rounds ≡ done (nsent, delivered) g
    → (dropped : List Case) × ((c : ℕ)
        → count c delivered + count c dropped ≡ count c (v.subs ++ f.inbox))
      × ((c : ℕ) → count c dropped ≤ unsubscriptions c rounds)
      × All (Carries value) delivered
      × (nsent ≡ length delivered)
send-counts f g typ value nsent rounds delivered v own e =
    let p : IsSent f g value nsent rounds delivered =
      send-IsSent f g typ value nsent rounds delivered e in
    let cs = v.subs ++ f.inbox in
    let looped = rw (v.front) at p.looped in
    let (balance, one) =
      send_loop-Balance v.head (v.head ∷ cs) rounds value _ p.last own looped
        (start-Balance value v.head cs) in
    let served =
      send_loop-Served value v.head (v.head ∷ cs) (λ c. 0) rounds _ p.last own looped
        (start-Balance value v.head cs) (start-Served value (v.head ∷ cs)) in
    (
      p.last.dropped,
      λ c. rw (p.listed) (finished_counts v.head cs p.last c balance one),
      λ c. omega (arith, served.few c),
      rw (p.listed) served.carried,
      p.counted ∙ balance.tally ∙ ap length (sym p.listed),
    )

-- In a feed whose removeSub case stands in front and is not unsubscribed itself, a Send that gets its
-- locks does not wait for ever: once the environment has
-- answered more often than twice the number of cases, it is not waiting for another answer.
pub send-ne-blocked :
    (f : Feed) (typ value : ℕ) (rounds : List Round) (v : IsFeed f)
    → All (λ (r : Round). IsForeign v.head r.pick) rounds
    → f.send_lock ≡ true
    → f.mu ≡ false
    → 2 * length (f.send_cases ++ f.inbox) < length rounds
    → send f typ value rounds ≢ blocked
unfolding send typecheck
send-ne-blocked f typ value rounds v own token free enough e =
    elim (Progressed-cases
      (send_loop rounds value (start_sending value (f.send_cases ++ f.inbox)))) [
        | inl (t, k) ↦ ground arith
        | inr (t, inr k) ↦ ground arith
        | inr (t, inl k) ↦
            let cs = v.subs ++ f.inbox in
            let size : length (f.send_cases ++ f.inbox) ≡ length (v.head ∷ cs) =
              ap (λ (l : List Case). length (l ++ f.inbox)) v.front in
            let room : work (start_sending value (v.head ∷ cs)) < length rounds =
              unfold start_sending in
              omega (arith, size, length-set_values (some value) (v.head ∷ cs)) in
            send_loop-ne-waiting v.head (v.head ∷ cs) rounds value
              (start_sending value (v.head ∷ cs)) t own room (start-Balance value v.head cs)
              (rw (v.front) at k)
      ]
