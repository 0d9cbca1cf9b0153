-- ===== src/Event/Feed/Served.antt =====
-- What Send's loop (pkg/event/feed.go) sends, and which cases it takes out: the value on every channel, and
-- only the cases of channels that were unsubscribed meanwhile.
use airfk.Shared.{
  ℕ, zero, suc, ◌+◌, ◌-◌, ◌≤◌, ◌<◌, ◌≡◌, refl, Bool, some, List, [], ◌∷◌, map, arith, ltb, ◌==◌,
  if◌then◌else◌, get_elem?, All, ltb→lt, Bool-cases, Option-cases, inl, inr,
}
use mathlib.Core.Path.{subst}
use airfk.Event.Cases.{Case, find, count, holds}
use airfk.Event.Cases.Counts.{count-append, count-one, find-some}
use airfk.Event.Cases.Kept.{All-snoc}
use airfk.Event.Feed.{
  Round, Pick, unsubscribes, ready, Sending, sent, try_all, apply_pick, drop_active, drop_served,
  finished, send_loop, set_values, start_sending,
}
use airfk.Event.Feed.Loaded.{Carries, Loaded, Loaded-get, Loaded-delete, Loaded-deactivate}
use airfk.Event.Feed.Delivery.{
  Balance, IsForeign, try_all-Balance, find_foreign, apply_pick-Balance,
}

-- How often a channel was unsubscribed while Send waited.
abbrev pub unsubscribed_by : ℕ → Pick → ℕ
unsubscribed_by c (unsubscribes ch) = if ch == c then 1 else 0
unsubscribed_by c (ready j) = 0

unfoldable pub unsubscriptions : ℕ → List Round → ℕ
unsubscriptions c [] = 0
unsubscriptions c (r ∷ rs) = unsubscribed_by c r.pick + unsubscriptions c rs

module _ (value : ℕ) where
  -- A state of the loop in which no channel was taken out more often than `drops` says.
  pub record Served (drops : ℕ → ℕ) (s : Sending) : Type 0 where
    pub loaded : Loaded value s.cases
    pub carried : All (Carries value) s.delivered
    pub few : (c : ℕ) → count c s.dropped ≤ drops c

  sent-Served :
      (drops : ℕ → ℕ) (s : Sending) (i : ℕ) (x : Case)
      → 1 ≤ i
      → i < s.n
      → Carries value x
      → Served drops s
      → Served drops (sent s i x)
  unfolding sent
  sent-Served drops s i x low high k v = record {
    loaded = Loaded-deactivate value s.cases s.n i low (omega arith) v.loaded;
    carried = All-snoc (Carries value) s.delivered x v.carried k;
    few = v.few;
  }

  try_all-Served :
      (drops : ℕ → ℕ) (accepts : ℕ → Bool) (left i : ℕ) (s : Sending)
      → 1 ≤ i
      → left + i ≤ s.n
      → Served drops s
      → Served drops (try_all accepts left i value s)
  unfolding try_all
  try_all-Served drops accepts zero i s low room v = v
  try_all-Served drops accepts (suc left) i s low room v =
      elim (Option-cases (get_elem? s.cases i)) [
        | inl gone ↦ rw (gone, try_all) v
        | inr (c, here) ↦
            let x : Case = record c { value = some value } in
            let taken =
              try_all-Served drops accepts left i (sent s i x) low (unfold sent in omega arith)
                (sent-Served drops s i x low (omega arith) refl v) in
            let kept = try_all-Served drops accepts left (suc i) s (omega arith) (omega arith) v in
            elim (Bool-cases (accepts left)) [
              | inl yes_taken ↦ rw (here, try_all) (rw yes_taken taken)
              | inr not_taken ↦ rw (here, try_all) (rw not_taken kept)
            ]
      ]

  -- The drops behind a round.
  more : (ℕ → ℕ) → Pick → ℕ → ℕ
  more drops p c = drops c + unsubscribed_by c p

  holds-unsubscribed_by :
      (c ch : ℕ) (x : Case) → x.chan ≡ ch → holds c x ≡ unsubscribed_by c (unsubscribes ch)
  holds-unsubscribed_by c ch x e = rw e refl

  drop_active-Served :
      (drops : ℕ → ℕ) (s : Sending) (i ch : ℕ) (x : Case)
      → 1 ≤ i
      → x.chan ≡ ch
      → Served drops s
      → Served (more drops (unsubscribes ch)) (drop_active s i x)
  unfolding drop_active more
  drop_active-Served drops s i ch x low e v = record {
    loaded = Loaded-delete value s.cases i low v.loaded;
    carried = v.carried;
    few = λ c. omega (
      arith,
      v.few c,
      count-append c s.dropped (x ∷ []),
      count-one c x x refl,
      holds-unsubscribed_by c ch x e,
    );
  }

  drop_served-Served :
      (drops : ℕ → ℕ) (s : Sending) (i ch : ℕ)
      → 1 ≤ i
      → Served drops s
      → Served (more drops (unsubscribes ch)) (drop_served s i)
  unfolding drop_served more
  drop_served-Served drops s i ch low v = record {
    loaded = Loaded-delete value s.cases i low v.loaded;
    carried = v.carried;
    few = λ c. omega (arith, v.few c);
  }

  more-ready :
      (drops : ℕ → ℕ) (s : Sending) (j : ℕ) → Served drops s → Served (more drops (ready j)) s
  unfolding more
  more-ready drops s j v = record {
    loaded = v.loaded;
    carried = v.carried;
    few = λ c. omega (arith, v.few c);
  }

  module _ (head : Case) (start : List Case) where
    apply_pick-Served :
        (drops : ℕ → ℕ) (p : Pick) (s t : Sending)
        → IsForeign head p
        → apply_pick p s ≡ some t
        → Balance head start s
        → Served drops s
        → Served (more drops p) t
    unfolding apply_pick
    apply_pick-Served drops (unsubscribes ch) s t own e b v =
        elim (Option-cases (find ch s.cases)) [
          | inl k ↦ ground arith
          | inr (i, k) ↦
              let (_, _, low) = find_foreign head start s ch i own k b in
              let (x, here, same, _) = find-some ch s.cases i k in
              elim (Bool-cases (ltb i s.n)) [
                | inl active ↦
                    let result : drop_active s i x ≡ t = ground arith in
                    subst (Served (more drops (unsubscribes ch))) result
                      (drop_active-Served drops s i ch x low same v)
                | inr served ↦
                    let result : drop_served s i ≡ t = ground arith in
                    subst (Served (more drops (unsubscribes ch))) result
                      (drop_served-Served drops s i ch low v)
              ]
        ]
    apply_pick-Served drops (ready j) s t own e b v =
        elim (Option-cases (get_elem? s.cases (suc j))) [
          | inl k ↦ ground arith
          | inr (x, k) ↦ elim (Bool-cases (ltb (suc j) s.n)) [
            | inr out ↦ ground arith
            | inl inside ↦
                let result : sent s (suc j) x ≡ t = ground arith in
                subst (Served (more drops (ready j))) result (
                  more-ready drops (sent s (suc j) x) j (
                    sent-Served drops s (suc j) x (omega arith) (ltb→lt _ _ inside)
                      (Loaded-get value s.cases j x v.loaded k) v))
          ]
        ]

    pub send_loop-Served :
        (drops : ℕ → ℕ) (rounds : List Round) (s t : Sending)
        → All (λ (r : Round). IsForeign head r.pick) rounds
        → send_loop rounds value s ≡ finished t
        → Balance head start s
        → Served drops s
        → Served (λ c. drops c + unsubscriptions c rounds) t
    unfolding send_loop unsubscriptions more
    send_loop-Served drops [] s t own e b v = absurd (cc e)
    send_loop-Served drops (r ∷ rs) s t own e b v =
        let u : Sending = try_all r.accepts (s.n - 1) 1 value s in
        let balanced : Balance head start u =
          try_all-Balance head start r.accepts (s.n - 1) 1 value s (omega arith)
            (omega (arith, b.positive)) b in
        let after : Served drops u =
          try_all-Served drops r.accepts (s.n - 1) 1 s (omega arith) (omega (arith, b.positive))
            v in
        elim (Bool-cases (u.n == 1)) [
          | inl all_sent ↦
              let result : u ≡ t = ground arith in
              let end : Served drops t = subst (Served drops) result after in
              record {
                loaded = end.loaded;
                carried = end.carried;
                few = λ c. omega (arith, end.few c);
              }
          | inr more_left ↦ elim (Option-cases (apply_pick r.pick u)) [
            | inl k ↦ ground arith
            | inr (w, k) ↦
                let end =
                  send_loop-Served (more drops r.pick) rs w t own.1 (ground arith)
                    (apply_pick-Balance head start r.pick u w own.0 k balanced)
                    (apply_pick-Served drops r.pick u w own.0 k balanced after) in
                record {
                  loaded = end.loaded;
                  carried = end.carried;
                  few = λ c. omega (arith, end.few c);
                }
          ]
        ]

  pub start-Served : (cs : List Case) → Served (λ c. 0) (start_sending value cs)
  unfolding start_sending set_values count
  start-Served [] = record { loaded = tt; carried = tt; few = λ c. omega arith }
  start-Served (x ∷ cs) = record { loaded = over cs; carried = tt; few = λ c. omega arith }
    where
      over :
          (ds : List Case)
          → All (Carries value) (map (λ (d : Case). record d { value = some value }) ds)
      over [] = tt
      over (d ∷ ds) = (refl, over ds)
