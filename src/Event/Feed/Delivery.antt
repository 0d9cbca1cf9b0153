-- ===== src/Event/Feed/Delivery.antt =====
-- Send's loop keeps account of every channel: the cases still to be served, the sends made and the
-- cases taken out make up what the loop began with.
use airfk.Shared.{
  ℕ, zero, suc, ◌+◌, ◌-◌, ◌≤◌, ◌<◌, ◌≡◌, refl, ap, sym, ◌∙◌, Bool, some, List, [], ◌∷◌, arith, ltb,
  ◌==◌, length, get_elem?, take, All, length-append, ltb→lt, Bool-cases, Option-cases, inl, inr,
  ◌≢◌,
}
use mathlib.Core.Path.{subst}
use mathlib.Core.Option.{some-injective}
use airfk.Event.Cases.{Case, find, count}
use airfk.Event.Cases.Counts.{
  count-append, count-one, get_in_range, get_range, find-some, count-deactivate_prefix,
  length-deactivate, count-delete, count-take-delete, take-delete_beyond,
}
use airfk.Event.Cases.Kept.{get_deactivate_head, get_delete_head}
use airfk.Event.Feed.{
  Round, Pick, unsubscribes, ready, Sending, sent, try_all, apply_pick, drop_active, drop_served,
  finished, send_loop,
}

-- `head` is the case of removeSub, which stays in front.
pub record Balance (head : Case) (start : List Case) (s : Sending) : Type 0 where
  pub counts :
      (c : ℕ) → count c (take s.n s.cases) + count c s.delivered + count c s.dropped ≡ count c start
  pub bound : s.n ≤ length s.cases
  pub positive : 1 ≤ s.n
  pub tally : s.nsent ≡ length s.delivered
  pub front : get_elem? s.cases 0 ≡ some head

-- Nobody but the feed holds removeSub.
abbrev pub IsForeign : Case → Pick → Type 0
IsForeign head (unsubscribes ch) = ch ≢ head.chan
IsForeign head (ready j) = Unit {0}

module _ (head : Case) (start : List Case) where
  pub sent-Balance :
      (s : Sending) (i : ℕ) (c x : Case)
      → get_elem? s.cases i ≡ some c
      → 1 ≤ i
      → i < s.n
      → x.chan ≡ c.chan
      → Balance head start s
      → Balance head start (sent s i x)
  unfolding sent
  sent-Balance s i c x here low high same v =
      let (b, last) = get_in_range s.cases (s.n - 1) (omega (arith, v.bound)) in
      record {
        counts = λ k. omega (
          arith,
          count-deactivate_prefix s.cases s.n i c b here last high k,
          v.counts k,
          count-append k s.delivered (x ∷ []),
          count-one k x c same,
        );
        bound = omega (arith, v.bound, length-deactivate s.cases s.n i c b here last high);
        positive = omega arith;
        tally = omega (arith, v.tally, length-append s.delivered (x ∷ []));
        front = get_deactivate_head s.cases s.n i low (omega arith) ∙ v.front;
      }

  pub try_all-Balance :
      (accepts : ℕ → Bool) (left i value : ℕ) (s : Sending)
      → 1 ≤ i
      → left + i ≤ s.n
      → Balance head start s
      → Balance head start (try_all accepts left i value s)
  unfolding try_all
  try_all-Balance accepts zero i value s low room v = v
  try_all-Balance accepts (suc left) i value s low room v =
      let (c, here) = get_in_range s.cases i (omega (arith, v.bound)) in
      let x : Case = record c { value = some value } in
      let taken =
        try_all-Balance accepts left i value (sent s i x) low (unfold sent in omega arith)
          (sent-Balance s i c x here low (omega arith) refl v) in
      let kept = try_all-Balance accepts left (suc i) value s (omega arith) (omega arith) v in
      elim (Bool-cases (accepts left)) [
        | inl yes_taken ↦ rw (here, try_all) (rw yes_taken taken)
        | inr not_taken ↦ rw (here, try_all) (rw not_taken kept)
      ]

  drop_active-Balance :
      (s : Sending) (i : ℕ) (c : Case)
      → get_elem? s.cases i ≡ some c
      → 1 ≤ i
      → i < s.n
      → Balance head start s
      → Balance head start (drop_active s i c)
  unfolding drop_active
  drop_active-Balance s i c here low high v = record {
    counts = λ k. omega (
      arith,
      count-take-delete k s.cases i s.n c here high,
      v.counts k,
      count-append k s.dropped (c ∷ []),
      count-one k c c refl,
    );
    bound = omega (arith, v.bound, (count-delete 0 s.cases i c here).1);
    positive = omega arith;
    tally = v.tally;
    front = get_delete_head s.cases i low ∙ v.front;
  }

  drop_served-Balance :
      (s : Sending) (i : ℕ) (c : Case)
      → get_elem? s.cases i ≡ some c
      → 1 ≤ i
      → s.n ≤ i
      → Balance head start s
      → Balance head start (drop_served s i)
  unfolding drop_served
  drop_served-Balance s i c here low high v = record {
    counts = λ k. rw (take-delete_beyond s.cases i s.n high) (v.counts k);
    bound = omega (arith, get_range s.cases i c here, (count-delete 0 s.cases i c here).1);
    positive = v.positive;
    tally = v.tally;
    front = get_delete_head s.cases i low ∙ v.front;
  }

  pub find_foreign :
      (s : Sending) (ch i : ℕ)
      → ch ≢ head.chan
      → find ch s.cases ≡ some i
      → Balance head start s
      → (c : Case) × (get_elem? s.cases i ≡ some c) × (1 ≤ i)
  find_foreign s ch zero own e v =
      let (c, here, same, _) = find-some ch s.cases 0 e in
      absurd
        (own (sym same ∙ ap (λ (x : Case). x.chan) (some-injective c head (sym here ∙ v.front))))
  find_foreign s ch (suc i) own e v =
      let (c, here, _, _) = find-some ch s.cases (suc i) e in (c, here, omega arith)

  pub apply_pick-Balance :
      (p : Pick) (s t : Sending)
      → IsForeign head p
      → apply_pick p s ≡ some t
      → Balance head start s
      → Balance head start t
  unfolding apply_pick
  apply_pick-Balance (unsubscribes ch) s t own e v = elim (Option-cases (find ch s.cases)) [
    | inl k ↦ ground arith
    | inr (i, k) ↦
        let (c, here, low) = find_foreign s ch i own k v in
        elim (Bool-cases (ltb i s.n)) [
          | inl active ↦
              let result : drop_active s i c ≡ t = ground arith in
              subst (Balance head start) result
                (drop_active-Balance s i c here low (ltb→lt _ _ active) v)
          | inr served ↦
              let result : drop_served s i ≡ t = ground arith in
              let beyond : s.n ≤ i = ground arith in
              subst (Balance head start) result (drop_served-Balance s i c here low beyond v)
        ]
  ]
  apply_pick-Balance (ready j) s t own e v = elim (Option-cases (get_elem? s.cases (suc j))) [
    | inl k ↦ ground arith
    | inr (c, k) ↦ elim (Bool-cases (ltb (suc j) s.n)) [
      | inr out ↦ ground arith
      | inl inside ↦
          let result : sent s (suc j) c ≡ t = ground arith in
          subst (Balance head start) result
            (sent-Balance s (suc j) c c k (omega arith) (ltb→lt _ _ inside) refl v)
    ]
  ]

  pub send_loop-Balance :
      (rounds : List Round) (value : ℕ) (s t : Sending)
      → All (λ (r : Round). IsForeign head r.pick) rounds
      → send_loop rounds value s ≡ finished t
      → Balance head start s
      → Balance head start t × (t.n ≡ 1)
  unfolding send_loop
  send_loop-Balance [] value s t own e v = absurd (cc e)
  send_loop-Balance (r ∷ rs) value s t own e v =
      let u : Sending = try_all r.accepts (s.n - 1) 1 value s in
      let after : Balance head start u =
        try_all-Balance r.accepts (s.n - 1) 1 value s (omega arith) (omega (arith, v.positive)) v in
      elim (Bool-cases (u.n == 1)) [
        | inl all_sent ↦
            let result : u ≡ t = ground arith in
            (subst (Balance head start) result after, rw (← result) (ground arith))
        | inr more ↦ elim (Option-cases (apply_pick r.pick u)) [
          | inl k ↦ ground arith
          | inr (w, k) ↦
              send_loop-Balance rs value w t own.1 (ground arith)
                (apply_pick-Balance r.pick u w own.0 k after)
        ]
      ]
