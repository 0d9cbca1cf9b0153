-- ===== src/Event/Feed/Progress.antt =====
-- Send ends: every wake-up of Select takes a case away.
use airfk.Shared.{
  ℕ, zero, suc, ◌+◌, ◌-◌, ◌≤◌, ◌<◌, ◌≡◌, refl, Bool, some, List, [], ◌∷◌, arith, ltb, ◌==◌, length,
  get_elem?, All, ltb→lt, Bool-cases, Option-cases, inl, inr, ◌≢◌,
}
use airfk.Event.Cases.{Case, find}
use mathlib.Core.Path.{subst}
use airfk.Event.Cases.Counts.{count-delete, get_in_range, length-deactivate}
use airfk.Event.Feed.{
  Round, Pick, unsubscribes, ready, Sending, sent, try_all, apply_pick, drop_active, drop_served,
  waiting, send_loop,
}
use airfk.Event.Feed.Delivery.{
  Balance, IsForeign, apply_pick-Balance, try_all-Balance, find_foreign, sent-Balance,
}

-- The cases that Send still holds, each counted once more while it is active.
abbrev pub work : Sending → ℕ
work s = length s.cases + s.n

sent-work :
    (s : Sending) (i : ℕ) (c x : Case)
    → get_elem? s.cases i ≡ some c
    → i < s.n
    → s.n ≤ length s.cases
    → suc (work (sent s i x)) ≡ work s
unfolding sent
sent-work s i c x here high bound =
    let (b, last) = get_in_range s.cases (s.n - 1) (omega arith) in
    omega (arith, length-deactivate s.cases s.n i c b here last high)

module _ (head : Case) (start : List Case) where
  try_all-work :
      (accepts : ℕ → Bool) (left i value : ℕ) (s : Sending)
      → 1 ≤ i
      → left + i ≤ s.n
      → Balance head start s
      → work (try_all accepts left i value s) ≤ work s
  unfolding try_all
  try_all-work accepts zero i value s low room v = omega arith
  try_all-work accepts (suc left) i value s low room v =
      let (c, here) = get_in_range s.cases i (omega (arith, v.bound)) in
      let x : Case = record c { value = some value } in
      let less : suc (work (sent s i x)) ≡ work s = sent-work s i c x here (omega arith) v.bound in
      let taken : work (try_all accepts left i value (sent s i x)) ≤ work (sent s i x) =
        try_all-work accepts left i value (sent s i x) low (unfold sent in omega arith)
          (sent-Balance head start s i c x here low (omega arith) refl v) in
      let kept = try_all-work accepts left (suc i) value s (omega arith) (omega arith) v in
      elim (Bool-cases (accepts left)) [
        | inl yes_taken ↦ rw (here, try_all) (rw yes_taken (omega (arith, taken, less)))
        | inr not_taken ↦ rw (here, try_all) (rw not_taken kept)
      ]

  apply_pick-work :
      (p : Pick) (s t : Sending)
      → IsForeign head p
      → apply_pick p s ≡ some t
      → Balance head start s
      → suc (work t) ≤ work s
  unfolding apply_pick drop_active drop_served
  apply_pick-work (unsubscribes ch) s t own e v = elim (Option-cases (find ch s.cases)) [
    | inl k ↦ ground arith
    | inr (i, k) ↦
        let (c, here, low) = find_foreign head start s ch i own k v in
        ground (arith, (count-delete 0 s.cases i c here).1)
  ]
  apply_pick-work (ready j) s t own e v = elim (Option-cases (get_elem? s.cases (suc j))) [
    | inl k ↦ ground arith
    | inr (c, k) ↦ elim (Bool-cases (ltb (suc j) s.n)) [
      | inr out ↦ ground arith
      | inl inside ↦
          let result : sent s (suc j) c ≡ t = ground arith in
          let less = sent-work s (suc j) c c k (ltb→lt _ _ inside) v.bound in
          subst (λ (x : Sending). suc (work x) ≤ work s) result (omega (arith, less))
    ]
  ]

  -- With more rounds than work, the loop does not wait for another one.
  pub send_loop-ne-waiting :
      (rounds : List Round) (value : ℕ) (s t : Sending)
      → All (λ (r : Round). IsForeign head r.pick) rounds
      → work s < length rounds
      → Balance head start s
      → send_loop rounds value s ≢ waiting t
  unfolding send_loop
  send_loop-ne-waiting [] value s t own room v e = absurd (omega arith)
  send_loop-ne-waiting (r ∷ rs) value s t own room v e =
      let u : Sending = try_all r.accepts (s.n - 1) 1 value s in
      let fill : s.n - 1 + 1 ≤ s.n = omega (arith, v.positive) in
      let after = try_all-Balance head start r.accepts (s.n - 1) 1 value s (omega arith) fill v in
      let less = try_all-work r.accepts (s.n - 1) 1 value s (omega arith) fill v in
      elim (Bool-cases (u.n == 1)) [
        | inl all_sent ↦ ground arith
        | inr more ↦ elim (Option-cases (apply_pick r.pick u)) [
          | inl k ↦ ground arith
          | inr (w, k) ↦
              let fewer = apply_pick-work r.pick u w own.0 k after in
              send_loop-ne-waiting rs value w t own.1 (omega (arith, less, fewer))
                (apply_pick-Balance head start r.pick u w own.0 k after) (ground arith)
        ]
      ]
