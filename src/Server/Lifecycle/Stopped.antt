-- ===== src/Server/Lifecycle/Stopped.antt =====
-- What holds of the codecs of a server after Stop (pkg/server/server.go) has begun.
use airfk.Shared.{
  ℕ, ◌+◌, ◌≡◌, refl, true, false, List, [], ◌∷◌, ◌++◌, arith, ◌==◌, All, ◌≢◌, Bool-cases, inl, inr,
}
use mathlib.Core.Path.{subst}
use airfk.Server.Lifecycle.{
  Lifecycle, remove, member, admit, leave, close_codec, stop_begin, sweep, Step, admitting, leaving,
  closing, stopping, sweeping, Reach, start, later,
}

abbrev pub AllClosed : List ℕ → List ℕ → Type 0
AllClosed closed = All (λ c. member c closed ≡ true)

AllClosed-cons : (c : ℕ) (closed cs : List ℕ) → AllClosed closed cs → AllClosed (c ∷ closed) cs
unfolding member
AllClosed-cons c closed [] h = tt
AllClosed-cons c closed (d ∷ cs) h = (ground (arith, h.0), AllClosed-cons c closed cs h.1)

AllClosed-remove :
    (c : ℕ) (closed cs : List ℕ) → AllClosed closed cs → AllClosed closed (remove c cs)
unfolding remove
AllClosed-remove c closed [] h = tt
AllClosed-remove c closed (d ∷ cs) h = elim (Bool-cases (d == c)) [
  | inl same ↦ rw same (AllClosed-remove c closed cs h.1)
  | inr other ↦ rw other (h.0, AllClosed-remove c closed cs h.1)
]

member-append : (c : ℕ) (xs ys : List ℕ) → member c xs ≡ true → member c (xs ++ ys) ≡ true
unfolding member
member-append c [] ys h = absurd (ground arith)
member-append c (x ∷ xs) ys h = ground (arith, member-append c xs ys)

AllClosed-self :
    (xs zs : List ℕ) → ((c : ℕ) → member c xs ≡ true → member c zs ≡ true) → AllClosed zs xs
unfolding member
AllClosed-self [] zs h = tt
AllClosed-self (x ∷ xs) zs h =
    (h x (ground arith), AllClosed-self xs zs (λ c k. h c (ground (arith, k))))

-- While Run is set, no Stop waits and none has swept; then one waits, or has swept and every codec
-- of the set is closed.
pub data Phase (s : Lifecycle) : Type 0 where
  running : s.run ≡ true → s.sweeps ≡ 0 → s.swept ≡ false → Phase s
  waiting : s.run ≡ false → s.sweeps ≡ 1 → s.swept ≡ false → Phase s
  stopped : s.run ≡ false → s.sweeps ≡ 0 → s.swept ≡ true → AllClosed s.closed s.codecs → Phase s

Step-Phase : {s t : Lifecycle} → Step s t → Phase s → Phase t
unfolding admit leave close_codec stop_begin sweep
Step-Phase (admitting c) (running r w p) = rw r (running refl w p)
Step-Phase (admitting c) (waiting r w p) = rw r (waiting refl w p)
Step-Phase (admitting c) (stopped r w p all) = rw r (stopped refl w p all)
Step-Phase (leaving c) (running r w p) = running r w p
Step-Phase (leaving c) (waiting r w p) = waiting r w p
Step-Phase {s} (leaving c) (stopped r w p all) =
    stopped r w p (AllClosed-remove c s.closed s.codecs all)
Step-Phase (closing c) (running r w p) = running r w p
Step-Phase (closing c) (waiting r w p) = waiting r w p
Step-Phase {s} (closing c) (stopped r w p all) =
    stopped r w p (AllClosed-cons c s.closed s.codecs all)
Step-Phase {s} stopping (running r w p) = rw r (waiting refl (omega (arith, w)) p)
Step-Phase stopping (waiting r w p) = rw r (waiting refl w p)
Step-Phase stopping (stopped r w p all) = rw r (stopped refl w p all)
Step-Phase (sweeping some_wait) (running r w p) = absurd (some_wait w)
Step-Phase {s} (sweeping some_wait) (waiting r w p) =
    stopped r (omega (arith, w)) refl
      (AllClosed-self s.codecs (s.codecs ++ s.closed) (λ c. member-append c s.codecs s.closed))
Step-Phase (sweeping some_wait) (stopped r w p all) = absurd (some_wait w)

-- In every history of a server, at most one call of Stop closes codecs, and after it did every
-- codec that the server still serves is closed, whatever requests were accepted meanwhile.
pub Reach-Phase : {s : Lifecycle} → Reach s → Phase s
Reach-Phase start = running refl refl refl
Reach-Phase (later r st) = Step-Phase st (Reach-Phase r)

-- What the steps of Stop alone lead to: setting Run to 0, and closing the codecs, which follows only
-- where a call waits with it.
pub data StopSteps (s : Lifecycle) : Lifecycle → Type 0 where
  not_yet : StopSteps s s
  begins : {t : Lifecycle} → StopSteps s t → StopSteps s (stop_begin t)
  sweeps_on : {t : Lifecycle} → StopSteps s t → t.sweeps ≢ 0 → StopSteps s (sweep t)

swept_codecs : (s : Lifecycle) → AllClosed (s.codecs ++ s.closed) s.codecs
swept_codecs s =
    AllClosed-self s.codecs (s.codecs ++ s.closed) (λ c. member-append c s.codecs s.closed)

-- Wherever a history of a server has led, a Stop can run to its end from there: by the two steps of
-- Stop alone, setting Run to 0 and closing the codecs of the set, it reaches a state in which the
-- server is stopped and every codec that it served is closed.
pub Stop-closes :
    {s : Lifecycle}
    → Reach s
    → (t : Lifecycle) × StopSteps s t
      × (t.run ≡ false)
      × (t.swept ≡ true)
      × AllClosed t.closed s.codecs
unfolding stop_begin sweep
Stop-closes {s} r = elim (Reach-Phase r) [
  | running on none_waits none_swept ↦
      let stopping_s : Lifecycle = record s { run = false; sweeps = s.sweeps + 1 } in
      let begun : stop_begin s ≡ stopping_s = rw on refl in
      (
        sweep stopping_s,
        sweeps_on (subst (StopSteps s) begun (begins not_yet)) (omega arith),
        refl,
        refl,
        swept_codecs s,
      )
  | waiting off one_waits none_swept ↦
      (sweep s, sweeps_on not_yet (omega (arith, one_waits)), off, refl, swept_codecs s)
  | stopped off none_waits swept all ↦ (s, not_yet, off, swept, all)
]
