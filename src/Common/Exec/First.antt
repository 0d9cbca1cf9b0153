-- ===== src/Common/Exec/First.antt =====
-- The retries of pkg/common/cmd/exec.go.
use airfk.Shared.{
  ℕ, zero, suc, ◌≤◌, ◌≡◌, ◌≢◌, refl, ◌⊎◌, inl, inr, arith, none, Option-cases, List, [], ◌∷◌, Bytes,
  All,
}
use airfk.Shared.Int.{ℤ, pos, negsuc}
use airfk.Common.Exec.{
  Answer, Shell, rounds, no_answer, retry_loop, exec_cmdline, exec_cmdline_with_timeout,
  exec_cmdfile, exec_cmdfile_with_timeout, exec_cmd, exec_cmd_with_timeout, exec_cmd_file,
  exec_cmd_file_with_timeout,
}

module _ (sh : Shell) where
  open sh use {St}

  -- The answers of `k` runs one after the other, and the state after them.
  pub runs : (St → Answer × St) → ℕ → St → List Answer × St
  runs f zero s = ([], s)
  runs f (suc k) s = let (a, t) = f s in let (answers, u) = runs f k t in (a ∷ answers, u)

  abbrev pub IsFailed : Answer → Type 0
  IsFailed a = a.error ≢ none

  -- `k` runs failed, and the next one is the first that succeeds or the last that is allowed.
  abbrev pub FirstSuccess : (St → Answer × St) → ℕ → St → Answer × St → Type 0
  FirstSuccess f zero s r = r ≡ (record { result = []; error = none }, s)
  FirstSuccess f (suc n) s r =
      (k : ℕ) × (k ≤ n)
      × All IsFailed (runs f k s).0
      × (r ≡ f (runs f k s).1)
      × ((r.0.error ≡ none) ⊎ (k ≡ n))

  retry_loop_of_success :
      (f : St → Answer × St) (n : ℕ) (a : Answer) (s : St)
      → (f s).0.error ≡ none
      → retry_loop sh f (suc n) a s ≡ f s
  unfolding retry_loop
  retry_loop_of_success f n a s e = ground arith

  retry_loop_of_failure :
      (f : St → Answer × St) (n : ℕ) (a : Answer) (s : St)
      → (f s).0.error ≢ none
      → retry_loop sh f (suc n) a s ≡ retry_loop sh f n (f s).0 (f s).1
  unfolding retry_loop
  retry_loop_of_failure f n a s e = ground arith

  FirstSuccess-after :
      (f : St → Answer × St) (n : ℕ) (s : St) (r : Answer × St)
      → (f s).0.error ≢ none
      → FirstSuccess f (suc n) (f s).1 r
      → FirstSuccess f (suc (suc n)) s r
  unfolding runs
  FirstSuccess-after f n s r failed (k, le, all, e, stop) =
      (suc k, omega arith, (failed, all), e, ground arith)

  first-FirstSuccess :
      (f : St → Answer × St) (n : ℕ) (a : Answer) (s : St)
      → (f s).0.error ≡ none
      → FirstSuccess f (suc n) s (retry_loop sh f (suc n) a s)
  unfolding runs
  first-FirstSuccess f n a s e =
      let stopped = retry_loop_of_success f n a s e in
      (0, omega arith, tt, stopped, inl (rw stopped e))

  retry_loop-FirstSuccess :
      (f : St → Answer × St) (n : ℕ) (a : Answer) (s : St)
      → FirstSuccess f (suc n) s (retry_loop sh f (suc n) a s)
  unfolding runs retry_loop
  retry_loop-FirstSuccess f zero a s = elim (Option-cases (f s).0.error) [
    | inl e ↦ first-FirstSuccess f 0 a s e
    | inr (m, e) ↦ (0, omega arith, tt, retry_loop_of_failure f 0 a s (λ h. cc), inr refl)
  ]
  retry_loop-FirstSuccess f (suc n) a s =
      let ih = retry_loop-FirstSuccess f n (f s).0 (f s).1 in
      elim (Option-cases (f s).0.error) [
        | inl e ↦ first-FirstSuccess f (suc n) a s e
        | inr (m, e) ↦
            let failed : (f s).0.error ≢ none = λ h. cc in
            rw (retry_loop_of_failure f (suc n) a s failed) (FirstSuccess-after f n s _ failed ih)
      ]

  abbrev pub Retried : (St → Answer × St) → ℤ → St → Answer × St → Type 0
  Retried f (pos n) = FirstSuccess f n
  Retried f (negsuc n) = FirstSuccess f 0

  retry_loop-Retried :
      (f : St → Answer × St) (retry : ℤ) (s : St)
      → Retried f retry s (retry_loop sh f (rounds retry) no_answer s)
  unfolding rounds retry_loop
  retry_loop-Retried f (pos zero) s = refl
  retry_loop-Retried f (pos (suc n)) s = retry_loop-FirstSuccess f n no_answer s
  retry_loop-Retried f (negsuc n) s = refl

  -- Each of the four functions runs its command until it succeeds for the first time, and at most
  -- retry times, and returns what its last run returned; if retry is not positive then it runs
  -- nothing and returns no result and no error.
  pub exec_cmd-Retried :
      (c : Bytes) (retry timeout : ℤ) (s : St)
      → Retried (exec_cmdline sh c) retry s (exec_cmd sh c retry s)
        × Retried
            (exec_cmdline_with_timeout sh c timeout)
            retry
            s
            (exec_cmd_with_timeout sh c retry timeout s)
        × Retried (exec_cmdfile sh c) retry s (exec_cmd_file sh c retry s)
        × Retried
            (exec_cmdfile_with_timeout sh c timeout)
            retry
            s
            (exec_cmd_file_with_timeout sh c retry timeout s)
  unfolding exec_cmd exec_cmd_with_timeout exec_cmd_file exec_cmd_file_with_timeout
  exec_cmd-Retried c retry timeout s = (
    retry_loop-Retried (exec_cmdline sh c) retry s,
    retry_loop-Retried (exec_cmdline_with_timeout sh c timeout) retry s,
    retry_loop-Retried (exec_cmdfile sh c) retry s,
    retry_loop-Retried (exec_cmdfile_with_timeout sh c timeout) retry s,
  )
