-- ===== src/Common/Exec.antt =====
-- pkg/common/cmd/exec.go. os/exec and the processes that it runs are a parameter.
pub mod First
use airfk.Shared.{ℕ, zero, suc, Option, none, some, List, [], ◌∷◌, Bytes, codes}
use airfk.Shared.Int.{ℤ, pos, negsuc}

-- What a command printed, and its error.
pub record Answer : Type 0 where
  pub result : Bytes
  pub error : Option Bytes

-- CombinedOutput of a program with arguments, killed after some seconds if there is a timeout.
pub record Shell : Type 1 where
  pub St : Type 0
  pub combined_output : Bytes → List Bytes → Option ℤ → St → Answer × St

-- The rounds of `for i := 0; i < retry; i++`.
unfoldable pub rounds : ℤ → ℕ
rounds (pos n) = n
rounds (negsuc n) = 0

abbrev pub no_answer : Answer
no_answer = record { result = []; error = none }

module _ (sh : Shell) where
  open sh use {St, combined_output}

  unfoldable pub exec_cmdline : Bytes → St → Answer × St
  exec_cmdline c s =
      let (a, t) = combined_output (codes "/bin/sh") (codes "-c" ∷ c ∷ []) none s in
      elim a.error [ none ↦ (a, t) | some e ↦ (record { result = []; error = some e }, t) ]

  unfoldable pub exec_cmdline_with_timeout : Bytes → ℤ → St → Answer × St
  exec_cmdline_with_timeout c timeout s =
      combined_output (codes "/bin/sh") (codes "-c" ∷ c ∷ []) (some timeout) s

  unfoldable pub exec_cmdfile : Bytes → St → Answer × St
  exec_cmdfile file s = combined_output (codes "/bin/sh") (file ∷ []) none s

  unfoldable pub exec_cmdfile_with_timeout : Bytes → ℤ → St → Answer × St
  exec_cmdfile_with_timeout file timeout s =
      combined_output (codes "/bin/sh") (file ∷ []) (some timeout) s

  -- The loop that the four functions have: on the last answer, until one has no error.
  unfoldable pub retry_loop : (St → Answer × St) → ℕ → Answer → St → Answer × St
  retry_loop f zero a s = (a, s)
  retry_loop f (suc n) _ s =
      let (a, t) = f s in
      let rest = retry_loop f n a t in elim a.error [ none ↦ (a, t) | some e ↦ rest ]

  unfoldable pub exec_cmd : Bytes → ℤ → St → Answer × St
  unfolding rounds retry_loop exec_cmdline
  exec_cmd c retry s = retry_loop (exec_cmdline c) (rounds retry) no_answer s

  unfoldable pub exec_cmd_with_timeout : Bytes → ℤ → ℤ → St → Answer × St
  unfolding rounds retry_loop exec_cmdline_with_timeout
  exec_cmd_with_timeout c retry timeout s =
      retry_loop (exec_cmdline_with_timeout c timeout) (rounds retry) no_answer s

  unfoldable pub exec_cmd_file : Bytes → ℤ → St → Answer × St
  unfolding rounds retry_loop exec_cmdfile
  exec_cmd_file c retry s = retry_loop (exec_cmdfile c) (rounds retry) no_answer s

  unfoldable pub exec_cmd_file_with_timeout : Bytes → ℤ → ℤ → St → Answer × St
  unfolding rounds retry_loop exec_cmdfile_with_timeout
  exec_cmd_file_with_timeout c retry timeout s =
      retry_loop (exec_cmdfile_with_timeout c timeout) (rounds retry) no_answer s
