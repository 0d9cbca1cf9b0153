-- ===== src/Common/Reboot.antt =====
-- pkg/common/cmd/reboot.go. os/exec is a parameter: Start of a program with arguments, and Wait.
use airfk.Shared.{Option, none, some, List, [], ◌∷◌, Bytes, codes, length, ◌==◌, if◌then◌else◌}

module _ {S : Type 0} (start : Bytes → List Bytes → S → Option Bytes × S)
    (wait : S → Option Bytes × S) where
  unfoldable pub wait_started : Option Bytes × S → Option Bytes × S
  wait_started (some e, t) = (some e, t)
  wait_started (none, t) = wait t

  -- The channel hands on the first of the values that the goroutine sends, which is what Wait returned.
  unfoldable pub exec_with_wait : Bytes → Bytes → S → Option Bytes × S
  unfolding wait_started
  exec_with_wait cmdfile conf s = wait_started (
      if length conf == 0
      then start (codes "sh") (codes "-c" ∷ cmdfile ∷ []) s
      else start cmdfile (codes "-c" ∷ conf ∷ []) s)
