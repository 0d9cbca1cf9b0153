-- ===== src/Zoo/World.antt =====
-- What the generator asks of the operating system and of text/template, go/format and path/filepath.
use airfk.Shared.{Bool, Option, List, Bytes}
use airfk.Shared.Result.{Result}

-- The calls, with what they are given. `execute_to` lets a template write to an open file, `output`
-- runs a program without arguments, and `plain_clone` clones to a place from a URL.
pub data Call : Type 0 where
  parse_files create mkdir mkdir_all remove_all stat : Bytes → Call
  write execute_to : Bytes → Bytes → Call
  output : Bytes → Call
  combined_output : Bytes → List Bytes → Call
  plain_clone : Bytes → Bytes → Call

-- The calls made so far, the last one at the end.
abbrev pub Log : Type 0
Log = List Call

-- `answers l c` is the error of the call `c` after the calls `l`, if it fails. Closing a file changes
-- no later answer, and templates stay as they are during a run. `template_text` is what
-- ParseFiles reads at a path, and `execute` what a template makes of a project in a buffer.
pub record World (P : Type 0) : Type 0 where
  pub answers : Log → Call → Option Bytes
  pub template_text : Bytes → Bytes
  pub execute : Bytes → P → Result Bytes Bytes
  pub format_source : Bytes → Result Bytes Bytes
  pub path_join : List Bytes → Bytes
  pub is_not_exist : Bytes → Bool
  pub gopath : Bytes
  pub getwd : Result Bytes Bytes
