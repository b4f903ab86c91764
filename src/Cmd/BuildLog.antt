-- ===== src/Cmd/BuildLog.antt =====
-- trailBuildLogs of internal/cmd/rebuild.go: what is printed while a build log is followed.
--
-- The spinner is its suffix and its final message; it prints the final message when it is stopped.
-- `lines` are the lines that stay on the screen. A log's message comes with its time in front.
-- color.RedString is a parameter. The verbose flag has no effect on what is printed.
pub mod Laws
pub mod Follow
use coder_cli.Prelude.{
  ℕ, Bool, true, false, not, Option, none, some, List, [], ◌∷◌, ◌++◌, length, drop, if◌then◌else◌,
}
use coder_cli.Prelude.Texts.{Bytes, codes, has_prefix}

-- A message of the log's channel: its type with its text, or an error.
pub data Log : Type 0 where
  start substage done : Log
  stage error unknown : Bytes → Log
  broken : Log

pub record Spinner : Type 0 where
  pub suffix : Bytes
  pub final_msg : Bytes

pub record Trail : Type 0 where
  pub spinner : Option Spinner
  pub lines : List Bytes

-- How the function returns; `closed` is nil too, when the channel closes without `done`.
pub data Outcome : Type 0 where
  finished closed read_failed : Outcome
  unknown_type : Bytes → Outcome

abbrev pub check_mark : Bytes
check_mark = 226 ∷ 156 ∷ 133 ∷ []

abbrev pub failure_mark : Bytes
failure_mark = 226 ∷ 157 ∷ 140 ∷ []

-- strings.TrimPrefix
abbrev pub trim_text : Bytes → Bytes → Bytes
trim_text prefix s = if has_prefix s prefix then drop (length prefix) s else s

-- `if s != nil`: Stop, and the end of the line
abbrev pub stop_spinner : Trail → Trail
stop_spinner t = elim (t.spinner) [
  | none ↦ t
  | some s ↦ record t { lines = t.lines ++ s.final_msg ∷ [] }
]

-- the same with the final message set before
abbrev pub fail_spinner : Trail → Trail
fail_spinner t = elim (t.spinner) [
  | none ↦ t
  | some s ↦ record t {
    lines = t.lines ++ (failure_mark ++ (codes " " ++ trim_text (codes "  ") s.suffix)) ∷ [];
  }
]

module _ (red : Bytes → Bytes) (terminal : Bool) where
  abbrev pub stage_spinner : Bytes → Spinner
  stage_spinner msg = record {
    suffix = codes "  -- " ++ msg;
    final_msg = check_mark ++ (codes " -- " ++ msg);
  }

  abbrev pub error_spinner : Bytes → Spinner
  error_spinner msg = record {
    suffix = red (codes "  -- " ++ msg);
    final_msg = red (failure_mark ++ (codes " -- " ++ msg));
  }

  on_stage : Bytes → Trail → Trail
  on_stage msg t =
      if not terminal
      then record t { lines = t.lines ++ msg ∷ [] }
      else record (stop_spinner t) { spinner = some (stage_spinner msg) }

  on_error : Bytes → Trail → Trail
  on_error msg t =
      if not terminal
      then record t { lines = t.lines ++ msg ∷ [] }
      else record (fail_spinner t) { spinner = some (error_spinner msg) }

  -- trailBuildLogs, from the loop on
  unfoldable pub trail_build_logs : List Log → Trail → Trail × Outcome
  unfolding on_stage on_error
  trail_build_logs [] t = (t, closed)
  trail_build_logs (start ∷ ls) t = trail_build_logs ls t
  trail_build_logs (substage ∷ ls) t = trail_build_logs ls t
  trail_build_logs (stage msg ∷ ls) t = trail_build_logs ls (on_stage msg t)
  trail_build_logs (error msg ∷ ls) t = trail_build_logs ls (on_error msg t)
  trail_build_logs (done ∷ ls) t = (stop_spinner t, finished)
  trail_build_logs (unknown kind ∷ ls) t = (t, unknown_type kind)
  trail_build_logs (broken ∷ ls) t = (t, read_failed)
