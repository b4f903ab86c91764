-- ===== src/Cmd/BuildLog/Follow.antt =====
-- FollowWorkspaceBuildLog and WaitForWorkspaceReady of coder-sdk/workspace.go: the goroutine that reads
-- the messages of a build log and sends them to trailBuildLogs on a channel without a buffer, and the
-- loop that waits for the end of a build.
pub mod Laws
use coder_cli.Prelude.{ℕ, zero, suc, ◌+◌, Bool, true, false, not, Option, none, some, if◌then◌else◌}
use coder_cli.Prelude.Texts.{Bytes}
use coder_cli.Cmd.BuildLog.{Log, start, substage, done, stage, error, unknown, broken}

-- The goroutine reads, waits for a receiver (and whether it returns then), or has returned, which
-- closes the socket and the channel.
pub data Producer : Type 0 where
  reading : Producer
  sending : Log → Bool → Producer
  returned : Producer

-- trailBuildLogs, as far as it takes messages.
pub data Consumer : Type 0 where
  receiving gone : Consumer

-- the messages after which trailBuildLogs returns
abbrev pub is_last : Log → Bool
is_last done = true
is_last broken = true
is_last (unknown kind) = true
is_last _ = false

abbrev pub taken : Log → Consumer
taken msg = if is_last msg then gone else receiving

abbrev pub after_send : Bool → Producer
after_send ends = if ends then returned else reading

-- A message that is read is sent; so is an error, after which the goroutine returns only if it is that
-- of the context.
pub data Step : Producer × Consumer → Producer × Consumer → Type 0 where
  reads : (msg : Log) (c : Consumer) → Step (reading, c) (sending msg false, c)
  read_fails : (of_context : Bool) (c : Consumer) → Step (reading, c) (sending broken of_context, c)
  hands_over :
      (msg : Log) (ends : Bool) → Step (sending msg ends, receiving) (after_send ends, taken msg)
  reads_closed : Step (returned, receiving) (returned, gone)

pub data Reach (s : Producer × Consumer) : Producer × Consumer → Type 0 where
  here : Reach s s
  next : {t u : Producer × Consumer} → Reach s t → Step t u → Reach s u

-- One read of WaitForWorkspaceReady: the type of a message, or an error.
pub data Read : Type 0 where
  done_type other_type read_error : Read

-- The loop over the reads from the `i`th on, cut off after some of them: whether it returns nil.
unfoldable pub wait_loop : (ℕ → Read) → ℕ → ℕ → Option Bool
wait_loop stream zero i = none
wait_loop stream (suc fuel) i =
    let rest = wait_loop stream fuel (i + 1) in
    elim (stream i) [ read_error ↦ some false | done_type ↦ some true | other_type ↦ rest ]

-- WaitForWorkspaceReady, after the socket is open
abbrev pub wait_for_workspace_ready : (ℕ → Read) → ℕ → Option Bool
wait_for_workspace_ready stream fuel = wait_loop stream fuel 0
