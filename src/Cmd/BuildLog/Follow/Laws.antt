-- ===== src/Cmd/BuildLog/Follow/Laws.antt =====
-- When the goroutine and the loop end.
use coder_cli.Prelude.{◌≡◌, ◌≢◌, refl, ℕ, zero, suc, ◌+◌, ◌<◌, true, false, some, arith, subst}
use coder_cli.Cmd.BuildLog.{done}
use coder_cli.Cmd.BuildLog.Follow.{
  Producer, reading, sending, returned, Consumer, gone, taken, after_send, Step, reads, read_fails,
  hands_over, reads_closed, Reach, here, next, Read, done_type, other_type, read_error, wait_loop,
  wait_for_workspace_ready,
}

-- Nobody receives, and the goroutine has not returned.
abbrev pub IsStuck : Producer × Consumer → Type 0
IsStuck (returned, c) = ⊥
IsStuck (reading, c) = c ≡ gone
IsStuck (sending msg ends, c) = c ≡ gone

Step-IsStuck : {s t : Producer × Consumer} → Step s t → IsStuck s → IsStuck t
Step-IsStuck (reads msg c) h = h
Step-IsStuck (read_fails b c) h = h
Step-IsStuck (hands_over msg ends) h = absurd cc
Step-IsStuck reads_closed h = h

Reach-IsStuck : {s t : Producer × Consumer} → IsStuck s → Reach s t → IsStuck t
Reach-IsStuck h here = h
Reach-IsStuck h (next r k) = Step-IsStuck k (Reach-IsStuck h r)

-- Once trailBuildLogs has returned because the build is done, the goroutine that follows the build log
-- never returns, whatever it still reads: it does not close its socket.
pub follow-never_returns :
    (t : Producer × Consumer) → Reach (after_send false, taken done) t → t.0 ≢ returned
follow-never_returns t r e = go t.0 t.1 (Reach-IsStuck refl r) e
  where
    go : (p : Producer) (c : Consumer) → IsStuck (p, c) → p ≡ returned → ⊥
    go returned c h q = h
    go reading c h q = cc
    go (sending msg ends) c h q = cc

read_at : (stream : ℕ → Read) (r : Read) (i j : ℕ) → i ≡ j → stream i ≡ r → stream j ≡ r
read_at stream r i j e h = subst (λ n. stream n ≡ r) e h

wait_loop-ends :
    (stream : ℕ → Read) (fuel k i : ℕ)
    → k < fuel
    → ((j : ℕ) → j < k → stream (i + j) ≡ other_type)
    → (stream (i + k) ≡ done_type → wait_loop stream fuel i ≡ some true)
      × (stream (i + k) ≡ read_error → wait_loop stream fuel i ≡ some false)
unfolding wait_loop
wait_loop-ends stream zero k i h o = absurd (omega arith)
wait_loop-ends stream (suc fuel) zero i h o = (
  λ e. rw (wait_loop, read_at stream done_type (i + 0) i (omega arith) e) refl,
  λ e. rw (wait_loop, read_at stream read_error (i + 0) i (omega arith) e) refl,
)
wait_loop-ends stream (suc fuel) (suc k) i h o =
    let first = read_at stream other_type (i + 0) i (omega arith) (o 0 (omega arith)) in
    let later : (j : ℕ) → j < k → stream (i + 1 + j) ≡ other_type = λ j l.
      read_at stream other_type (i + suc j) (i + 1 + j) (omega arith) (o (suc j) (omega arith)) in
    let (f, g) = wait_loop-ends stream fuel k (i + 1) (omega arith) later in
    (
      λ e.
          rw (wait_loop, first)
            (f (read_at stream done_type (i + suc k) (i + 1 + k) (omega arith) e)),
      λ e.
          rw (wait_loop, first)
            (g (read_at stream read_error (i + suc k) (i + 1 + k) (omega arith) e)),
    )

-- Waiting for a workspace ends at the first message of type done or the first read that fails, once
-- the loop may read that far: with nil for the one, with an error for the other.
pub wait_for_workspace_ready-ends :
    (stream : ℕ → Read) (k fuel : ℕ)
    → k < fuel
    → ((j : ℕ) → j < k → stream j ≡ other_type)
    → (stream k ≡ done_type → wait_for_workspace_ready stream fuel ≡ some true)
      × (stream k ≡ read_error → wait_for_workspace_ready stream fuel ≡ some false)
wait_for_workspace_ready-ends stream k fuel h o =
    let (f, g) =
      wait_loop-ends stream fuel k 0 h
        (λ j l. read_at stream other_type j (0 + j) (omega arith) (o j l)) in
    (
      λ e. f (read_at stream done_type k (0 + k) (omega arith) e),
      λ e. g (read_at stream read_error k (0 + k) (omega arith) e),
    )
