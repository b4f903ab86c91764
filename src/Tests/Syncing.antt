-- ===== src/Tests/Syncing.antt =====
-- Inputs for the synchronization of files (internal/sync).
use coder_cli.Prelude.{
  some, none, ◌≡◌, refl, ◌≤◌, true, ℕ_discrete, none, List, [], ◌∷◌, ◌++◌, All, length,
}
use coder_cli.Prelude.Texts.{Bytes, codes, Bytes-discrete}
use coder_cli.Prelude.Dict.{Dict, lookup}
use coder_cli.Sync.EventCache.{TimedEvent, create, remove, write, Stat, file, missing, add_all}
use coder_cli.Sync.EventCache.Laws.{settle_all, lookup-add_all}
use coder_cli.Sync.Work.{World, code, work}
use coder_cli.Sync.Work.Laws.{ActsOn, is_handled, work-ActsOn}
use coder_cli.Sync.Run.{Input, reported, taken, tick, new_loop, is_running}
use coder_cli.Sync.Run.Laws.{held, run-held}
use coder_cli.Sync.Run

abbrev made : TimedEvent
made = record { created_at = 1; path = codes "a"; event = create }

abbrev gone : TimedEvent
gone = record { created_at = 2; path = codes "a"; event = remove }

abbrev changed : TimedEvent
changed = record { created_at = 3; path = codes "b"; event = write }

-- A creation and a removal cancel.
lookup-add_all_example :
    lookup (codes "a") (add_all (made ∷ changed ∷ gone ∷ []) [])
    ≡ settle_all (codes "a") none (made ∷ changed ∷ gone ∷ [])
lookup-add_all_example = lookup-add_all (codes "a") (made ∷ changed ∷ gone ∷ [])

nothing_left : settle_all (codes "a") none (made ∷ changed ∷ gone ∷ []) ≡ none
unfolding Bytes-discrete ℕ_discrete
nothing_left = refl

abbrev two_paths : Dict TimedEvent
two_paths = (codes "a", made) ∷ (codes "b", changed) ∷ []

abbrev all_files : Bytes → Stat
all_files path = file

abbrev no_files : Bytes → Stat
no_files path = missing

abbrev inputs : List Input
inputs = reported made ∷ reported changed ∷ taken ∷ tick 100 ∷ taken ∷ reported gone ∷ []

still_running : is_running (Run.run inputs new_loop).status ≡ true
unfolding Run.run Run.step
still_running = refl

none_dropped : (Run.run inputs new_loop).dropped_events ≡ 0
unfolding Run.run Run.step
none_dropped = refl

run-held_example : held (Run.run inputs new_loop) ≡ made ∷ changed ∷ gone ∷ []
run-held_example = run-held inputs still_running none_dropped

abbrev failing_world : World
failing_world = record {
  rsync_exit = λ local target. code 2;
  remote_ok = λ prog path. true;
  stat = λ path. file;
  local_dir = codes "/work";
  remote_dir = codes "/home/coder";
  rel = λ base path. some path;
  join = λ dir path. dir ++ (codes "/" ++ path);
}

work-ActsOn_example :
    All (ActsOn failing_world remove (codes "a")) (work failing_world gone).1
    × (length (work failing_world gone).1 ≤ 1)
    × (is_handled remove ≡ true
        → (work failing_world gone).0 ≡ none
        → length (work failing_world gone).1 ≡ 1)
work-ActsOn_example = work-ActsOn failing_world gone
