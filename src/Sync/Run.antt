-- ===== src/Sync/Run.antt =====
-- Sync.Run (internal/sync/sync.go): the two goroutines that bring events to the work, and the loop.
--
-- A run is a list of inputs in the order in which they happen: the library reports an event, the
-- loop takes one from the channel `timedEvents`, or the ticker fires. Times are milliseconds. The
-- work on a group takes no step of its own; `dispatched` records the groups that were worked on.
pub mod Laws
use coder_cli.Prelude.{
  ℕ, suc, ◌-◌, Bool, true, false, Option, none, some, List, [], ◌∷◌, ◌++◌, ltb, if◌then◌else◌,
  length,
}
use coder_cli.Prelude.Texts.{Bytes}
use coder_cli.Sync.EventCache.{TimedEvent}

abbrev pub max_inflight_inotify : ℕ
max_inflight_inotify = 8

abbrev pub max_event_delay : ℕ
max_event_delay = 7000

-- What happens before the loop.
pub record Setup : Type 0 where
  pub watches : Bool
  pub makes_remote_dir : Bool
  pub syncs : Bool
  pub init_only : Bool

pub data Started : Type 0 where
  watch_err mkdir_err sync_err : Started
  finished looping : Started

unfoldable pub start : Setup → Started
start s =
    if s.watches
    then (if s.makes_remote_dir
        then (if s.syncs then (if s.init_only then finished else looping) else sync_err)
        else mkdir_err)
    else watch_err

pub data Input : Type 0 where
  reported : TimedEvent → Input
  taken : Input
  tick : ℕ → Input

pub data Status : Type 0 where
  running restart_sync : Status

abbrev pub is_running : Status → Bool
is_running running = true
is_running restart_sync = false

pub record Loop : Type 0 where
  pub timed_events : List TimedEvent
  pub dropped_events : ℕ
  pub event_group : List TimedEvent
  pub dispatched : List (List TimedEvent)
  pub status : Status

abbrev pub new_loop : Loop
new_loop = record {
  timed_events = [];
  dropped_events = 0;
  event_group = [];
  dispatched = [];
  status = running;
}

-- The goroutine that stamps events; a full channel drops them.
on_reported : TimedEvent → Loop → Loop
on_reported ev l =
    if ltb (length l.timed_events) max_inflight_inotify
    then record l { timed_events = l.timed_events ++ ev ∷ [] }
    else record l { dropped_events = suc l.dropped_events }

-- `case ev := <-timedEvents`
receive : List TimedEvent → Loop → Loop
receive [] l = l
receive (ev ∷ evs) l =
    if ltb 0 l.dropped_events
    then record l { timed_events = evs; status = restart_sync }
    else record l { timed_events = evs; event_group = l.event_group ++ ev ∷ [] }

-- `case <-dispatchEventGroup.C`
dispatch : ℕ → List TimedEvent → Loop → Loop
dispatch now [] l = l
dispatch now (ev ∷ evs) l =
    if ltb max_event_delay (now - ev.created_at)
    then record l { status = restart_sync }
    else record l { dispatched = l.dispatched ++ (ev ∷ evs) ∷ []; event_group = [] }

unfoldable pub step : Input → Loop → Loop
unfolding on_reported receive dispatch
step (reported ev) l = on_reported ev l
step taken l = receive l.timed_events l
step (tick now) l = dispatch now l.event_group l

-- The loop runs until it returns.
unfoldable pub run : List Input → Loop → Loop
unfolding step
run [] l = l
run (i ∷ is) l = elim (is_running l.status) [ true ↦ run is (step i l) | false ↦ l ]
