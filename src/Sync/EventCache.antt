-- ===== src/Sync/EventCache.antt =====
-- internal/sync/eventcache.go: the events of a group, at most one for each path. The order in which
-- Go walks a map is not fixed; here it is that of insertion, and nothing is stated about it.
pub mod Laws
use coder_cli.Prelude.{
  ℕ, Bool, true, false, not, ◌&&◌, Option, none, some, List, [], ◌∷◌, keep, if◌then◌else◌,
}
use coder_cli.Prelude.Texts.{Bytes}
use coder_cli.Prelude.Dict.{Dict, lookup, insert, erase}

-- The events of the library notify; `unknown` is any other set of its bits.
pub data Event : Type 0 where
  create remove write rename : Event
  unknown : ℕ → Event

pub record TimedEvent : Type 0 where
  pub created_at : ℕ
  pub path : Bytes
  pub event : Event

-- What os.Stat says of a path.
pub data Stat : Type 0 where
  file dir missing stat_err : Stat

abbrev pub is_create : Event → Bool
is_create create = true
is_create _ = false

abbrev pub is_remove : Event → Bool
is_remove remove = true
is_remove _ = false

abbrev pub is_file : Stat → Bool
is_file file = true
is_file _ = false

-- `ok`, and the two tests on the last event
cancels : Option TimedEvent → TimedEvent → Bool
cancels none ev = false
cancels (some last) ev = is_create last.event && is_remove ev.event

-- eventCache.Add
unfoldable pub add : TimedEvent → Dict TimedEvent → Dict TimedEvent
unfolding cancels
add ev cache =
    if cancels (lookup ev.path cache) ev then erase ev.path cache else insert ev.path ev cache

-- The loop over the events of a group.
unfoldable pub add_all : List TimedEvent → Dict TimedEvent → Dict TimedEvent
unfolding add
add_all [] cache = cache
add_all (ev ∷ evs) cache = add_all evs (add ev cache)

abbrev pub values : Dict TimedEvent → List TimedEvent
values [] = []
values ((k, ev) ∷ m) = ev ∷ values m

-- SequentialEvents: all but what is a file. A path that is gone counts as a directory.
unfoldable pub sequential_events : (Bytes → Stat) → Dict TimedEvent → List TimedEvent
sequential_events stat cache = keep (λ ev. not (is_file (stat ev.path))) (values cache)

-- ConcurrentEvents: what is a file.
unfoldable pub concurrent_events : (Bytes → Stat) → Dict TimedEvent → List TimedEvent
concurrent_events stat cache = keep (λ ev. is_file (stat ev.path)) (values cache)
