-- ===== src/Wsnet/Cache.antt =====
-- wsnet/cache.go: the cache of dialers.
--
-- A dialer is the number of its pointer, and a time is a number. What a dialer answers at the moment
-- (`Probe`) is an argument. The lock is held over single accesses to the maps; each such section is an
-- `Action`. `dial` and `evict_one`, the task that `evict` starts for one dialer, have the actions of
-- others between their sections as an argument, in any order. The reads of `evict_one` without the lock
-- are taken as whole. singleflight, which joins concurrent calls of `Dial` for one key, is not modelled.
pub mod Laws
use coder_cli.Prelude.{
  ℕ, ◌-◌, Bool, true, false, not, ◌&&◌, ◌||◌, Option, none, some, List, [], ◌∷◌, ◌++◌, leb, ◌==◌,
  if◌then◌else◌,
}
use coder_cli.Prelude.Texts.{Bytes}
use coder_cli.Prelude.Dict.{Dict, lookup, insert, erase}

pub record DialerCache : Type 0 where
  pub ttl : ℕ
  pub is_closed : Bool
  pub dialers : Dict ℕ
  pub atime : Dict ℕ
  pub shut : List ℕ

-- A dialer's answers: SignalingState() is closed, activeConnections() is 0, Ping succeeds.
pub record Probe : Type 0 where
  pub signaling_closed : ℕ → Bool
  pub is_idle : ℕ → Bool
  pub pings : ℕ → Bool
  pub closes : ℕ → Bool

-- DialCache
unfoldable pub dial_cache : ℕ → DialerCache
dial_cache ttl = record { ttl = ttl; is_closed = false; dialers = []; atime = []; shut = [] }

-- `d.atime[key]`, whose zero value is a time long ago
atime_of : Option ℕ → ℕ
atime_of none = 0
atime_of (some t) = t

-- The decision of one task at time `now`.
unfoldable pub should_evict : Probe → DialerCache → Bytes → ℕ → ℕ → Bool
unfolding atime_of
should_evict p c key dialer now =
    if p.is_idle dialer && leb c.ttl (now - atime_of (lookup key c.atime))
    then true
    else if not (p.pings dialer)
    then true
    else p.signaling_closed dialer

-- `dialer.Close`, whose error `evict` ignores; `shut` are the dialers that were closed.
unfoldable pub shut_one : Probe → ℕ → DialerCache → DialerCache
shut_one p d c = if p.closes d then record c { shut = c.shut ++ d ∷ [] } else c

-- the sections under the lock: the write of an access time, that of a new dialer, and a deletion
abbrev pub touch : Bytes → ℕ → DialerCache → DialerCache
touch key now c = record c { atime = insert key now c.atime }

abbrev pub store : Bytes → ℕ → ℕ → DialerCache → DialerCache
store key now d c = record c { dialers = insert key d c.dialers; atime = insert key now c.atime }

abbrev pub forget : Bytes → DialerCache → DialerCache
forget key c = record c { atime = erase key c.atime; dialers = erase key c.dialers }

-- The loop of Close over the dialers: those that were closed, and whether all succeeded.
close_all : Probe → Dict ℕ → List ℕ × Bool
close_all p [] = ([], true)
close_all p ((key, d) ∷ rest) =
    let (closed, all) = close_all p rest in if p.closes d then (d ∷ closed, all) else ([], false)

pub data CloseResult : Type 0 where
  closed_ok close_err panics : CloseResult

-- DialerCache.Close. Closing the channel `closed` a second time panics.
unfoldable pub close : Probe → DialerCache → DialerCache × CloseResult
unfolding close_all
close p c =
    let (closed, all) = close_all p c.dialers in
    let c' = record c { shut = c.shut ++ closed } in
    if not all
    then (c', close_err)
    else if c.is_closed
    then (c', panics)
    else (record c' { is_closed = true }, closed_ok)

-- What others do.
pub data Action : Type 0 where
  touches : Bytes → ℕ → Action
  stores : Bytes → ℕ → ℕ → Action
  forgets : Bytes → Action
  shuts : ℕ → Action
  closes_cache : Action

unfoldable pub act : Probe → Action → DialerCache → DialerCache
unfolding close shut_one
act p (touches key now) c = touch key now c
act p (stores key now d) c = store key now d c
act p (forgets key) c = forget key c
act p (shuts d) c = shut_one p d c
act p closes_cache c = (close p c).0

unfoldable pub act_all : Probe → List Action → DialerCache → DialerCache
unfolding act
act_all p [] c = c
act_all p (a ∷ acts) c = act_all p acts (act p a c)

-- The task of `evict` for one dialer, with its decision; `before` happens behind its Close, and `between`
-- when it has compared the dialer in the cache with its own.
unfoldable pub evict_one :
    Probe → Bytes → ℕ → Bool → List Action → List Action → DialerCache → DialerCache
unfolding shut_one act_all
evict_one p key dialer decided before between c =
    if not decided
    then c
    else (let c' = act_all p before (shut_one p dialer c) in
        elim (lookup key c'.dialers) [
          | none ↦ c'
          | some current ↦ if current == dialer then forget key (act_all p between c') else c'
        ])

pub data DialResult : Type 0 where
  cache_closed dial_failed : DialResult
  dialer : ℕ → Bool → DialResult

-- What others do during a call of Dial: before it writes the access time, while it dials, and before it
-- looks whether the cache is closed.
pub record Others : Type 0 where
  pub before_touch : List Action
  pub before_store : List Action
  pub before_end : List Action

abbrev pub nobody : Others
nobody = record { before_touch = []; before_store = []; before_end = [] }

-- behind the look at the cache
unfoldable pub redial :
    Probe → Bytes → ℕ → Option ℕ → Others → DialerCache → DialerCache × DialResult
unfolding act_all
redial p key now none o c = (act_all p o.before_store c, dial_failed)
redial p key now (some d) o c =
    let c' = act_all p o.before_end (store key now d (act_all p o.before_store c)) in
    if c'.is_closed then (c', cache_closed) else (c', dialer d false)

-- behind the read of the map
unfoldable pub on_found :
    Probe → Bytes → ℕ → Option ℕ → Others → DialerCache → Option ℕ → DialerCache × DialResult
unfolding redial
on_found p key now dialed o c none = redial p key now dialed o c
on_found p key now dialed o c (some d) =
    let c' = touch key now (act_all p o.before_touch c) in
    if not (p.signaling_closed d) then (c', dialer d true) else redial p key now dialed o c'

-- DialerCache.Dial
unfoldable pub dial : Probe → Bytes → ℕ → Option ℕ → Others → DialerCache → DialerCache × DialResult
unfolding on_found
dial p key now dialed o c =
    if c.is_closed then (c, cache_closed) else on_found p key now dialed o c (lookup key c.dialers)

-- One operation of a run.
pub data Op : Type 0 where
  dials : Bytes → ℕ → Option ℕ → Others → Op
  evicts : Bytes → ℕ → Bool → List Action → List Action → Op
  closes_all : Op

unfoldable pub perform : Probe → Op → DialerCache → DialerCache
unfolding dial evict_one close
perform p (dials key now dialed o) c = (dial p key now dialed o c).0
perform p (evicts key d decided before between) c = evict_one p key d decided before between c
perform p closes_all c = (close p c).0

unfoldable pub perform_all : Probe → List Op → DialerCache → DialerCache
unfolding perform
perform_all p [] c = c
perform_all p (o ∷ ops) c = perform_all p ops (perform p o c)
