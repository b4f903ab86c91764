-- ===== src/Wsnet/Conn.antt =====
-- wsnet/conn.go: the endpoints of the broker, and the buffering of a data channel's connection.
--
-- A URL is its scheme and host. The channel `sendMore` has room for one token; `token` counts it.
-- `ready` tells that `init` has made it. `faults` counts what would panic: a close of `sendMore` before
-- that or a second time, and a send on it once it is closed. `waiting` is the length of a message whose
-- Write waits for a token; it holds the mutex, so another Write does not begin. A Write begins behind
-- `init`.
pub mod Laws
use coder_cli.Prelude.{
  ℕ, suc, ◌+◌, ◌*◌, Bool, true, false, not, ◌||◌, Option, none, some, List, [], ◌∷◌, ◌++◌, ltb, leb,
  is_set, ◌==◌, if◌then◌else◌,
}
use coder_cli.Prelude.Texts.{Bytes, codes, same}

abbrev pub max_buffered_amount : ℕ
max_buffered_amount = 1024 * 1024

abbrev pub max_message_length : ℕ
max_message_length = 32 * 1024

ws_scheme : Bytes → Bytes
ws_scheme scheme = if same scheme (codes "http") then codes "ws" else codes "wss"

-- ListenEndpoint
unfoldable pub listen_endpoint : Bytes → Bytes → Bytes → Bytes
unfolding ws_scheme
listen_endpoint scheme host token =
    ws_scheme scheme
    ++ (codes "://"
        ++ (host ++ (codes "/api/private/envagent/listen" ++ (codes "?service_token=" ++ token))))

-- ConnectEndpoint
unfoldable pub connect_endpoint : Bytes → Bytes → Bytes → Bytes → Bytes
unfolding ws_scheme
connect_endpoint scheme host workspace token =
    ws_scheme scheme
    ++ (codes "://"
        ++ (host
            ++ (codes "/api/private/envagent/"
                ++ (workspace ++ (codes "/connect?session_token=" ++ token)))))

-- The scheme that turnProxyDialer.Dial dials, none for an error.
unfoldable pub turn_scheme : Bytes → Option Bytes
turn_scheme scheme =
    if same scheme (codes "http")
    then some (codes "ws")
    else if same scheme (codes "https")
    then some (codes "wss")
    else none

pub record Conn : Type 0 where
  pub ready : Bool
  pub closed : Bool
  pub chan_closed : Bool
  pub token : ℕ
  pub faults : ℕ
  pub waiting : Option ℕ
  pub written : List ℕ

abbrev pub new_conn : Conn
new_conn = record {
  ready = false;
  closed = false;
  chan_closed = false;
  token = 0;
  faults = 0;
  waiting = none;
  written = [];
}

-- init
unfoldable pub init : Conn → Conn
init c = record c { ready = true; chan_closed = false; token = 0 }

-- close(c.sendMore); a token in it stays
close_send_more : Conn → Conn
close_send_more c =
    if not c.ready || c.chan_closed
    then record c { faults = suc c.faults }
    else record c { chan_closed = true }

-- The send on `sendMore` in a select with a default.
send_token : Conn → Conn
send_token c =
    if c.chan_closed
    then record c { faults = suc c.faults }
    else if ltb c.token 1
    then record c { token = suc c.token }
    else c

-- The callback of OnBufferedAmountLow, which `init` sets.
unfoldable pub on_buffered_amount_low : Conn → Conn
unfolding send_token
on_buffered_amount_low c = if not c.ready || c.closed then c else send_token c

pub data Written : Type 0 where
  too_large blocks sent locked : Written

-- Write of `n` bytes while `buffered` bytes wait. A receive from a closed channel returns at once;
-- from an empty open channel it blocks.
unfoldable pub write : ℕ → ℕ → Conn → Conn × Written
write buffered n c =
    if is_set c.waiting
    then (c, locked)
    else if ltb max_message_length n
    then (c, too_large)
    else if leb max_buffered_amount (buffered + n)
    then (if ltb 0 c.token
        then (record c { token = 0; written = c.written ++ n ∷ [] }, sent)
        else if c.chan_closed
        then (record c { written = c.written ++ n ∷ [] }, sent)
        else (record c { waiting = some n }, blocks))
    else (record c { written = c.written ++ n ∷ [] }, sent)

-- The Write that waits, when it goes on.
unfoldable pub resume : Conn → Conn
resume c = elim (c.waiting) [
  | none ↦ c
  | some n ↦
      if ltb 0 c.token
      then record c { token = 0; waiting = none; written = c.written ++ n ∷ [] }
      else if c.chan_closed
      then record c { waiting = none; written = c.written ++ n ∷ [] }
      else c
]

-- Close
unfoldable pub close : Conn → Conn
unfolding close_send_more
close c = if not c.closed then close_send_more (record c { closed = true }) else c

pub data Event : Type 0 where
  low shuts resumes : Event
  writes : ℕ → ℕ → Event

unfoldable pub react : Event → Conn → Conn
unfolding on_buffered_amount_low write close resume
react low c = on_buffered_amount_low c
react shuts c = close c
react resumes c = resume c
react (writes buffered n) c = (write buffered n c).0

unfoldable pub react_all : List Event → Conn → Conn
unfolding react
react_all [] c = c
react_all (e ∷ es) c = react_all es (react e c)
