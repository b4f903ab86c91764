-- ===== src/Wsnet/Listen.antt =====
-- wsnet/listen.go: Listen with its loop that dials the broker again, dial, and Close.
--
-- A socket to the broker has a number. What the broker, the context and the ticker do is an argument
-- of the operation that waits for it; the step relation puts them in any order.
pub mod Laws
use coder_cli.Prelude.{
  ℕ, suc, Bool, true, false, Option, none, some, List, [], ◌∷◌, ◌++◌, keep, not, ◌==◌,
  if◌then◌else◌,
}
use coder_cli.Prelude.Results.{Result, ok, err}

-- the lines of the log
pub data Line : Type 0 where
  connecting established disconnected dial_failed connected : Line

-- An error of `dial`, by what the loop asks of it.
pub data DialErr : Type 0 where
  refused failed mux_failed cancelled deadline : DialErr

-- errors.Is(err, context.Canceled) || errors.Is(err, context.DeadlineExceeded)
abbrev pub is_context_err : DialErr → Bool
is_context_err cancelled = true
is_context_err deadline = true
is_context_err _ = false

-- What the broker makes of a dial: no socket, a socket without a session, or both.
pub data Dialed : Type 0 where
  no_socket : DialErr → Dialed
  no_session : Dialed
  session : Dialed

-- The channel of errors that the loop reads: that of a running session, one that is closed, or nil.
pub data ErrChannel : Type 0 where
  live drained nil_channel : ErrChannel

-- The goroutine of Listen: it waits for an error, waits to dial again, or has returned.
pub data Loop : Type 0 where
  reading retrying : ErrChannel → Loop
  returned : Loop

-- listener, with the sockets and connections it has not closed
pub record Listener : Type 0 where
  pub ws : Option ℕ
  pub next_ws : ℕ
  pub open_ws : List ℕ
  pub conn_closers : List ℕ
  pub closed_conns : List ℕ
  pub closed : Bool
  pub log : List Line

abbrev pub new_listener : Listener
new_listener = record {
  ws = none;
  next_ws = 0;
  open_ws = [];
  conn_closers = [];
  closed_conns = [];
  closed = false;
  log = [];
}

abbrev pub say : Line → Listener → Listener
say line l = record l { log = line ∷ l.log }

-- `ws.Close`, where there is a socket
unfoldable pub close_ws : Listener → Listener
close_ws l = elim l.ws [
  | none ↦ l
  | some id ↦ record l { open_ws = keep (λ o. not (o == id)) l.open_ws }
]

-- `l.ws = conn`
abbrev pub set_ws : Listener → Listener
set_ws l = record l {
  ws = some l.next_ws;
  open_ws = l.next_ws ∷ l.open_ws;
  next_ws = suc l.next_ws;
}

-- dial
unfoldable pub dial : Dialed → Listener → Result DialErr ErrChannel × Listener
unfolding close_ws
dial (no_socket e) l = (err e, close_ws (say connecting l))
dial no_session l = (err mux_failed, set_ws (close_ws (say connecting l)))
dial session l = (ok live, say established (set_ws (close_ws (say connecting l))))

-- Listen, up to the start of its goroutine
unfoldable pub listen : Dialed → Result DialErr (Listener × Loop)
unfolding dial
listen d = elim ((dial d new_listener).0) [
  | err e ↦ err e
  | ok ch ↦ ok ((dial d new_listener).1, reading ch)
]

-- The loop after it has received from its channel: an error, or the nil of a closed channel.
unfoldable pub received : Bool → ErrChannel → Listener → Listener × Loop
received is_err ch l =
    if l.closed
    then (l, returned)
    else (if is_err then (say disconnected l, retrying ch) else (say connected l, reading ch))

-- One tick of the inner loop: it dials, and leaves on success or on an error of the context.
unfoldable pub ticked : Dialed → Listener → Listener × Loop
unfolding dial
ticked d l = elim ((dial d l).0) [
  | ok ch ↦ (say connected (dial d l).1, reading ch)
  | err e ↦
      if is_context_err e
      then (say connected (dial d l).1, reading nil_channel)
      else (say dial_failed (dial d l).1, retrying nil_channel)
]

-- The end of the context in the inner loop: `ch` stays what it is.
abbrev pub context_done : ErrChannel → Listener → Listener × Loop
context_done ch l = (say connected l, reading ch)

-- Close; false is the error "already closed".
unfoldable pub close : Listener → Bool × Listener
unfolding close_ws
close l = if l.closed then (false, l) else (
  true,
  close_ws (record l { closed = true; closed_conns = l.conn_closers ++ l.closed_conns }),
)

-- `negotiate` registers the closer of a connection that it has made.
abbrev pub register : ℕ → Listener → Listener
register c l = record l { conn_closers = l.conn_closers ++ c ∷ [] }

-- What the goroutine, the callers of Close and the negotiations do, in any order. A session that ends
-- sends its error and closes the channel; a receive from a nil channel never happens.
pub data Step : Listener × Loop → Listener × Loop → Type 0 where
  session_ends : (l : Listener) → Step (l, reading live) (received true drained l)
  reads_closed : (l : Listener) → Step (l, reading drained) (received false drained l)
  ticks : (d : Dialed) (ch : ErrChannel) (l : Listener) → Step (l, retrying ch) (ticked d l)
  context_ends : (ch : ErrChannel) (l : Listener) → Step (l, retrying ch) (context_done ch l)
  closes : (p : Loop) (l : Listener) → Step (l, p) ((close l).1, p)
  registers : (c : ℕ) (p : Loop) (l : Listener) → Step (l, p) (register c l, p)

pub data Reach (s : Listener × Loop) : Listener × Loop → Type 0 where
  here : Reach s s
  next : {t u : Listener × Loop} → Reach s t → Step t u → Reach s u
