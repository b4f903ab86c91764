-- ===== src/Wsnet/Negotiate/Listener/Laws.antt =====
-- The order of candidates and the error path of the listener's handshake (wsnet/listen.go).
use coder_cli.Prelude.{
  ℕ, suc, is_set, ◌≡◌, ◌⊎◌, Bool, true, false, not, Option, none, some, List, [], ◌∷◌, ◌++◌,
  if◌then◌else◌, arith,
}
use coder_cli.Prelude.Texts.{Bytes}
use coder_cli.Wsnet.Ice.{IceServer}
use coder_cli.Wsnet.Negotiate.{Rtc}
use coder_cli.Wsnet.Negotiate.Listener.{
  waiting, Sent, answer_message, error_message, Env, Session, is_waiting, close_error, connect,
  connected,
}

abbrev pub errors : List Sent → ℕ
errors [] = 0
errors (answer_message a ∷ ms) = errors ms
errors (error_message e ∷ ms) = suc (errors ms)

-- The candidates that the peer connection, if there is one, was given, and whether it has an offer.
abbrev pub added_of : Option Rtc → List Bytes
added_of none = []
added_of (some rtc) = rtc.added

abbrev pub has_remote : Option Rtc → Bool
has_remote none = false
has_remote (some rtc) = is_set rtc.remote

pub record IsSound (env : Env) (s : Session) : Type 0 where
  pub ordered : (added_of s.rtc ≡ []) ⊎ (has_remote s.rtc ≡ true)
  pub closes : s.conn_closed ≡ not (is_waiting s.status)
  pub tells :
      (errors s.sent ≡ (if is_waiting s.status then 0 else 1))
      ⊎ ((s.dropped ≡ true) × (errors s.sent ≡ 0))
  pub drops : (is_waiting s.status ≡ true) ⊎ (env.connected ≡ true) ⊎ (is_set s.rtc ≡ false)

abbrev pub start : Session
start = record {
  rtc = none;
  pending = [];
  sent = [];
  flushed = false;
  conn_closed = false;
  dropped = false;
  replaced = [];
  closers = 0;
  status = waiting;
}

module _ (env : Env) where
  abbrev Waits : Session → Type 0
  Waits s = is_waiting s.status ≡ true

  -- While the loop runs, a peer connection has its remote description.
  abbrev IsReady : Session → Type 0
  IsReady s = (is_waiting s.status ≡ false) ⊎ (has_remote s.rtc ≡ is_set s.rtc)

  -- A candidate that is accepted.
  abbrev with_candidate : Bytes → Rtc → Session → Session
  with_candidate c rtc s = record s { rtc = some (record rtc { added = rtc.added ++ c ∷ [] }) }

-- When no peer connection can be made for a second offer, the first is forgotten without being closed.
connect-replaces :
    (env : Env) (d : Bytes) (servers : List IceServer) (s : Session) (rtc : Rtc)
    → env.makes_peer servers ≡ false
    → s.rtc ≡ some rtc
    → (connect env d servers s).replaced ≡ s.replaced ++ rtc ∷ []
unfolding connect close_error
connect-replaces env d servers s rtc e h = ground arith
