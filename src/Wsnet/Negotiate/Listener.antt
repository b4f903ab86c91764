-- ===== src/Wsnet/Negotiate/Listener.antt =====
-- listener.negotiate (wsnet/listen.go): the loop that answers a dialer's offer.
--
-- `Env` holds what the library, the network and the JSON encoder answer. `connected` is the
-- connection state that closeError sees. Candidates that the flush writes to the connection are in
-- `Wsnet.Ice`; here `flushed` tells that it was done. The callback of OnConnectionStateChange is
-- `on_state_change`; it may run at any time once there is a peer connection.
pub mod Laws
pub mod Delivery
use coder_cli.Prelude.{
  ℕ, suc, Bool, true, false, not, ◌&&◌, ◌||◌, Option, none, some, List, [], ◌∷◌, ◌++◌, ltb,
  if◌then◌else◌,
}
use coder_cli.Prelude.Texts.{Bytes, codes, same}
use coder_cli.Wsnet.Ice.{IceServer}
use coder_cli.Wsnet.Negotiate.{
  BrokerMessage, Decode, message, eof, broken, Library, Rtc, new_rtc, add_candidate, add_all,
  set_remote,
}

abbrev pub turn_proxy_magic_username : Bytes
turn_proxy_magic_username = codes "~magicalusername~"

pub data Failure : Type 0 where
  read accept_candidate no_servers dial_server parse_proxy : Failure
  peer_connection apply_offer create_answer_err set_answer marshal_err write_err : Failure
  add_pending : Failure

pub data Status : Type 0 where
  waiting : Status
  failed : Failure → Status

-- A message that is written to the connection.
pub data Sent : Type 0 where
  answer_message : Bytes → Sent
  error_message : Failure → Sent

pub record Env : Type 0 where
  pub lib : Library
  pub dial_ice : IceServer → Bool
  pub parses_url : Bytes → Bool
  pub makes_peer : List IceServer → Bool
  pub create_answer : Bytes → Option Bytes
  pub set_local : Bytes → Bool
  pub marshals : Bool
  pub writes : Bool
  pub connected : Bool

-- The variables of the loop. `conn_closed` is a close by the loop, `dropped` one by the callback, behind
-- which nothing can be written. `replaced` are the peer connections that a later offer took the
-- variable from, which are not closed. `closers` counts the listener's connClosers.
pub record Session : Type 0 where
  pub rtc : Option Rtc
  pub pending : List Bytes
  pub sent : List Sent
  pub flushed : Bool
  pub conn_closed : Bool
  pub dropped : Bool
  pub replaced : List Rtc
  pub closers : ℕ
  pub status : Status

abbrev pub peers_of : Option Rtc → List Rtc
peers_of none = []
peers_of (some rtc) = rtc ∷ []

abbrev pub is_waiting : Status → Bool
is_waiting waiting = true
is_waiting (failed e) = false

module _ (env : Env) where
  -- closeError, and the return behind it
  close_error : Failure → Session → Session
  close_error e s = record s {
    rtc = if env.connected then s.rtc else none;
    sent = if s.dropped then s.sent else s.sent ++ error_message e ∷ [];
    conn_closed = true;
    status = failed e;
  }

  -- the loop over the servers
  unfoldable pub validates : List IceServer → Bool
  validates [] = true
  validates (server ∷ servers) =
      (same server.username turn_proxy_magic_username || env.dial_ice server) && validates servers

  -- behind the write of the answer
  add_pending_all : Rtc → Session → Session
  unfolding close_error
  add_pending_all rtc s =
      let (all_added, rtc') = add_all env.lib s.pending rtc in
      if all_added
      then record s { rtc = some rtc'; pending = [] }
      else close_error add_pending (record s { rtc = some rtc' })

  -- from CreateAnswer on
  send_answer : Bytes → Rtc → Session → Session
  unfolding close_error add_pending_all
  send_answer d rtc s = elim (env.create_answer d) [
    | none ↦ close_error create_answer_err s
    | some a ↦
        if not (env.set_local a)
        then close_error set_answer s
        else if not env.marshals
        then close_error marshal_err (record s { flushed = true })
        else if not env.writes || s.dropped
        then close_error write_err (record s { flushed = true })
        else add_pending_all rtc
            (record s { flushed = true; sent = s.sent ++ answer_message a ∷ [] })
  ]

  -- from newPeerConnection on
  connect : Bytes → List IceServer → Session → Session
  unfolding close_error send_answer set_remote
  connect d servers s =
      if not (env.makes_peer servers)
      then close_error peer_connection
          (record s { rtc = none; replaced = s.replaced ++ peers_of s.rtc })
      else (let (accepted, rtc) = set_remote env.lib d new_rtc in
          let s' = record s {
            rtc = some rtc;
            replaced = s.replaced ++ peers_of s.rtc;
            closers = suc s.closers;
          } in
          if accepted then send_answer d rtc s' else close_error apply_offer s')

  -- `msg.Offer != nil`
  on_offer : Bytes → BrokerMessage → Session → Session
  unfolding close_error validates connect
  on_offer d msg s = elim (msg.servers) [
    | none ↦ close_error no_servers s
    | some servers ↦
        if not (validates servers)
        then close_error dial_server s
        else if not (same msg.turn_proxy_url []) && not (env.parses_url msg.turn_proxy_url)
        then close_error parse_proxy s
        else connect d servers s
  ]

  maybe_offer : BrokerMessage → Session → Session
  unfolding on_offer
  maybe_offer msg s = elim (msg.offer) [ none ↦ s | some d ↦ on_offer d msg s ]

  -- With a candidate and a peer connection the message is searched for an offer too.
  on_candidate : BrokerMessage → Session → Session
  unfolding close_error maybe_offer
  on_candidate msg s = elim (s.rtc) [
    | none ↦ record s { pending = s.pending ++ msg.candidate ∷ [] }
    | some rtc ↦
        let added = record rtc { added = rtc.added ++ msg.candidate ∷ [] } in
        if env.lib.accepts_candidate msg.candidate
        then maybe_offer msg (record s { rtc = some added })
        else close_error accept_candidate s
  ]

  unfoldable pub on_decode : Decode → Session → Session
  unfolding close_error maybe_offer on_candidate
  on_decode eof s = close_error read s
  on_decode broken s = close_error read s
  on_decode (message msg) s =
      if not (same msg.candidate []) then on_candidate msg s else maybe_offer msg s

  -- The loop, which reads on as long as it is waiting.
  unfoldable pub run : List Decode → Session → Session
  unfolding on_decode
  run [] s = s
  run (m ∷ ms) s = elim (is_waiting s.status) [ true ↦ run ms (on_decode m s) | false ↦ s ]

-- A state of the peer connection, as far as the callback tells them apart.
pub data PeerState : Type 0 where
  connecting connected other_state : PeerState

-- The callback, as far as the loop is concerned. In another state it closes the connections of the data
-- channels.
unfoldable pub on_state_change : PeerState → Session → Session
on_state_change connecting s = if ltb 0 s.closers then record s { dropped = true } else s
on_state_change connected s = s
on_state_change other_state s = s

-- What happens: a message is decoded, or the callback runs.
pub data Input : Type 0 where
  decoded : Decode → Input
  changes : PeerState → Input

-- The loop with the callback, which runs also when the loop has returned.
unfoldable pub run_inputs : Env → List Input → Session → Session
unfolding on_state_change
run_inputs env [] s = s
run_inputs env (decoded m ∷ is) s = run_inputs env is (run env (m ∷ []) s)
run_inputs env (changes p ∷ is) s = run_inputs env is (on_state_change p s)
