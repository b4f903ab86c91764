-- ===== src/Wsnet/Dial.antt =====
-- Dial and Ping of wsnet/dial.go, with waitForDataChannelOpen of wsnet/rtc.go: what precedes the
-- negotiation, which is in Negotiate/Dialer.
--
-- `DialEnv` holds what the library does at each step, and the candidates that it gathers before and
-- after the queue is flushed, and `between` while the offer is
-- written. Creating the same thing twice is not possible.
pub mod Laws
use coder_cli.Prelude.{
  Bool, true, false, not, ◌&&◌, Option, none, some, List, [], ◌∷◌, ◌++◌, map, if◌then◌else◌,
}
use coder_cli.Prelude.Texts.{Bytes}
use coder_cli.Prelude.Results.{Result, ok, err}
use coder_cli.Wsnet.Ice.{IceServer, Queue, no_candidates, gather, flush}
use coder_cli.Wsnet.Negotiate.{BrokerMessage}

-- DialOptions, without the logger; the URL is its text
pub record DialOptions : Type 0 where
  pub ice_servers : Option (List IceServer)
  pub turn_proxy_auth_token : Bytes
  pub turn_remote_proxy_url : Option Bytes
  pub turn_local_proxy_url : Option Bytes

pub record DialEnv : Type 0 where
  pub makes_peer : Bool
  pub makes_control : Bool
  pub makes_offer : Option Bytes
  pub sets_local : Bool
  pub marshals : Bool
  pub writes : Bool
  pub early : List (Option Bytes)
  pub between : List (Option Bytes)
  pub late : List (Option Bytes)

pub data DialErr : Type 0 where
  peer_err control_err offer_err local_err marshal_err write_err : DialErr

-- What the broker is sent.
pub data Sent : Type 0 where
  offer_message : BrokerMessage → Sent
  candidate_message : Bytes → Sent

-- The end of the part before the negotiation: the error, what was sent, and whether the peer
-- connection exists, which no path closes.
pub record Prepared : Type 0 where
  pub error : Option DialErr
  pub sent : List Sent
  pub peer_open : Bool

-- `options.ICEServers`, with its default
abbrev pub servers_of : DialOptions → List IceServer
servers_of options = elim (options.ice_servers) [ none ↦ [] | some s ↦ s ]

abbrev pub proxy_url : DialOptions → Bytes
proxy_url options = elim (options.turn_remote_proxy_url) [ none ↦ [] | some url ↦ url ]

-- the message of the offer
unfoldable pub offer_of : DialOptions → Bytes → BrokerMessage
offer_of options offer = record {
  offer = some offer;
  servers = some (servers_of options);
  turn_proxy_url = proxy_url options;
  policies = [];
  error = [];
  answer = none;
  candidate = [];
}

module _ (env : DialEnv) where
  -- The queue of the candidates until the offer is written, and what it has written itself.
  abbrev pub queued : Queue
  queued = gather env.early no_candidates

  abbrev pub sent_early : List Sent
  sent_early = map candidate_message queued.written

  abbrev pub fails : DialErr → Prepared
  fails e = record { error = some e; sent = sent_early; peer_open = true }

  -- What the queue writes behind the offer.
  abbrev pub flushed_late : Queue
  flushed_late = gather env.late (flush (gather env.between (record queued { written = [] })))

  -- The offer is written, and the queue is flushed.
  abbrev pub send_offer : DialOptions → Bytes → Prepared
  send_offer options offer = record {
    error = none;
    sent =
        sent_early
        ++ offer_message (offer_of options offer) ∷ map candidate_message flushed_late.written;
    peer_open = true;
  }

  unfoldable pub with_offer : DialOptions → Option Bytes → Prepared
  unfolding offer_of
  with_offer options none = fails offer_err
  with_offer options (some offer) =
      if not env.sets_local
      then fails local_err
      else if not env.marshals
      then fails marshal_err
      else if not env.writes
      then fails write_err
      else send_offer options offer

  -- Dial, up to the negotiation
  unfoldable pub dial : DialOptions → Prepared
  unfolding with_offer
  dial options =
      if not env.makes_peer
      then record { error = some peer_err; sent = []; peer_open = false }
      else if not env.makes_control
      then fails control_err
      else with_offer options env.makes_offer

pub data ReadyState : Type 0 where
  connecting opened closing closed : ReadyState

pub data PingErr : Type 0 where
  connection_closed channel_closed timed_out detach_err write_err read_err : PingErr

-- waitForDataChannelOpen; the Boolean tells whether it opens in time
unfoldable pub wait_for_data_channel_open : ReadyState → Bool → Option PingErr
wait_for_data_channel_open opened opens = none
wait_for_data_channel_open connecting opens = if opens then none else some timed_out
wait_for_data_channel_open _ opens = some channel_closed

-- What the control channel does during a ping: none for a read that takes too long.
pub record PingEnv : Type 0 where
  pub state : ReadyState
  pub opens : Bool
  pub detached : Bool
  pub detaches : Bool
  pub writes : Bool
  pub reads : Option Bool

abbrev pub is_closing : ReadyState → Bool
is_closing closed = true
is_closing closing = true
is_closing _ = false

-- Ping
unfoldable pub ping : PingEnv → Option PingErr
unfolding wait_for_data_channel_open
ping env =
    if is_closing env.state
    then some connection_closed
    else elim (wait_for_data_channel_open env.state env.opens) [
      | some e ↦ some e
      | none ↦
          if not env.detached && not env.detaches
          then some detach_err
          else if not env.writes
          then some write_err
          else elim (env.reads) [
            | none ↦ some timed_out
            | some r ↦ if r then none else some read_err
          ]
    ]
