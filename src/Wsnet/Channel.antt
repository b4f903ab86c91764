-- ===== src/Wsnet/Channel.antt =====
-- One data channel from both ends: `handle` of wsnet/listen.go, which answers on the side of the
-- workspace, and `DialContext` of wsnet/dial.go, which asks.
--
-- What the network and the library pion do is an argument: whether a channel can be created,
-- opened and detached, whether a message can be written, and what net.Dial returns. A channel's
-- state records the messages written to it (as values: json.Marshal and json.Decoder stand between the
-- ends, and a response that does not decode is `undecodable`), whether it was closed, and the tunnel that was started.
pub mod Laws
use coder_cli.Prelude.{
  ℕ, Bool, true, false, not, Option, none, some, List, [], ◌∷◌, ◌++◌, if◌then◌else◌,
}
use coder_cli.Prelude.Texts.{Bytes, codes, same}
use coder_cli.Prelude.Results.{Result, ok, err}
use coder_cli.Wsnet.Proto.{Net, DialPolicy, GoError, errorf, policy_err, get_address}

-- The codes of a response: the three constants, the empty text and any other text.
pub data Code : Type 0 where
  dial_err permission_err bad_address_err unset : Code
  other : Bytes → Code

is_dial_err : Code → Bool
is_dial_err dial_err = true
is_dial_err _ = false

pub record DialChannelResponse : Type 0 where
  pub code : Code
  pub err : Bytes
  pub net : Bytes
  pub op : Bytes

abbrev pub no_response : DialChannelResponse
no_response = record { code = unset; err = []; net = []; op = [] }

-- What net.Dial returns: a connection, or the text of an error and, for a net.OpError, its fields.
pub data Dialed : Type 0 where
  connected : Dialed
  failed : Bytes → Option (Bytes × Bytes) → Dialed

-- `tunnel` copies between the channel and the dialed connection; `nil_conn` is the same code
-- reached with no connection.
pub data Tunnel : Type 0 where
  idle nil_conn : Tunnel
  tunnel : Bytes → Bytes → Tunnel

pub record Channel : Type 0 where
  pub sent : List DialChannelResponse
  pub rw_closed : Bool
  pub dc_closed : Bool
  pub tunnel_state : Tunnel

abbrev pub fresh : Channel
fresh = record { sent = []; rw_closed = false; dc_closed = false; tunnel_state = idle }

pub record Env : Type 0 where
  pub detach : Bool
  pub marshal : Bool
  pub write : Bool
  pub dial : Bytes → Bytes → Dialed

-- `err.Error()`
unfoldable pub error_text : GoError → Bytes
error_text (errorf text) = text
error_text (policy_err protocol) =
    codes "connections are not permitted to " ++ protocol ++ codes " by policy"

-- `errors.As(err, &policyErr)`
unfoldable pub is_policy_err : GoError → Bool
is_policy_err (errorf text) = false
is_policy_err (policy_err protocol) = true

-- sendInitMessage
unfoldable pub send_init_message : Env → DialChannelResponse → Channel → Channel
send_init_message env init c =
    if not env.marshal
    then record c { rw_closed = true }
    else if not env.write
    then c
    else if not (same init.err [])
    then record c { sent = c.sent ++ init ∷ []; dc_closed = true }
    else record c { sent = c.sent ++ init ∷ [] }

-- `init` after net.Dial
unfoldable pub dial_response : Dialed → DialChannelResponse
dial_response connected = no_response
dial_response (failed text none) = record no_response { code = dial_err; err = text }
dial_response (failed text (some (net, op))) = record {
  code = dial_err;
  err = text;
  net = net;
  op = op;
}

unfoldable pub address_response : GoError → DialChannelResponse
unfolding error_text is_policy_err
address_response e = record no_response {
  code = if is_policy_err e then permission_err else bad_address_err;
  err = error_text e;
}

-- what is copied after the init message
unfoldable pub start_tunnel : Dialed → Bytes → Bytes → Channel → Channel
start_tunnel connected network addr c = record c { tunnel_state = tunnel network addr }
start_tunnel (failed text op) network addr c = record c { tunnel_state = nil_conn }

-- The body of OnOpen for a channel that is not the control channel.
unfoldable pub handle : Net → Env → List DialPolicy → Bytes → Channel
unfolding send_init_message dial_response address_response start_tunnel
handle net env policies protocol =
    if not env.detach then fresh else elim (get_address net policies protocol) [
      | err e ↦ send_init_message env (address_response e) fresh
      | ok (network, addr) ↦
          let dialed = env.dial network addr in
          let init = dial_response dialed in
          let c = send_init_message env init fresh in
          if not (same init.err []) then c else start_tunnel dialed network addr c
    ]

-- A read from the control channel.
pub data Read : Type 0 where
  byte : ℕ → Read
  eof failure : Read

-- The ping loop of the control channel, as the bytes that it writes back.
unfoldable pub echo : List Read → List ℕ
echo [] = []
echo (byte b ∷ reads) = b ∷ echo reads
echo (eof ∷ reads) = []
echo (failure ∷ reads) = echo reads

-- The dialing end.
pub data DialError : Type 0 where
  create_err wait_err detach_err decode_err timeout : DialError
  remote : Bytes → DialError
  op_error : Bytes → Bytes → Bytes → DialError

-- What arrives first on `errCh` or on the context.
pub data Reply : Type 0 where
  decoded : DialChannelResponse → Reply
  undecodable late : Reply

pub record Opening : Type 0 where
  pub created : Bool
  pub opened : Bool
  pub detached : Bool

-- The goroutine that reads the response, and the select.
unfoldable pub receive : Reply → Result DialError (Unit {0})
unfolding is_dial_err
receive undecodable = err decode_err
receive late = err timeout
receive (decoded res) =
    if same res.err []
    then ok tt
    else if is_dial_err res.code
    then err (op_error res.op res.net res.err)
    else err (remote res.err)

-- DialContext. The number of connClosers comes back with the result: the channel is registered as
-- soon as it is created.
unfoldable pub dial_context : Opening → Reply → ℕ → Result DialError (Unit {0}) × ℕ
unfolding receive
dial_context o reply closers =
    if not o.created
    then (err create_err, closers)
    else if not o.opened
    then (err wait_err, ℕ.suc closers)
    else if not o.detached
    then (err detach_err, ℕ.suc closers)
    else (receive reply, ℕ.suc closers)
