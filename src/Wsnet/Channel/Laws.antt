-- ===== src/Wsnet/Channel/Laws.antt =====
-- What one end of a data channel tells the other (wsnet/listen.go, wsnet/dial.go).
use coder_cli.Prelude.{
  ℕ, ◌≡◌, refl, ap, ◌≢◌, Bool, true, false, not, Option, none, some, List, [], ◌∷◌, ◌++◌,
  if◌then◌else◌, arith, All,
}
use coder_cli.Prelude.Texts.{Bytes, Bytes-discrete, same}
use coder_cli.Prelude.Results.{Result, ok, err}
use coder_cli.Wsnet.Proto.{Net, DialPolicy, GoError, errorf, policy_err, get_address}
use coder_cli.Wsnet.Proto.Laws.{get_address-ne-policy_err, get_address-text}
use coder_cli.Wsnet.Channel.{
  permission_err, DialChannelResponse, Dialed, connected, failed, Tunnel, idle, tunnel, Channel,
  fresh, Env, error_text, send_init_message, dial_response, address_response, start_tunnel, handle,
  Read, byte, eof, failure, echo, DialError, remote, op_error, decoded, receive, dial_context,
  Opening,
}

-- Whether a call returned a connection.
abbrev pub is_ok {ℓ} : {A : Type ℓ} → Result DialError A → Bool
is_ok (ok a) = true
is_ok (err e) = false

-- Nothing hinders the dialing end.
abbrev pub all_open : Opening
all_open = record { created = true; opened = true; detached = true }

-- The bytes among some reads.
abbrev pub bytes_of : List Read → List ℕ
bytes_of [] = []
bytes_of (byte b ∷ reads) = b ∷ bytes_of reads
bytes_of (_ ∷ reads) = bytes_of reads

abbrev NotPermission : DialChannelResponse → Type 0
NotPermission r = r.code ≢ permission_err

send_init_message-All :
    (env : Env) (init : DialChannelResponse)
    → NotPermission init
    → All NotPermission (send_init_message env init fresh).sent
unfolding send_init_message
send_init_message-All env init h = ground arith

start_tunnel-sent :
    (d : Dialed) (network addr : Bytes) (c : Channel)
    → (start_tunnel d network addr c).sent ≡ c.sent
unfolding start_tunnel
start_tunnel-sent connected network addr c = refl
start_tunnel-sent (failed text op) network addr c = refl

dial_response-NotPermission : (d : Dialed) → NotPermission (dial_response d)
unfolding dial_response
dial_response-NotPermission connected = λ e. cc
dial_response-NotPermission (failed text none) = λ e. cc
dial_response-NotPermission (failed text (some op)) = λ e. cc

address_response-NotPermission :
    (e : GoError) → ((p : Bytes) → e ≢ policy_err p) → NotPermission (address_response e)
unfolding address_response
address_response-NotPermission (errorf text) h = λ e. cc
address_response-NotPermission (policy_err p) h = absurd (h p refl)

-- No message that the listener sends carries the code `permission_error`, whatever the policies.
pub handle-not_permission_err :
    (net : Net) (env : Env) (policies : List DialPolicy) (protocol : Bytes)
    → All (λ r. r.code ≢ permission_err) (handle net env policies protocol).sent
unfolding handle
handle-not_permission_err net env policies protocol = go (get_address net policies protocol) refl
  where
    go :
        (r : Result GoError (Bytes × Bytes))
        → get_address net policies protocol ≡ r
        → All NotPermission (handle net env policies protocol).sent
    go (err e) h =
        rw (h, handle)
          (ground (
            arith,
            send_init_message-All env (address_response e) (
                address_response-NotPermission e
                  (λ p q. get_address-ne-policy_err net policies protocol p (cc))),
          ))
    go (ok (network, addr)) h =
        rw (h, handle)
          (ground (
            arith,
            send_init_message-All env (dial_response (env.dial network addr))
                (dial_response-NotPermission (env.dial network addr)),
            start_tunnel-sent (env.dial network addr) network addr
                (send_init_message env (dial_response (env.dial network addr)) fresh),
          ))

-- Everything that the listener needs of the library works, and a failed net.Dial says why.
pub record IsUp (env : Env) : Type 0 where
  pub detaches : env.detach ≡ true
  pub marshals : env.marshal ≡ true
  pub writes : env.write ≡ true
  pub explains :
      (network addr text : Bytes) (op : Option (Bytes × Bytes))
      → env.dial network addr ≡ failed text op
      → text ≢ []

-- The result that the dialing end should see for a net.Dial on the listening end.
abbrev pub dial_result : Dialed → Result DialError (Unit {0})
dial_result connected = ok tt
dial_result (failed text none) = err (op_error [] [] text)
dial_result (failed text (some (net, op))) = err (op_error op net text)

abbrev pub tunnel_of : Dialed → Bytes → Bytes → Tunnel
tunnel_of connected network addr = tunnel network addr
tunnel_of (failed text op) network addr = idle

-- The dialing end, the channel of the listening end and the address agree.
abbrev pub Agree :
    Env → Result GoError (Bytes × Bytes) → Result DialError (Unit {0}) → Channel → Type 0
Agree env (err e) seen c =
    (seen ≡ err (remote (error_text e))) × (c.tunnel_state ≡ idle) × (c.dc_closed ≡ true)
Agree env (ok (network, addr)) seen c =
    (seen ≡ dial_result (env.dial network addr))
    × (c.tunnel_state ≡ tunnel_of (env.dial network addr) network addr)
    × (c.dc_closed ≡ not (is_ok seen))

sent_once : DialChannelResponse → Channel
sent_once init = record fresh { sent = init ∷ []; dc_closed = not (same init.err []) }

send_init_message-IsUp :
    (env : Env) (init : DialChannelResponse)
    → IsUp env
    → send_init_message env init fresh ≡ sent_once init
unfolding send_init_message sent_once
send_init_message-IsUp env init up = ground (arith, up.marshals, up.writes)

module _ (net : Net) (env : Env) (policies : List DialPolicy) (protocol : Bytes)
    (up : IsUp env) where
  handle-refused :
      (e : GoError)
      → get_address net policies protocol ≡ err e
      → handle net env policies protocol ≡ sent_once (address_response e)
  unfolding handle
  handle-refused e h =
      ground (arith, h, up.detaches, send_init_message-IsUp env (address_response e) up)

  said : (text : Bytes) → get_address net policies protocol ≡ err (errorf text) → text ≢ []
  said text h = get_address-text net policies protocol text h

  refused :
      (e : GoError)
      → get_address net policies protocol ≡ err e
      → let c = handle net env policies protocol in
        (m : DialChannelResponse) × (c.sent ≡ m ∷ []) × Agree env (err e) (receive (decoded m)) c
  unfolding receive sent_once address_response
  refused (policy_err p) h = absurd (get_address-ne-policy_err net policies protocol p h)
  refused (errorf text) h = rw (handle-refused (errorf text) h) (
    address_response (errorf text),
    refl,
    (ground (arith, said text h), refl, ground (arith, said text h)),
  )

  handle-dialed :
      (network addr : Bytes)
      → get_address net policies protocol ≡ ok (network, addr)
      → let init = dial_response (env.dial network addr) in
        handle net env policies protocol ≡ (
          if same init.err []
          then start_tunnel (env.dial network addr) network addr (sent_once init)
          else sent_once init)
  unfolding handle
  handle-dialed network addr h =
      ground (
        arith,
        h,
        up.detaches,
        send_init_message-IsUp env (dial_response (env.dial network addr)) up,
      )

  dialed :
      (network addr : Bytes)
      → get_address net policies protocol ≡ ok (network, addr)
      → let c = handle net env policies protocol in
        (m : DialChannelResponse) × (c.sent ≡ m ∷ [])
        × Agree env (ok (network, addr)) (receive (decoded m)) c
  unfolding receive sent_once dial_response start_tunnel Bytes-discrete
  dialed network addr h =
      rw (handle-dialed network addr h) (go (env.dial network addr) (up.explains network addr))
    where
      go :
          (d : Dialed)
          → ((text : Bytes) (op : Option (Bytes × Bytes)) → d ≡ failed text op → text ≢ [])
          → let init = dial_response d in
            let c =
              if same init.err []
              then start_tunnel d network addr (sent_once init)
              else sent_once init in
            (m : DialChannelResponse) × (c.sent ≡ m ∷ [])
            × ((receive (decoded m) ≡ dial_result d)
                × (c.tunnel_state ≡ tunnel_of d network addr)
                × (c.dc_closed ≡ not (is_ok (receive (decoded m)))))
      go connected e = (dial_response connected, refl, (refl, refl, refl))
      go (failed text none) e =
          let f = e text none refl in
          (
            dial_response (failed text none),
            ground arith,
            (ground arith, ground arith, ground arith),
          )
      go (failed text (some (n, op))) e =
          let f = e text (some (n, op)) refl in
          (
            dial_response (failed text (some (n, op))),
            ground arith,
            (ground arith, ground arith, ground arith),
          )

  -- Where the library works on the listening side, one message is sent, and what the dialing side
  -- makes of it agrees with what happened: it gets a connection exactly where the listener dialed
  -- the address and copies to it, the fields of a net.OpError where net.Dial failed with one, the
  -- text of the refusal where the address was refused, and the channel is closed on an error alone.
  pub dial_context-handle :
      (closers : ℕ)
      → let c = handle net env policies protocol in
        (m : DialChannelResponse) × (c.sent ≡ m ∷ [])
        × Agree env
            (get_address net policies protocol)
            (dial_context all_open (decoded m) closers).0
            c
  unfolding dial_context
  dial_context-handle closers = go (get_address net policies protocol) refl
    where
      go :
          (r : Result GoError (Bytes × Bytes))
          → get_address net policies protocol ≡ r
          → let c = handle net env policies protocol in
            (m : DialChannelResponse) × (c.sent ≡ m ∷ [])
            × Agree env (get_address net policies protocol) (receive (decoded m)) c
      go (err e) h = rw h (refused e h)
      go (ok (network, addr)) h = rw h (dialed network addr h)

-- The ping loop writes back every byte that is read before the end of the channel, in order, and
-- nothing after it; failed reads in between are skipped.
pub echo-append :
    (reads rest : List Read)
    → All (λ r. r ≢ eof) reads
    → echo (reads ++ eof ∷ rest) ≡ bytes_of reads
unfolding echo
echo-append [] rest h = refl
echo-append (byte b ∷ reads) rest h = ap (λ t. b ∷ t) (echo-append reads rest h.1)
echo-append (eof ∷ reads) rest h = absurd (h.0 refl)
echo-append (failure ∷ reads) rest h = echo-append reads rest h.1
