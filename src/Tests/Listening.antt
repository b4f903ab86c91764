-- ===== src/Tests/Listening.antt =====
-- Inputs for the listener's loop, the check of ICE servers and the dialer.
use coder_cli.Prelude.{◌≡◌, refl, true, false, none, some, [], ◌∷◌, All, inr}
use coder_cli.Prelude.Texts.{codes}
use coder_cli.Prelude.Results.{ok}
use coder_cli.Wsnet.Ice.{turn, udp}
use coder_cli.Wsnet.Listen.{
  Listener, refused, no_socket, no_session, session, new_listener, drained, live, reading, retrying,
  dial, listen, received, ticked, Reach, here, next, session_ends, ticks,
}
use coder_cli.Wsnet.Listen.Laws.{
  OneSocket, Connected, retry, said, Reach-OneSocket, retry-Connected, context_done-Reach,
}
use coder_cli.Wsnet.Dialable.{IceNet, Server, password, dial_ice}
use coder_cli.Wsnet.Dialable.Laws.{IsBalanced, IsEntitled, dial_ice_sound}
use coder_cli.Wsnet.Dial.{DialEnv, DialOptions}
use coder_cli.Wsnet.Dial
use coder_cli.Wsnet.Dial.Laws.{SentInOrder, dial-SentInOrder}

abbrev started : Listener
started = (dial session new_listener).1

starts : listen session ≡ ok (started, reading live)
unfolding listen dial
starts = refl

lost : Reach (started, reading live) (ticked session (received true drained started).0)
unfolding received dial
lost =
    next (next here (session_ends started))
      (ticks session drained (received true drained started).0)

Reach-OneSocket_example : OneSocket (ticked session (received true drained started).0).0
Reach-OneSocket_example = Reach-OneSocket session (started, reading live) starts lost

one_socket : OneSocket started
unfolding dial
one_socket = inr (0, refl, refl)

retry-Connected_example :
    (l : Listener) × (retry
        (no_socket refused ∷ no_session ∷ session ∷ [])
        (started, retrying drained)
      ≡ (l, reading live))
    × Connected l
    × (l.closed ≡ started.closed)
retry-Connected_example =
    retry-Connected (no_socket refused ∷ no_session ∷ []) drained started (refl, (tt, tt))
      one_socket

open_still : started.closed ≡ false
unfolding dial
open_still = refl

context_done-Reach_example : Reach (started, retrying drained) (said 4 started, reading drained)
context_done-Reach_example = context_done-Reach 3 started open_still

abbrev ice_net : IceNet
ice_net = record {
  parse_url = λ url. some (turn, udp);
  opens = λ skip url. true;
  makes_client = λ url name pass. true;
  listens = λ url. true;
  binding = λ url. none;
  allocate = λ url name pass. some (codes "error 400");
}

abbrev turn_server : Server
turn_server = record {
  urls = codes "turn:a" ∷ [];
  username = codes "u";
  credential = password (codes "p");
}

dial_ice_sound_example :
    IsBalanced (dial_ice ice_net false turn_server).1
    × All (IsEntitled true turn_server) (dial_ice ice_net false turn_server).1
dial_ice_sound_example = dial_ice_sound ice_net false turn_server

abbrev dial_env : DialEnv
dial_env = record {
  makes_peer = true;
  makes_control = true;
  makes_offer = some (codes "offer");
  sets_local = true;
  marshals = true;
  writes = true;
  early = some (codes "a") ∷ none ∷ [];
  between = some (codes "c") ∷ [];
  late = some (codes "b") ∷ [];
}

abbrev dial_options : DialOptions
dial_options = record {
  ice_servers = none;
  turn_proxy_auth_token = codes "t";
  turn_remote_proxy_url = some (codes "https://coder");
  turn_local_proxy_url = none;
}

dial-SentInOrder_example : SentInOrder dial_env dial_options (Dial.dial dial_env dial_options)
dial-SentInOrder_example = dial-SentInOrder dial_env dial_options
