-- ===== src/Tests/Peers.antt =====
-- Inputs for the handshake and the settings of peer connections (wsnet/dial.go, wsnet/listen.go and
-- wsnet/rtc.go).
use coder_cli.Prelude.{◌≡◌, refl, true, false, ℕ_discrete, Option, some, List, [], ◌∷◌, ◌++◌, map}
use coder_cli.Prelude.Texts.{Bytes, codes, Bytes-discrete}
use coder_cli.Wsnet.Ice.{Scheme, turn, Proto, tcp, IceServer}
use coder_cli.Wsnet.Negotiate.{eof, broken, Library}
use coder_cli.Wsnet.Negotiate.Dialer.Delivery.{
  Signal, offers, answers, as_message, Accepts, run-candidates,
}
use coder_cli.Wsnet.Negotiate.Listener.{Env, Input, decoded, changes, connecting}
use coder_cli.Wsnet.Negotiate.Listener.Delivery.{offered, offer_message, Willing, after, run-offer}
use coder_cli.Wsnet.Negotiate.Dialer
use coder_cli.Wsnet.Negotiate.Dialer.Laws
use coder_cli.Wsnet.Negotiate.Listener

abbrev open_library : Library
open_library = record { accepts_candidate = λ c. true; accepts_description = λ d. true }

open_library-Accepts : Accepts open_library
open_library-Accepts = record { candidate = λ c. refl; description = λ d. refl }

-- It refuses every candidate.
abbrev strict_library : Library
strict_library = record { accepts_candidate = λ c. false; accepts_description = λ d. true }

abbrev signals : List Signal
signals = offers 97 [] ∷ answers (codes "sdp") ∷ offers 98 [] ∷ []

run-IsGood_example :
    Dialer.Laws.IsGood
      (Dialer.run strict_library (map as_message signals ++ broken ∷ []) Dialer.Laws.start)
run-IsGood_example = Dialer.Laws.run-IsGood strict_library (map as_message signals ++ broken ∷ [])

run-candidates_example :
    let l =
      Dialer.run open_library (map as_message signals ++ eof ∷ broken ∷ []) Dialer.Laws.start in
    (l.status ≡ Dialer.ended) × (l.rtc.added ≡ (97 ∷ []) ∷ (98 ∷ []) ∷ []) × (l.pending ≡ [])
run-candidates_example = run-candidates open_library open_library-Accepts signals (broken ∷ [])

abbrev relay_server : IceServer
relay_server = record { urls = codes "turn:host" ∷ []; username = []; has_credential = true }

abbrev willing_env : Env
willing_env = record {
  lib = open_library;
  dial_ice = λ s. true;
  parses_url = λ u. true;
  makes_peer = λ s. true;
  create_answer = λ d. some (codes "answer");
  set_local = λ a. true;
  marshals = true;
  writes = true;
  connected = false;
}

willing_env-Willing :
    Willing willing_env (codes "sdp") (relay_server ∷ []) (codes "wss://turn") (codes "answer")
unfolding Listener.validates Bytes-discrete ℕ_discrete
willing_env-Willing = record {
  accepts = open_library-Accepts;
  valid = refl;
  parses = refl;
  peers = refl;
  answers = refl;
  local = refl;
  marshal = refl;
  write = refl;
}

-- An offer, the peers connecting, and a candidate behind which the stream breaks.
abbrev inputs : List Input
inputs =
    decoded (offer_message (codes "sdp") (relay_server ∷ []) (codes "wss://turn"))
    ∷ changes connecting
    ∷ decoded (offered (98, []))
    ∷ decoded broken
    ∷ []

run-offer_example :
    Listener.run willing_env
      (offered (97, [])
        ∷ offer_message (codes "sdp") (relay_server ∷ []) (codes "wss://turn")
        ∷ offered (98, [])
        ∷ [])
      Listener.Laws.start
    ≡ after willing_env
        (codes "sdp")
        (relay_server ∷ [])
        (codes "wss://turn")
        (codes "answer")
        willing_env-Willing
        ((97 ∷ []) ∷ (98 ∷ []) ∷ [])
run-offer_example =
    run-offer willing_env (codes "sdp") (relay_server ∷ []) (codes "wss://turn") (codes "answer")
      willing_env-Willing ((97, []) ∷ []) ((98, []) ∷ [])

abbrev as_turn : Bytes → Option (Scheme × Proto)
as_turn url = some (turn, tcp)
