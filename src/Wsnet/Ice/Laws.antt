-- ===== src/Wsnet/Ice/Laws.antt =====
-- Outgoing candidates and connection settings (wsnet/rtc.go).
use coder_cli.Prelude.{
  ◌≡◌, refl, ap, ◌∙◌, ◌↔◌, ◌⊎◌, inl, inr, Bool, true, false, Option, none, some, List, [], ◌∷◌,
  ◌++◌, append-nil, append_assoc, arith,
}
use coder_cli.Prelude.Texts.{Bytes}
use coder_cli.Wsnet.Ice.{
  Queue, no_candidates, on_candidate, flush, gather, Scheme, stun, stuns, turn, turns, Proto,
  IceServer, policy_all, policy_relay, Settings, peer_settings, tune, tune_server, tune_servers,
}

-- The candidates among the calls, in order.
abbrev pub candidates_of : List (Option Bytes) → List Bytes
candidates_of [] = []
candidates_of (none ∷ is) = candidates_of is
candidates_of (some i ∷ is) = i ∷ candidates_of is

abbrev held : List Bytes → List Bytes → Queue
held queue written = record { queue = queue; flushed = false; written = written }

abbrev open_queue : List Bytes → List Bytes → Queue
open_queue queue written = record { queue = queue; flushed = true; written = written }

gather_before :
    (is : List (Option Bytes)) (q w : List Bytes)
    → gather is (held q w) ≡ held (q ++ candidates_of is) w
unfolding gather on_candidate
gather_before [] q w = rw append-nil
gather_before (none ∷ is) q w = gather_before is q w
gather_before (some i ∷ is) q w =
    gather_before is (q ++ i ∷ []) w
    ∙ ap (λ t. held t w) (append_assoc q (i ∷ []) (candidates_of is))

gather_after :
    (is : List (Option Bytes)) (q w : List Bytes)
    → gather is (open_queue q w) ≡ open_queue q (w ++ candidates_of is)
unfolding gather on_candidate
gather_after [] q w = rw append-nil
gather_after (none ∷ is) q w = gather_after is q w
gather_after (some i ∷ is) q w =
    gather_after is q (w ++ i ∷ []) ∙ ap (open_queue q) (append_assoc w (i ∷ []) (candidates_of is))

-- No candidate is written before the flush. With one flush every candidate is written once, in the
-- order in which it was found, whether it came before the flush or after it.
pub gather-flush :
    (before after : List (Option Bytes))
    → ((gather before no_candidates).written ≡ [])
      × ((gather after (flush (gather before no_candidates))).written
          ≡ candidates_of before ++ candidates_of after)
unfolding flush
gather-flush before after =
    rw (gather_before before [] []) (refl, ap (λ (q : Queue). q.written) (gather_after after _ _))

-- The same with candidates that come while something else is written, which the queue is not told of.
pub gather-between :
    (before between after : List (Option Bytes))
    → let q = gather before no_candidates in
      (q.written ≡ [])
      × ((gather after (flush (gather between (record q { written = [] })))).written
          ≡ candidates_of before ++ (candidates_of between ++ candidates_of after))
unfolding flush
gather-between before between after =
    rw (gather_before before [] [], gather_before between (candidates_of before) [])
      (
        refl,
        ap (λ (q : Queue). q.written) (gather_after after _ _)
            ∙ append_assoc (candidates_of before) (candidates_of between) (candidates_of after),
      )

module _ (parse_url : Bytes → Option (Scheme × Proto)) where
  -- The one URL of the one server is a TURN or TURNS URL.
  abbrev pub OnlyTurn : List IceServer → Type 0
  OnlyTurn servers =
      (server : IceServer) × (url : Bytes) × (proto : Proto) × (servers ≡ server ∷ [])
      × (server.urls ≡ url ∷ [])
      × ((parse_url url ≡ some (turn, proto)) ⊎ (parse_url url ≡ some (turns, proto)))

  tune_relay :
      (cred : Bool) (o : Option (Scheme × Proto)) (s : Settings)
      → s.transport_policy ≡ policy_all
      → (tune cred o s).transport_policy ≡ policy_relay
      → (proto : Proto) × ((o ≡ some (turn, proto)) ⊎ (o ≡ some (turns, proto)))
  unfolding tune
  tune_relay cred none s a h = cc
  tune_relay cred (some (turn, proto)) s a h = (proto, inl refl)
  tune_relay cred (some (turns, proto)) s a h = (proto, inr refl)
  tune_relay cred (some (stun, proto)) s a h = ground arith
  tune_relay cred (some (stuns, proto)) s a h = ground arith

  tune_server_relay :
      (server : IceServer) (urls : List Bytes) (s : Settings)
      → server.urls ≡ urls
      → s.transport_policy ≡ policy_all
      → (tune_server parse_url server.has_credential urls s).transport_policy ≡ policy_relay
      → OnlyTurn (server ∷ [])
  unfolding tune_server
  tune_server_relay server [] s e a h = cc
  tune_server_relay server (url ∷ []) s e a h =
      let (proto, is_turn_url) = tune_relay server.has_credential (parse_url url) s a h in
      (server, url, proto, refl, e, is_turn_url)
  tune_server_relay server (url ∷ url' ∷ urls) s e a h = cc

  relay_sound :
      (servers : List IceServer) (s : Settings)
      → s.transport_policy ≡ policy_all
      → (tune_servers parse_url servers s).transport_policy ≡ policy_relay
      → OnlyTurn servers
  unfolding tune_servers
  relay_sound [] s a h = cc
  relay_sound (server ∷ []) s a h = tune_server_relay server server.urls s refl a h
  relay_sound (server ∷ server' ∷ servers) s a h = cc

  relay_complete :
      (servers : List IceServer) (s : Settings)
      → OnlyTurn servers
      → (tune_servers parse_url servers s).transport_policy ≡ policy_relay
  unfolding tune_servers tune_server tune
  relay_complete servers s (server, url, proto, e, u, p) = ground arith

  -- Traffic is forced through a relay exactly where there is one server with one URL, and that is a
  -- TURN or TURNS URL.
  pub peer_settings-relay :
      (servers : List IceServer) (dialer : Bool)
      → ((peer_settings parse_url servers dialer).transport_policy ≡ policy_relay)
        ↔ OnlyTurn servers
  unfolding peer_settings
  peer_settings-relay servers dialer = (relay_sound servers _ refl, relay_complete servers _)
