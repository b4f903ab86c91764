-- ===== src/Wsnet/Ice.antt =====
-- wsnet/rtc.go: the queue of outgoing ICE candidates (proxyICECandidates), and the settings of a
-- new peer connection (newPeerConnection). `parse_url` stands for ice.ParseURL, whose result here is
-- the scheme and the protocol of a URL, none on an error.
pub mod Laws
use coder_cli.Prelude.{
  ℕ, Bool, true, false, not, ◌&&◌, ◌||◌, Option, none, some, List, [], ◌∷◌, ◌++◌, if◌then◌else◌,
}
use coder_cli.Prelude.Texts.{Bytes}

-- The variables that the callback and the returned function share. `written` is what the writer got.
pub record Queue : Type 0 where
  pub queue : List Bytes
  pub flushed : Bool
  pub written : List Bytes

abbrev pub no_candidates : Queue
no_candidates = record { queue = []; flushed = false; written = [] }

-- The callback of OnICECandidate; nil ends the gathering.
unfoldable pub on_candidate : Option Bytes → Queue → Queue
on_candidate none q = q
on_candidate (some i) q =
    if not q.flushed
    then record q { queue = q.queue ++ i ∷ [] }
    else record q { written = q.written ++ i ∷ [] }

-- The function that is returned.
unfoldable pub flush : Queue → Queue
flush q = record q { written = q.written ++ q.queue; flushed = true }

-- The callback is called for each candidate in turn.
unfoldable pub gather : List (Option Bytes) → Queue → Queue
gather [] q = q
gather (i ∷ is) q = gather is (on_candidate i q)

pub data Scheme : Type 0 where
  stun stuns turn turns : Scheme

pub data Proto : Type 0 where
  udp tcp : Proto

pub record IceServer : Type 0 where
  pub urls : List Bytes
  pub username : Bytes
  pub has_credential : Bool

pub data NetworkType : Type 0 where
  udp4 tcp4 tcp6 : NetworkType

pub data TransportPolicy : Type 0 where
  policy_all policy_relay : TransportPolicy

-- What newPeerConnection sets, besides constants.
pub record Settings : Type 0 where
  pub network_types : List NetworkType
  pub proxied : Bool
  pub relay_min_wait_zero : Bool
  pub transport_policy : TransportPolicy

abbrev pub is_turn : Scheme → Bool
is_turn turn = true
is_turn turns = true
is_turn _ = false

abbrev is_tcp : Proto → Bool
is_tcp tcp = true
is_tcp udp = false

-- the two conditional settings for a server with one URL
tune : Bool → Option (Scheme × Proto) → Settings → Settings
tune has_credential none s = s
tune has_credential (some (scheme, proto)) s =
    let s1 =
      if has_credential && is_tcp proto
      then record s { network_types = tcp4 ∷ tcp6 ∷ []; relay_min_wait_zero = true }
      else s in
    if is_turn scheme then record s1 { transport_policy = policy_relay } else s1

module _ (parse_url : Bytes → Option (Scheme × Proto)) where
  -- `len(server.URLs) == 1`
  tune_server : Bool → List Bytes → Settings → Settings
  unfolding tune
  tune_server has_credential [] s = s
  tune_server has_credential (url ∷ []) s = tune has_credential (parse_url url) s
  tune_server has_credential (url ∷ url' ∷ urls) s = s

  -- `len(servers) == 1`
  tune_servers : List IceServer → Settings → Settings
  unfolding tune_server
  tune_servers [] s = s
  tune_servers (server ∷ []) s = tune_server server.has_credential server.urls s
  tune_servers (server ∷ server' ∷ servers) s = s

  -- newPeerConnection up to the call of the library; the Boolean tells that a dialer is given
  unfoldable pub peer_settings : List IceServer → Bool → Settings
  unfolding tune_servers
  peer_settings servers dialer = tune_servers servers (record {
    network_types = udp4 ∷ [];
    proxied = dialer;
    relay_min_wait_zero = false;
    transport_policy = policy_all;
  })
