-- ===== src/Tests/Broker.antt =====
-- Inputs for wsnet/proto.go and for one data channel (wsnet/listen.go and wsnet/dial.go).
use coder_cli.Prelude.{
  ◌≡◌, refl, inl, inr, Bool, true, false, ℕ_discrete, Option, none, some, List, [], ◌∷◌, ◌++◌,
}
use coder_cli.Prelude.Texts.{Bytes, codes, same, Bytes-discrete, cut_first, cut_last}
use coder_cli.Prelude.Results.{ok, err}
use coder_cli.Wsnet.Proto.{
  Net, DialPolicy, errorf, atoi, read_digits, parse_port, split_host_port, join_host_port,
  canonicalize_host, permits, get_address,
}
use coder_cli.Wsnet.Proto.Laws.{Permits, Granted, get_address_sound, get_address_complete}
use coder_cli.Wsnet.Channel.{DialChannelResponse, failed, Env, handle, decoded, dial_context}
use coder_cli.Wsnet.Channel.Laws.{IsUp, Agree, all_open, dial_context-handle}

abbrev quoting : Net
quoting = record {
  quote = λ s. b'"' ∷ s ++ b'"' ∷ [];
  loopback = λ s. if_ip (same s (codes "127.0.0.1"));
}
  where
    if_ip : Bool → Option Bool
    if_ip true = some true
    if_ip false = none

abbrev local_policies : List DialPolicy
local_policies = record { network = codes "tcp"; host = codes "localhost"; port = 80 } ∷ []

abbrev local_protocol : Bytes
local_protocol = codes "tcp:127.0.0.1:80"

local_address :
    get_address quoting local_policies local_protocol ≡ ok (codes "tcp", codes "127.0.0.1:80")
unfolding get_address permits canonicalize_host parse_port atoi read_digits split_host_port
    join_host_port cut_first cut_last Bytes-discrete ℕ_discrete
local_address = refl

-- Another port is refused.
refused_address :
    get_address quoting local_policies (codes "tcp:127.0.0.1:81")
    ≡ err (errorf (codes "connections are not permitted to \"tcp:127.0.0.1:81\" by policy"))
unfolding get_address permits canonicalize_host parse_port atoi read_digits split_host_port
    join_host_port cut_first cut_last Bytes-discrete ℕ_discrete
refused_address = refl

get_address_sound_example :
    Granted quoting local_policies local_protocol (codes "tcp", codes "127.0.0.1:80")
get_address_sound_example = get_address_sound quoting local_policies local_protocol local_address

local-Permits :
    Permits quoting
      (record { network = codes "tcp"; host = codes "localhost"; port = 80 })
      (codes "tcp")
      (codes "127.0.0.1")
      80
unfolding canonicalize_host Bytes-discrete ℕ_discrete
local-Permits = (inr refl, inr refl, inr refl)

port_80 : parse_port (codes "80") ≡ some 80
unfolding parse_port atoi read_digits
port_80 = refl

get_address_complete_example :
    get_address quoting local_policies
      (codes "tcp" ++ b':' ∷ join_host_port (codes "127.0.0.1") (codes "80"))
    ≡ ok (codes "tcp", join_host_port (codes "127.0.0.1") (codes "80"))
get_address_complete_example =
    get_address_complete quoting local_policies (codes "tcp") (codes "127.0.0.1") (codes "80") 80
      (λ e. cc) refl ((λ e. cc), refl, refl, refl) port_80
      (inr (
        record { network = codes "tcp"; host = codes "localhost"; port = 80 },
        inl refl,
        local-Permits,
      ))

abbrev failing_env : Env
failing_env = record {
  detach = true;
  marshal = true;
  write = true;
  dial = λ network addr. failed (codes "refused") none;
}

failing_env-IsUp : IsUp failing_env
failing_env-IsUp = record {
  detaches = refl;
  marshals = refl;
  writes = refl;
  explains = λ network addr text op e q. cc;
}

dial_context-handle_example :
    let c = handle quoting failing_env local_policies local_protocol in
    (m : DialChannelResponse) × (c.sent ≡ m ∷ [])
    × Agree failing_env
        (get_address quoting local_policies local_protocol)
        (dial_context all_open (decoded m) 0).0
        c
dial_context-handle_example =
    dial_context-handle quoting failing_env local_policies local_protocol failing_env-IsUp 0
