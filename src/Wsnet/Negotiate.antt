-- ===== src/Wsnet/Negotiate.antt =====
-- The handshake over the broker: BrokerMessage of wsnet/proto.go, and what the two negotiation loops
-- share. The loops are Dialer.negotiate of wsnet/dial.go (in `Dialer`) and listener.negotiate of
-- wsnet/listen.go (in `Listener`).
--
-- A peer connection is the remote description that it was given and the ICE candidates that it
-- accepted. Whether the library accepts one is decided by `Rtc`'s functions.
pub mod Dialer
pub mod Listener
use coder_cli.Prelude.{
  ℕ, is_set, ◌≡◌, ◌⊎◌, Bool, true, false, Option, none, some, List, [], ◌∷◌, ◌++◌, if◌then◌else◌,
}
use coder_cli.Prelude.Texts.{Bytes}
use coder_cli.Wsnet.Proto.{DialPolicy}
use coder_cli.Wsnet.Ice.{IceServer}

-- Pointers are options, and so is the slice `servers`, which is tested for nil.
pub record BrokerMessage : Type 0 where
  pub offer : Option Bytes
  pub servers : Option (List IceServer)
  pub turn_proxy_url : Bytes
  pub policies : List DialPolicy
  pub error : Bytes
  pub answer : Option Bytes
  pub candidate : Bytes

-- What decoding the next message gives.
pub data Decode : Type 0 where
  message : BrokerMessage → Decode
  eof broken : Decode

-- What the library accepts.
pub record Library : Type 0 where
  pub accepts_candidate : Bytes → Bool
  pub accepts_description : Bytes → Bool

pub record Rtc : Type 0 where
  pub remote : Option Bytes
  pub added : List Bytes

abbrev pub new_rtc : Rtc
new_rtc = record { remote = none; added = [] }

module _ (lib : Library) where
  -- AddICECandidate
  unfoldable pub add_candidate : Bytes → Rtc → Bool × Rtc
  add_candidate c rtc =
      if lib.accepts_candidate c
      then (true, record rtc { added = rtc.added ++ c ∷ [] })
      else (false, rtc)

  -- the loop over the pending candidates, which ends at the first error
  unfoldable pub add_all : List Bytes → Rtc → Bool × Rtc
  unfolding add_candidate
  add_all [] rtc = (true, rtc)
  add_all (c ∷ cs) rtc = elim (lib.accepts_candidate c) [
    | true ↦ add_all cs (record rtc { added = rtc.added ++ c ∷ [] })
    | false ↦ (false, rtc)
  ]

  -- SetRemoteDescription
  unfoldable pub set_remote : Bytes → Rtc → Bool × Rtc
  set_remote d rtc =
      if lib.accepts_description d then (true, record rtc { remote = some d }) else (false, rtc)

-- No candidate is added before the remote description is known.
abbrev pub IsOrdered : Rtc → Type 0
IsOrdered rtc = (rtc.added ≡ []) ⊎ (is_set rtc.remote ≡ true)
