-- ===== src/Wsnet/Dialable.antt =====
-- DialICE of wsnet/rtc.go: whether ICE servers can be dialed.
--
-- `IceNet` stands for the packages ice, net, dtls, tls and turn; it does not answer a second call
-- otherwise than the first. `allocate` asks for an allocation, and `open_allocation` is what it gives. A
-- call that opens something is recorded, and so is its close.
pub mod Laws
use coder_cli.Prelude.{
  Bool, true, false, ◌&&◌, Option, none, some, List, [], ◌∷◌, ◌++◌, if◌then◌else◌,
}
use coder_cli.Prelude.Texts.{Bytes, codes, contains}
use coder_cli.Prelude.Results.{Result, ok, err}
use coder_cli.Wsnet.Ice.{Scheme, Proto, is_turn}

pub data IceErr : Type 0 where
  parse_err transport_err client_err listen_err : IceErr
  mismatched_protocol invalid_credentials panics : IceErr
  binding_err alloc_err : Bytes → IceErr

-- webrtc.ICEServer; the credential is nil, is set with another type than that of a
-- password, or with that type, as a text or as something else
pub data Credential : Type 0 where
  no_credential other_credential bad_password : Credential
  password : Bytes → Credential

pub record Server : Type 0 where
  pub urls : List Bytes
  pub username : Bytes
  pub credential : Credential

-- The last two give the text of an error.
pub record IceNet : Type 0 where
  pub parse_url : Bytes → Option (Scheme × Proto)
  pub opens : Bool → Bytes → Bool
  pub makes_client : Bytes → Bytes → Bytes → Bool
  pub listens : Bytes → Bool
  pub binding : Bytes → Option Bytes
  pub allocate : Bytes → Bytes → Bytes → Option Bytes

pub data Call : Type 0 where
  open_conn close_conn make_client close_client bind : Call
  open_allocation close_allocation : Call
  allocate : Bytes → Bytes → Call

-- The type assertion on the credential panics; what is deferred is done all the same.
abbrev pub assertion_fails : Credential → Bool
assertion_fails bad_password = true
assertion_fails _ = false

-- the variable `pass`
abbrev pub pass_of : Credential → Bytes
pass_of (password p) = p
pass_of _ = []

abbrev pub Dialed : Type 0
Dialed = Result IceErr (Unit {0}) × List Call

-- A deferred close of what a call has opened.
abbrev pub within : Call → Dialed → Call → Dialed
within before d after = (d.0, before ∷ (d.1 ++ after ∷ []))

module _ (net : IceNet) (skip_verify : Bool) (server : Server) where
  -- The allocation, which only TURN servers are asked for.
  unfoldable pub check_allocation : Bytes → Scheme → Dialed
  check_allocation url scheme =
      if is_turn scheme
      then elim (net.allocate url server.username (pass_of server.credential)) [
        | none ↦ (
          ok tt,
          allocate server.username (pass_of server.credential)
              ∷ (within open_allocation (ok tt, []) close_allocation).1,
        )
        | some text ↦ (
          if contains text (codes "error 400")
              then err invalid_credentials
              else if contains text (codes "retransmissions failed")
              then err mismatched_protocol
              else err (alloc_err text),
          allocate server.username (pass_of server.credential) ∷ [],
        )
      ]
      else (ok tt, [])

  -- The binding request, and what follows it.
  unfoldable pub check_binding : Bytes → Scheme → Dialed
  unfolding check_allocation
  check_binding url scheme = elim (net.binding url) [
    | none ↦ let d = check_allocation url scheme in (d.0, bind ∷ d.1)
    | some text ↦ (
      if contains text (codes "retransmissions failed")
          then err mismatched_protocol
          else err (binding_err text),
      bind ∷ [],
    )
  ]

  unfoldable pub check_client : Bytes → Scheme → Dialed
  unfolding check_binding
  check_client url scheme =
      if assertion_fails server.credential
      then (err panics, [])
      else if net.makes_client url server.username (pass_of server.credential)
      then within make_client
          (if net.listens url then check_binding url scheme else (err listen_err, [])) close_client
      else (err client_err, [])

  -- dialICEURL
  unfoldable pub dial_ice_url : Bytes → Dialed
  unfolding check_client
  dial_ice_url url = elim (net.parse_url url) [
    | none ↦ (err parse_err, [])
    | some (scheme, proto) ↦
        if net.opens skip_verify url
        then within open_conn (check_client url scheme) close_conn
        else (err transport_err, [])
  ]

  -- The loop of DialICE.
  unfoldable pub dial_urls : List Bytes → Dialed
  unfolding dial_ice_url
  dial_urls [] = (ok tt, [])
  dial_urls (url ∷ urls) =
      let d = dial_ice_url url in
      let rest = dial_urls urls in
      elim (d.0) [ err e ↦ (err e, d.1) | ok u ↦ (rest.0, d.1 ++ rest.1) ]

  -- DialICE
  abbrev pub dial_ice : Dialed
  dial_ice = dial_urls server.urls
