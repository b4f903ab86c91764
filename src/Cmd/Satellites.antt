-- ===== src/Cmd/Satellites.antt =====
-- The handlers of internal/cmd/satellites.go.
--
-- `SatelliteEnv` stands for net/url, net/http, encoding/json, fmt.Scanln and strings, and for the
-- client.
pub mod Laws
use coder_cli.Prelude.{ℕ, Bool, not, leb, ◌||◌, Option, none, some, List, [], ◌∷◌, if◌then◌else◌}
use coder_cli.Prelude.Texts.{Bytes, codes, same}
use coder_cli.Prelude.Results.{Result, ok, err, ◌>>=◌, ◌>>◌, guard}
use coder_cli.Cmd.Api.{CmdError, Answer}

pub record Satellite : Type 0 where
  pub id : Bytes
  pub name : Bytes
  pub fingerprint : Bytes

-- satelliteKeyResponse
pub record SatelliteKey : Type 0 where
  pub key : Bytes
  pub fingerprint : Bytes

pub record CreateSatelliteReq : Type 0 where
  pub name : Bytes
  pub public_key : Bytes

pub data SatelliteErr : Type 0 where
  parse_err request_err do_err bad_status decode_err : SatelliteErr
  no_key no_fingerprint scan_err canceled : SatelliteErr
  none_found no_such_name : SatelliteErr
  api_err : CmdError → SatelliteErr

-- `key_url` parses a URL and gives its text with the path of the key; `gets` gives the status and what
-- the body decodes to.
pub record SatelliteEnv : Type 0 where
  pub key_url : Bytes → Option Bytes
  pub makes_request : Bytes → Bool
  pub gets : Bytes → Option (ℕ × Option SatelliteKey)
  pub scans : Option Bytes
  pub lower_trimmed : Bytes → Bytes
  pub creates : CreateSatelliteReq → Answer (Unit {0})
  pub satellites : Answer (List Satellite)
  pub deletes : Bytes → Answer (Unit {0})

abbrev pub needed : {A : Type 0} → SatelliteErr → Option A → Result SatelliteErr A
needed e none = err e
needed e (some a) = ok a

abbrev pub asked : {A : Type 0} → Answer A → Result SatelliteErr A
asked (ok a) = ok a
asked (err e) = err (api_err e)

module _ (env : SatelliteEnv) where
  -- The request for the key, with its tests.
  unfoldable pub fetch_key : Bytes → Result SatelliteErr SatelliteKey
  fetch_key access_url = do
    url ← needed parse_err (env.key_url access_url)
    guard (env.makes_request url) request_err
    (status, body) ← needed do_err (env.gets url)
    guard (leb status 299) bad_status
    k ← needed decode_err body
    guard (not (same k.key [])) no_key
    guard (not (same k.fingerprint [])) no_fingerprint
    ok k

  -- the answers that confirm
  abbrev pub says_yes : Bytes → Bool
  says_yes response =
      same (env.lower_trimmed response) (codes "y")
      || same (env.lower_trimmed response) (codes "yes")

  -- getConfirmation
  unfoldable pub get_confirmation : Result SatelliteErr (Unit {0})
  get_confirmation = do response ← needed scan_err env.scans; guard (says_yes response) canceled

  -- the handler of `satellites create` up to its request
  unfoldable pub prepare_satellite : Bytes → Bytes → Result SatelliteErr CreateSatelliteReq
  unfolding fetch_key get_confirmation
  prepare_satellite name access_url = do
    k ← fetch_key access_url
    get_confirmation
    ok (record { name = name; public_key = k.key })

  -- the handler of `satellites create`
  unfoldable pub create_satellite :
      Bytes → Bytes → Result SatelliteErr (Unit {0}) × List CreateSatelliteReq
  unfolding prepare_satellite
  create_satellite name access_url = elim (prepare_satellite name access_url) [
    | err e ↦ (err e, [])
    | ok req ↦ (asked (env.creates req), req ∷ [])
  ]

  -- the handler of `satellites ls`: the rows
  unfoldable pub list_satellites : Result SatelliteErr (List Satellite)
  list_satellites = do
    sats ← asked env.satellites
    elim sats [ [] ↦ err none_found | s ∷ ss ↦ ok (s ∷ ss) ]

  -- the loop of `satellites rm`: its result, and the ids that it deletes
  unfoldable pub delete_named : Bytes → List Satellite → Result SatelliteErr (Unit {0}) × List Bytes
  delete_named name [] = (err no_such_name, [])
  delete_named name (s ∷ ss) =
      let rest = delete_named name ss in
      if same s.name name then (asked (env.deletes s.id), s.id ∷ []) else rest

  -- the handler of `satellites rm`
  unfoldable pub rm_satellite : Bytes → Result SatelliteErr (Unit {0}) × List Bytes
  unfolding delete_named
  rm_satellite name = elim (asked env.satellites) [
    | err e ↦ (err e, [])
    | ok sats ↦ delete_named name sats
  ]
