-- ===== src/Cmd/Satellites/Laws.antt =====
-- A satellite is created only with a key that was confirmed.
use coder_cli.Prelude.{
  ◌≡◌, refl, sym, ◌∙◌, ap, inl, inr, List, Bool-cases, ℕ, ◌≤◌, true, not, leb, Option, none, some,
  [], ◌∷◌, All, length, arith,
}
use coder_cli.Prelude.Texts.{Bytes, same}
use coder_cli.Cmd.Lookup.{first}
use coder_cli.Prelude.Results.{Result, ok, err, guard, guard-true, bind_ok, Result-cases}
use coder_cli.Cmd.Satellites.{
  SatelliteKey, CreateSatelliteReq, SatelliteErr, parse_err, request_err, do_err, bad_status,
  decode_err, no_key, no_fingerprint, scan_err, SatelliteEnv, needed, fetch_key, says_yes,
  get_confirmation, prepare_satellite, create_satellite, Satellite, no_such_name, asked,
  delete_named, rm_satellite,
}

needed_ok : {A : Type 0} (e : SatelliteErr) (m : Option A) (a : A) → needed e m ≡ ok a → m ≡ some a
needed_ok e (some x) a h = cc
needed_ok e none a h = absurd cc

-- A key that the server at the URL gives with a status of success; neither of its fields is empty.
abbrev pub IsServed : SatelliteEnv → Bytes → SatelliteKey → Type 0
IsServed env access_url k =
    (url : Bytes) × (status : ℕ) × (env.key_url access_url ≡ some url)
    × (env.gets url ≡ some (status, some k))
    × (leb status 299 ≡ true)
    × (not (same k.key []) ≡ true)
    × (not (same k.fingerprint []) ≡ true)

abbrev pub IsConfirmed : SatelliteEnv → Type 0
IsConfirmed env = (response : Bytes) × (env.scans ≡ some response) × (says_yes env response ≡ true)

fetch_key_sound :
    (env : SatelliteEnv) (access_url : Bytes) (k : SatelliteKey)
    → fetch_key env access_url ≡ ok k
    → IsServed env access_url k
unfolding fetch_key
fetch_key_sound env access_url k h =
    let (url, hu, h1) = bind_ok (needed parse_err (env.key_url access_url)) _ k h in
    let (_, _, h2) = bind_ok (guard (env.makes_request url) request_err) _ k h1 in
    let (r, hr, h3) = bind_ok (needed do_err (env.gets url)) _ k h2 in
    let (u, hs, h4) = bind_ok (guard (leb r.0 299) bad_status) _ k h3 in
    let (k', hk, h5) = bind_ok (needed decode_err r.1) _ k h4 in
    let (v, hn, h6) = bind_ok (guard (not (same k'.key [])) no_key) _ k h5 in
    let (w, hf, h7) = bind_ok (guard (not (same k'.fingerprint [])) no_fingerprint) _ k h6 in
    let q : k' ≡ k = cc in
    let b : r.1 ≡ some k = needed_ok _ _ _ hk ∙ ap some q in
    (
      url,
      r.0,
      needed_ok _ _ url hu,
      needed_ok _ _ r hr ∙ ap (λ o. some (r.0, o)) b,
      guard-true _ _ u hs,
      ap (λ x. not (same x.key [])) (sym q) ∙ guard-true _ _ v hn,
      ap (λ x. not (same x.fingerprint [])) (sym q) ∙ guard-true _ _ w hf,
    )

get_confirmation_sound :
    (env : SatelliteEnv) (u : Unit {0}) → get_confirmation env ≡ ok u → IsConfirmed env
unfolding get_confirmation
get_confirmation_sound env u h =
    let (r, hr, h1) = bind_ok (needed scan_err env.scans) _ u h in
    (r, needed_ok _ _ r hr, guard-true _ _ u h1)

abbrev pub IsApproved : SatelliteEnv → Bytes → Bytes → CreateSatelliteReq → Type 0
IsApproved env name access_url req =
    (k : SatelliteKey) × (req ≡ record { name = name; public_key = k.key })
    × IsServed env access_url k
    × IsConfirmed env

prepare_satellite_sound :
    (env : SatelliteEnv) (name access_url : Bytes) (req : CreateSatelliteReq)
    → prepare_satellite env name access_url ≡ ok req
    → IsApproved env name access_url req
unfolding prepare_satellite
prepare_satellite_sound env name access_url req h =
    let (k, hk, h1) = bind_ok (fetch_key env access_url) _ req h in
    let (u, hc, h2) = bind_ok (get_confirmation env) _ req h1 in
    let q : record { name = name; public_key = k.key } ≡ req = cc in
    (k, sym q, fetch_key_sound env access_url k hk, get_confirmation_sound env u hc)

-- `satellites create` asks for one satellite at most, with the name that is given and the key that
-- the server at the URL has answered with a status of at most 299, neither key nor fingerprint being
-- empty, and only after the answer to the prompt was y or yes; and it succeeds only if it has asked
-- for one.
pub create_satellite_sound :
    (env : SatelliteEnv) (name access_url : Bytes)
    → All (IsApproved env name access_url) (create_satellite env name access_url).1
      × (length (create_satellite env name access_url).1 ≤ 1)
      × ((create_satellite env name access_url).0 ≡ ok tt
          → length (create_satellite env name access_url).1 ≡ 1)
unfolding create_satellite
create_satellite_sound env name access_url =
    elim (Result-cases (prepare_satellite env name access_url)) [
      | inl (req, e) ↦
          rw (create_satellite, e)
            ((prepare_satellite_sound env name access_url req e, tt), omega arith, λ h. refl)
      | inr (x, e) ↦ rw (create_satellite, e) (tt, omega arith, λ h. absurd cc)
    ]

-- What `satellites rm` does for a satellite that it finds, or for none.
abbrev pub removal : SatelliteEnv → Option Satellite → Result SatelliteErr (Unit {0}) × List Bytes
removal env none = (err no_such_name, [])
removal env (some s) = (asked (env.deletes s.id), s.id ∷ [])

delete_named-first :
    (env : SatelliteEnv) (name : Bytes) (sats : List Satellite)
    → delete_named env name sats ≡ removal env (first (λ s. same s.name name) sats)
unfolding delete_named
delete_named-first env name [] = refl
delete_named-first env name (s ∷ ss) = elim (Bool-cases (same s.name name)) [
  | inl e ↦ rw (first, e) refl
  | inr e ↦ rw (first, e) (delete_named-first env name ss)
]

-- `satellites rm` deletes the first satellite that has the name, and no other.
rm_satellite-first :
    (env : SatelliteEnv) (name : Bytes) (sats : List Satellite)
    → env.satellites ≡ ok sats
    → rm_satellite env name ≡ removal env (first (λ s. same s.name name) sats)
unfolding rm_satellite
rm_satellite-first env name sats h = rw (rm_satellite, h) (delete_named-first env name sats)
