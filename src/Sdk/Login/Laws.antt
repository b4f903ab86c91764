-- ===== src/Sdk/Login/Laws.antt =====
-- A client that is made can authenticate.
use coder_cli.Prelude.{
  ◌≡◌, sym, ◌⊎◌, inl, inr, Bool, true, false, not, ◌&&◌, Option, none, some, [], arith, Bool-cases,
}
use coder_cli.Prelude.Texts.{Bytes, same, same-eq}
use coder_cli.Prelude.Results.{Result, ok, err, guard, bind_ok, guard-true}
use coder_cli.Sdk.Http.{
  Json, Url, Http, SdkError, DefaultClient, no_base_url, no_credentials, empty_token,
}
use coder_cli.Sdk.Login.{
  LoginRequest, LoginResponse, ClientOptions, required, login_with_password, logged_in, token_for,
  new_client,
}

required_ok : {A : Type 0} (e : SdkError) (o : Option A) (a : A) → required e o ≡ ok a → o ≡ some a
required_ok e none a h = absurd cc
required_ok e (some x) a h = cc

module _ (http : Http) ⦃j : Json LoginRequest⦄ ⦃k : Json LoginResponse⦄ where
  logged_in_ok :
      (m : Result SdkError LoginResponse) (r : LoginResponse) → logged_in http m ≡ ok r → m ≡ ok r
  logged_in_ok (ok x) r h = h
  logged_in_ok (err e) r h = absurd cc

  -- Where a token comes from: the options, or a login with the email address and the password.
  abbrev pub FromOptions : ClientOptions → Url → Bytes → Type 0
  FromOptions opts base token =
      (opts.token ≡ token)
      ⊎ ((resp : LoginResponse) × (opts.token ≡ [])
          × (login_with_password http base (record { email = opts.email; password = opts.password })
              ≡ ok resp)
          × (resp.session_token ≡ token))

  token_for_sound :
      (opts : ClientOptions) (base : Url) (token : Bytes)
      → token_for http opts base ≡ ok token
      → (same token [] ≡ false) × FromOptions opts base token
  unfolding token_for
  token_for_sound opts base token h = elim (Bool-cases (same opts.token [])) [
    | inl e ↦
        let (u, _, h1) =
          bind_ok (guard (not (same opts.email []) && not (same opts.password [])) no_credentials) _
            token (rw e at h) in
        let (resp, hl, h2) =
          bind_ok (logged_in http (login_with_password http base _)) _ token h1 in
        let (v, ht, h3) =
          bind_ok (guard (not (same resp.session_token [])) empty_token) _ token h2 in
        let q : resp.session_token ≡ token = cc in
        (
          rw (sym q) (flip (guard-true _ _ v ht)),
          inr (resp, same-eq _ _ e, logged_in_ok _ resp hl, q),
        )
    | inr e ↦ let q : opts.token ≡ token = cc in (rw (sym q) e, inl q)
  ]
    where
      flip : {b : Bool} → not b ≡ true → b ≡ false
      flip {b} h = ground arith

  -- A client that `new_client` makes has the base URL of the options and a token that is not empty: that
  -- of the options, or, where they have none, the one that a login gives.
  pub new_client_sound :
      (opts : ClientOptions) (c : DefaultClient)
      → new_client http opts ≡ ok c
      → (opts.base_url ≡ some c.base_url)
        × (same c.token [] ≡ false)
        × FromOptions opts c.base_url c.token
  unfolding new_client
  new_client_sound opts c h =
      let (base, hb, h1) = bind_ok (required no_base_url opts.base_url) _ c h in
      let (token, ht, h2) = bind_ok (token_for http opts base) _ c h1 in
      let (n, f) = token_for_sound opts base token ht in
      let q : c ≡ record { base_url = base; token = token } = cc in
      rw q (required_ok _ _ base hb, n, f)
