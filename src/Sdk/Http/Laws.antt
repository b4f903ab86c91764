-- ===== src/Sdk/Http/Laws.antt =====
-- What is sent, and when a call succeeds.
use coder_cli.Prelude.{
  ◌≡◌, refl, ◌↔◌, ◌≤◌, true, false, Option, none, some, leb, ℕ_discrete, leb→le, le→leb,
}
use coder_cli.Prelude.Texts.{Bytes, codes, same, same_self, Bytes-discrete}
use coder_cli.Prelude.Dict.{Dict, lookup, insert, lookup-insert}
use coder_cli.Prelude.Results.{ok, guard, bind_ok, guard-true}
use coder_cli.Sdk.Http.{
  Method, HttpResponse, Http, RequestOptions, DefaultClient, Payload, marshal_err, create_err,
  with_auth, is_encodable, build_request, executed, request, decoded, request_body,
}

executed_ok :
    (http : Http) (c : DefaultClient) (o : Option HttpResponse) (r : HttpResponse)
    → executed http c o ≡ ok r
    → o ≡ some r
executed_ok http c none r h = absurd cc
executed_ok http c (some x) r h = cc

decoded_ok :
    {A : Type 0} (http : Http) (c : DefaultClient) (o : Option A) (a : A)
    → decoded http c o ≡ ok a
    → o ≡ some a
decoded_ok http c none a h = absurd cc
decoded_ok http c (some x) a h = cc

other_header : same (codes "Authorization") (codes "Session-Token") ≡ false
unfolding Bytes-discrete ℕ_discrete
other_header = refl

token_kept :
    (auth : Option Bytes) (h : Dict Bytes) (t : Bytes)
    → lookup (codes "Session-Token") h ≡ some t
    → lookup (codes "Session-Token") (with_auth auth h) ≡ some t
unfolding with_auth
token_kept none h t e = e
token_kept (some a) h t e =
    rw (lookup-insert (codes "Authorization") (codes "Session-Token") a h, other_header) e

module _ (http : Http) (c : DefaultClient) where
  -- The server answers the request of a call with a success that decodes to `a`.
  abbrev pub Answers :
      {A : Type 0}
      → Method
      → Bytes
      → Payload
      → (Option Bytes → Option A)
      → RequestOptions
      → A
      → Type 0
  Answers method path input out config a =
      (resp : HttpResponse) × (is_encodable http c input ≡ true)
      × (http.creates (build_request http c method path input config) ≡ true)
      × (http.execute (build_request http c method path input config) ≡ some resp)
      × (resp.status_code ≤ 299)
      × (out resp.body ≡ some a)

  -- A call succeeds with a value if and only if its payload can be encoded, the request can be made
  -- and executed, and the response has a status of at most 299 and a body that decodes to the value.
  pub request_body_iff :
      {A : Type 0} (method : Method) (path : Bytes) (input : Payload)
      (out : Option Bytes → Option A) (config : RequestOptions) (a : A)
      → (request_body http c method path input out config ≡ ok a)
        ↔ Answers method path input out config a
  unfolding request_body request
  request_body_iff method path input out config a = (sound, complete)
    where
      sound :
          request_body http c method path input out config ≡ ok a
          → Answers method path input out config a
      sound h =
          let (resp, hr, h1) = bind_ok (request http c method path input config) _ a h in
          let (u, hs, h2) = bind_ok (guard (leb resp.status_code 299) _) _ a h1 in
          let (v, he, h3) = bind_ok (guard (is_encodable http c input) marshal_err) _ resp hr in
          let (w, hc, h4) =
            bind_ok
              (guard (http.creates (build_request http c method path input config)) create_err) _
              resp h3 in
          (
            resp,
            guard-true _ _ v he,
            guard-true _ _ w hc,
            executed_ok http c _ resp h4,
            leb→le resp.status_code 299 (guard-true _ _ u hs),
            decoded_ok http c _ a h2,
          )

      complete :
          Answers method path input out config a
          → request_body http c method path input out config ≡ ok a
      complete (resp, e, m, x, s, d) = rw (e, m, x, le→leb resp.status_code 299 s, d) refl

  -- Every request has the session token of the client in its header, whatever the options.
  pub build_request-token :
      (method : Method) (path : Bytes) (input : Payload) (config : RequestOptions)
      → lookup (codes "Session-Token") (build_request http c method path input config).header
        ≡ some c.token
  unfolding build_request
  build_request-token method path input config =
      token_kept http.endpoint_auth_header (insert (codes "Session-Token") c.token config.headers)
        c.token (rw (lookup-insert, same_self) refl)
