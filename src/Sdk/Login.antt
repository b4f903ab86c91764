-- ===== src/Sdk/Login.antt =====
-- NewClient of coder-sdk/client.go and coder-sdk/login.go: the credentials of a client.
pub mod Laws
use coder_cli.Prelude.{Bool, not, ◌&&◌, Option, none, some, [], ◌∷◌, ◌++◌, if◌then◌else◌}
use coder_cli.Prelude.Texts.{Bytes, codes, same, trim_suffix}
use coder_cli.Prelude.Results.{Result, ok, err, ◌>>=◌, ◌>>◌, guard}
use coder_cli.Sdk.Http.{
  Json, post, Url, HttpRequest, HttpResponse, Http, SdkError, DefaultClient, marshal_err,
  create_err, execute_err, decode_err, no_base_url, no_credentials, login_err, empty_token, decode,
}

-- LoginRequest
pub record LoginRequest : Type 0 where
  pub email : Bytes
  pub password : Bytes

-- LoginResponse
pub record LoginResponse : Type 0 where
  pub session_token : Bytes

-- ClientOptions, whose HTTP client is the `Http` of the operations
pub record ClientOptions : Type 0 where
  pub base_url : Option Url
  pub token : Bytes
  pub email : Bytes
  pub password : Bytes

-- a value, or the error where there is none
abbrev pub required : {A : Type 0} → SdkError → Option A → Result SdkError A
required e none = err e
required e (some a) = ok a

-- The request of LoginWithPassword.
unfoldable pub login_request : Url → Bytes → HttpRequest
login_request base body = record {
  method = post;
  url = record base { path = trim_suffix b'/' base.path ++ codes "/auth/basic/login" };
  header = [];
  body = some body;
}

module _ (http : Http) ⦃j : Json LoginRequest⦄ ⦃k : Json LoginResponse⦄ where
  -- LoginWithPassword. The status of the response is not looked at.
  unfoldable pub login_with_password : Url → LoginRequest → Result SdkError LoginResponse
  unfolding login_request
  login_with_password base req = do
    body ← required marshal_err (j.marshal req)
    guard (http.creates (login_request base body)) create_err
    resp ← required execute_err (http.execute (login_request base body))
    required decode_err (decode resp.body)

  -- every failure of a login as one error
  abbrev pub logged_in : Result SdkError LoginResponse → Result SdkError LoginResponse
  logged_in (ok resp) = ok resp
  logged_in (err e) = err login_err

  -- The token of NewClient: the one that is given, or that of a login.
  unfoldable pub token_for : ClientOptions → Url → Result SdkError Bytes
  unfolding login_with_password
  token_for opts base = if not (same opts.token []) then ok opts.token else (do
    guard (not (same opts.email []) && not (same opts.password [])) no_credentials
    resp ←
        logged_in
          (login_with_password base (record { email = opts.email; password = opts.password }))
    guard (not (same resp.session_token [])) empty_token
    ok resp.session_token)

  -- NewClient
  unfoldable pub new_client : ClientOptions → Result SdkError DefaultClient
  unfolding token_for
  new_client opts = do
    base ← required no_base_url opts.base_url
    token ← token_for opts base
    ok (record { base_url = base; token = token })
