-- ===== src/Sdk/Http.antt =====
-- coder-sdk/request.go: how the client sends a request and reads its response.
--
-- `Http` stands for the libraries: net/http, the encoding of query parameters and the environment
-- variable ENDPOINT_AUTH_HEADER. Encoding and decoding of JSON is the interface `Json`.
pub mod Laws
use coder_cli.Prelude.{
  ℕ, Bool, true, false, not, Option, none, some, List, [], ◌∷◌, ◌++◌, leb, is_set, if◌then◌else◌,
}
use coder_cli.Prelude.Texts.{Bytes, codes, trim_suffix}
use coder_cli.Prelude.Dict.{Dict, insert}
use coder_cli.Prelude.Results.{Result, ok, err, ◌>>=◌, ◌>>◌, guard}
use coder_cli.Sdk.Errors.{HttpError, new_http_error}

-- json.Marshal and json.Unmarshal at a type
pub record Json (A : Type 0) : Type 0 where
  pub marshal : A → Option Bytes
  pub unmarshal : Bytes → Option A

pub data Method : Type 0 where
  get post put patch delete : Method

pub record Url : Type 0 where
  pub host : Bytes
  pub path : Bytes
  pub raw_query : Bytes

pub record HttpRequest : Type 0 where
  pub method : Method
  pub url : Url
  pub header : Dict Bytes
  pub body : Option Bytes

-- The body is none where reading it fails.
pub record HttpResponse : Type 0 where
  pub status_code : ℕ
  pub header : Dict Bytes
  pub body : Option Bytes

pub record Http : Type 0 where
  pub creates : HttpRequest → Bool
  pub execute : HttpRequest → Option HttpResponse
  pub encode_query : Dict Bytes → Bytes
  pub show_url : Url → Bytes
  pub endpoint_auth_header : Option Bytes

-- requestOptions
pub record RequestOptions : Type 0 where
  pub base_url_override : Option Url
  pub query : Option (Dict Bytes)
  pub headers : Dict Bytes
  pub reader : Option Bytes

abbrev pub no_options : RequestOptions
no_options = record { base_url_override = none; query = none; headers = []; reader = none }

abbrev pub with_query_params : Dict Bytes → RequestOptions
with_query_params q = record no_options { query = some q }

pub data SdkError : Type 0 where
  marshal_err create_err execute_err decode_err not_found : SdkError
  no_base_url no_credentials login_err empty_token : SdkError
  status_err : ℕ → HttpError → SdkError

-- DefaultClient
pub record DefaultClient : Type 0 where
  pub base_url : Url
  pub token : Bytes

-- The argument `in`: nil, or a value as json.Marshal encodes it.
pub data Payload : Type 0 where
  no_payload unencodable : Payload
  encoded : Bytes → Payload

abbrev pub as_json : {A : Type 0} ⦃j : Json A⦄ → A → Payload
as_json ⦃j⦄ a = elim (j.marshal a) [ none ↦ unencodable | some b ↦ encoded b ]

abbrev pub or_else : {A : Type 0} → A → Option A → A
or_else a none = a
or_else a (some b) = b

-- the body of the request
body_of : Payload → Option Bytes → Option Bytes
body_of input (some b) = some b
body_of no_payload none = none
body_of unencodable none = none
body_of (encoded b) none = some b

with_auth : Option Bytes → Dict Bytes → Dict Bytes
with_auth none h = h
with_auth (some a) h = insert (codes "Authorization") a h

raw_query_of : (Dict Bytes → Bytes) → Bytes → Option (Dict Bytes) → Bytes
raw_query_of encode old none = old
raw_query_of encode old (some q) = encode q

module _ (http : Http) (c : DefaultClient) where
  -- The request that is sent: the options over the client's own URL, and the session token.
  unfoldable pub build_request : Method → Bytes → Payload → RequestOptions → HttpRequest
  unfolding body_of with_auth raw_query_of
  build_request method path input config =
      let base = or_else c.base_url config.base_url_override in
      record {
        method = method;
        url = record {
          host = base.host;
          path = trim_suffix b'/' base.path ++ path;
          raw_query = raw_query_of http.encode_query base.raw_query config.query;
        };
        header =
            with_auth http.endpoint_auth_header
              (insert (codes "Session-Token") c.token config.headers);
        body = body_of input config.reader;
      }

  abbrev pub is_encodable : Payload → Bool
  is_encodable unencodable = false
  is_encodable _ = true

  abbrev executed : Option HttpResponse → Result SdkError HttpResponse
  executed none = err execute_err
  executed (some resp) = ok resp

  -- request
  unfoldable pub request : Method → Bytes → Payload → RequestOptions → Result SdkError HttpResponse
  request method path input config = do
    guard (is_encodable input) marshal_err
    let req = build_request method path input config
    guard (http.creates req) create_err
    executed (http.execute req)

  abbrev pub decoded : {A : Type 0} → Option A → Result SdkError A
  decoded none = err decode_err
  decoded (some a) = ok a

  -- requestBody, with the decoder of the payload
  unfoldable pub request_body :
      {A : Type 0}
      → Method
      → Bytes
      → Payload
      → (Option Bytes → Option A)
      → RequestOptions
      → Result SdkError A
  request_body method path input out config = do
    resp ← request method path input config
    let url = http.show_url (build_request method path input config).url
    guard (leb resp.status_code 299)
        (status_err resp.status_code (new_http_error url resp.status_code resp.body))
    decoded (out resp.body)

-- The decoders: `out` is nil, or json.Decode on the body.
abbrev pub discard : Option Bytes → Option (Unit {0})
discard body = some tt

abbrev pub decode : {A : Type 0} ⦃j : Json A⦄ → Option Bytes → Option A
decode none = none
decode ⦃j⦄ (some b) = j.unmarshal b
