-- ===== src/Sdk/Errors.antt =====
-- coder-sdk/error.go: the error of a response, whose body is decoded on demand and kept.
--
-- json.Unmarshal into an APIError is the parameter `decode`. `status_text` is http.StatusText, and
-- `decimal` the verb %d.
pub mod Laws
use coder_cli.Prelude.{
  ℕ, Bool, true, false, ◌||◌, Option, none, some, List, [], ◌∷◌, ◌++◌, is_set, if◌then◌else◌,
}
use coder_cli.Prelude.Texts.{Bytes, codes, same}

pub record ApiError : Type 0 where
  pub msg : Bytes
  pub code : Bytes
  pub details : Bytes

-- HTTPError. `cached_err` tells that the error of a read or of a decoding is kept.
pub record HttpError : Type 0 where
  pub url : Bytes
  pub status_code : ℕ
  pub body : Bytes
  pub cached : Option ApiError
  pub cached_err : Bool

-- NewHTTPError, for a body that can be read or not
unfoldable pub new_http_error : Bytes → ℕ → Option Bytes → HttpError
new_http_error url status none = record {
  url = [];
  status_code = 0;
  body = [];
  cached = none;
  cached_err = true;
}
new_http_error url status (some body) = record {
  url = url;
  status_code = status;
  body = body;
  cached = none;
  cached_err = false;
}

module _ (decode : Bytes → Option ApiError) where
  -- Payload: the error afterwards, and what is returned, none for an error
  unfoldable pub payload : HttpError → HttpError × Option ApiError
  payload e =
      if is_set e.cached || e.cached_err
      then (e, if e.cached_err then none else e.cached)
      else elim (decode e.body) [
        | none ↦ (record e { cached_err = true }, none)
        | some msg ↦ (record e { cached = some msg }, some msg)
      ]

  abbrev status_line : (ℕ → Bytes) → (ℕ → Bytes) → HttpError → Bytes
  status_line decimal status_text e =
      e.url ++ (codes ": " ++ (decimal e.status_code ++ (codes " " ++ status_text e.status_code)))

  -- Error
  unfoldable pub error_text : (ℕ → Bytes) → (ℕ → Bytes) → HttpError → HttpError × Bytes
  error_text decimal status_text e =
      let (e', api) = payload e in
      (
        e',
        elim api [
          | none ↦ status_line decimal status_text e
          | some msg ↦ if same msg.msg [] then status_line decimal status_text e else msg.msg
        ],
      )
