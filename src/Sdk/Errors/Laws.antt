-- ===== src/Sdk/Errors/Laws.antt =====
-- The error of a response answers the same however often it is asked.
use coder_cli.Prelude.{◌≡◌, ℕ, Option, arith}
use coder_cli.Prelude.Texts.{Bytes}
use coder_cli.Sdk.Errors.{ApiError, HttpError, payload, error_text}

module _ (decode : Bytes → Option ApiError) where
  -- The answer of `payload`, as the body and what is kept decide.
  abbrev pub kept : HttpError → Option ApiError
  kept e = (payload decode e).1

  payload_kept : (e : HttpError) → payload decode (payload decode e).0 ≡ payload decode e
  unfolding payload
  payload_kept e = ground arith

  error_text_kept :
      (decimal status_text : ℕ → Bytes) (e : HttpError)
      → error_text decode decimal status_text (payload decode e).0
        ≡ error_text decode decimal status_text e
  unfolding error_text payload
  error_text_kept decimal status_text e = ground arith

  -- A second call of `payload` gives what the first gave and changes nothing, and so does a second
  -- call of `error_text`: the body is decoded once.
  pub payload-payload :
      (decimal status_text : ℕ → Bytes) (e : HttpError)
      → (payload decode (payload decode e).0 ≡ payload decode e)
        × (error_text decode decimal status_text (error_text decode decimal status_text e).0
            ≡ error_text decode decimal status_text e)
  unfolding error_text
  payload-payload decimal status_text e = (payload_kept e, error_text_kept decimal status_text e)
