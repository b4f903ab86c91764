-- ===== src/Sdk/Client.antt =====
-- The methods of coder-sdk's DefaultClient. Each is one request; its path is what the source writes.
--
-- A resource whose fields play no part has its type as an argument. A method that takes no resource
-- sends no payload, and one that returns none does not read the body.
pub mod Users
pub mod Workspaces
pub mod Images
pub mod Site
pub mod Bridge
use coder_cli.Prelude.{[], ◌∷◌, ◌++◌}
use coder_cli.Prelude.Texts.{Bytes, codes}
use coder_cli.Prelude.Dict.{Dict}
use coder_cli.Prelude.Results.{Result}
use coder_cli.Sdk.Http.{
  Json, Http, DefaultClient, SdkError, Method, get, Payload, no_payload, RequestOptions, no_options,
  with_query_params, request_body, discard, decode,
}

-- `requestBody` for a GET that decodes its answer
abbrev pub fetch :
    {A : Type 0} ⦃j : Json A⦄ → Http → DefaultClient → Bytes → RequestOptions → Result SdkError A
fetch http c path config = request_body http c get path no_payload decode config

-- `requestBody` with a payload or without one, and an answer that is not read
abbrev pub send : Http → DefaultClient → Method → Bytes → Payload → Result SdkError (Unit {0})
send http c method path input = request_body http c method path input discard no_options

-- `requestBody` with a payload, and an answer
abbrev pub submit :
    {A : Type 0} ⦃j : Json A⦄
    → Http
    → DefaultClient
    → Method
    → Bytes
    → Payload
    → RequestOptions
    → Result SdkError A
submit http c method path input config = request_body http c method path input decode config

-- segments of a path
infixl 20 ◌/◌
abbrev pub ◌/◌ : Bytes → Bytes → Bytes
a / b = a ++ (b'/' ∷ b)
