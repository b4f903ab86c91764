-- ===== src/Cmd/Tokens.antt =====
-- The handlers of internal/cmd/tokens.go that change a token.
--
-- The result of a command is its error and the lines that it prints.
pub mod Laws
use coder_cli.Prelude.{Bool, Option, none, some, List, [], ◌∷◌, if◌then◌else◌}
use coder_cli.Prelude.Texts.{Bytes}
use coder_cli.Prelude.Results.{Result, ok, err}
use coder_cli.Sdk.Http.{Json, Http, DefaultClient, SdkError}
use coder_cli.Sdk.Client.Users.{
  KeyResponse, me, create_api_token, delete_api_token, regenerate_api_token,
}

abbrev pub Printed : Type 0
Printed = Result SdkError (Unit {0}) × List Bytes

module _ (http : Http) (c : DefaultClient) ⦃k : Json KeyResponse⦄ where
  abbrev pub print_token : Result SdkError Bytes → Printed
  print_token (ok token) = (ok tt, token ∷ [])
  print_token (err e) = (err e, [])

  -- the handler of `tokens create`
  abbrev pub create_token : ⦃j : Json Bytes⦄ → Bytes → Printed
  create_token name = print_token (create_api_token http c me name)

  -- the handler of `tokens rm`
  abbrev pub rm_token : Bytes → Printed
  rm_token token_id = (delete_api_token http c me token_id, [])

  -- The handler of `tokens regen`, which returns nil for an error.
  unfoldable pub regen_token : Bytes → Printed
  regen_token token_id = elim (regenerate_api_token http c me token_id) [
    | ok token ↦ (ok tt, token ∷ [])
    | err e ↦ (ok tt, [])
  ]
