-- ===== src/Cmd/Tokens/Laws.antt =====
-- A regeneration that fails is not reported.
use coder_cli.Prelude.{◌≡◌, refl, ◌↔◌, [], ◌∷◌, inl, inr}
use coder_cli.Prelude.Texts.{Bytes}
use coder_cli.Prelude.Results.{ok, Result-cases}
use coder_cli.Sdk.Http.{Json, Http, DefaultClient}
use coder_cli.Sdk.Client.Users.{KeyResponse, me, regenerate_api_token}
use coder_cli.Cmd.Tokens.{regen_token}

module _ (http : Http) (c : DefaultClient) ⦃k : Json KeyResponse⦄ where
  -- `tokens regen` succeeds whatever the server answers, and prints a token exactly if the server gives
  -- one.
  pub regen_token-ok :
      (token_id : Bytes)
      → ((regen_token http c token_id).0 ≡ ok tt)
        × ((token : Bytes)
            → ((regen_token http c token_id).1 ≡ token ∷ [])
              ↔ (regenerate_api_token http c me token_id ≡ ok token))
  unfolding regen_token
  regen_token-ok token_id = elim (Result-cases (regenerate_api_token http c me token_id)) [
    | inl (t, e) ↦ rw (regen_token, e) (refl, λ token. (λ q. cc, λ q. cc))
    | inr (x, e) ↦ rw (regen_token, e) (refl, λ token. (λ q. absurd cc, λ q. absurd cc))
  ]
