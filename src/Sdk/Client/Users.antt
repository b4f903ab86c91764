-- ===== src/Sdk/Client/Users.antt =====
-- coder-sdk/users.go, org.go and tokens.go.
use coder_cli.Prelude.{List, [], ◌∷◌, if◌then◌else◌}
use coder_cli.Prelude.Texts.{Bytes, codes, same}
use coder_cli.Prelude.Results.{Result, ok, err, ◌>>=◌}
use coder_cli.Cmd.Api.{User, Organization}
use coder_cli.Sdk.Http.{
  Json, Http, DefaultClient, SdkError, not_found, post, put, patch, delete, no_payload, as_json,
  no_options,
}
use coder_cli.Sdk.Client.{fetch, send, submit, ◌/◌}

abbrev pub users_path : Bytes
users_path = codes "/api/v0/users"

abbrev pub orgs_path : Bytes
orgs_path = codes "/api/v0/orgs"

abbrev api_keys_path : Bytes
api_keys_path = codes "/api/v0/api-keys"

abbrev pub me : Bytes
me = codes "me"

-- createAPITokenResp
pub record KeyResponse : Type 0 where
  pub key : Bytes

abbrev pub key_of : Result SdkError KeyResponse → Result SdkError Bytes
key_of (ok resp) = ok resp.key
key_of (err e) = err e

-- the loop over the users
abbrev pub find_email : Bytes → List User → Result SdkError User
find_email email [] = err not_found
find_email email (u ∷ us) = if same u.email email then ok u else find_email email us

module _ (http : Http) (c : DefaultClient) where
  -- UserByID
  unfoldable pub user_by_id : ⦃j : Json User⦄ → Bytes → Result SdkError User
  user_by_id id = fetch http c (users_path / id) no_options

  -- Me
  abbrev pub me_user : ⦃j : Json User⦄ → Result SdkError User
  me_user = user_by_id me

  -- SSHKey
  pub ssh_key : {K : Type 0} ⦃j : Json K⦄ → Result SdkError K
  ssh_key = fetch http c (users_path / me / codes "sshkey") no_options

  -- Users
  unfoldable pub users : ⦃j : Json (List User)⦄ → Result SdkError (List User)
  users = fetch http c users_path no_options

  -- UserByEmail
  unfoldable pub user_by_email :
      ⦃j : Json User⦄ ⦃l : Json (List User)⦄ → Bytes → Result SdkError User
  unfolding users user_by_id
  user_by_email email = if same email me then me_user else (do us ← users; find_email email us)

  -- UpdateUser
  pub update_user : {R : Type 0} ⦃j : Json R⦄ → Bytes → R → Result SdkError (Unit {0})
  update_user id req = send http c patch (users_path / id) (as_json req)

  -- UpdateUXState
  pub update_ux_state : {R : Type 0} ⦃j : Json R⦄ → Bytes → R → Result SdkError (Unit {0})
  update_ux_state id uxs =
      send http c put (codes "/api/private/users" / id / codes "ux-state") (as_json uxs)

  -- CreateUser
  pub create_user : {R : Type 0} ⦃j : Json R⦄ → R → Result SdkError (Unit {0})
  create_user req = send http c post users_path (as_json req)

  -- DeleteUser
  pub delete_user : Bytes → Result SdkError (Unit {0})
  delete_user id = send http c delete (users_path / id) no_payload

  -- Organizations
  unfoldable pub organizations :
      ⦃j : Json (List Organization)⦄ → Result SdkError (List Organization)
  organizations = fetch http c orgs_path no_options

  -- OrganizationByID
  pub organization_by_id : ⦃j : Json Organization⦄ → Bytes → Result SdkError Organization
  organization_by_id id = fetch http c (orgs_path / id) no_options

  -- OrganizationMembers
  pub organization_members : {M : Type 0} ⦃j : Json (List M)⦄ → Bytes → Result SdkError (List M)
  organization_members id = fetch http c (orgs_path / id / codes "members") no_options

  -- UpdateOrganization
  pub update_organization : {R : Type 0} ⦃j : Json R⦄ → Bytes → R → Result SdkError (Unit {0})
  update_organization id req = send http c patch (orgs_path / id) (as_json req)

  -- CreateOrganization
  pub create_organization : {R : Type 0} ⦃j : Json R⦄ → R → Result SdkError (Unit {0})
  create_organization req = send http c post orgs_path (as_json req)

  -- DeleteOrganization
  pub delete_organization : Bytes → Result SdkError (Unit {0})
  delete_organization id = send http c delete (orgs_path / id) no_payload

  -- CreateAPIToken
  unfoldable pub create_api_token :
      {R : Type 0} ⦃j : Json R⦄ ⦃k : Json KeyResponse⦄ → Bytes → R → Result SdkError Bytes
  create_api_token user_id req =
      key_of (submit http c post (api_keys_path / user_id) (as_json req) no_options)

  -- APITokens
  unfoldable pub api_tokens : {K : Type 0} ⦃j : Json (List K)⦄ → Bytes → Result SdkError (List K)
  api_tokens user_id = fetch http c (api_keys_path / user_id) no_options

  -- APITokenByID
  pub api_token_by_id : {K : Type 0} ⦃j : Json K⦄ → Bytes → Bytes → Result SdkError K
  api_token_by_id user_id token_id = fetch http c (api_keys_path / user_id / token_id) no_options

  -- DeleteAPIToken
  unfoldable pub delete_api_token : Bytes → Bytes → Result SdkError (Unit {0})
  delete_api_token user_id token_id =
      send http c delete (api_keys_path / user_id / token_id) no_payload

  -- RegenerateAPIToken
  unfoldable pub regenerate_api_token :
      ⦃k : Json KeyResponse⦄ → Bytes → Bytes → Result SdkError Bytes
  regenerate_api_token user_id token_id = key_of (
      submit http c post (api_keys_path / user_id / token_id / codes "regen") no_payload no_options)
