-- ===== src/Sdk/Client/Bridge.antt =====
-- DefaultClient as the interface that the commands use (coder-sdk/interface.go and client.go).
--
-- The commands do not look into an error, except for ErrNotFound; the others are numbered.
pub mod Laws
use coder_cli.Prelude.{ℕ, List}
use coder_cli.Prelude.Texts.{Bytes}
use coder_cli.Prelude.Results.{Result, ok, err}
use coder_cli.Cmd.Api.{
  User, Organization, Workspace, Image, Provider, CmdError, api, Answer, Client,
}
use coder_cli.Cmd.Api
use coder_cli.Sdk.Http.{
  Json, Http, DefaultClient, SdkError, marshal_err, create_err, execute_err, decode_err, not_found,
  no_base_url, no_credentials, login_err, empty_token, status_err,
}
use coder_cli.Sdk.Client.Users.{user_by_email, organizations}
use coder_cli.Sdk.Client.Workspaces.{
  user_workspaces_by_organization, workspaces_by_workspace_provider,
}
use coder_cli.Sdk.Client.Images.{organization_images}
use coder_cli.Sdk.Client.Site.{Listed, workspace_providers, items_of}

-- the errors as the commands see them
unfoldable pub as_cmd_error : SdkError → CmdError
as_cmd_error not_found = Api.not_found
as_cmd_error marshal_err = api 1
as_cmd_error create_err = api 2
as_cmd_error execute_err = api 3
as_cmd_error decode_err = api 4
as_cmd_error no_base_url = api 5
as_cmd_error no_credentials = api 6
as_cmd_error login_err = api 7
as_cmd_error empty_token = api 8
as_cmd_error (status_err status e) = api status

abbrev pub answer : {A : Type 0} → Result SdkError A → Answer A
answer (ok a) = ok a
answer (err e) = err (as_cmd_error e)

-- The encodings of the resources that the commands read.
pub record Codecs : Type 0 where
  pub user : Json User
  pub users : Json (List User)
  pub organizations : Json (List Organization)
  pub workspaces : Json (List Workspace)
  pub images : Json (List Image)
  pub providers : Json (Listed Provider)

-- DefaultClient as a Client
unfoldable pub default_client : Http → DefaultClient → Codecs → Client
default_client http c codecs = record {
  user_by_email = λ email. answer (user_by_email http c ⦃j = codecs.user⦄ ⦃l = codecs.users⦄ email);
  organizations = answer (organizations http c ⦃j = codecs.organizations⦄);
  user_workspaces = λ user_id org_id.
      answer (user_workspaces_by_organization http c ⦃j = codecs.workspaces⦄ user_id org_id);
  organization_images = λ org_id. answer (organization_images http c ⦃j = codecs.images⦄ org_id);
  providers = answer (items_of (workspace_providers http c ⦃j = codecs.providers⦄));
  workspaces_by_provider =
      λ id. answer (workspaces_by_workspace_provider http c ⦃j = codecs.workspaces⦄ id);
}
