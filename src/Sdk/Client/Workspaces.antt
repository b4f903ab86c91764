-- ===== src/Sdk/Client/Workspaces.antt =====
-- coder-sdk/workspace.go, devurl.go, agent.go and activity.go.
use coder_cli.Prelude.{Bool, Option, none, some, List, [], ◌∷◌, ◌==◌, if◌then◌else◌}
use coder_cli.Prelude.Texts.{Bytes, codes}
use coder_cli.Prelude.Results.{Result, ◌>>=◌, guard}
use coder_cli.Cmd.Api.{Workspace}
use coder_cli.Sdk.Errors.{new_http_error}
use coder_cli.Sdk.Http.{
  Json, Http, DefaultClient, SdkError, status_err, HttpResponse, Method, post, put, patch, delete,
  Payload, no_payload, as_json, RequestOptions, no_options, with_query_params, build_request,
  request,
}
use coder_cli.Sdk.Client.{fetch, send, submit, ◌/◌}

abbrev pub workspaces_path : Bytes
workspaces_path = codes "/api/v0/workspaces"

abbrev template_path : Bytes
template_path = codes "/api/private/workspaces/template"

-- ParseTemplateRequest; the reader is the text that it holds
pub record ParseTemplateRequest : Type 0 where
  pub repo_url : Bytes
  pub ref : Bytes
  pub filepath : Bytes
  pub org_id : Bytes
  pub local : Option Bytes

-- SetPolicyTemplateRequest
pub record SetPolicyTemplateRequest : Type 0 where
  pub template_id : Bytes
  pub scope : Bytes

-- delDevURLRequest
pub record DelDevUrlRequest : Type 0 where
  pub workspace_id : Bytes
  pub dev_url_id : Bytes

module _ (http : Http) (c : DefaultClient) where
  -- CreateWorkspace
  pub create_workspace :
      {R : Type 0} ⦃j : Json R⦄ ⦃w : Json Workspace⦄ → R → Result SdkError Workspace
  create_workspace req = submit http c post workspaces_path (as_json req) no_options

  -- The options of ParseTemplate: the organization as a query, and the local file as the body.
  unfoldable pub template_options : ParseTemplateRequest → RequestOptions
  template_options req = elim (req.local) [
    | none ↦ with_query_params ((codes "org-id", req.org_id) ∷ [])
    | some file ↦ record (with_query_params ((codes "org-id", req.org_id) ∷ [])) {
      headers = (codes "Content-Type", codes "application/octet-stream") ∷ [];
      reader = some file;
    }
  ]

  -- The payload of ParseTemplate: the request itself, where there is no local file.
  unfoldable pub template_payload : ⦃j : Json ParseTemplateRequest⦄ → ParseTemplateRequest → Payload
  template_payload req = elim (req.local) [ none ↦ as_json req | some file ↦ no_payload ]

  -- ParseTemplate
  unfoldable pub parse_template :
      {V : Type 0} ⦃j : Json ParseTemplateRequest⦄ ⦃v : Json V⦄
      → ParseTemplateRequest
      → Result SdkError V
  unfolding template_options template_payload
  parse_template req =
      submit http c post (template_path / codes "parse") (template_payload req)
        (template_options req)

  -- CreateWorkspaceFromRepo
  pub create_workspace_from_repo :
      {R : Type 0} ⦃j : Json R⦄ ⦃w : Json Workspace⦄ → Bytes → R → Result SdkError Workspace
  create_workspace_from_repo org_id req =
      submit http c post (codes "/api/private/orgs" / org_id / codes "workspaces/from-repo")
        (as_json req) no_options

  -- Workspaces
  pub workspaces : ⦃j : Json (List Workspace)⦄ → Result SdkError (List Workspace)
  workspaces = fetch http c workspaces_path no_options

  -- UserWorkspacesByOrganization
  unfoldable pub user_workspaces_by_organization :
      ⦃j : Json (List Workspace)⦄ → Bytes → Bytes → Result SdkError (List Workspace)
  user_workspaces_by_organization user_id org_id =
      fetch http c workspaces_path
        (with_query_params ((codes "orgs", org_id) ∷ (codes "users", user_id) ∷ []))

  -- DeleteWorkspace
  pub delete_workspace : Bytes → Result SdkError (Unit {0})
  delete_workspace id = send http c delete (workspaces_path / id) no_payload

  -- StopWorkspace
  pub stop_workspace : Bytes → Result SdkError (Unit {0})
  stop_workspace id = send http c put (workspaces_path / id / codes "stop") no_payload

  -- EditWorkspace
  pub edit_workspace : {R : Type 0} ⦃j : Json R⦄ → Bytes → R → Result SdkError (Unit {0})
  edit_workspace id req = send http c patch (workspaces_path / id) (as_json req)

  -- RebuildWorkspace, with the empty update as its argument
  pub rebuild_workspace : {R : Type 0} ⦃j : Json R⦄ → R → Bytes → Result SdkError (Unit {0})
  rebuild_workspace no_update id = send http c patch (workspaces_path / id) (as_json no_update)

  -- WorkspaceByID
  pub workspace_by_id : ⦃j : Json Workspace⦄ → Bytes → Result SdkError Workspace
  workspace_by_id id = fetch http c (workspaces_path / id) no_options

  -- WorkspacesByWorkspaceProvider
  unfoldable pub workspaces_by_workspace_provider :
      ⦃j : Json (List Workspace)⦄ → Bytes → Result SdkError (List Workspace)
  workspaces_by_workspace_provider provider_id =
      fetch http c (codes "/api/private/resource-pools" / provider_id / codes "workspaces")
        no_options

  -- SetPolicyTemplate
  pub set_policy_template :
      {R : Type 0} ⦃j : Json SetPolicyTemplateRequest⦄ ⦃r : Json R⦄
      → Bytes
      → Bytes
      → Bool
      → Result SdkError R
  set_policy_template template_id scope dry_run =
      submit http c post (template_path / codes "policy")
        (as_json {A = SetPolicyTemplateRequest}
          (record { template_id = template_id; scope = scope }))
        (with_query_params (if dry_run then (codes "dry-run", codes "true") ∷ [] else []))

  -- DeleteDevURL
  pub delete_dev_url : ⦃j : Json DelDevUrlRequest⦄ → Bytes → Bytes → Result SdkError (Unit {0})
  delete_dev_url workspace_id url_id =
      send http c delete (workspaces_path / workspace_id / codes "devurls" / url_id) (
        as_json {A = DelDevUrlRequest}
          (record { workspace_id = workspace_id; dev_url_id = url_id }))

  -- CreateDevURL
  pub create_dev_url : {R : Type 0} ⦃j : Json R⦄ → Bytes → R → Result SdkError (Unit {0})
  create_dev_url workspace_id req =
      send http c post (workspaces_path / workspace_id / codes "devurls") (as_json req)

  -- DevURLs
  pub dev_urls : {U : Type 0} ⦃j : Json (List U)⦄ → Bytes → Result SdkError (List U)
  dev_urls workspace_id = fetch http c (workspaces_path / workspace_id / codes "devurls") no_options

  -- PutDevURL
  pub put_dev_url : {R : Type 0} ⦃j : Json R⦄ → Bytes → Bytes → R → Result SdkError (Unit {0})
  put_dev_url workspace_id url_id req =
      send http c put (workspaces_path / workspace_id / codes "devurls" / url_id) (as_json req)

  -- The test of PushActivity and UpdateLastConnectionAt, which takes no status but 200.
  abbrev accepted : Method → Bytes → Payload → HttpResponse → Result SdkError (Unit {0})
  accepted method path input resp = guard (resp.status_code == 200) (
      status_err resp.status_code (
        new_http_error (http.show_url (build_request http c method path input no_options).url)
          resp.status_code resp.body))

  -- PushActivity
  pub push_activity : {R : Type 0} ⦃j : Json R⦄ → R → Result SdkError (Unit {0})
  push_activity req = do
    resp ← request http c post (codes "/api/private/metrics/usage/push") (as_json req) no_options
    accepted post (codes "/api/private/metrics/usage/push") (as_json req) resp

  -- UpdateLastConnectionAt
  pub update_last_connection_at : Bytes → Result SdkError (Unit {0})
  update_last_connection_at id = do
    resp ←
        request http c post (codes "/api/private/envagent" / id / codes "update-last-connection-at")
          no_payload no_options
    accepted post (codes "/api/private/envagent" / id / codes "update-last-connection-at")
        no_payload resp
