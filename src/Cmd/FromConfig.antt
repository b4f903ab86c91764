-- ===== src/Cmd/FromConfig.antt =====
-- workspaceFromConfigCmd of internal/cmd/workspaces.go: the handlers of `create-from-config` and
-- `edit-from-config`.
--
-- `ConfigEnv` holds the client, the files and the answers of the server. What is asked of the server
-- is a list of requests, in order.
pub mod Laws
use coder_cli.Prelude.{
  Bool, true, false, not, ◌&&◌, ◌||◌, Option, none, some, List, [], ◌∷◌, ◌++◌, length, ltb,
  if◌then◌else◌,
}
use coder_cli.Prelude.Texts.{Bytes, codes, same}
use coder_cli.Prelude.Results.{Result, ok, err, ◌>>=◌, ◌>>◌, guard}
use coder_cli.Cmd.Api.{
  Workspace, Organization, Provider, CmdError, org_required, name_unset, source_unset,
  file_unreadable, Answer, Client,
}
use coder_cli.Cmd.Lookup.{find_workspace, get_user_orgs, select_org, default_workspace_provider}
use coder_cli.Cmd.Create.{CreateReq}
use coder_cli.Sdk.Client.Users.{me}
use coder_cli.Sdk.Client.Workspaces.{ParseTemplateRequest}

pub record ConfigFlags : Type 0 where
  pub ref : Bytes
  pub repo : Bytes
  pub filepath : Bytes
  pub org : Bytes
  pub provider_name : Bytes
  pub env_name : Bytes
  pub follow : Bool

pub data ConfigRequest : Type 0 where
  parse_template : ParseTemplateRequest → ConfigRequest
  create_workspace : CreateReq → ConfigRequest
  track_template : Bytes → Bytes → ConfigRequest

pub record ConfigEnv : Type 0 where
  pub client : Client
  pub read_file : Bytes → Option Bytes
  pub parses : ParseTemplateRequest → Answer Bytes
  pub creates : CreateReq → Answer Workspace
  pub tracks : Bytes → Bytes → Answer (Unit {0})
  pub trail : Bytes → Answer (Unit {0})

-- The workspace that is edited, or the name of the one that is created.
pub data Target : Type 0 where
  existing : Workspace → Target
  fresh : Bytes → Target

-- The file of the flag, where there is one.
unfoldable pub local_file : (Bytes → Option Bytes) → Bytes → Answer (Option Bytes)
local_file read path =
    if same path []
    then ok none
    else elim (read path) [ none ↦ err file_unreadable | some text ↦ ok (some text) ]

-- coder.CreateWorkspaceRequest, with the fields that the handler sets
unfoldable pub template_create_req : Bytes → Bytes → Bytes → Provider → CreateReq
template_create_req org_id template_id name p = record {
  name = name;
  image_id = [];
  org_id = org_id;
  image_tag = [];
  cpu_cores = 0;
  memory_gb = 0;
  disk_gb = 0;
  gpus = 0;
  use_container_vm = false;
  resource_pool_id = p.id;
  namespace = p.default_namespace;
  enable_auto_start = false;
  template_id = template_id;
}

module _ (env : ConfigEnv) where
  -- the workspace of an update, or the organization of the flag, with the id of the organization
  unfoldable pub target : Bool → Bytes → ConfigFlags → List Organization → Answer (Target × Bytes)
  target update name flags orgs =
      if update
      then (do w ← find_workspace env.client name me; ok (existing w, w.organization_id))
      else (do org ← select_org flags.org orgs; ok (fresh name, org.id))

  -- The handler up to its first request.
  unfoldable pub prepare_parse :
      Bool → Bytes → ConfigFlags → Answer (Target × Bytes × ParseTemplateRequest)
  unfolding target local_file
  prepare_parse update argument flags = do
    let name = if update then argument else flags.env_name
    guard (update || not (same name [])) name_unset
    orgs ← get_user_orgs env.client me
    guard (not (ltb 1 (length orgs) && same flags.org [])) org_required
    found ← target update name flags orgs
    guard (not (same flags.filepath [] && (same flags.ref [] && same flags.repo []))) source_unset
    file ← local_file env.read_file flags.filepath
    ok (
      found.0,
      found.1,
      record {
        repo_url = flags.repo;
        ref = flags.ref;
        filepath = codes ".coder/coder.yaml";
        org_id = found.1;
        local = file;
      },
    )

  abbrev pub followed : Bool → Bytes → Answer (Unit {0})
  followed follow id = if follow then env.trail id else ok tt

  -- The last request and what follows it.
  unfoldable pub apply :
      Target → Bytes → Bytes → Provider → Bool → Answer (Unit {0}) × List ConfigRequest
  apply (existing w) org_id template_id p follow =
      (env.tracks w.id template_id >> followed follow w.id, track_template w.id template_id ∷ [])
  apply (fresh name) org_id template_id p follow =
      let req = template_create_req org_id template_id name p in
      ((do w ← env.creates req; followed follow w.id), create_workspace req ∷ [])

  -- What follows the parsing of the template.
  unfoldable pub after_parse :
      Target → Bytes → Bool → Answer Bytes → Answer (Unit {0}) × List ConfigRequest
  after_parse t org_id follow (err e) = (err e, [])
  after_parse t org_id follow (ok template_id) = elim (default_workspace_provider env.client) [
    | err e ↦ (err e, [])
    | ok p ↦ apply t org_id template_id p follow
  ]

  -- workspaceFromConfigCmd: its `run`
  unfoldable pub from_config : Bool → Bytes → ConfigFlags → Answer (Unit {0}) × List ConfigRequest
  unfolding after_parse apply
  from_config update argument flags = elim (prepare_parse update argument flags) [
    | err e ↦ (err e, [])
    | ok (t, org_id, req) ↦
        let rest = after_parse t org_id flags.follow (env.parses req) in
        (rest.0, parse_template req ∷ rest.1)
  ]
