-- ===== src/Cmd/Create.antt =====
-- The handler of `coder workspaces create` (internal/cmd/workspaces.go).
--
-- `CreateEnv` holds the client and how the server and the build log answer. The requests that are
-- sent are a list, also where the server refuses one.
pub mod Laws
use coder_cli.Prelude.{ℕ, Bool, not, ◌&&◌, List, [], ◌∷◌, if◌then◌else◌}
use coder_cli.Prelude.Texts.{Bytes, same}
use coder_cli.Prelude.Results.{Result, ok, err, ◌>>=◌, ◌>>◌, guard}
use coder_cli.Cmd.Api.{
  Workspace, Image, Provider, CmdError, image_unset, org_required, Answer, Client,
}
use coder_cli.Cmd.Lookup.{
  find_img, is_multi_org_member, provider_by_name, default_workspace_provider,
}
use coder_cli.Cmd.Update.{amount}
use coder_cli.Sdk.Client.Users.{me}

-- coder.CreateWorkspaceRequest
pub record CreateReq : Type 0 where
  pub name : Bytes
  pub image_id : Bytes
  pub org_id : Bytes
  pub image_tag : Bytes
  pub cpu_cores : ℕ
  pub memory_gb : ℕ
  pub disk_gb : ℕ
  pub gpus : ℕ
  pub use_container_vm : Bool
  pub resource_pool_id : Bytes
  pub namespace : Bytes
  pub enable_auto_start : Bool
  pub template_id : Bytes

pub record CreateEnv : Type 0 where
  pub client : Client
  pub creates : CreateReq → Answer Workspace
  pub trail : Bytes → Answer (Unit {0})

pub record CreateFlags : Type 0 where
  pub org : Bytes
  pub image : Bytes
  pub image_tag : Bytes
  pub cpu : ℕ
  pub memory : ℕ
  pub disk : ℕ
  pub gpus : ℕ
  pub use_cvm : Bool
  pub provider_name : Bytes
  pub enable_autostart : Bool
  pub follow : Bool

-- the amounts of the flags, or those of the image
unfoldable pub create_req : Bytes → CreateFlags → Image → Provider → CreateReq
create_req name flags img provider = record {
  name = name;
  image_id = img.id;
  org_id = img.organization_id;
  image_tag = flags.image_tag;
  cpu_cores = amount flags.cpu img.default_cpu_cores;
  memory_gb = amount flags.memory img.default_memory_gb;
  disk_gb = amount flags.disk img.default_disk_gb;
  gpus = flags.gpus;
  use_container_vm = flags.use_cvm;
  resource_pool_id = provider.id;
  namespace = provider.default_namespace;
  enable_auto_start = flags.enable_autostart;
  template_id = [];
}

module _ (env : CreateEnv) where
  abbrev pub find_provider : Bytes → Answer Provider
  find_provider name =
      if same name []
      then default_workspace_provider env.client
      else provider_by_name env.client name

  -- the create handler up to its request
  unfoldable pub prepare_create : Bytes → CreateFlags → Answer CreateReq
  unfolding create_req
  prepare_create name flags = do
    guard (not (same flags.image [])) image_unset
    multi ← is_multi_org_member env.client me
    guard (not (multi && same flags.org [])) org_required
    img ← find_img env.client me flags.image flags.org
    provider ← find_provider flags.provider_name
    ok (create_req name flags img provider)

  -- after the request: the build log, or its hint
  abbrev pub followed : Bool → Answer Workspace → Answer (Unit {0})
  followed follow (err e) = err e
  followed follow (ok w) = if follow then env.trail w.id else ok tt

  -- the create handler
  unfoldable pub create : Bytes → CreateFlags → Answer (Unit {0}) × List CreateReq
  create name flags = elim (prepare_create name flags) [
    | err e ↦ (err e, [])
    | ok req ↦ (followed flags.follow (env.creates req), req ∷ [])
  ]
