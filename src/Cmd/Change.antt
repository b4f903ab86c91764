-- ===== src/Cmd/Change.antt =====
-- The handlers of `coder workspaces edit` (internal/cmd/workspaces.go) and `coder workspaces rebuild`
-- (internal/cmd/rebuild.go).
--
-- `ChangeEnv` holds the client, whether the prompt is confirmed, and how the server and the build
-- log answer. The requests that are sent are a list, in order, also where the server refuses one.
pub mod Laws
use coder_cli.Prelude.{ℕ, Bool, true, false, not, ◌&&◌, List, [], ◌∷◌, if◌then◌else◌}
use coder_cli.Prelude.Texts.{Bytes, same}
use coder_cli.Prelude.Results.{Result, ok, err, ◌>>=◌, ◌>>◌, guard}
use coder_cli.Cmd.Api.{Workspace, is_on, CmdError, org_required, prompt_refused, Answer, Client}
use coder_cli.Cmd.Lookup.{find_workspace, is_multi_org_member}
use coder_cli.Cmd.Update.{UpdateConf, UpdateReq, build_update_req}

pub data Request : Type 0 where
  edit_workspace : Bytes → UpdateReq → Request
  rebuild_workspace : Bytes → Request

pub record ChangeEnv : Type 0 where
  pub client : Client
  pub confirms : Bool
  pub accepts : Request → Answer (Unit {0})
  pub trail : Bytes → Answer (Unit {0})

pub record EditFlags : Type 0 where
  pub user : Bytes
  pub org : Bytes
  pub image : Bytes
  pub image_tag : Bytes
  pub cpu : ℕ
  pub memory : ℕ
  pub disk : ℕ
  pub gpus : ℕ
  pub force : Bool
  pub follow : Bool

module _ (env : ChangeEnv) where
  -- the prompt, for a workspace that is on
  abbrev pub may_change : Bool → Workspace → Bool
  may_change force w = if not force && is_on w.status then env.confirms else true

  -- The request, and the build log behind it.
  abbrev pub send : Request → Bytes → Bool → Answer (Unit {0}) × List Request
  send req id follow = (env.accepts req >> (if follow then env.trail id else ok tt), req ∷ [])

  -- the edit handler up to its request
  unfoldable pub prepare_edit : Bytes → EditFlags → Answer (Workspace × UpdateReq)
  prepare_edit name flags = do
    workspace ← find_workspace env.client name flags.user
    multi ← is_multi_org_member env.client flags.user
    guard (not (multi && same flags.org [])) org_required
    req ← build_update_req env.client (record {
      cpu = flags.cpu;
      mem_gb = flags.memory;
      disk_gb = flags.disk;
      gpus = flags.gpus;
      workspace = workspace;
      user = flags.user;
      image = flags.image;
      image_tag = flags.image_tag;
      org_name = flags.org;
    })
    guard (may_change flags.force workspace) prompt_refused
    ok (workspace, req)

  -- the edit handler
  unfoldable pub edit : Bytes → EditFlags → Answer (Unit {0}) × List Request
  edit name flags = elim (prepare_edit name flags) [
    | err e ↦ (err e, [])
    | ok (workspace, req) ↦ send (edit_workspace workspace.id req) workspace.id flags.follow
  ]

  unfoldable pub prepare_rebuild : Bytes → Bytes → Bool → Answer Workspace
  prepare_rebuild name user force = do
    workspace ← find_workspace env.client name user
    guard (may_change force workspace) prompt_refused
    ok workspace

  -- the rebuild handler
  unfoldable pub rebuild : Bytes → Bytes → Bool → Bool → Answer (Unit {0}) × List Request
  rebuild name user force follow = elim (prepare_rebuild name user force) [
    | err e ↦ (err e, [])
    | ok workspace ↦ send (rebuild_workspace workspace.id) workspace.id follow
  ]
