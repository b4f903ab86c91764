-- ===== src/Cmd/Update.antt =====
-- updateConf and buildUpdateReq of internal/cmd/workspaces.go: the request that edits a workspace.
pub mod Laws
use coder_cli.Prelude.{
  ℕ, Bool, true, false, not, Option, none, some, List, [], ltb, ◌==◌, if◌then◌else◌,
}
use coder_cli.Prelude.Texts.{Bytes, codes, same}
use coder_cli.Prelude.Results.{Result, ok, err, ◌>>=◌, ◌>>◌, guard}
use coder_cli.Cmd.Api.{Workspace, Image, CmdError, already_using, Answer, Client}
use coder_cli.Cmd.Lookup.{find_img}

pub record UpdateConf : Type 0 where
  pub cpu : ℕ
  pub mem_gb : ℕ
  pub disk_gb : ℕ
  pub gpus : ℕ
  pub workspace : Workspace
  pub user : Bytes
  pub image : Bytes
  pub image_tag : Bytes
  pub org_name : Bytes

-- coder.UpdateWorkspaceReq, with the fields that buildUpdateReq sets. The GPUs are left out when
-- their pointer is nil.
pub record UpdateReq : Type 0 where
  pub image_id : Bytes
  pub image_tag : Bytes
  pub cpu_cores : ℕ
  pub memory_gb : ℕ
  pub disk_gb : ℕ
  pub gpus : Option ℕ

-- The image of the request and the default amounts.
pub record Defaults : Type 0 where
  pub image_id : Bytes
  pub cpu_cores : ℕ
  pub memory_gb : ℕ
  pub disk_gb : ℕ

abbrev pub default_img_tag : Bytes
default_img_tag = codes "latest"

-- the branch on `conf.image`
unfoldable pub update_defaults : Client → UpdateConf → Answer Defaults
update_defaults client conf =
    if not (same conf.image [])
    then (do
      img ← find_img client conf.user conf.image conf.org_name
      guard (same conf.image img.repository) already_using
      ok (record {
        image_id = img.id;
        cpu_cores = img.default_cpu_cores;
        memory_gb = img.default_memory_gb;
        disk_gb = img.default_disk_gb;
      }))
    else ok (record {
      image_id = conf.workspace.image_id;
      cpu_cores = conf.workspace.cpu_cores;
      memory_gb = conf.workspace.memory_gb;
      disk_gb = conf.workspace.disk_gb;
    })

-- a flag, or the default where it has the zero value
abbrev pub amount : ℕ → ℕ → ℕ
amount flag default = if flag == 0 then default else flag

-- a disk cannot be shrunk
abbrev pub keep_disk : ℕ → ℕ → ℕ
keep_disk wanted current = if ltb wanted current then current else wanted

-- the assignments after the branch
unfoldable pub fill_req : UpdateConf → Defaults → UpdateReq
fill_req conf d = record {
  image_id = d.image_id;
  image_tag = if same conf.image_tag [] then default_img_tag else conf.image_tag;
  cpu_cores = amount conf.cpu d.cpu_cores;
  memory_gb = amount conf.mem_gb d.memory_gb;
  disk_gb = keep_disk (amount conf.disk_gb d.disk_gb) conf.workspace.disk_gb;
  gpus = if conf.gpus == 0 then none else some conf.gpus;
}

-- buildUpdateReq
unfoldable pub build_update_req : Client → UpdateConf → Answer UpdateReq
build_update_req client conf = do d ← update_defaults client conf; ok (fill_req conf d)
