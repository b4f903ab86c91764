-- ===== src/Cmd/Api.antt =====
-- The entities of coder-sdk that the commands read, with the fields that they use, and the queries of
-- its Client. Amounts of CPU and memory are float32 in the source; here they are numbers of a small
-- unit, of which the code needs a test for zero, sums and an order.
use coder_cli.Prelude.{ℕ, Bool, List}
use coder_cli.Prelude.Texts.{Bytes}
use coder_cli.Prelude.Results.{Result}

pub data ContainerStatus : Type 0 where
  on off : ContainerStatus
  other_status : Bytes → ContainerStatus

abbrev pub is_on : ContainerStatus → Bool
is_on on = Bool.true
is_on _ = Bool.false

pub record Workspace : Type 0 where
  pub id : Bytes
  pub name : Bytes
  pub image_id : Bytes
  pub image_tag : Bytes
  pub organization_id : Bytes
  pub user_id : Bytes
  pub cpu_cores : ℕ
  pub memory_gb : ℕ
  pub disk_gb : ℕ
  pub cpu_usage : ℕ
  pub memory_usage : ℕ
  pub status : ContainerStatus
  pub resource_pool_id : Bytes

pub record Image : Type 0 where
  pub id : Bytes
  pub repository : Bytes
  pub organization_id : Bytes
  pub default_cpu_cores : ℕ
  pub default_memory_gb : ℕ
  pub default_disk_gb : ℕ

pub record User : Type 0 where
  pub id : Bytes
  pub email : Bytes
  pub name : Bytes

pub record Organization : Type 0 where
  pub id : Bytes
  pub name : Bytes
  pub is_default : Bool
  pub members : List Bytes

pub record Provider : Type 0 where
  pub id : Bytes
  pub name : Bytes
  pub built_in : Bool
  pub ssh_enabled : Bool
  pub default_namespace : Bytes

-- The errors of the queries and of the helpers.
pub data CmdError : Type 0 where
  api : ℕ → CmdError
  not_found email_unset image_unset image_missing org_unknown email_missing no_orgs : CmdError
  image_similar : List Bytes → CmdError
  workspace_missing : CmdError
  org_required already_using : CmdError
  org_not_located no_default_org : CmdError
  prompt_refused : CmdError
  name_unset source_unset file_unreadable bad_scope template_unset : CmdError
  change_err : ℕ → CmdError

abbrev pub Answer : Type 0 → Type 0
Answer A = Result CmdError A

pub record Client : Type 0 where
  pub user_by_email : Bytes → Answer User
  pub organizations : Answer (List Organization)
  pub user_workspaces : Bytes → Bytes → Answer (List Workspace)
  pub organization_images : Bytes → Answer (List Image)
  pub providers : Answer (List Provider)
  pub workspaces_by_provider : Bytes → Answer (List Workspace)
