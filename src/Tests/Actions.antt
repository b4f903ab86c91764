-- ===== src/Tests/Actions.antt =====
-- Inputs for the commands that act on workspaces, providers and templates.
use mathlib.Core.List.{Permᴰ}
use mathlib.Core.List.Permᴰ
use coder_cli.Prelude.{
  ◌++◌, ◌≡◌, ◌≢◌, ◌↔◌, ◌⊎◌, refl, ℕ, ◌==◌, ◌^◌, ◌<◌, ◌≤◌, true, false, Option, none, some, List, [],
  ◌∷◌, All, In, any, length, if◌then◌else◌, ℕ_discrete, arith, ite,
}
use coder_cli.Prelude.Texts.{Bytes, codes, same, Bytes-discrete}
use coder_cli.Prelude.Dict.{insert}
use coder_cli.Prelude.Results.{ok, err}
use coder_cli.Cmd.Api.{Provider, is_on, api}
use coder_cli.Cmd.Lookup.{
  find_workspace, get_user_orgs, get_workspaces, default_workspace_provider, lookup_user_orgs,
  select_org, provider_map,
}
use coder_cli.Pkg.Table.{Shape, no_field, plain, nested, Row}
use coder_cli.Pkg.Table.Laws.{SameColumns, struct_values-SameColumns}
use coder_cli.Cmd.Fleet.{FleetEnv, FleetRequest, stop_workspace, waited, stop}
use coder_cli.Cmd.Fleet.Laws.{Done, ForOne, stop_sound}
use coder_cli.Cmd.Create.{CreateEnv, CreateFlags, create}
use coder_cli.Cmd.Create.Laws.{CreateIsSound, create_sound}
use coder_cli.Cmd.FromConfig.{
  ConfigEnv, ConfigFlags, ConfigRequest, parse_template, local_file, prepare_parse, from_config,
}
use coder_cli.Cmd.FromConfig.Laws.{Applied, from_config_sound}
use coder_cli.Cmd.Policy.{MergeConflict, summary, PolicyEnv, PolicyFlags, set_policy_template}
use coder_cli.Cmd.Policy.Laws.{
  has_conflict, lines_of, kinds, summary_lem, IsWarranted, set_policy_template_sound,
}
use coder_cli.Cmd.Providers.{
  ProviderEnv, ProviderRequest, cordon, rename_to, uncordon, delete_provider, Move, Merge, moves,
  id_by_name, rm_providers,
}
use coder_cli.Cmd.Providers.Laws.{rm_providers-lost}
use coder_cli.Pkg.ErrGroup.{Emitted}
use coder_cli.Cmd.BuildLog.{done}
use coder_cli.Cmd.BuildLog.Follow.{
  returned, taken, sending, here, next, reads, Read, done_type, other_type, read_error,
  wait_for_workspace_ready,
}
use coder_cli.Cmd.BuildLog.Follow.Laws.{follow-never_returns, wait_for_workspace_ready-ends}
use coder_cli.Cmd.Tunnel.{TunnelEnv, Tunneler, tunnels, stdio_arg, prepare_tunnel}
use coder_cli.Cmd.Tunnel.Laws.{prepare_tunnel_sound}
use coder_cli.Cmd.HumanTable.{workspaces_human_table, image_ids}
use coder_cli.Cmd.HumanTable.Laws.{IsGood, IsOrder, workspaces_human_table-IsGood}
use coder_cli.Sdk.Client.Users.{me}
use coder_cli.Sdk.Client.Workspaces.{ParseTemplateRequest}
use coder_cli.Tests.Commands.{dev, ubuntu, pool, server}

abbrev fleet_env : FleetEnv
fleet_env = record { client = server; confirms = false; accepts = λ r. ok tt }

stop_sound_example :
    (((stop fleet_env (codes "me") (codes "b" ∷ codes "dev" ∷ [])).0 ≡ waited none)
      ↔ All (Done fleet_env stop_workspace (codes "me")) (codes "dev" ∷ codes "b" ∷ []))
    × ((r : FleetRequest)
        → In r (stop fleet_env (codes "me") (codes "b" ∷ codes "dev" ∷ [])).1
          ↔ ForOne fleet_env stop_workspace (codes "me") (codes "dev" ∷ codes "b" ∷ []) r)
stop_sound_example =
    stop_sound fleet_env (codes "me") (codes "dev" ∷ codes "b" ∷ []) (codes "b" ∷ codes "dev" ∷ [])
      (Permᴰ.swap refl refl) (omega arith)

abbrev create_env : CreateEnv
create_env = record { client = server; creates = λ req. ok dev; trail = λ id. ok tt }

abbrev create_flags : CreateFlags
create_flags = record {
  org = [];
  image = codes "ubuntu";
  image_tag = codes "latest";
  cpu = 0;
  memory = 8;
  disk = 0;
  gpus = 0;
  use_cvm = false;
  provider_name = [];
  enable_autostart = false;
  follow = true;
}

create_sound_example :
    All
      (CreateIsSound create_env (codes "new") create_flags)
      (create create_env (codes "new") create_flags).1
    × (length (create create_env (codes "new") create_flags).1 ≤ 1)
    × ((create create_env (codes "new") create_flags).0 ≡ ok tt
        → length (create create_env (codes "new") create_flags).1 ≡ 1)
create_sound_example = create_sound create_env (codes "new") create_flags

abbrev config_env : ConfigEnv
config_env = record {
  client = server;
  read_file = λ path. some (codes "text");
  parses = λ req. ok (codes "t1");
  creates = λ req. ok dev;
  tracks = λ id template_id. ok tt;
  trail = λ id. ok tt;
}

abbrev config_flags : ConfigFlags
config_flags = record {
  ref = codes "master";
  repo = codes "repo";
  filepath = [];
  org = [];
  provider_name = [];
  env_name = codes "new";
  follow = false;
}

configured : (from_config config_env false [] config_flags).0 ≡ ok tt
unfolding from_config prepare_parse get_user_orgs lookup_user_orgs select_org
    default_workspace_provider Bytes-discrete ℕ_discrete
configured = refl

from_config_sound_example :
    (req : ParseTemplateRequest) × (template_id : Bytes) × (p : Provider) × (r : ConfigRequest)
    × (req.repo_url ≡ config_flags.repo)
    × (req.ref ≡ config_flags.ref)
    × (local_file config_env.read_file config_flags.filepath ≡ ok req.local)
    × (config_env.parses req ≡ ok template_id)
    × (default_workspace_provider config_env.client ≡ ok p)
    × Applied config_env false [] config_flags req.org_id template_id p r
    × ((from_config config_env false [] config_flags).1 ≡ parse_template req ∷ r ∷ [])
from_config_sound_example = from_config_sound config_env false [] config_flags configured

abbrev conflict : MergeConflict
conflict = record {
  workspace_id = codes "w1";
  current_warnings = [];
  current_error = none;
  latest_warnings = codes "w" ∷ [];
  latest_error = none;
  current_is_latest = false;
  message = [];
}

summary_lem_example : summary (λ n. n ∷ []) (conflict ∷ []) ≡ (
    if any has_conflict (conflict ∷ [])
    then lines_of (λ n. n ∷ []) kinds (conflict ∷ [])
    else codes "No workspace conflicts" ++ 10 ∷ [])
summary_lem_example = summary_lem (λ n. n ∷ []) (conflict ∷ [])

abbrev policy_env : PolicyEnv
policy_env = record {
  read_file = λ path. some (codes "text");
  parses = λ req. ok (codes "t1");
  sets = λ req. ok (conflict ∷ []);
  workspace_by_id = λ id. ok dev;
  quote = λ s. s;
  decimal = λ n. n ∷ [];
}

abbrev policy_flags : PolicyFlags
policy_flags = record {
  ref = [];
  repo = [];
  filepath = codes "coder.yaml";
  dry_run = true;
  default_template = false;
  scope = codes "site";
}

set_policy_template_sound_example :
    All (IsWarranted policy_env policy_flags) (set_policy_template policy_env policy_flags).1
    × (length (set_policy_template policy_env policy_flags).1 ≤ 1)
set_policy_template_sound_example = set_policy_template_sound policy_env policy_flags

abbrev two_pools : List Provider
two_pools = pool ∷ record pool { id = codes "p2"; name = codes "far" } ∷ []

-- the id in a request
abbrev id_of : ProviderRequest → Bytes
id_of (cordon id reason) = id
id_of (rename_to id name) = id
id_of (uncordon id) = id
id_of (delete_provider id) = id

abbrev provider_env : ProviderEnv
provider_env = record {
  client = server;
  accepts = λ r. ite (Bytes-discrete (id_of r) (codes "p1")) (err (api 500)) (ok tt);
}

pool_id : same (id_by_name (codes "pool") two_pools []) [] ≡ false
unfolding id_by_name Bytes-discrete ℕ_discrete
pool_id = refl

far_id : same (id_by_name (codes "far") two_pools []) [] ≡ false
unfolding id_by_name Bytes-discrete ℕ_discrete
far_id = refl

pool_refused :
    provider_env.accepts (delete_provider (id_by_name (codes "pool") two_pools [])) ≡ err (api 500)
unfolding id_by_name Bytes-discrete ℕ_discrete
pool_refused = refl

far_deleted : provider_env.accepts (delete_provider (id_by_name (codes "far") two_pools [])) ≡ ok tt
unfolding id_by_name Bytes-discrete ℕ_discrete
far_deleted = refl

rm_providers-lost_example :
    ((order : List Move) × Merge
        (moves two_pools (codes "pool"))
        (moves two_pools (codes "far"))
        order
      × ((rm_providers provider_env order).0 ≡ none))
    × ((order : List Move) × (m : Emitted) × Merge
          (moves two_pools (codes "pool"))
          (moves two_pools (codes "far"))
          order
        × ((rm_providers provider_env order).0 ≡ some m)
        × (m.number ≡ 2))
rm_providers-lost_example =
    rm_providers-lost provider_env two_pools (codes "pool") (codes "far") (api 500) pool_id far_id
      pool_refused far_deleted

-- A field, a hidden one, and a flattened struct of two.
abbrev row_shape : Shape
row_shape = plain (codes "Name") none (
    plain (codes "ID") (some (codes "-")) (
      nested (codes "Stat") (some (codes "_"))
        (plain (codes "CPU") (some (codes "vCPU")) (plain (codes "Disk") none no_field)) no_field))

abbrev row : Row row_shape
row = (codes "dev", (codes "w1", (codes "{2 20}", (codes "2", (codes "20", tt)), tt)))

struct_values-SameColumns_example : SameColumns row_shape row
struct_values-SameColumns_example = struct_values-SameColumns row_shape row

follow-never_returns_example : sending done false ≢ returned
follow-never_returns_example =
    follow-never_returns (sending done false, taken done) (next here (reads done (taken done)))

abbrev two_reads : ℕ → Read
two_reads i = if i == 0 then other_type else done_type

first_other : (j : ℕ) → j < 1 → two_reads j ≡ other_type
first_other j h = ground arith

wait_for_workspace_ready-ends_example :
    (two_reads 1 ≡ done_type → wait_for_workspace_ready two_reads 5 ≡ some true)
    × (two_reads 1 ≡ read_error → wait_for_workspace_ready two_reads 5 ≡ some false)
wait_for_workspace_ready-ends_example =
    wait_for_workspace_ready-ends two_reads 1 5 (omega arith) first_other

abbrev tunnel_env : TunnelEnv
tunnel_env = record {
  client = server;
  parse_uint = λ s. some 3000;
  ssh_key = none;
  discards = λ key. true;
  ice_servers = some [];
}

abbrev tunnel : Tunneler
tunnel = record {
  workspace = dev;
  ice_servers = [];
  remote_port = 3000;
  local_port = 0;
  stdio = true;
}

tunnelled :
    prepare_tunnel tunnel_env (codes "dev") (codes "3000") (codes "stdio") ≡ ok (tunnels tunnel)
unfolding prepare_tunnel find_workspace get_workspaces lookup_user_orgs Bytes-discrete ℕ_discrete
tunnelled = refl

small : (s : Bytes) (n : ℕ) → Path (Option ℕ) (some 3000) (some n) → n < 2 ^ 16
small s n h = ground arith

prepare_tunnel_sound_example :
    (find_workspace server (codes "dev") me ≡ ok dev)
    × (is_on tunnel.workspace.status ≡ true)
    × (tunnel_env.parse_uint (codes "3000") ≡ some tunnel.remote_port)
    × (tunnel.stdio ≡ same (codes "stdio") stdio_arg)
    × (((tunnel.stdio ≡ true) × (tunnel.local_port ≡ 0))
        ⊎ (tunnel_env.parse_uint (codes "stdio") ≡ some tunnel.local_port))
prepare_tunnel_sound_example =
    prepare_tunnel_sound tunnel_env (codes "dev") (codes "3000") (codes "stdio") tunnel small
      tunnelled

one-IsOrder : IsOrder server (λ id. ok ubuntu) (dev ∷ []) (codes "i1" ∷ [])
unfolding image_ids insert Bytes-discrete ℕ_discrete
one-IsOrder = (Permᴰ.refl (codes "i1" ∷ []), omega arith)

workspaces_human_table-IsGood_example :
    IsGood server
      (λ id. ok ubuntu)
      (provider_map (pool ∷ []) [])
      (dev ∷ [])
      (workspaces_human_table server (λ id. ok ubuntu) (dev ∷ []) (codes "i1" ∷ []))
workspaces_human_table-IsGood_example =
    workspaces_human_table-IsGood server (λ id. ok ubuntu) (dev ∷ []) (codes "i1" ∷ []) (pool ∷ [])
      one-IsOrder refl
