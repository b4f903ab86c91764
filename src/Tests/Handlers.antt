-- ===== src/Tests/Handlers.antt =====
-- Inputs for the handlers and the output of internal/cmd.
use coder_cli.Prelude.{
  ◌≤◌, All, ◌≡◌, refl, true, false, not, ℕ_discrete, some, [], ◌∷◌, ◌++◌, map, keep, length,
}
use coder_cli.Prelude.Texts.{Bytes, codes, Bytes-discrete}
use coder_cli.Prelude.Dict.{lookup, insert}
use coder_cli.Prelude.Results.{ok}
use coder_cli.Cmd.Api.{Organization, Provider}
use coder_cli.Cmd.Lookup.{
  find_workspace, lookup_user_orgs, get_workspaces, workspaces_with_provider,
}
use coder_cli.Cmd.SshConfig.{ssh_available}
use coder_cli.Cmd.SshConfig.Handler.{
  SshEnv, contents, key_written, write_config, remove_key, success, write_ssh_key, prepare,
  config_ssh,
}
use coder_cli.Cmd.SshConfig.Handler.Laws.{with_text, with_section, config_ssh-config_ssh}
use coder_cli.Cmd.BuildLog.{done, finished, trail_build_logs}
use coder_cli.Cmd.BuildLog.Laws.{
  starts, stages, errors, as_log, nothing, final_lines, trail_build_logs-final_lines,
}
use coder_cli.Cmd.Top.{
  Entities, TopOptions, filtered, org_name, user_email, provider_name, aggregate_by_user,
  aggregate_by_org, aggregate_by_provider, truncate,
}
use coder_cli.Cmd.Top.Laws.{of_key, aggregate_by_lem}
use coder_cli.Cmd.Change.{ChangeEnv, EditFlags, rebuild_workspace, edit, rebuild}
use coder_cli.Cmd.Change.Laws.{EditIsSafe, edit_sound}
use coder_cli.Cmd.Top
use coder_cli.Cmd.Change
use coder_cli.Tests.Commands.{dev, ann, org, pool, server, no_start_token, no_end_token, body_clean}

abbrev ssh_env : SshEnv
ssh_env = record {
  home = some (codes "/home/ann");
  read_str = λ path. contents (codes "Host a");
  key_path = λ home. codes "/key";
  client = server;
  me = ok ann;
  bin_path = some (codes "/coder");
  makes_dir = λ path. true;
  writes = λ path. true;
  key = key_written;
  quote = λ s. s;
  unix = true;
  sorted = λ ws. ws;
}

prepared : prepare ssh_env ≡ ok ((dev, pool) ∷ [], codes "/coder")
unfolding prepare get_workspaces workspaces_with_provider lookup_user_orgs ssh_available lookup
    insert Bytes-discrete ℕ_discrete
prepared = refl

abbrev section : Bytes
section =
    with_section ssh_env (codes "/home/ann") (codes "~/config") (codes "Host a") (codes "/coder")
      ((dev, pool) ∷ []) []

config_ssh-config_ssh_example :
    (config_ssh ssh_env (codes "~/config") false []
      ≡ write_ssh_key ssh_env (codes "/key") (write_config (codes "/home/ann/config") section ∷ []))
    × (config_ssh (with_text ssh_env section) (codes "~/config") false []
        ≡ config_ssh ssh_env (codes "~/config") false [])
    × (config_ssh (with_text ssh_env section) (codes "~/config") true [] ≡ (
      success,
      write_config (codes "/home/ann/config") (codes "Host a") ∷ remove_key (codes "/key") ∷ [],
    ))
config_ssh-config_ssh_example =
    config_ssh-config_ssh ssh_env (codes "/home/ann") (codes "~/config") (codes "Host a")
      (codes "/coder") ((dev, pool) ∷ []) [] refl refl prepared refl refl no_start_token
      no_end_token body_clean

trail_build_logs-final_lines_example :
    let r =
      trail_build_logs
        (λ s. s)
        true
        (map as_log
            (starts ∷ stages (codes "pull") ∷ stages (codes "run") ∷ errors (codes "exit") ∷ [])
          ++ done ∷ [])
        nothing in
    (r.0.lines
      ≡ final_lines
          (λ s. s)
          (starts ∷ stages (codes "pull") ∷ stages (codes "run") ∷ errors (codes "exit") ∷ []))
    × (r.1 ≡ finished)
trail_build_logs-final_lines_example =
    trail_build_logs-final_lines (λ s. s)
      (starts ∷ stages (codes "pull") ∷ stages (codes "run") ∷ errors (codes "exit") ∷ []) []

abbrev everything : Entities
everything = record {
  providers = pool ∷ [];
  users = ann ∷ [];
  orgs = org ∷ [];
  workspaces = dev ∷ [];
}

abbrev only_org : TopOptions
only_org = record { user = []; org = codes "org"; provider = []; show_empty_groups = false }

one_group : aggregate_by_user everything only_org ≡ (ann, dev ∷ []) ∷ []
unfolding aggregate_by_user org_name Top.collect Top.group lookup insert Bytes-discrete ℕ_discrete
one_group = refl

aggregate_by_lem_example :
    (aggregate_by_user everything only_org
      ≡ (
        ann,
        of_key
            (λ w. filtered (codes "org") (org_name (org ∷ []) w.organization_id))
            (λ w. w.user_id)
            (codes "u1")
            (dev ∷ []),
      )
        ∷ [])
    × (aggregate_by_org everything only_org
        ≡ map
            (λ o. (
              o,
              of_key
                  (λ w. filtered [] (user_email (ann ∷ []) w.user_id))
                  (λ w. w.organization_id)
                  o.id
                  (dev ∷ []),
            ))
            (keep (λ (o : Organization). not (filtered (codes "org") o.name)) (org ∷ [])))
    × (aggregate_by_provider everything only_org
        ≡ map
            (λ p. (
              p,
              of_key
                  (λ w. filtered [] (provider_name (pool ∷ []) w.resource_pool_id))
                  (λ w. w.resource_pool_id)
                  p.id
                  (dev ∷ []),
            ))
            (keep (λ (p : Provider). not (filtered [] p.name)) (pool ∷ [])))
unfolding Bytes-discrete
aggregate_by_lem_example = aggregate_by_lem everything only_org

abbrev confirming : ChangeEnv
confirming = record { client = server; confirms = true; accepts = λ r. ok tt; trail = λ id. ok tt }

abbrev more_disk : EditFlags
more_disk = record {
  user = codes "me";
  org = [];
  image = [];
  image_tag = [];
  cpu = 0;
  memory = 0;
  disk = 40;
  gpus = 0;
  force = false;
  follow = true;
}

edit_sound_example :
    All (EditIsSafe confirming (codes "dev") more_disk) (edit confirming (codes "dev") more_disk).1
    × (length (edit confirming (codes "dev") more_disk).1 ≤ 1)
edit_sound_example = edit_sound confirming (codes "dev") more_disk

rebuilt :
    (rebuild confirming (codes "dev") (codes "me") false false).1
    ≡ rebuild_workspace (codes "w1") ∷ []
unfolding rebuild Change.prepare_rebuild find_workspace lookup_user_orgs get_workspaces
    Bytes-discrete ℕ_discrete
rebuilt = refl
