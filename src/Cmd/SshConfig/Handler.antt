-- ===== src/Cmd/SshConfig/Handler.antt =====
-- configSSH of internal/cmd/configssh.go: the handler of `coder config-ssh`.
--
-- What it asks the system and the server for is in `SshEnv`; what it does to the user's files is a
-- list of effects, in order. A write that fails leaves no effect. The last call, writeSSHUXState,
-- whose errors are only logged, and the messages to the user are left out.
pub mod Laws
use coder_cli.Prelude.{
  ℕ, Bool, true, false, not, Option, none, some, List, [], ◌∷◌, ◌++◌, ltb, length, drop,
  if◌then◌else◌,
}
use coder_cli.Prelude.Texts.{Bytes, codes, has_prefix}
use coder_cli.Prelude.Results.{Result, ok, err, ◌>>=◌, ◌>>◌, guard}
use coder_cli.Cmd.Api.{Workspace, Provider, User, CmdError, Answer, Client}
use coder_cli.Cmd.Lookup.{get_workspaces, workspaces_with_provider}
use coder_cli.Cmd.SshConfig.{remove_old_config, ssh_available, make_new_configs}

pub data ReadFile : Type 0 where
  contents : Bytes → ReadFile
  not_exist unreadable : ReadFile

-- How writeSSHKey ends: well, with os.ErrPermission, or with another error.
pub data KeyWrite : Type 0 where
  key_written key_refused key_failed : KeyWrite

pub record SshEnv : Type 0 where
  pub home : Option Bytes
  pub read_str : Bytes → ReadFile
  -- filepath.Join(home, ".ssh", "coder_enterprise")
  pub key_path : Bytes → Bytes
  pub client : Client
  -- newClient and Me
  pub me : Answer User
  pub bin_path : Option Bytes
  pub makes_dir : Bytes → Bool
  pub writes : Bytes → Bool
  pub key : KeyWrite
  pub quote : Bytes → Bytes
  pub unix : Bool
  pub sorted : List (Workspace × Provider) → List (Workspace × Provider)

pub data SshError : Type 0 where
  no_home unreadable_config not_removed no_workspaces ssh_disabled no_bin_path : SshError
  mkdir_failed write_failed key_error : SshError
  client_err : CmdError → SshError

pub data Effect : Type 0 where
  write_config : Bytes → Bytes → Effect
  remove_key write_key : Bytes → Effect

pub data Outcome : Type 0 where
  success panics : Outcome
  failure : SshError → Outcome

abbrev lift_err : {A : Type 0} → Answer A → Result SshError A
lift_err (ok a) = ok a
lift_err (err e) = err (client_err e)

abbrev found_bin : Option Bytes → Result SshError Bytes
found_bin none = err no_bin_path
found_bin (some p) = ok p

-- a leading `~` of the path
abbrev pub expand_home : Bytes → Bytes → Bytes
expand_home home path = if has_prefix path (codes "~") then home ++ drop 1 path else path

module _ (env : SshEnv) where
  -- from newClient to binPath
  unfoldable pub prepare : Result SshError (List (Workspace × Provider) × Bytes)
  prepare = do
    user ← lift_err env.me
    workspaces ← lift_err (get_workspaces env.client (codes "me"))
    guard (not (ltb (length workspaces) 1)) no_workspaces
    with_providers ← lift_err (workspaces_with_provider env.client workspaces)
    guard (ssh_available with_providers) ssh_disabled
    bin_path ← found_bin env.bin_path
    ok (with_providers, bin_path)

  -- writeSSHKey and its error
  abbrev pub write_ssh_key : Bytes → List Effect → Outcome × List Effect
  write_ssh_key key_path done = elim (env.key) [
    | key_written ↦ (success, done ++ write_key key_path ∷ [])
    | key_refused ↦ (success, done)
    | key_failed ↦ (failure key_error, done)
  ]

  -- behind the computation of the new section
  write_new : Bytes → Bytes → Bytes → Outcome × List Effect
  write_new path text key_path =
      if not (env.makes_dir path)
      then (failure mkdir_failed, [])
      else if not (env.writes path)
      then (failure write_failed, [])
      else write_ssh_key key_path (write_config path text ∷ [])

  -- `*remove`
  remove_config : Bytes → Bytes → Bytes → Bool → Outcome × List Effect
  remove_config path key_path config did_remove =
      if not did_remove
      then (failure not_removed, [])
      else if not (env.writes path)
      then (failure write_failed, [])
      else (success, write_config path config ∷ remove_key key_path ∷ [])

  add_config : Bytes → Bytes → Bytes → List Bytes → Outcome × List Effect
  unfolding prepare write_new
  add_config path key_path config options = elim (prepare) [
    | err e ↦ (failure e, [])
    | ok (ws, bin_path) ↦
        write_new path
          (config ++ make_new_configs env.quote env.unix env.sorted bin_path ws key_path options)
          key_path
  ]

  -- behind the read of the configuration
  with_config : Bytes → Bytes → Bool → List Bytes → Bytes → Outcome × List Effect
  unfolding remove_config add_config
  with_config path key_path remove options current = elim (remove_old_config current) [
    | none ↦ (panics, [])
    | some (config, did_remove) ↦
        if remove
        then remove_config path key_path config did_remove
        else add_config path key_path config options
  ]

  -- configSSH
  unfoldable pub config_ssh : Bytes → Bool → List Bytes → Outcome × List Effect
  unfolding with_config
  config_ssh configpath remove options = elim (env.home) [
    | none ↦ (failure no_home, [])
    | some home ↦
        let path = expand_home home configpath in
        elim (env.read_str path) [
          | unreadable ↦ (failure unreadable_config, [])
          | not_exist ↦ with_config path (env.key_path home) remove options []
          | contents current ↦ with_config path (env.key_path home) remove options current
        ]
  ]
