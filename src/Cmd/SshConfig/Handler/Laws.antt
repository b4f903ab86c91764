-- ===== src/Cmd/SshConfig/Handler/Laws.antt =====
-- Writing the section, writing it again, and removing it.
use coder_cli.Prelude.{
  ◌≡◌, refl, sym, ◌∙◌, Bool, true, false, none, some, List, [], ◌∷◌, ◌++◌, if◌then◌else◌,
}
use coder_cli.Prelude.Texts.{Bytes, index}
use coder_cli.Prelude.Results.{ok}
use coder_cli.Cmd.Api.{Workspace, Provider}
use coder_cli.Cmd.SshConfig.{
  ssh_start_token, ssh_end_token, remove_old_config, section_body, make_new_configs,
}
use coder_cli.Cmd.SshConfig.Laws.{remove_old_config-make_new_configs, remove_old_config-none}
use coder_cli.Cmd.SshConfig.Handler.{
  ReadFile, contents, SshEnv, write_config, remove_key, success, expand_home, prepare,
  write_ssh_key, write_new, remove_config, add_config, with_config, config_ssh,
}

-- The environment in which the configuration is that text.
abbrev pub with_text : SshEnv → Bytes → SshEnv
with_text env text = record env { read_str = λ path. contents text }

config_ssh_found :
    (env : SshEnv) (home configpath current : Bytes) (remove : Bool) (options : List Bytes)
    → env.home ≡ some home
    → env.read_str (expand_home home configpath) ≡ contents current
    → config_ssh env configpath remove options
      ≡ with_config env (expand_home home configpath) (env.key_path home) remove options current
unfolding config_ssh
config_ssh_found env home configpath current remove options h r = rw (config_ssh, h, r)

-- What the removal finds decides.
with_config_found :
    (env : SshEnv) (path key_path current config : Bytes) (remove did : Bool) (options : List Bytes)
    → remove_old_config current ≡ some (config, did)
    → with_config env path key_path remove options current ≡ (
        if remove
        then remove_config env path key_path config did
        else add_config env path key_path config options)
unfolding with_config
with_config_found env path key_path current config remove did options h = rw (h, with_config)

module _ (env : SshEnv) (home configpath config bin_path : Bytes) (ws : List (Workspace × Provider))
    (options : List Bytes) where
  -- the configuration with its new section
  abbrev pub with_section : Bytes
  with_section =
      config
      ++ make_new_configs env.quote env.unix env.sorted bin_path ws (env.key_path home) options

  add_config_text :
      (read_str : Bytes → ReadFile) (path : Bytes)
      → prepare env ≡ ok (ws, bin_path)
      → env.makes_dir path ≡ true
      → env.writes path ≡ true
      → add_config (record env { read_str = read_str }) path (env.key_path home) config options
        ≡ write_ssh_key env (env.key_path home) (write_config path with_section ∷ [])
  unfolding add_config write_new
  add_config_text read_str path p d w = rw (add_config, p, write_new, d, w)

  -- Where the configuration is there and holds neither token, the system refuses nothing and the new
  -- section does not hold the end token by another text: the handler appends the section; on the file
  -- that it has written it does the same again, the section standing there once; and with the flag to
  -- remove it writes back the configuration of the beginning and removes the key.
  pub config_ssh-config_ssh :
      env.home ≡ some home
      → env.read_str (expand_home home configpath) ≡ contents config
      → prepare env ≡ ok (ws, bin_path)
      → env.makes_dir (expand_home home configpath) ≡ true
      → env.writes (expand_home home configpath) ≡ true
      → index config ssh_start_token ≡ none
      → index config ssh_end_token ≡ none
      → index
          (section_body env.quote env.unix bin_path (env.key_path home) options (env.sorted ws))
          ssh_end_token
        ≡ none
      → let path = expand_home home configpath in
        let again = with_text env with_section in
        (config_ssh env configpath false options
          ≡ write_ssh_key env (env.key_path home) (write_config path with_section ∷ []))
        × (config_ssh again configpath false options ≡ config_ssh env configpath false options)
        × (config_ssh again configpath true options
            ≡ (success, write_config path config ∷ remove_key (env.key_path home) ∷ []))
  unfolding remove_config
  config_ssh-config_ssh h r p d w s e b =
      let path = expand_home home configpath in
      let again = with_text env with_section in
      let old =
        remove_old_config-make_new_configs env.quote env.unix env.sorted config bin_path
          (env.key_path home) ws options s e b in
      let first =
        config_ssh_found env home configpath config false options h r
        ∙ (with_config_found env path (env.key_path home) config config false false options
              (remove_nothing config s)
            ∙ add_config_text env.read_str path p d w) in
      let second =
        config_ssh_found again home configpath with_section false options h refl
        ∙ (with_config_found again path (env.key_path home) with_section config false true options
              old
            ∙ add_config_text (λ path. contents with_section) path p d w) in
      let third =
        config_ssh_found again home configpath with_section true options h refl
        ∙ (with_config_found again path (env.key_path home) with_section config true true options
              old
            ∙ removed_text path w) in
      (first, second ∙ sym first, third)
    where
      remove_nothing :
          (c : Bytes) → index c ssh_start_token ≡ none → remove_old_config c ≡ some (c, false)
      remove_nothing c h = remove_old_config-none c h

      removed_text :
          (path : Bytes)
          → env.writes path ≡ true
          → remove_config (with_text env with_section) path (env.key_path home) config true
            ≡ (success, write_config path config ∷ remove_key (env.key_path home) ∷ [])
      removed_text path w = rw (remove_config, w)
