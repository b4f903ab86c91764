-- ===== src/Cmd/SshConfig.antt =====
-- internal/cmd/configssh.go: the section that `coder config-ssh` writes into the user's ssh
-- configuration, and its removal. The order of `sort.Slice`, the quoting of `%q` and the operating
-- system are parameters.
pub mod Laws
pub mod Handler
use coder_cli.Prelude.{
  ℕ, ◌+◌, ◌-◌, Bool, true, false, not, ◌||◌, Option, none, some, List, [], ◌∷◌, ◌++◌, ltb, leb,
  ◌==◌, length, take, drop, if◌then◌else◌,
}
use coder_cli.Prelude.Texts.{Bytes, codes, index}
use coder_cli.Cmd.Api.{Workspace, Provider}

unfoldable pub ssh_start_token : Bytes
ssh_start_token = codes "# ------------START-CODER-ENTERPRISE-----------"

-- sshStartMessage, line by line
unfoldable pub ssh_start_message : Bytes
ssh_start_message =
    codes
      "# The following has been auto-generated by \"coder config-ssh\"\n# to make accessing your Coder workspaces easier.\n#\n# To remove this blob, run:\n#\n#    coder config-ssh --remove\n#\n# You should not hand-edit this section, unless you are deleting it."

unfoldable pub ssh_end_token : Bytes
ssh_end_token = codes "# ------------END-CODER-ENTERPRISE------------"

-- `s[i:]` and `s[:i]`, none where Go panics
abbrev pub slice_from : ℕ → Bytes → Option Bytes
slice_from i s = if leb i (length s) then some (drop i s) else none

abbrev pub slice_to : ℕ → Bytes → Option Bytes
slice_to i s = if leb i (length s) then some (take i s) else none

abbrev pub and_then : {A B : Type 0} → Option A → (A → Option B) → Option B
and_then none f = none
and_then (some a) f = f a

-- removeOldConfig, with its tokens as arguments; none where a slice panics
unfoldable pub remove_section : Bytes → Bytes → Bytes → Option (Bytes × Bool)
remove_section start_token end_token config = elim (index config start_token) [
  | none ↦ some (config, false)
  | some start_index ↦ elim (index config end_token) [
    | none ↦ some (config, false)
    | some end_index ↦
        let tail = slice_from (end_index + length end_token + 1) config in
        if start_index == 0
        then and_then tail (λ t. some (t, true))
        else and_then (slice_to (start_index - 1) config)
            (λ s. and_then tail (λ t. some (s ++ t, true)))
  ]
]

-- removeOldConfig
abbrev pub remove_old_config : Bytes → Option (Bytes × Bool)
remove_old_config = remove_section ssh_start_token ssh_end_token

-- sshAvailable
unfoldable pub ssh_available : List (Workspace × Provider) → Bool
ssh_available [] = false
ssh_available ((w, p) ∷ ws) = if p.ssh_enabled then true else ssh_available ws

-- strings.Join
abbrev pub join : Bytes → List Bytes → Bytes
join sep [] = []
join sep (s ∷ []) = s
join sep (s ∷ t ∷ ss) = s ++ (sep ++ join sep (t ∷ ss))

module _ (quote : Bytes → Bytes) (unix : Bool) where
  -- makeSSHConfig
  unfoldable pub make_ssh_config : Bytes → Bytes → Bytes → List Bytes → Bytes
  make_ssh_config bin_path workspace_name private_key_filepath additional_options =
      let custom : List Bytes =
        if ltb 0 (length additional_options)
        then (codes "# Custom options. Duplicated values will always prefer the first!"
            ∷ additional_options)
          ++ codes "# End custom options." ∷ []
        else [] in
      let options : List Bytes =
        custom
        ++ (codes "HostName coder." ++ workspace_name)
          ∷ (codes "ProxyCommand "
              ++ (quote bin_path ++ (codes " tunnel " ++ (workspace_name ++ codes " 12213 stdio"))))
          ∷ codes "StrictHostKeyChecking no"
          ∷ codes "ConnectTimeout=0"
          ∷ codes "IdentitiesOnly yes"
          ∷ (codes "IdentityFile=" ++ quote private_key_filepath)
          ∷ [] in
      let all : List Bytes =
        options
        ++ (if unix
            then codes "ControlMaster auto"
              ∷ codes "ControlPath ~/.ssh/.connection-%r@%h:%p"
              ∷ codes "ControlPersist 600"
              ∷ []
            else []) in
      codes "Host coder."
      ++ (workspace_name ++ (codes "\n\t" ++ (join (codes "\n\t") all ++ codes "\n\n")))

  -- the loop of makeNewConfigs, which leaves out what has no SSH
  unfoldable pub host_entries : Bytes → Bytes → List Bytes → List (Workspace × Provider) → Bytes
  host_entries bin_path key options [] = []
  host_entries bin_path key options ((w, p) ∷ ws) =
      let rest = host_entries bin_path key options ws in
      if not p.ssh_enabled then rest else make_ssh_config bin_path w.name key options ++ rest

  -- The text of makeNewConfigs between the newline it starts with and the one before the end token.
  unfoldable pub section_body : Bytes → Bytes → List Bytes → List (Workspace × Provider) → Bytes
  section_body bin_path key options ws =
      ssh_start_token
      ++ (10 ∷ ssh_start_message ++ (10 ∷ 10 ∷ host_entries bin_path key options ws))

  -- makeNewConfigs, on the workspaces as `sorted` leaves them
  unfoldable pub make_new_configs :
      (List (Workspace × Provider) → List (Workspace × Provider))
      → Bytes
      → List (Workspace × Provider)
      → Bytes
      → List Bytes
      → Bytes
  make_new_configs sorted bin_path ws key options =
      10 ∷ section_body bin_path key options (sorted ws) ++ (10 ∷ ssh_end_token ++ 10 ∷ [])
