-- ===== src/Cmd/Tunnel.antt =====
-- internal/cmd/tunnel.go: `coder tunnel`, from its arguments to the loop that accepts connections.
--
-- `TunnelEnv` holds the client, strconv.ParseUint(s, 10, 16), and what the SSH key, the ICE servers and
-- the two dials give. Copying between connections is not modelled.
pub mod Laws
use coder_cli.Prelude.{
  ℕ, ◌+◌, ◌%◌, ◌^◌, Bool, true, false, not, Option, none, some, List, [], ◌∷◌, ◌++◌, ◌==◌,
  if◌then◌else◌,
}
use coder_cli.Prelude.Texts.{Bytes, codes, same}
use coder_cli.Prelude.Results.{Result, ok, err, ◌>>=◌, ◌>>◌, guard}
use coder_cli.Cmd.Api.{Workspace, is_on, CmdError, Answer, Client}
use coder_cli.Cmd.Lookup.{find_workspace}
use coder_cli.Sdk.Client.Users.{me}

pub data TunnelErr : Type 0 where
  bad_remote_port bad_local_port not_available ssh_key_err discard_err : TunnelErr
  workspace_err : CmdError → TunnelErr
  ice_err dial_err connect_err client_err copy_err listen_err accept_err : TunnelErr

pub record TunnelEnv : Type 0 where
  pub client : Client
  pub parse_uint : Bytes → Option ℕ
  pub ssh_key : Option Bytes
  pub discards : Bytes → Bool
  pub ice_servers : Option (List Bytes)

-- tunnneler
pub record Tunneler : Type 0 where
  pub workspace : Workspace
  pub ice_servers : List Bytes
  pub remote_port : ℕ
  pub local_port : ℕ
  pub stdio : Bool

abbrev pub stdio_arg : Bytes
stdio_arg = codes "stdio"

abbrev pub ssh_port : ℕ
ssh_port = 12213

abbrev pub uint16 : ℕ → ℕ
uint16 n = n % 2 ^ 16

abbrev pub required : {A : Type 0} → TunnelErr → Option A → Result TunnelErr A
required e none = err e
required e (some a) = ok a

abbrev pub found : Answer Workspace → Result TunnelErr Workspace
found (ok w) = ok w
found (err e) = err (workspace_err e)

-- A run that has shown an SSH client why there is no tunnel, or one that starts a tunnel.
pub data Plan : Type 0 where
  discarded : Plan
  tunnels : Tunneler → Plan

module _ (env : TunnelEnv) where
  -- the local port, 0 for stdio
  abbrev pub local_port_of : Bytes → Result TunnelErr ℕ
  local_port_of arg =
      if not (same arg stdio_arg) then required bad_local_port (env.parse_uint arg) else ok 0

  -- The branch for a workspace that is not on.
  unfoldable pub not_on : ℕ → Result TunnelErr Plan
  not_on remote =
      if remote == ssh_port
      then (do
        key ← required ssh_key_err env.ssh_key
        guard (env.discards key) discard_err
        ok discarded)
      else err not_available

  -- The branch for a workspace that is on.
  unfoldable pub with_servers : Workspace → ℕ → ℕ → Bytes → Result TunnelErr Plan
  with_servers w remote local local_arg = do
    servers ← required ice_err env.ice_servers
    ok (
        tunnels (record {
          workspace = w;
          ice_servers = servers;
          remote_port = uint16 remote;
          local_port = uint16 local;
          stdio = same local_arg stdio_arg;
        }))

  -- the handler, up to `start`
  unfoldable pub prepare_tunnel : Bytes → Bytes → Bytes → Result TunnelErr Plan
  unfolding not_on with_servers
  prepare_tunnel name remote_arg local_arg = do
    remote ← required bad_remote_port (env.parse_uint remote_arg)
    local ← local_port_of local_arg
    w ← found (find_workspace env.client name me)
    if not (is_on w.status) then not_on remote else with_servers w remote local local_arg

-- What happens at a turn of the accept loop: no connection, or one for which the workspace is dialed.
pub data Turn : Type 0 where
  accept_fails : Turn
  accepts : Bool → Turn

-- What the network does for `start`, with the turns of its loop.
pub record Network : Type 0 where
  pub dials : Bool
  pub connects : Bool
  pub client_made : Bool
  pub copies : Bool
  pub listens : Bool
  pub turns : List Turn

-- The loop: none while it waits for a connection, or its error, with the number of those it forwards.
unfoldable pub accept_loop : List Turn → ℕ → Option TunnelErr × ℕ
accept_loop [] n = (none, n)
accept_loop (accept_fails ∷ ts) n = (some accept_err, n)
accept_loop (accepts dialed ∷ ts) n =
    let rest = accept_loop ts (n + 1) in if dialed then rest else (some connect_err, n)

-- start: its error, if it returns one, and the connections that it forwards
unfoldable pub start : Tunneler → Network → Option TunnelErr × ℕ
unfolding accept_loop
start t net =
    if not net.dials
    then (some dial_err, 0)
    else if not net.connects
    then (some connect_err, 0)
    else if not net.client_made
    then (some client_err, 0)
    else if t.stdio
    then (if net.copies then none else some copy_err, 1)
    else if not net.listens
    then (some listen_err, 0)
    else accept_loop net.turns 0
