-- ===== src/Cmd/Tunnel/Laws.antt =====
-- Which workspace and ports a tunnel is for, and what it forwards.
use coder_cli.Prelude.{
  ◌≡◌, refl, sym, ap, ◌∙◌, ◌⊎◌, inl, inr, ℕ, ◌+◌, ◌<◌, ◌^◌, true, false, Option, none, some, List,
  [], ◌∷◌, ◌++◌, All, length, ◌==◌, arith, Bool-cases,
}
use coder_cli.Prelude.Texts.{Bytes, same}
use coder_cli.Prelude.Results.{Result, ok, err, guard, bind_ok}
use coder_cli.Cmd.Api.{Workspace, is_on, Answer}
use coder_cli.Cmd.Lookup.{find_workspace}
use coder_cli.Sdk.Client.Users.{me}
use coder_cli.Cmd.Tunnel.{
  TunnelErr, bad_remote_port, ssh_key_err, discard_err, not_available, ice_err, connect_err,
  ssh_port, TunnelEnv, Tunneler, stdio_arg, uint16, required, found, Plan, discarded, tunnels,
  local_port_of, not_on, with_servers, prepare_tunnel, Turn, accepts, accept_loop,
}

required_ok : {A : Type 0} (e : TunnelErr) (o : Option A) (a : A) → required e o ≡ ok a → o ≡ some a
required_ok e none a h = absurd cc
required_ok e (some x) a h = cc

found_ok : (m : Answer Workspace) (w : Workspace) → found m ≡ ok w → m ≡ ok w
found_ok (ok x) w h = cc
found_ok (err e) w h = absurd cc

not_on-tunnels :
    (env : TunnelEnv) (remote : ℕ) (t : Tunneler) → not_on env remote ≡ ok (tunnels t) → ⊥
unfolding not_on
not_on-tunnels env remote t h = elim (Bool-cases (remote == ssh_port)) [
  | inl e ↦
      let (key, _, h1) = bind_ok (required ssh_key_err env.ssh_key) _ (tunnels t) (rw e at h) in
      let (_, _, h2) = bind_ok (guard (env.discards key) discard_err) _ (tunnels t) h1 in other h2
  | inr e ↦ refused (rw e at h)
]
  where
    other : Path (Result TunnelErr Plan) (ok discarded) (ok (tunnels t)) → ⊥
    other q = cc

    refused : Path (Result TunnelErr Plan) (err not_available) (ok (tunnels t)) → ⊥
    refused q = cc

-- The tunnel of a workspace that is on.
with_servers_ok :
    (env : TunnelEnv) (w : Workspace) (remote local : ℕ) (local_arg : Bytes) (t : Tunneler)
    → with_servers env w remote local local_arg ≡ ok (tunnels t)
    → (t.workspace ≡ w)
      × (t.remote_port ≡ uint16 remote)
      × (t.local_port ≡ uint16 local)
      × (t.stdio ≡ same local_arg stdio_arg)
unfolding with_servers
with_servers_ok env w remote local local_arg t h =
    let (servers, _, h1) = bind_ok (required ice_err env.ice_servers) _ (tunnels t) h in
    let q : t ≡ record {
      workspace = w;
      ice_servers = servers;
      remote_port = uint16 remote;
      local_port = uint16 local;
      stdio = same local_arg stdio_arg;
    } =
      cc in
    rw q (refl, refl, refl, refl)

uint16_small :
    (env : TunnelEnv) (s : Bytes) (n m : ℕ)
    → ((s : Bytes) (n : ℕ) → env.parse_uint s ≡ some n → n < 2 ^ 16)
    → env.parse_uint s ≡ some n
    → m ≡ uint16 n
    → env.parse_uint s ≡ some m
uint16_small env s n m bits e q = let b = bits s n e in e ∙ ap some (omega arith)

local_port_cases :
    (env : TunnelEnv) (arg : Bytes) (n : ℕ)
    → local_port_of env arg ≡ ok n
    → ((same arg stdio_arg ≡ true) × (n ≡ 0)) ⊎ (env.parse_uint arg ≡ some n)
local_port_cases env arg n h = elim (Bool-cases (same arg stdio_arg)) [
  | inl e ↦ inl (e, zero_port n (rw e at h))
  | inr e ↦ inr (required_ok _ _ n (rw e at h))
]
  where
    zero_port : (n : ℕ) → Path (Result TunnelErr ℕ) (ok 0) (ok n) → n ≡ 0
    zero_port n q = cc

-- A tunnel is started only for the workspace of the name when that is on, on the ports of the arguments,
-- which 16 bits hold; the port 0 stands for stdio. The parser of the ports gives numbers of 16 bits.
pub prepare_tunnel_sound :
    (env : TunnelEnv) (name remote_arg local_arg : Bytes) (t : Tunneler)
    → ((s : Bytes) (n : ℕ) → env.parse_uint s ≡ some n → n < 2 ^ 16)
    → prepare_tunnel env name remote_arg local_arg ≡ ok (tunnels t)
    → (find_workspace env.client name me ≡ ok t.workspace)
      × (is_on t.workspace.status ≡ true)
      × (env.parse_uint remote_arg ≡ some t.remote_port)
      × (t.stdio ≡ same local_arg stdio_arg)
      × (((t.stdio ≡ true) × (t.local_port ≡ 0)) ⊎ (env.parse_uint local_arg ≡ some t.local_port))
unfolding prepare_tunnel
prepare_tunnel_sound env name remote_arg local_arg t bits h =
    let (remote, hr, h1) =
      bind_ok (required bad_remote_port (env.parse_uint remote_arg)) _ (tunnels t) h in
    let (local, hl, h2) = bind_ok (local_port_of env local_arg) _ (tunnels t) h1 in
    let (w, hw, h3) = bind_ok (found (find_workspace env.client name me)) _ (tunnels t) h2 in
    elim (Bool-cases (is_on w.status)) [
      | inr off ↦ absurd (not_on-tunnels env remote t (rw off at h3))
      | inl on ↦
          let (qw, qr, ql, qs) = with_servers_ok env w remote local local_arg t (rw on at h3) in
          (
            found_ok _ w hw ∙ ap ok (sym qw),
            rw qw on,
            uint16_small env remote_arg remote t.remote_port bits (required_ok _ _ remote hr) qr,
            qs,
            elim (local_port_cases env local_arg local hl) [
              | inl (e, z) ↦ inl (qs ∙ e, ql ∙ ap uint16 z)
              | inr e ↦ inr (uint16_small env local_arg local t.local_port bits e ql)
            ],
          )
    ]

-- The accept loop forwards every connection before the first one for which the workspace cannot be
-- dialed, and returns there.
pub accept_loop-first :
    (served : List Turn) (rest : List Turn) (n : ℕ)
    → All (λ t. t ≡ accepts true) served
    → accept_loop (served ++ accepts false ∷ rest) n ≡ (some connect_err, n + length served)
unfolding accept_loop
accept_loop-first [] rest n h = ap (λ m. (some connect_err, m)) (omega arith)
accept_loop-first (t ∷ ts) rest n (e, h) =
    rw e (accept_loop-first ts rest (n + 1) h ∙ ap (λ m. (some connect_err, m)) (omega arith))
