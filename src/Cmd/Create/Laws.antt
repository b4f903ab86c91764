-- ===== src/Cmd/Create/Laws.antt =====
-- What is created.
use coder_cli.Prelude.{
  ◌≡◌, refl, ◌≢◌, subst, ◌⊎◌, inl, inr, ℕ, ◌≤◌, Bool, true, not, ◌&&◌, List, [], ◌∷◌, All, In,
  length, arith, Bool-cases,
}
use coder_cli.Prelude.Texts.{Bytes, same, same-eq}
use coder_cli.Prelude.Results.{ok, err, ◌>>=◌, guard, guard-true, bind_ok, Result-cases}
use coder_cli.Cmd.Api.{Image, Provider, CmdError, not_found, image_unset, org_required, Client}
use coder_cli.Cmd.Lookup.{
  first, found_or, find_img, is_multi_org_member, provider_by_name, default_workspace_provider,
}
use coder_cli.Cmd.Lookup.Laws.{first-In, found_ok, find_img_sound}
use coder_cli.Cmd.Update.{amount}
use coder_cli.Cmd.Create.{
  CreateReq, CreateEnv, CreateFlags, create_req, find_provider, prepare_create, followed, create,
}
use coder_cli.Sdk.Client.Users.{me}

-- The provider is one of the server's: that of the name, or the built-in one where no name is given.
abbrev pub IsWanted : Client → Bytes → Provider → Type 0
IsWanted client name p =
    (ps : List Provider) × (client.providers ≡ ok ps)
    × In p ps
    × (((name ≡ []) × (p.built_in ≡ true)) ⊎ (p.name ≡ name))

found_first :
    (client : Client) (test : Provider → Bool) (p : Provider)
    → (client.providers >>= λ ps. found_or not_found (first test ps)) ≡ ok p
    → (ps : List Provider) × (client.providers ≡ ok ps) × In p ps × (test p ≡ true)
found_first client test p h =
    let (ps, hp, h1) = bind_ok client.providers _ p h in
    let (i, t) = first-In test p ps (found_ok _ _ p h1) in (ps, hp, i, t)

find_provider_sound :
    (env : CreateEnv) (name : Bytes) (p : Provider)
    → find_provider env name ≡ ok p
    → IsWanted env.client name p
unfolding provider_by_name default_workspace_provider
find_provider_sound env name p h = elim (Bool-cases (same name [])) [
  | inl e ↦
      let (ps, hp, i, t) = found_first env.client (λ q. q.built_in) p (rw e at h) in
      (ps, hp, i, inl (same-eq name [] e, t))
  | inr e ↦
      let (ps, hp, i, t) = found_first env.client (λ q. same q.name name) p (rw e at h) in
      (ps, hp, i, inr (same-eq p.name name t))
]

-- An amount is that of the flag, or the default where the flag is zero.
abbrev pub IsAmount : ℕ → ℕ → ℕ → Type 0
IsAmount flag default n = ((flag ≡ 0) × (n ≡ default)) ⊎ ((flag ≢ 0) × (n ≡ flag))

amount-IsAmount : (flag default : ℕ) → IsAmount flag default (amount flag default)
amount-IsAmount flag default = ground arith

-- What a request asks for.
pub record Asks (name : Bytes) (flags : CreateFlags) (img : Image) (p : Provider) (req : CreateReq)
    : Type 0 where
  pub named : req.name ≡ name
  pub image : req.image_id ≡ img.id
  pub image_tag : req.image_tag ≡ flags.image_tag
  pub org : req.org_id ≡ img.organization_id
  pub cpu : IsAmount flags.cpu img.default_cpu_cores req.cpu_cores
  pub memory : IsAmount flags.memory img.default_memory_gb req.memory_gb
  pub disk : IsAmount flags.disk img.default_disk_gb req.disk_gb
  pub gpus : req.gpus ≡ flags.gpus
  pub cvm : req.use_container_vm ≡ flags.use_cvm
  pub pool : req.resource_pool_id ≡ p.id
  pub namespace : req.namespace ≡ p.default_namespace
  pub auto_start : req.enable_auto_start ≡ flags.enable_autostart
  pub template : req.template_id ≡ []

create_req-Asks :
    (name : Bytes) (flags : CreateFlags) (img : Image) (p : Provider)
    → Asks name flags img p (create_req name flags img p)
unfolding create_req
create_req-Asks name flags img p = record {
  named = refl;
  image = refl;
  image_tag = refl;
  org = refl;
  cpu = amount-IsAmount flags.cpu img.default_cpu_cores;
  memory = amount-IsAmount flags.memory img.default_memory_gb;
  disk = amount-IsAmount flags.disk img.default_disk_gb;
  gpus = refl;
  cvm = refl;
  pool = refl;
  namespace = refl;
  auto_start = refl;
  template = refl;
}

-- The request stands on an image of the name that is asked for, in the organization of that image, and
-- on a provider of the server; a member of several organizations has named one.
abbrev pub CreateIsSound : CreateEnv → Bytes → CreateFlags → CreateReq → Type 0
CreateIsSound env name flags req =
    (img : Image) × (p : Provider) × (multi : Bool) × Asks name flags img p req
    × (is_multi_org_member env.client me ≡ ok multi)
    × (not (multi && same flags.org []) ≡ true)
    × (find_img env.client me flags.image flags.org ≡ ok img)
    × (img.repository ≡ flags.image)
    × IsWanted env.client flags.provider_name p

prepare_create_sound :
    (env : CreateEnv) (name : Bytes) (flags : CreateFlags) (req : CreateReq)
    → prepare_create env name flags ≡ ok req
    → CreateIsSound env name flags req
unfolding prepare_create
prepare_create_sound env name flags req h =
    let (_, _, h1) = bind_ok (guard (not (same flags.image [])) image_unset) _ req h in
    let (multi, hm, h2) = bind_ok (is_multi_org_member env.client me) _ req h1 in
    let (u, hg, h3) = bind_ok (guard (not (multi && same flags.org [])) org_required) _ req h2 in
    let (img, hi, h4) = bind_ok (find_img env.client me flags.image flags.org) _ req h3 in
    let (p, hp, h5) = bind_ok (find_provider env flags.provider_name) _ req h4 in
    let q : create_req name flags img p ≡ req = cc in
    (
      img,
      p,
      multi,
      subst (Asks name flags img p) q (create_req-Asks name flags img p),
      hm,
      guard-true _ _ u hg,
      hi,
      same-eq _ _ (find_img_sound env.client me flags.image flags.org img hi),
      find_provider_sound env flags.provider_name p hp,
    )

create-ok :
    (env : CreateEnv) (name : Bytes) (flags : CreateFlags) (req : CreateReq)
    → prepare_create env name flags ≡ ok req
    → create env name flags ≡ (followed env flags.follow (env.creates req), req ∷ [])
unfolding create
create-ok env name flags req e = rw (create, e) refl

create-err :
    (env : CreateEnv) (name : Bytes) (flags : CreateFlags) (x : CmdError)
    → prepare_create env name flags ≡ err x
    → create env name flags ≡ (err x, [])
unfolding create
create-err env name flags x e = rw (create, e) refl

-- The create handler sends one request at most, for the first argument as the name, on the image that
-- is found by the flags, in that image's organization and with its default amounts where a flag is
-- zero, on the provider of the name or the built-in one; a caller in several organizations must have
-- named one of them; and it succeeds only if it has sent one.
pub create_sound :
    (env : CreateEnv) (name : Bytes) (flags : CreateFlags)
    → All (CreateIsSound env name flags) (create env name flags).1
      × (length (create env name flags).1 ≤ 1)
      × ((create env name flags).0 ≡ ok tt → length (create env name flags).1 ≡ 1)
create_sound env name flags = elim (Result-cases (prepare_create env name flags)) [
  | inl (req, e) ↦
      rw (create-ok env name flags req e)
        ((prepare_create_sound env name flags req e, tt), omega arith, λ h. refl)
  | inr (x, e) ↦ rw (create-err env name flags x e) (tt, omega arith, λ h. absurd cc)
]
