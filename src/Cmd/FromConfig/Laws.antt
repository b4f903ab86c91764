-- ===== src/Cmd/FromConfig/Laws.antt =====
-- What is asked of the server for a configuration, and two flags that do not do what they are for.
use mathlib.Core.Path.{ap₂}
use coder_cli.Prelude.{
  ◌≡◌, refl, sym, ap, ◌∙◌, inl, inr, ◌<◌, Bool, true, false, not, ◌&&◌, ◌||◌, List, [], ◌∷◌, length,
  ltb, if◌then◌else◌, lt→ltb,
}
use coder_cli.Prelude.Texts.{Bytes, codes, same, same_self}
use coder_cli.Prelude.Results.{ok, err, guard, bind_ok, Result-cases}
use coder_cli.Cmd.Api.{
  Workspace, Organization, Provider, CmdError, org_required, name_unset, source_unset, Answer,
}
use coder_cli.Cmd.Lookup.{find_workspace, select_org, get_user_orgs, default_workspace_provider}
use coder_cli.Cmd.FromConfig.{
  ConfigFlags, ConfigRequest, parse_template, create_workspace, track_template, existing, fresh,
  template_create_req, ConfigEnv, Target, local_file, target, prepare_parse, apply, after_parse,
  from_config,
}
use coder_cli.Sdk.Client.Users.{me}
use coder_cli.Sdk.Client.Workspaces.{ParseTemplateRequest}

abbrev name_of : Bool → Bytes → ConfigFlags → Bytes
name_of update argument flags = if update then argument else flags.env_name

-- What a template is parsed for: the workspace that the argument stands for, or a new one of the flag's
-- name in the organization of the flag.
abbrev pub IsTarget :
    ConfigEnv → Bool → Bytes → ConfigFlags → Target → ParseTemplateRequest → Type 0
IsTarget env update argument flags t req =
    (orgs : List Organization) × (get_user_orgs env.client me ≡ ok orgs)
    × (target env update (name_of update argument flags) flags orgs ≡ ok (t, req.org_id))
    × (req.repo_url ≡ flags.repo)
    × (req.ref ≡ flags.ref)
    × (local_file env.read_file flags.filepath ≡ ok req.local)

prepare_parse_sound :
    (env : ConfigEnv) (update : Bool) (argument : Bytes) (flags : ConfigFlags) (t : Target)
    (org_id : Bytes) (req : ParseTemplateRequest)
    → prepare_parse env update argument flags ≡ ok (t, org_id, req)
    → (req.org_id ≡ org_id) × IsTarget env update argument flags t req
unfolding prepare_parse
prepare_parse_sound env update argument flags t org_id req h =
    let r : Target × Bytes × ParseTemplateRequest = (t, org_id, req) in
    let (_, _, h1) =
      bind_ok (guard (update || not (same (name_of update argument flags) [])) name_unset) _ r h in
    let (orgs, ho, h2) = bind_ok (get_user_orgs env.client me) _ r h1 in
    let (_, _, h3) =
      bind_ok (guard (not (ltb 1 (length orgs) && same flags.org [])) org_required) _ r h2 in
    let (found, hf, h4) =
      bind_ok (target env update (name_of update argument flags) flags orgs) _ r h3 in
    let (_, _, h5) =
      bind_ok
        (guard (not (same flags.filepath [] && (same flags.ref [] && same flags.repo [])))
          source_unset)
        _ r h4 in
    let (file, hl, h6) = bind_ok (local_file env.read_file flags.filepath) _ r h5 in
    let qt : found.0 ≡ t = cc in
    let qo : found.1 ≡ org_id = cc in
    let qr : record {
      repo_url = flags.repo;
      ref = flags.ref;
      filepath = codes ".coder/coder.yaml";
      org_id = found.1;
      local = file;
    }
        ≡ req =
      cc in
    let qi : found.1 ≡ req.org_id = ap (λ q. q.org_id) qr in
    (
      sym qi ∙ qo,
      (
        orgs,
        ho,
        hf ∙ ap₂ (λ a b. ok (a, b)) qt qi,
        sym (ap (λ q. q.repo_url) qr),
        sym (ap (λ q. q.ref) qr),
        hl ∙ ap (λ q. ok (q.local)) qr,
      ),
    )

from_config-err :
    (env : ConfigEnv) (update : Bool) (argument : Bytes) (flags : ConfigFlags) (x : CmdError)
    → prepare_parse env update argument flags ≡ err x
    → from_config env update argument flags ≡ (err x, [])
unfolding from_config
from_config-err env update argument flags x e = rw (from_config, e) refl

from_config-ok :
    (env : ConfigEnv) (update : Bool) (argument : Bytes) (flags : ConfigFlags) (t : Target)
    (org_id : Bytes) (req : ParseTemplateRequest)
    → prepare_parse env update argument flags ≡ ok (t, org_id, req)
    → let rest = after_parse env t org_id flags.follow (env.parses req) in
      from_config env update argument flags ≡ (rest.0, parse_template req ∷ rest.1)
unfolding from_config
from_config-ok env update argument flags t org_id req e = rw (from_config, e) refl

failed : {x : CmdError} → Path (Answer (Unit {0})) (err x) (ok tt) → ⊥
failed q = cc

-- What follows a template that is parsed succeeds only with an id and a provider.
after_parse_ok :
    (env : ConfigEnv) (t : Target) (org_id : Bytes) (follow : Bool) (r : Answer Bytes)
    → (after_parse env t org_id follow r).0 ≡ ok tt
    → (template_id : Bytes) × (p : Provider) × (r ≡ ok template_id)
      × (default_workspace_provider env.client ≡ ok p)
      × ((after_parse env t org_id follow r).1 ≡ (apply env t org_id template_id p follow).1)
unfolding after_parse
after_parse_ok env t org_id follow (err e) h = absurd cc
after_parse_ok env t org_id follow (ok id) h =
    elim (Result-cases (default_workspace_provider env.client)) [
      | inl (p, e) ↦ (id, p, refl, e, rw (after_parse, e) refl)
      | inr (x, e) ↦ absurd (failed (rw (after_parse, e) at h))
    ]

refused_org :
    (env : ConfigEnv) (argument : Bytes) (flags : ConfigFlags) (orgs : List Organization)
    → get_user_orgs env.client me ≡ ok orgs
    → (ltb 1 (length orgs) && same flags.org []) ≡ true
    → prepare_parse env true argument flags ≡ err org_required
unfolding prepare_parse
refused_org env argument flags orgs e g = rw (prepare_parse, e, g) refl

-- The one request behind the parsing, which parsed for an organization: it changes the template of the
-- workspace that the argument names, in whose organization the template is, or creates a workspace in
-- the organization of the flag, with the name of the flag.
abbrev pub Applied :
    ConfigEnv → Bool → Bytes → ConfigFlags → Bytes → Bytes → Provider → ConfigRequest → Type 0
Applied env true argument flags org_id template_id p r =
    (w : Workspace) × (find_workspace env.client argument me ≡ ok w)
    × (org_id ≡ w.organization_id)
    × (r ≡ track_template w.id template_id)
Applied env false argument flags org_id template_id p r =
    (orgs : List Organization) × (org : Organization) × (get_user_orgs env.client me ≡ ok orgs)
    × (select_org flags.org orgs ≡ ok org)
    × (org_id ≡ org.id)
    × (r
        ≡ create_workspace (record {
          name = flags.env_name;
          image_id = [];
          org_id = org_id;
          image_tag = [];
          cpu_cores = 0;
          memory_gb = 0;
          disk_gb = 0;
          gpus = 0;
          use_container_vm = false;
          resource_pool_id = p.id;
          namespace = p.default_namespace;
          enable_auto_start = false;
          template_id = template_id;
        }))

applied :
    (env : ConfigEnv) (update : Bool) (argument : Bytes) (flags : ConfigFlags) (t : Target)
    (req : ParseTemplateRequest) (template_id : Bytes) (p : Provider)
    → IsTarget env update argument flags t req
    → (r : ConfigRequest) × Applied env update argument flags req.org_id template_id p r
      × ((apply env t req.org_id template_id p flags.follow).1 ≡ r ∷ [])
unfolding target apply template_create_req
applied env true argument flags t req template_id p (orgs, ho, ht, _, _, _) =
    let (w, hw, h) = bind_ok (find_workspace env.client argument me) _ (t, req.org_id) ht in
    let qt : existing w ≡ t = cc in
    (
      track_template w.id template_id,
      (w, hw, cc, refl),
      ap (λ x. (apply env x req.org_id template_id p flags.follow).1) (sym qt),
    )
applied env false argument flags t req template_id p (orgs, ho, ht, _, _, _) =
    let (org, hs, h) = bind_ok (select_org flags.org orgs) _ (t, req.org_id) ht in
    let qt : fresh flags.env_name ≡ t = cc in
    (
      create_workspace (template_create_req req.org_id template_id flags.env_name p),
      (orgs, org, ho, hs, cc, refl),
      ap (λ x. (apply env x req.org_id template_id p flags.follow).1) (sym qt),
    )

-- When the handler succeeds, it has sent two requests: to parse the template of the flags, for the
-- organization of the workspace that is edited or of the flag, and then, with the id of the parsed
-- template, to use it for the workspace that is edited or for a new one of the flag's name on the
-- built-in provider.
pub from_config_sound :
    (env : ConfigEnv) (update : Bool) (argument : Bytes) (flags : ConfigFlags)
    → (from_config env update argument flags).0 ≡ ok tt
    → (req : ParseTemplateRequest) × (template_id : Bytes) × (p : Provider) × (r : ConfigRequest)
      × (req.repo_url ≡ flags.repo)
      × (req.ref ≡ flags.ref)
      × (local_file env.read_file flags.filepath ≡ ok req.local)
      × (env.parses req ≡ ok template_id)
      × (default_workspace_provider env.client ≡ ok p)
      × Applied env update argument flags req.org_id template_id p r
      × ((from_config env update argument flags).1 ≡ parse_template req ∷ r ∷ [])
from_config_sound env update argument flags h =
    elim (Result-cases (prepare_parse env update argument flags)) [
      | inl (r, e) ↦
          let (t, org_id, req) = r in
          let c = from_config-ok env update argument flags t org_id req e in
          let (o, i) = prepare_parse_sound env update argument flags t org_id req e in
          let (id, p, hi, hp, hr) =
            after_parse_ok env t org_id flags.follow (env.parses req) (rw c at h) in
          let (last, ha, hl) = applied env update argument flags t req id p i in
          let (orgs, ho, ht, repo, ref, file) = i in
          (
            req,
            id,
            p,
            last,
            repo,
            ref,
            file,
            hi,
            hp,
            ha,
            ap (λ q. q.1) c
                ∙ ap (λ l. parse_template req ∷ l)
                    (hr ∙ ap (λ org. (apply env t org id p flags.follow).1) (sym o) ∙ hl),
          )
      | inr (x, e) ↦ absurd (failed (rw (from_config-err env update argument flags x e) at h))
    ]

-- The flag for a workspace provider has no effect.
pub from_config-provider_name :
    (env : ConfigEnv) (update : Bool) (argument : Bytes) (flags : ConfigFlags) (name : Bytes)
    → from_config env update argument (record flags { provider_name = name })
      ≡ from_config env update argument flags
unfolding from_config prepare_parse target
from_config-provider_name env update argument flags name = refl

-- Without an organization, which `edit-from-config` has no flag for, a member of several organizations
-- is refused, and nothing is asked of the server's templates.
pub from_config-org_required :
    (env : ConfigEnv) (argument : Bytes) (flags : ConfigFlags) (orgs : List Organization)
    → get_user_orgs env.client me ≡ ok orgs
    → 1 < length orgs
    → flags.org ≡ []
    → from_config env true argument flags ≡ (err org_required, [])
from_config-org_required env argument flags orgs e n o =
    from_config-err env true argument flags org_required
      (refused_org env argument flags orgs e (rw (lt→ltb 1 (length orgs) n, o) (same_self [])))
