-- ===== src/Cmd/Lookup/Reads.antt =====
-- The lookups at a client whose queries succeed: what they read is a function of the answers.
use coder_cli.Prelude.{◌≡◌, refl, List, [], ◌∷◌, ◌++◌, Option, none, some}
use coder_cli.Prelude.Texts.{Bytes, same}
use coder_cli.Prelude.Results.{ok}
use coder_cli.Cmd.Api.{Workspace, User, Organization, not_found, workspace_missing, Client}
use coder_cli.Cmd.Lookup.{
  first, replace_err, found_or, lookup_user_orgs, collect_workspaces, get_workspaces,
  search_for_workspace, find_workspace,
}

-- The workspaces of some organizations, one after the other.
abbrev pub owned : (Bytes → List Workspace) → List Organization → List Workspace
owned ws [] = []
owned ws (org ∷ orgs) = ws org.id ++ owned ws orgs

pub collect_workspaces-owned :
    (client : Client) (user : User) (ws : Bytes → List Workspace) (orgs : List Organization)
    → ((org_id : Bytes) → client.user_workspaces user.id org_id ≡ ok (ws org_id))
    → collect_workspaces client user orgs ≡ ok (owned ws orgs)
unfolding collect_workspaces
collect_workspaces-owned client user ws [] h = refl
collect_workspaces-owned client user ws (org ∷ orgs) h =
    rw (h org.id, collect_workspaces-owned client user ws orgs h) refl

pub find_workspace-owned :
    (client : Client) (user : User) (orgs : List Organization) (ws : Bytes → List Workspace)
    (name email : Bytes)
    → client.user_by_email email ≡ ok user
    → client.organizations ≡ ok orgs
    → ((org_id : Bytes) → client.user_workspaces user.id org_id ≡ ok (ws org_id))
    → find_workspace client name email
      ≡ found_or workspace_missing
          (first (λ w. same w.name name) (owned ws (lookup_user_orgs user orgs)))
unfolding find_workspace search_for_workspace get_workspaces
find_workspace-owned client user orgs ws name email hu ho hw =
    rw (hu, ho, collect_workspaces-owned client user ws (lookup_user_orgs user orgs) hw)
      (replaced (first (λ w. same w.name name) (owned ws (lookup_user_orgs user orgs))))
  where
    replaced :
        (o : Option Workspace)
        → replace_err workspace_missing (found_or not_found o) ≡ found_or workspace_missing o
    replaced none = refl
    replaced (some w) = refl
