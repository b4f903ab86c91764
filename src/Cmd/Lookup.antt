-- ===== src/Cmd/Lookup.antt =====
-- internal/cmd/ceapi.go, selectOrg of internal/cmd/workspaces.go, and the lookups of
-- internal/coderutil: how a command finds the workspace, image, organization or provider it names.
pub mod Laws
pub mod Reads
use coder_cli.Prelude.{
  ℕ, Bool, true, false, not, ◌&&◌, ◌||◌, Option, none, some, List, [], ◌∷◌, ◌++◌, any, keep, length,
  ltb, is_set, if◌then◌else◌,
}
use coder_cli.Prelude.Texts.{Bytes, same, contains}
use coder_cli.Prelude.Dict.{Dict, lookup, insert}
use coder_cli.Prelude.Results.{Result, ok, err, ◌>>=◌, ◌>>◌, guard}
use coder_cli.Cmd.Api.{
  Workspace, Image, User, Organization, Provider, CmdError, not_found, email_unset, image_unset,
  image_missing, org_unknown, email_missing, no_orgs, image_similar, workspace_missing,
  org_not_located, no_default_org, Answer, Client,
}

-- The first element that passes a test, as a loop with a return finds it.
abbrev pub first : {A : Type 0} → (A → Bool) → List A → Option A
first p [] = none
first p (x ∷ xs) = if p x then some x else first p xs

-- an error in place of any other
abbrev pub replace_err : {A : Type 0} → CmdError → Answer A → Answer A
replace_err e (ok a) = ok a
replace_err e (err e') = err e

abbrev pub found_or : {A : Type 0} → CmdError → Option A → Answer A
found_or e none = err e
found_or e (some a) = ok a

-- lookupUserOrgs
unfoldable pub lookup_user_orgs : User → List Organization → List Organization
lookup_user_orgs user = keep (λ org. any (λ member. same member user.id) org.members)

-- possibleMatches, one line for each
abbrev repositories : List Image → List Bytes
repositories [] = []
repositories (i ∷ is) = i.repository ∷ repositories is

-- The loop of findImg: the image of that name, or the similar ones.
match_images : Bytes → List Image → List Image → Answer Image
match_images img_name [] [] = err image_missing
match_images img_name (m ∷ ms) [] = err (image_similar (repositories (m ∷ ms)))
match_images img_name similar (img ∷ imgs) =
    if same img.repository img_name
    then ok img
    else match_images img_name
        (if contains img.repository img_name then similar ++ img ∷ [] else similar) imgs

module _ (client : Client) where
  -- the loop over the organizations
  pub collect_workspaces : User → List Organization → Answer (List Workspace)
  collect_workspaces user [] = ok []
  collect_workspaces user (org ∷ orgs) = do
    ws ← client.user_workspaces user.id org.id
    rest ← collect_workspaces user orgs
    ok (ws ++ rest)

  -- getWorkspaces
  unfoldable pub get_workspaces : Bytes → Answer (List Workspace)
  unfolding collect_workspaces lookup_user_orgs
  get_workspaces email = do
    user ← client.user_by_email email
    orgs ← client.organizations
    collect_workspaces user (lookup_user_orgs user orgs)

  -- searchForWorkspace, without the haystack of names
  search_for_workspace : Bytes → Bytes → Answer Workspace
  unfolding get_workspaces
  search_for_workspace name email = do
    ws ← get_workspaces email
    found_or not_found (first (λ w. same w.name name) ws)

  -- findWorkspace
  unfoldable pub find_workspace : Bytes → Bytes → Answer Workspace
  unfolding search_for_workspace
  find_workspace name email = replace_err workspace_missing (search_for_workspace name email)

  -- The loop of getImgs over the organizations, which asks for the images of each.
  pick_images : Bytes → List Organization → Answer (List Image)
  pick_images org_name [] = err org_unknown
  pick_images org_name (org ∷ orgs) = do
    imgs ← client.organization_images org.id
    if (not (same org_name []) && same org_name org.name) || same org_name []
        then ok imgs
        else pick_images org_name orgs

  -- getImgs
  unfoldable pub get_imgs : Bytes → Bytes → Answer (List Image)
  unfolding pick_images lookup_user_orgs
  get_imgs email org_name = do
    user ← client.user_by_email email
    orgs ← client.organizations
    pick_images org_name (lookup_user_orgs user orgs)

  -- findImg
  unfoldable pub find_img : Bytes → Bytes → Bytes → Answer Image
  unfolding match_images get_imgs
  find_img email img_name org_name = do
    guard (not (same email [])) email_unset
    guard (not (same img_name [])) image_unset
    imgs ← get_imgs email org_name
    match_images img_name [] imgs

  -- getUserOrgs
  unfoldable pub get_user_orgs : Bytes → Answer (List Organization)
  unfolding lookup_user_orgs
  get_user_orgs email = do
    user ← replace_err email_missing (client.user_by_email email)
    orgs ← replace_err no_orgs client.organizations
    ok (lookup_user_orgs user orgs)

  -- isMultiOrgMember
  unfoldable pub is_multi_org_member : Bytes → Answer Bool
  unfolding get_user_orgs
  is_multi_org_member email = do orgs ← get_user_orgs email; ok (ltb 1 (length orgs))

  -- coderutil.ProviderByName
  unfoldable pub provider_by_name : Bytes → Answer Provider
  provider_by_name name = do
    ps ← client.providers
    found_or not_found (first (λ p. same p.name name) ps)

  -- coderutil.DefaultWorkspaceProvider
  unfoldable pub default_workspace_provider : Answer Provider
  default_workspace_provider = do
    ps ← client.providers
    found_or not_found (first (λ p. p.built_in) ps)

  -- filterWorkspacesByUser
  filter_workspaces_by_user : Bytes → List Workspace → Answer (List Workspace)
  filter_workspaces_by_user email ws = do
    user ← client.user_by_email email
    ok (keep (λ w. same w.user_id user.id) ws)

  -- getWorkspacesByProvider
  unfoldable pub get_workspaces_by_provider : Bytes → Bytes → Answer (List Workspace)
  unfolding provider_by_name filter_workspaces_by_user
  get_workspaces_by_provider name email = do
    p ← provider_by_name name
    ws ← client.workspaces_by_provider p.id
    filter_workspaces_by_user email ws

-- providerMap
pub provider_map : List Provider → Dict Provider → Dict Provider
provider_map [] m = m
provider_map (p ∷ ps) m = provider_map ps (insert p.id p m)

-- the loop of WorkspacesWithProvider
with_providers : Dict Provider → List Workspace → Answer (List (Workspace × Provider))
with_providers m [] = ok []
with_providers m (w ∷ ws) = do
  p ← found_or not_found (lookup w.resource_pool_id m)
  rest ← with_providers m ws
  ok ((w, p) ∷ rest)

-- coderutil.WorkspacesWithProvider
unfoldable pub workspaces_with_provider :
    Client → List Workspace → Answer (List (Workspace × Provider))
unfolding provider_map with_providers
workspaces_with_provider client ws = do
  ps ← client.providers
  with_providers (provider_map ps []) ws

-- selectOrg
unfoldable pub select_org : Bytes → List Organization → Answer Organization
select_org needle haystack =
    elim (first (λ org. same org.name needle || (same needle [] && org.is_default)) haystack) [
      | some org ↦ ok org
      | none ↦ if not (same needle []) then err org_not_located else err no_default_org
    ]
