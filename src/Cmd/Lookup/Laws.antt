-- ===== src/Cmd/Lookup/Laws.antt =====
-- The helpers that search for a workspace, an image, an organization or a provider give what their
-- callers take them for.
use coder_cli.Prelude.{
  ◌≡◌, refl, sym, ap, ◌⊎◌, inl, inr, Bool, true, not, ◌&&◌, ◌||◌, Option, none, some, List, [], ◌∷◌,
  ◌++◌, map, arith, In, In-append, All, Option-cases,
}
use coder_cli.Prelude.Texts.{Bytes, same, same-eq}
use coder_cli.Prelude.Dict.{Dict, lookup, insert, lookup-insert}
use coder_cli.Prelude.Results.{bind_ok, ok, err, guard}
use coder_cli.Cmd.Api.{
  Workspace, Image, User, Organization, Provider, CmdError, not_found, Answer, Client,
}
use coder_cli.Cmd.Lookup.{
  first, replace_err, found_or, lookup_user_orgs, collect_workspaces, get_workspaces,
  search_for_workspace, find_workspace, match_images, get_imgs, find_img, provider_map,
  with_providers, workspaces_with_provider, select_org,
}

module _ {A : Type 0} where
  pub first-In : (p : A → Bool) (a : A) (xs : List A) → first p xs ≡ some a → In a xs × (p a ≡ true)
  first-In p a [] h = absurd (cc)
  first-In p a (x ∷ xs) h = ground (arith, first-In p a xs)

replace_ok : {A : Type 0} (e : CmdError) (m : Answer A) (a : A) → replace_err e m ≡ ok a → m ≡ ok a
replace_ok e (ok a) b h = h
replace_ok e (err x) b h = absurd cc

pub found_ok : {A : Type 0} (e : CmdError) (o : Option A) (a : A) → found_or e o ≡ ok a → o ≡ some a
found_ok e none a h = absurd cc
found_ok e (some b) a h = cc

-- Where a workspace of the list comes from: an organization of the list, whose workspaces hold it.
abbrev pub FromOrg : Client → User → List Organization → Workspace → Type 0
FromOrg client user orgs w =
    (org : Organization) × (ws : List Workspace) × In org orgs
    × (client.user_workspaces user.id org.id ≡ ok ws)
    × In w ws

In-ok_append :
    (ws rest all : List Workspace) (w : Workspace)
    → Path (Answer (List Workspace)) (ok (ws ++ rest)) (ok all)
    → In w all
    → In w (ws ++ rest)
In-ok_append ws rest all w e j = let q : all ≡ ws ++ rest = cc in rw (sym q) j

FromOrg-later :
    (client : Client) (user : User) (org : Organization) (orgs : List Organization) (w : Workspace)
    → FromOrg client user orgs w
    → FromOrg client user (org ∷ orgs) w
FromOrg-later client user org orgs w (o, ws, j, e, k) = (o, ws, inr j, e, k)

collect_workspaces-FromOrg :
    (client : Client) (user : User) (orgs : List Organization) (all : List Workspace)
    (w : Workspace)
    → collect_workspaces client user orgs ≡ ok all
    → In w all
    → FromOrg client user orgs w
unfolding collect_workspaces
collect_workspaces-FromOrg client user [] all w h i = absurd (ground arith)
collect_workspaces-FromOrg client user (org ∷ orgs) all w h i =
    let (ws, hw, h1) = bind_ok (client.user_workspaces user.id org.id) _ all h in
    let (rest, hr, h2) = bind_ok (collect_workspaces client user orgs) _ all h1 in
    elim (In-append w ws rest (In-ok_append ws rest all w h2 i)) [
      | inl j ↦ (org, ws, inl refl, hw, j)
      | inr j ↦
          FromOrg-later client user org orgs w
            (collect_workspaces-FromOrg client user orgs rest w hr j)
    ]

-- A workspace that `find_workspace` gives has the name asked for, and the server lists it as one of
-- the user's workspaces in an organization that has the user as a member.
pub find_workspace_sound :
    (client : Client) (name email : Bytes) (w : Workspace)
    → find_workspace client name email ≡ ok w
    → (same w.name name ≡ true)
      × ((user : User) × (orgs : List Organization) × (client.user_by_email email ≡ ok user)
          × (client.organizations ≡ ok orgs)
          × FromOrg client user (lookup_user_orgs user orgs) w)
unfolding find_workspace search_for_workspace get_workspaces
find_workspace_sound client name email w h =
    let h1 = replace_ok _ (search_for_workspace client name email) w h in
    let (all, ha, h2) = bind_ok (get_workspaces client email) _ w h1 in
    let (i, e) = first-In (λ v. same v.name name) w all (found_ok _ _ w h2) in
    let (user, hu, h3) = bind_ok (client.user_by_email email) _ all ha in
    let (orgs, ho, h4) = bind_ok client.organizations _ all h3 in
    (e, (user, orgs, hu, ho, collect_workspaces-FromOrg client user _ all w h4 i))

-- `select_org` gives an organization of the list, which is the one named or, when no name is given,
-- a default one.
pub select_org_sound :
    (needle : Bytes) (haystack : List Organization) (org : Organization)
    → select_org needle haystack ≡ ok org
    → In org haystack × ((org.name ≡ needle) ⊎ ((needle ≡ []) × (org.is_default ≡ true)))
unfolding select_org
select_org_sound needle haystack org h =
    elim (Option-cases
      (first (λ o. same o.name needle || (same needle [] && o.is_default)) haystack)) [
        | inl e ↦ absurd (ground arith)
        | inr (o, e) ↦
            let (i, t) = first-In _ o haystack e in
            let q : o ≡ org = ground arith in rw (sym q) (i, named o t)
      ]
  where
    named :
        (o : Organization)
        → (same o.name needle || (same needle [] && o.is_default)) ≡ true
        → (o.name ≡ needle) ⊎ ((needle ≡ []) × (o.is_default ≡ true))
    named o t = ground (arith, same-eq o.name needle, same-eq needle [])

-- The image that `match_images` takes is one of the list and has exactly the name asked for, however
-- many similar ones stand before it.
match_images_sound :
    (name : Bytes) (similar imgs : List Image) (img : Image)
    → match_images name similar imgs ≡ ok img
    → In img imgs × (same img.repository name ≡ true)
unfolding match_images
match_images_sound name [] [] img h = absurd cc
match_images_sound name (s ∷ ss) [] img h = absurd cc
match_images_sound name similar (i ∷ is) img h = ground (
  arith,
  match_images_sound name (similar ++ i ∷ []) is img,
  match_images_sound name similar is img,
)

-- The image that `find_img` gives has exactly the name asked for as its repository.
pub find_img_sound :
    (client : Client) (email name org_name : Bytes) (img : Image)
    → find_img client email name org_name ≡ ok img
    → same img.repository name ≡ true
unfolding find_img
find_img_sound client email name org_name img h =
    let (_, _, h1) = bind_ok (guard (not (same email [])) _) _ img h in
    let (_, _, h2) = bind_ok (guard (not (same name [])) _) _ img h1 in
    let (imgs, _, h3) = bind_ok (get_imgs client email org_name) _ img h2 in
    (match_images_sound name [] imgs img h3).1

-- Every provider of the map stands under its own id.
abbrev MapIsValid : Dict Provider → Type 0
MapIsValid m = (k : Bytes) (p : Provider) → lookup k m ≡ some p → same p.id k ≡ true

nil-none : (k : Bytes) (p : Provider) → lookup k [] ≡ some p → ⊥
unfolding lookup
nil-none k p e = absurd cc

insert-MapIsValid : (p : Provider) (m : Dict Provider) → MapIsValid m → MapIsValid (insert p.id p m)
insert-MapIsValid p m v k q h = ground (arith, v k q, lookup-insert p.id k p m)

provider_map-MapIsValid :
    (ps : List Provider) (m : Dict Provider) → MapIsValid m → MapIsValid (provider_map ps m)
unfolding provider_map
provider_map-MapIsValid [] m v = v
provider_map-MapIsValid (p ∷ ps) m v =
    provider_map-MapIsValid ps (insert p.id p m) (insert-MapIsValid p m v)

-- The workspace of a pair, and its provider as the workspace names it.
abbrev pub Matches : Workspace × Provider → Type 0
Matches wp = same wp.1.id wp.0.resource_pool_id ≡ true

with_providers_sound :
    (m : Dict Provider) (ws : List Workspace) (wps : List (Workspace × Provider))
    → MapIsValid m
    → with_providers m ws ≡ ok wps
    → (map (λ wp. wp.0) wps ≡ ws) × All Matches wps
unfolding with_providers
with_providers_sound m [] wps v h = let q : wps ≡ [] = cc in rw q (refl, tt)
with_providers_sound m (w ∷ ws) wps v h =
    let (p, hp, h1) = bind_ok (found_or not_found (lookup w.resource_pool_id m)) _ wps h in
    let (rest, hr, h2) = bind_ok (with_providers m ws) _ wps h1 in
    let (e, a) = with_providers_sound m ws rest v hr in
    let q : wps ≡ (w, p) ∷ rest = cc in
    rw q (ap (λ t. w ∷ t) e, (v w.resource_pool_id p (found_ok _ _ p hp), a))

-- When `workspaces_with_provider` succeeds, it gives every workspace, in order, each with a provider
-- whose id is the workspace's resource pool.
pub workspaces_with_provider_sound :
    (client : Client) (ws : List Workspace) (wps : List (Workspace × Provider))
    → workspaces_with_provider client ws ≡ ok wps
    → (map (λ wp. wp.0) wps ≡ ws) × All Matches wps
unfolding workspaces_with_provider
workspaces_with_provider_sound client ws wps h =
    let (ps, _, h1) = bind_ok client.providers _ wps h in
    with_providers_sound (provider_map ps []) ws wps
      (provider_map-MapIsValid ps [] (λ k p e. absurd (nil-none k p e))) h1
