-- ===== src/Cmd/Top.antt =====
-- internal/cmd/resourcemanager.go: the groups of workspaces and their resources.
--
-- A group is an entity (user, organization or provider) and its workspaces. Labels, which are text
-- for the verbose output, are not modelled.
pub mod Laws
use coder_cli.Prelude.{
  ℕ, ◌+◌, Bool, true, false, not, ◌&&◌, Option, none, some, List, [], ◌∷◌, ◌++◌, leb, ltb, length,
  take, if◌then◌else◌,
}
use coder_cli.Prelude.Texts.{Bytes, codes, same}
use coder_cli.Prelude.Dict.{Dict, lookup, insert}
use coder_cli.Cmd.Api.{Workspace, User, Organization, Provider}

pub record Entities : Type 0 where
  pub providers : List Provider
  pub users : List User
  pub orgs : List Organization
  pub workspaces : List Workspace

-- resourceTopOptions; the order and the output are arguments below
pub record TopOptions : Type 0 where
  pub user : Bytes
  pub org : Bytes
  pub provider : Bytes
  pub show_empty_groups : Bool

-- `m[k]` of a map of slices, whose zero value is the nil slice
abbrev pub entries : Bytes → Dict (List Workspace) → List Workspace
entries k m = elim (lookup k m) [ none ↦ [] | some ws ↦ ws ]

-- The loop that appends each workspace that is not skipped to the slice of its key.
unfoldable pub collect :
    (Workspace → Bool)
    → (Workspace → Bytes)
    → List Workspace
    → Dict (List Workspace)
    → Dict (List Workspace)
collect skip key [] m = m
collect skip key (w ∷ ws) m =
    collect skip key ws (if skip w then m else insert (key w) (entries (key w) m ++ w ∷ []) m)

-- The loop over the entities, those that are skipped left out.
unfoldable pub group :
    {A : Type 0}
    → (A → Bool)
    → (A → Bytes)
    → List A
    → Dict (List Workspace)
    → List (A × List Workspace)
group skip id [] m = []
group skip id (a ∷ rest_of) m =
    let rest = group skip id rest_of m in if skip a then rest else (a, entries (id a) m) ∷ rest

-- a filter that is set and does not match
abbrev pub filtered : Bytes → Bytes → Bool
filtered option value = not (same option []) && not (same value option)

-- the loops that fill the maps by id, and the field that is read, empty for a missing key
org_id_map : List Organization → Dict Organization → Dict Organization
org_id_map [] m = m
org_id_map (o ∷ os) m = org_id_map os (insert o.id o m)

user_ids : List User → Dict User → Dict User
user_ids [] m = m
user_ids (u ∷ us) m = user_ids us (insert u.id u m)

provider_ids : List Provider → Dict Provider → Dict Provider
provider_ids [] m = m
provider_ids (p ∷ ps) m = provider_ids ps (insert p.id p m)

unfoldable pub org_name : List Organization → Bytes → Bytes
unfolding org_id_map
org_name orgs id = elim (lookup id (org_id_map orgs [])) [ none ↦ [] | some o ↦ o.name ]

unfoldable pub user_email : List User → Bytes → Bytes
unfolding user_ids
user_email users id = elim (lookup id (user_ids users [])) [ none ↦ [] | some u ↦ u.email ]

unfoldable pub provider_name : List Provider → Bytes → Bytes
unfolding provider_ids
provider_name providers id = elim (lookup id (provider_ids providers [])) [
  | none ↦ []
  | some p ↦ p.name
]

-- aggregateByUser
unfoldable pub aggregate_by_user : Entities → TopOptions → List (User × List Workspace)
aggregate_by_user all options =
    group (λ u. filtered options.user u.email) (λ u. u.id) all.users
      (collect (λ w. filtered options.org (org_name all.orgs w.organization_id)) (λ w. w.user_id)
        all.workspaces [])

-- aggregateByOrg
unfoldable pub aggregate_by_org : Entities → TopOptions → List (Organization × List Workspace)
aggregate_by_org all options =
    group (λ o. filtered options.org o.name) (λ o. o.id) all.orgs
      (collect (λ w. filtered options.user (user_email all.users w.user_id))
        (λ w. w.organization_id) all.workspaces [])

-- aggregateByProvider
unfoldable pub aggregate_by_provider : Entities → TopOptions → List (Provider × List Workspace)
aggregate_by_provider all options =
    group (λ p. filtered options.provider p.name) (λ p. p.id) all.providers
      (collect (λ w. filtered options.provider (provider_name all.providers w.resource_pool_id))
        (λ w. w.resource_pool_id) all.workspaces [])

pub record Resources : Type 0 where
  pub cpu_allocation : ℕ
  pub mem_allocation : ℕ
  pub cpu_utilization : ℕ
  pub mem_utilization : ℕ

-- aggregateWorkspaceResources, with the sum so far
unfoldable pub add_resources : List Workspace → Resources → Resources
add_resources [] r = r
add_resources (w ∷ ws) r = add_resources ws (record {
  cpu_allocation = r.cpu_allocation + w.cpu_cores;
  mem_allocation = r.mem_allocation + w.memory_gb;
  cpu_utilization = r.cpu_utilization + w.cpu_usage;
  mem_utilization = r.mem_utilization + w.memory_usage;
})

-- aggregateWorkspaceResources
abbrev pub aggregate_workspace_resources : List Workspace → Resources
aggregate_workspace_resources ws =
    add_resources ws
      (record { cpu_allocation = 0; mem_allocation = 0; cpu_utilization = 0; mem_utilization = 0 })

-- The loop of printResourceTop that leaves out empty groups and sums up the others.
unfoldable pub resources_of :
    {A : Type 0} → Bool → List (A × List Workspace) → List (A × List Workspace × Resources)
resources_of show_empty [] = []
resources_of show_empty ((a, ws) ∷ groups) =
    let rest = resources_of show_empty groups in
    if not show_empty && ltb (length ws) 1
    then rest
    else (a, ws, aggregate_workspace_resources ws) ∷ rest

-- truncate; `str[:max+1]` of a longer text
unfoldable pub truncate : Bytes → ℕ → Bytes → Bytes
truncate str max replace = if leb (length str) max then str else take (max + 1) str ++ replace
