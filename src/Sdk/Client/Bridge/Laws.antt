-- ===== src/Sdk/Client/Bridge/Laws.antt =====
-- The client over a server that answers from a state: what each query gives, and what the commands
-- find by them.
use coder_cli.Prelude.{
  ◌≡◌, refl, ap, ◌∙◌, inl, inr, ◌&&◌, ◌≤◌, true, some, none, List, [], ◌∷◌, ◌++◌, any, keep,
  if◌then◌else◌, Bool-cases,
}
use coder_cli.Prelude.Texts.{Bytes, codes, trim_suffix, same, same_self}
use coder_cli.Prelude.Dict.{Dict, lookup}
use coder_cli.Prelude.Results.{ok}
use coder_cli.Cmd.Api.{
  User, Organization, Workspace, Image, Provider, workspace_missing, Answer, Client,
}
use coder_cli.Cmd.Lookup.{first, found_or, lookup_user_orgs, find_workspace}
use coder_cli.Cmd.Lookup.Reads.{owned, find_workspace-owned}
use coder_cli.Sdk.Http.{
  Http, Json, HttpRequest, HttpResponse, build_request, DefaultClient, get, no_payload, no_options,
  RequestOptions, with_query_params, decode, request_body,
}
use coder_cli.Sdk.Http.Laws.{build_request-token, request_body_iff}
use coder_cli.Sdk.Client.{◌/◌}
use coder_cli.Sdk.Client.Users.{
  users_path, me, find_email, user_by_id, users, user_by_email, organizations,
}
use coder_cli.Sdk.Client.Workspaces.{user_workspaces_by_organization}
use coder_cli.Sdk.Client.Images.{organization_images}
use coder_cli.Sdk.Client.Bridge.{answer, Codecs, default_client}

-- What the server keeps, as far as the commands read it.
pub record Db : Type 0 where
  pub me : User
  pub users : List User
  pub organizations : List Organization
  pub workspaces : List Workspace
  pub images : List Image
  pub providers : List Provider

-- The workspaces of a user in an organization, and the images of an organization.
abbrev pub workspaces_of : Db → Bytes → Bytes → List Workspace
workspaces_of db user_id org_id =
    keep (λ w. same w.user_id user_id && same w.organization_id org_id) db.workspaces

abbrev pub images_of : Db → Bytes → List Image
images_of db org_id = keep (λ i. same i.organization_id org_id) db.images

abbrev pub pool_workspaces : Db → Bytes → List Workspace
pool_workspaces db id = keep (λ w. same w.resource_pool_id id) db.workspaces

-- A GET of a path below the base URL, with the session token of the client.
abbrev pub IsGet : DefaultClient → Bytes → HttpRequest → Type 0
IsGet c path r =
    (r.method ≡ get)
    × (r.url.host ≡ c.base_url.host)
    × (r.url.path ≡ trim_suffix b'/' c.base_url.path ++ path)
    × (lookup (codes "Session-Token") r.header ≡ some c.token)

-- The server accepts a request and answers it with success and a body that decodes to `a`.
abbrev pub Gives : {A : Type 0} → Http → Json A → A → HttpRequest → Type 0
Gives http j a r =
    (resp : HttpResponse) × (http.creates r ≡ true)
    × (http.execute r ≡ some resp)
    × (resp.status_code ≤ 299)
    × (decode ⦃j = j⦄ resp.body ≡ some a)

-- The server answers the routes of its API from its state: every GET with the session token, whatever
-- its other headers, and for two routes by the query.
pub record Serves (http : Http) (c : DefaultClient) (codecs : Codecs) (db : Db) : Type 0 where
  pub me_user :
      (r : HttpRequest) → IsGet c (codes "/api/v0/users/me") r → Gives http codecs.user db.me r
  pub users :
      (r : HttpRequest) → IsGet c (codes "/api/v0/users") r → Gives http codecs.users db.users r
  pub organizations :
      (r : HttpRequest)
      → IsGet c (codes "/api/v0/orgs") r
      → Gives http codecs.organizations db.organizations r
  pub user_workspaces :
      (user_id org_id : Bytes) (r : HttpRequest)
      → IsGet c (codes "/api/v0/workspaces") r
      → r.url.raw_query ≡ http.encode_query ((codes "orgs", org_id) ∷ (codes "users", user_id) ∷ [])
      → Gives http codecs.workspaces (workspaces_of db user_id org_id) r
  pub organization_images :
      (org_id : Bytes) (r : HttpRequest)
      → IsGet c (codes "/api/v0/images") r
      → r.url.raw_query ≡ http.encode_query ((codes "org", org_id) ∷ [])
      → Gives http codecs.images (images_of db org_id) r
  pub providers :
      (r : HttpRequest)
      → IsGet c (codes "/api/private/resource-pools") r
      → Gives http codecs.providers (record { items = db.providers }) r
  pub pool_workspaces :
      (id : Bytes) (r : HttpRequest)
      → IsGet c (codes "/api/private/resource-pools/" ++ (id ++ codes "/workspaces")) r
      → Gives http codecs.workspaces (pool_workspaces db id) r

-- The user of an email address in the server's state.
abbrev pub user_of : Db → Bytes → Answer User
user_of db email = if same email me then ok db.me else answer (find_email email db.users)

module _ (http : Http) (c : DefaultClient) (codecs : Codecs) (db : Db)
    (s : Serves http c codecs db) where
  -- What is sent for a GET without a payload.
  sent : Bytes → RequestOptions → HttpRequest
  sent path config = build_request http c get path no_payload config

  answered :
      {A : Type 0} (j : Json A) (path route : Bytes) (config : RequestOptions) (a : A)
      → config.base_url_override ≡ none
      → path ≡ route
      → (IsGet c route (sent path config) → Gives http j a (sent path config))
      → request_body http c get path no_payload (decode ⦃j = j⦄) config ≡ ok a
  unfolding build_request sent
  answered j path route config a h e f =
      let (resp, m, x, s, d) = f (
        refl,
        rw h refl,
        rw h (ap (λ t. trim_suffix b'/' c.base_url.path ++ t) e),
        build_request-token http c get path no_payload config,
      ) in
      (request_body_iff http c get path no_payload (decode ⦃j = j⦄) config a).1
        (resp, refl, m, x, s, d)

  query :
      (path : Bytes) (q : Dict Bytes)
      → (sent path (with_query_params q)).url.raw_query ≡ http.encode_query q
  unfolding sent build_request
  query path q = refl

  pub default_client-user :
      (email : Bytes) → (default_client http c codecs).user_by_email email ≡ user_of db email
  unfolding default_client user_by_email user_by_id users
  default_client-user email = elim (Bool-cases (same email me)) [
    | inl e ↦
        rw
          (
            e,
            answered codecs.user (users_path / me) (codes "/api/v0/users/me") no_options db.me refl
                refl (s.me_user _),
          )
          refl
    | inr e ↦
        rw
          (
            e,
            answered codecs.users users_path (codes "/api/v0/users") no_options db.users refl refl
                (s.users _),
          )
          refl
  ]

  default_client-organizations : (default_client http c codecs).organizations ≡ ok db.organizations
  unfolding default_client organizations
  default_client-organizations =
      ap answer
        (answered codecs.organizations _ (codes "/api/v0/orgs") _ _ refl refl (s.organizations _))

  default_client-workspaces :
      (user_id org_id : Bytes)
      → (default_client http c codecs).user_workspaces user_id org_id
        ≡ ok (workspaces_of db user_id org_id)
  unfolding default_client user_workspaces_by_organization
  default_client-workspaces user_id org_id = ap answer (
      answered codecs.workspaces _ (codes "/api/v0/workspaces") _ _ refl refl
        (λ g. s.user_workspaces user_id org_id _ g (query _ _)))

-- What a command may ask of a client, answered from a state.
abbrev pub Implements : Client → Db → Type 0
Implements client db =
    ((email : Bytes) → client.user_by_email email ≡ user_of db email)
    × (client.organizations ≡ ok db.organizations)
    × ((user_id org_id : Bytes)
        → client.user_workspaces user_id org_id ≡ ok (workspaces_of db user_id org_id))
    × ((org_id : Bytes) → client.organization_images org_id ≡ ok (images_of db org_id))
    × (client.providers ≡ ok db.providers)
    × ((id : Bytes) → client.workspaces_by_provider id ≡ ok (pool_workspaces db id))

-- The organizations that have the caller among their members.
abbrev pub own_organizations : Db → List Organization
own_organizations db = keep (λ org. any (λ id. same id db.me.id) org.members) db.organizations

-- Over such a server, a command that looks for one of the caller's workspaces finds the first of that
-- name among the caller's workspaces in the organizations that have the caller as a member, in their
-- order, and otherwise reports that there is none.
pub find_workspace-default_client :
    (http : Http) (c : DefaultClient) (codecs : Codecs) (db : Db) (name : Bytes)
    → Serves http c codecs db
    → find_workspace (default_client http c codecs) name me
      ≡ found_or workspace_missing
          (first (λ w. same w.name name) (owned (workspaces_of db db.me.id) (own_organizations db)))
unfolding lookup_user_orgs
find_workspace-default_client http c codecs db name s =
    find_workspace-owned (default_client http c codecs) db.me db.organizations
      (workspaces_of db db.me.id) name me
      (default_client-user http c codecs db s me ∙ rw same_self refl)
      (default_client-organizations http c codecs db s)
      (default_client-workspaces http c codecs db s db.me.id)
