-- ===== src/Tests/Requests.antt =====
-- Inputs for the client of coder-sdk.
use mathlib.Core.List.{append_cancel_left, append_cancel_right}
use coder_cli.Prelude.{
  ◌≡◌, ◌≢◌, ◌↔◌, refl, sym, ap, Bool, true, false, ◌&&◌, Option, none, some, [], ◌∷◌, ◌++◌,
  append_assoc, if◌then◌else◌, if_neg, ℕ_discrete, arith, List,
}
use coder_cli.Prelude.Texts.{Bytes, codes, same, same_self, tail_of, Bytes-discrete}
use coder_cli.Prelude.Dict.{Dict, lookup}
use coder_cli.Prelude.Results.{ok}
use coder_cli.Cmd.Api.{workspace_missing, Workspace}
use coder_cli.Cmd.Lookup.{first, found_or, find_workspace}
use coder_cli.Cmd.Lookup.Reads.{owned}
use coder_cli.Sdk.Http.{
  Json, Http, HttpRequest, DefaultClient, Url, get, no_payload, no_options, discard, request_body,
}
use coder_cli.Sdk.Http.Laws.{Answers, request_body_iff}
use coder_cli.Sdk.Login.{
  LoginRequest, LoginResponse, ClientOptions, login_with_password, new_client, token_for,
}
use coder_cli.Sdk.Login.Laws.{FromOptions, new_client_sound}
use coder_cli.Sdk.Client.{◌/◌}
use coder_cli.Sdk.Client.Users.{me}
use coder_cli.Sdk.Client.Workspaces.{workspaces_path}
use coder_cli.Sdk.Client.Site.{pools_path}
use coder_cli.Sdk.Client.Bridge.{Codecs, default_client}
use coder_cli.Sdk.Client.Bridge.Laws.{
  Db, workspaces_of, own_organizations, Serves, find_workspace-default_client,
}
use coder_cli.Tests.Commands.{dev, ann, org, pool}

-- The pool of the workspace, as a path.
abbrev pool_path : Bytes → Bytes
pool_path id = pools_path / id / codes "workspaces"

abbrev field_of : Bytes → Dict Bytes → Bytes
field_of k d = elim (lookup k d) [ none ↦ [] | some v ↦ v ]

-- A query for the workspace, and any other.
abbrev query_text : Dict Bytes → Bytes
query_text d =
    if same dev.user_id (field_of (codes "users") d)
      && same dev.organization_id (field_of (codes "orgs") d)
    then 1 ∷ []
    else []

abbrev body_text : HttpRequest → Bytes
body_text req =
    if same req.url.path (pool_path (codes "p1"))
    then 1 ∷ []
    else if same req.url.path workspaces_path
    then req.url.raw_query
    else []

abbrev toy_http : Http
toy_http = record {
  creates = λ req. true;
  execute = λ req. some (record { status_code = 200; header = []; body = some (body_text req) });
  encode_query = query_text;
  show_url = λ url. url.path;
  endpoint_auth_header = none;
}

abbrev toy_url : Url
toy_url = record { host = codes "coder"; path = []; raw_query = [] }

abbrev toy_client : DefaultClient
toy_client = record { base_url = toy_url; token = codes "t" }

abbrev listed : Bytes → List Workspace
listed b = if same b (1 ∷ []) then dev ∷ [] else []

abbrev toy_codecs : Codecs
toy_codecs = record {
  user = record { marshal = λ u. none; unmarshal = λ b. some ann };
  users = record { marshal = λ u. none; unmarshal = λ b. some (ann ∷ []) };
  organizations = record { marshal = λ o. none; unmarshal = λ b. some (org ∷ []) };
  workspaces = record { marshal = λ w. none; unmarshal = λ b. some (listed b) };
  images = record { marshal = λ i. none; unmarshal = λ b. some [] };
  providers = record { marshal = λ p. none; unmarshal = λ b. some (record { items = pool ∷ [] }) };
}

abbrev toy_db : Db
toy_db = record {
  me = ann;
  users = ann ∷ [];
  organizations = org ∷ [];
  workspaces = dev ∷ [];
  images = [];
  providers = pool ∷ [];
}

same_no : (a b : Bytes) → a ≢ b → same a b ≡ false
same_no a b n = rw (if_neg _ n) refl

same_path : (id : Bytes) → same (pool_path id) (pool_path (codes "p1")) ≡ same (codes "p1") id
same_path id = elim (Bytes-discrete (codes "p1") id) [
  | yes e ↦ rw (sym e, same_self (pool_path (codes "p1")), same_self (codes "p1")) refl
  | no n ↦
      rw
        (
          same_no (codes "p1") id n,
          same_no (pool_path id) (pool_path (codes "p1")) (λ q. n (sym (cancelled q))),
        )
        refl
]
  where
    cancelled : pool_path id ≡ pool_path (codes "p1") → id ≡ codes "p1"
    cancelled q = ap tail_of (
        append_cancel_left pools_path (b'/' ∷ id) (b'/' ∷ codes "p1") (
          append_cancel_right (pools_path / id) (pools_path / codes "p1")
            (b'/' ∷ codes "workspaces") q))

-- The path of a pool is not that of the workspaces.
other_path : (id : Bytes) → same (pool_path id) workspaces_path ≡ false
other_path id = same_no _ _ (λ q. cc)

listed_if :
    (b : Bool)
    → Path
        (Option (List Workspace))
        (some (listed (if b then 1 ∷ [] else [])))
        (some (if b then dev ∷ [] else []))
unfolding Bytes-discrete ℕ_discrete
listed_if true = refl
listed_if false = refl

-- The answers of the server.
by_pool :
    (id : Bytes) (r : HttpRequest)
    → r.url.path ≡ codes "/api/private/resource-pools/" ++ (id ++ codes "/workspaces")
    → Path
        (Option (List Workspace))
        (some (listed (body_text r)))
        (some (if same (codes "p1") id then dev ∷ [] else []))
by_pool id r e = rw (e, route, same_path id, other_path id) (listed_if (same (codes "p1") id))
  where
    route : codes "/api/private/resource-pools/" ++ (id ++ codes "/workspaces") ≡ pool_path id
    route = sym (append_assoc pools_path (b'/' ∷ id) (codes "/workspaces"))

-- What is answered for the workspaces by a query, and for those of a pool.
by_query :
    (user_id org_id : Bytes) (r : HttpRequest)
    → r.url.path ≡ codes "/api/v0/workspaces"
    → r.url.raw_query ≡ query_text ((codes "orgs", org_id) ∷ (codes "users", user_id) ∷ [])
    → Path
        (Option (List Workspace))
        (some (listed (body_text r)))
        (some (workspaces_of toy_db user_id org_id))
unfolding lookup Bytes-discrete ℕ_discrete
by_query user_id org_id r e q = rw (e, q) (listed_if _)

toy-Serves : Serves toy_http toy_client toy_codecs toy_db
unfolding lookup Bytes-discrete ℕ_discrete
toy-Serves = record {
  me_user = λ r g. (_, refl, refl, omega arith, refl);
  users = λ r g. (_, refl, refl, omega arith, refl);
  organizations = λ r g. (_, refl, refl, omega arith, refl);
  user_workspaces = λ user_id org_id r (m, h, p, t) q.
      (_, refl, refl, omega arith, by_query user_id org_id r p q);
  organization_images = λ org_id r g q. (_, refl, refl, omega arith, refl);
  providers = λ r g. (_, refl, refl, omega arith, refl);
  pool_workspaces = λ id r (m, h, p, t). (_, refl, refl, omega arith, by_pool id r p);
}

find_workspace-default_client_example :
    find_workspace (default_client toy_http toy_client toy_codecs) (codes "dev") me
    ≡ found_or workspace_missing (
        first
          (λ w. same w.name (codes "dev"))
          (owned (workspaces_of toy_db ann.id) (own_organizations toy_db)))
find_workspace-default_client_example =
    find_workspace-default_client toy_http toy_client toy_codecs toy_db (codes "dev") toy-Serves

found_dev :
    found_or workspace_missing (
      first
        (λ w. same w.name (codes "dev"))
        (owned (workspaces_of toy_db ann.id) (own_organizations toy_db)))
    ≡ ok dev
unfolding Bytes-discrete ℕ_discrete
found_dev = refl

request_body_iff_example :
    (request_body toy_http toy_client get workspaces_path no_payload discard no_options ≡ ok tt)
    ↔ Answers toy_http toy_client get workspaces_path no_payload discard no_options tt
request_body_iff_example =
    request_body_iff toy_http toy_client get workspaces_path no_payload discard no_options tt

abbrev login_json : Json LoginRequest
login_json = record { marshal = λ r. some r.email; unmarshal = λ b. none }

abbrev session_json : Json LoginResponse
session_json = record {
  marshal = λ r. none;
  unmarshal = λ b. some (record { session_token = codes "s" });
}

abbrev login_options : ClientOptions
login_options = record {
  base_url = some toy_url;
  token = [];
  email = codes "ann";
  password = codes "x";
}

abbrev logged_client : DefaultClient
logged_client = record { base_url = toy_url; token = codes "s" }

logs_in : new_client toy_http ⦃j = login_json⦄ ⦃k = session_json⦄ login_options ≡ ok logged_client
unfolding new_client token_for login_with_password Bytes-discrete ℕ_discrete
logs_in = refl

new_client_sound_example :
    (some toy_url ≡ some toy_url)
    × (same (codes "s") [] ≡ false)
    × FromOptions toy_http ⦃j = login_json⦄ ⦃k = session_json⦄ login_options toy_url (codes "s")
new_client_sound_example =
    new_client_sound toy_http ⦃j = login_json⦄ ⦃k = session_json⦄ login_options logged_client
      logs_in
