-- ===== src/Cmd/Urls.antt =====
-- internal/cmd/urls.go: the validation of ports, access levels and names, and the commands that
-- create and remove a dev URL. `strconv.ParseUint` and `strings.ToUpper` are parameters.
pub mod Laws
use coder_cli.Prelude.{
  ℕ, zero, suc, ◌+◌, Bool, true, false, not, ◌&&◌, ◌||◌, Option, none, some, List, [], ◌∷◌, ltb,
  leb, ◌==◌, length, if◌then◌else◌,
}
use coder_cli.Prelude.Texts.{Bytes, codes, same}
use coder_cli.Prelude.Results.{Result, ok, err, ◌>>=◌, ◌>>◌, guard}
use coder_cli.Cmd.Api.{Workspace, CmdError, Answer, Client}
use coder_cli.Cmd.Lookup.{find_workspace}

-- coder.DevURL, the fields that are read here
pub record DevUrl : Type 0 where
  pub id : Bytes
  pub port : ℕ

-- coder.PutDevURLReq and coder.CreateDevURLReq
pub record DevUrlReq : Type 0 where
  pub port : ℕ
  pub name : Bytes
  pub access : Bytes
  pub workspace_id : Bytes
  pub scheme : Bytes

pub data UrlError : Type 0 where
  invalid_port port_zero invalid_access invalid_name no_dev_url : UrlError
  cmd_err : CmdError → UrlError

-- The request that a command sends once its checks have passed.
pub data Request : Type 0 where
  put_dev_url : Bytes → Bytes → DevUrlReq → Request
  delete_dev_url : Bytes → Bytes → Request
  create_dev_url : Bytes → DevUrlReq → Request

pub record UrlEnv : Type 0 where
  pub client : Client
  pub dev_urls : Bytes → Answer (List DevUrl)
  -- strconv.ParseUint(s, 10, 16)
  pub parse_uint : Bytes → Option ℕ
  pub to_upper : Bytes → Bytes

abbrev me : Bytes
me = codes "me"

abbrev lift_err : {A : Type 0} → Answer A → Result UrlError A
lift_err (ok a) = ok a
lift_err (err e) = err (cmd_err e)

-- accessLevelIsValid
unfoldable pub access_level_is_valid : Bytes → Bool
access_level_is_valid level =
    same level (codes "PRIVATE")
    || (same level (codes "ORG") || (same level (codes "AUTHED") || same level (codes "PUBLIC")))

-- The classes of bytes of devURLValidNameRx.
abbrev pub is_letter : ℕ → Bool
is_letter c = (leb 65 c && leb c 90) || (leb 97 c && leb c 122)

abbrev pub is_alnum : ℕ → Bool
is_alnum c = is_letter c || (leb 48 c && leb c 57)

abbrev pub is_inner : ℕ → Bool
is_inner c = is_alnum c || (c == 95 || c == 45)

-- `[a-zA-Z0-9_-]{0,n}[a-zA-Z0-9]` on the whole text
unfoldable pub rest_matches : ℕ → Bytes → Bool
rest_matches n [] = false
rest_matches n (c ∷ []) = is_alnum c
rest_matches zero (c ∷ d ∷ cs) = false
rest_matches (suc n) (c ∷ d ∷ cs) = is_inner c && rest_matches n (d ∷ cs)

-- devURLValidNameRx
unfoldable pub dev_url_name_is_valid : Bytes → Bool
dev_url_name_is_valid [] = false
dev_url_name_is_valid (c ∷ []) = is_letter c
dev_url_name_is_valid (c ∷ d ∷ cs) = is_letter c && rest_matches 41 (d ∷ cs)

-- devURLID
unfoldable pub dev_url_id : ℕ → List DevUrl → Option Bytes
dev_url_id port [] = none
dev_url_id port (url ∷ urls) = if url.port == port then some url.id else dev_url_id port urls

module _ (env : UrlEnv) where
  -- validatePort
  unfoldable pub validate_port : Bytes → Result UrlError ℕ
  validate_port port = elim (env.parse_uint port) [
    | none ↦ err invalid_port
    | some p ↦ if ltb p 1 then err port_zero else ok p
  ]

  -- urlList
  unfoldable pub url_list : Bytes → Answer (List DevUrl)
  url_list workspace_name = do
    workspace ← find_workspace env.client workspace_name me
    env.dev_urls workspace.id

  -- The request for the workspace's dev URL of that port.
  abbrev pub put_or_create : Workspace → DevUrlReq → Option Bytes → Request
  put_or_create workspace req (some url_id) = put_dev_url workspace.id url_id req
  put_or_create workspace req none = create_dev_url workspace.id req

  -- the handler of `coder urls create`
  unfoldable pub create_dev_url_cmd :
      (workspace_name port access name scheme : Bytes) → Result UrlError Request
  create_dev_url_cmd workspace_name port access name scheme = do
    port_num ← validate_port port
    let level = env.to_upper access
    guard (access_level_is_valid level) invalid_access
    guard (not (not (same name []) && not (dev_url_name_is_valid name))) invalid_name
    workspace ← lift_err (find_workspace env.client workspace_name me)
    urls ← lift_err (url_list workspace_name)
    ok (
        put_or_create workspace
          (record {
            port = port_num;
            name = name;
            access = level;
            workspace_id = workspace.id;
            scheme = scheme;
          })
          (dev_url_id port_num urls))

  -- removeDevURL
  unfoldable pub remove_dev_url : (workspace_name port : Bytes) → Result UrlError Request
  remove_dev_url workspace_name port = do
    port_num ← validate_port port
    workspace ← lift_err (find_workspace env.client workspace_name me)
    urls ← lift_err (url_list workspace_name)
    elim (dev_url_id port_num urls) [
      | some url_id ↦ ok (delete_dev_url workspace.id url_id)
      | none ↦ err no_dev_url
    ]
