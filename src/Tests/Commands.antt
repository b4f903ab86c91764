-- ===== src/Tests/Commands.antt =====
-- Inputs for the commands of internal/cmd.
use coder_cli.Prelude.{◌≡◌, refl, true, false, ℕ_discrete, none, some, List, [], ◌∷◌, ◌++◌}
use coder_cli.Prelude.Texts.{Bytes, codes, same, index, Bytes-discrete}
use coder_cli.Prelude.Dict.{lookup, insert}
use coder_cli.Prelude.Results.{ok}
use coder_cli.Cmd.Api.{Workspace, Image, User, Organization, Provider, on, Client}
use coder_cli.Cmd.Lookup.{
  lookup_user_orgs, get_workspaces, find_workspace, get_imgs, find_img, workspaces_with_provider,
  select_org,
}
use coder_cli.Cmd.Update.{UpdateConf, UpdateReq, update_defaults, fill_req, build_update_req}
use coder_cli.Cmd.SshConfig.{
  ssh_start_token, ssh_start_message, ssh_end_token, make_ssh_config, host_entries, section_body,
}
use coder_cli.Cmd.Urls.{
  DevUrl, DevUrlReq, UrlEnv, put_dev_url, create_dev_url, delete_dev_url, access_level_is_valid,
  rest_matches, dev_url_name_is_valid, dev_url_id, validate_port, url_list, create_dev_url_cmd,
  remove_dev_url,
}
use coder_cli.Cmd.Urls.Laws.{create_dev_url_cmd-put}

abbrev pub dev : Workspace
dev = record {
  id = codes "w1";
  name = codes "dev";
  image_id = codes "i1";
  image_tag = [];
  organization_id = codes "o1";
  user_id = codes "u1";
  cpu_cores = 2;
  memory_gb = 4;
  disk_gb = 20;
  cpu_usage = 0;
  memory_usage = 0;
  status = on;
  resource_pool_id = codes "p1";
}

abbrev pub ubuntu : Image
ubuntu = record {
  id = codes "i1";
  repository = codes "ubuntu";
  organization_id = codes "o1";
  default_cpu_cores = 1;
  default_memory_gb = 2;
  default_disk_gb = 10;
}

abbrev pub ann : User
ann = record { id = codes "u1"; email = codes "me"; name = codes "ann" }

abbrev pub org : Organization
org = record { id = codes "o1"; name = codes "org"; is_default = true; members = codes "u1" ∷ [] }

abbrev pub pool : Provider
pool = record {
  id = codes "p1";
  name = codes "pool";
  built_in = true;
  ssh_enabled = true;
  default_namespace = [];
}

abbrev pub server : Client
server = record {
  user_by_email = λ email. ok ann;
  organizations = ok (org ∷ []);
  user_workspaces = λ user org. ok (dev ∷ []);
  organization_images = λ org. ok (ubuntu ∷ []);
  providers = ok (pool ∷ []);
  workspaces_by_provider = λ provider. ok (dev ∷ []);
}

dev_found : find_workspace server (codes "dev") (codes "me") ≡ ok dev
unfolding find_workspace get_workspaces lookup_user_orgs Bytes-discrete ℕ_discrete
dev_found = refl

org_selected : select_org [] (org ∷ []) ≡ ok org
unfolding select_org Bytes-discrete ℕ_discrete
org_selected = refl

ubuntu_found : find_img server (codes "me") (codes "ubuntu") [] ≡ ok ubuntu
unfolding find_img get_imgs lookup_user_orgs index Bytes-discrete ℕ_discrete
ubuntu_found = refl

pool_matched : workspaces_with_provider server (dev ∷ []) ≡ ok ((dev, pool) ∷ [])
unfolding workspaces_with_provider lookup insert Bytes-discrete ℕ_discrete
pool_matched = refl

-- The image that the workspace uses already, with a smaller disk.
abbrev same_image : UpdateConf
same_image = record {
  cpu = 8;
  mem_gb = 0;
  disk_gb = 0;
  gpus = 0;
  workspace = dev;
  user = codes "me";
  image = codes "ubuntu";
  image_tag = [];
  org_name = [];
}

abbrev same_image_req : UpdateReq
same_image_req = record {
  image_id = codes "i1";
  image_tag = codes "latest";
  cpu_cores = 8;
  memory_gb = 2;
  disk_gb = 20;
  gpus = none;
}

same_image_built : build_update_req server same_image ≡ ok same_image_req
unfolding build_update_req update_defaults fill_req find_img get_imgs lookup_user_orgs index
    Bytes-discrete ℕ_discrete
same_image_built = refl

image_named : same (codes "ubuntu") [] ≡ false
unfolding Bytes-discrete
image_named = refl

abbrev pub old_config : Bytes
old_config = codes "Host a"

pub no_start_token : index old_config ssh_start_token ≡ none
unfolding index ssh_start_token
no_start_token = refl

pub no_end_token : index old_config ssh_end_token ≡ none
unfolding index ssh_end_token
no_end_token = refl

pub body_clean :
    index
      (section_body (λ s. s) true (codes "/coder") (codes "/key") [] ((dev, pool) ∷ []))
      ssh_end_token
    ≡ none
unfolding index section_body host_entries make_ssh_config ssh_start_token ssh_start_message
    ssh_end_token
body_clean = refl

inner_clean : index (ssh_start_token ++ codes "\nHost b") ssh_end_token ≡ none
unfolding index ssh_start_token ssh_end_token
inner_clean = refl

name_valid : dev_url_name_is_valid (codes "my-url1") ≡ true
unfolding dev_url_name_is_valid rest_matches
name_valid = refl

abbrev url_env : List DevUrl → UrlEnv
url_env urls = record {
  client = server;
  dev_urls = λ id. ok urls;
  parse_uint = λ s. some 8080;
  to_upper = λ s. codes "PRIVATE";
}

abbrev req_8080 : DevUrlReq
req_8080 = record {
  port = 8080;
  name = [];
  access = codes "PRIVATE";
  workspace_id = codes "w1";
  scheme = codes "http";
}

abbrev url_8080 : DevUrl
url_8080 = record { id = codes "d1"; port = 8080 }

would_put :
    create_dev_url_cmd
      (url_env (url_8080 ∷ []))
      (codes "dev")
      (codes "8080")
      (codes "private")
      []
      (codes "http")
    ≡ ok (put_dev_url (codes "w1") (codes "d1") req_8080)
unfolding create_dev_url_cmd validate_port url_list dev_url_id access_level_is_valid
    dev_url_name_is_valid find_workspace get_workspaces lookup_user_orgs Bytes-discrete ℕ_discrete
would_put = refl

create_dev_url_cmd-put_example :
    remove_dev_url (url_env (url_8080 ∷ [])) (codes "dev") (codes "8080")
    ≡ ok (delete_dev_url (codes "w1") (codes "d1"))
create_dev_url_cmd-put_example =
    create_dev_url_cmd-put (url_env (url_8080 ∷ [])) (codes "dev") (codes "8080") (codes "private")
      [] (codes "http") (codes "w1") (codes "d1") req_8080 would_put

would_create :
    create_dev_url_cmd (url_env []) (codes "dev") (codes "8080") (codes "private") [] (codes "http")
    ≡ ok (create_dev_url (codes "w1") req_8080)
unfolding create_dev_url_cmd validate_port url_list dev_url_id access_level_is_valid
    dev_url_name_is_valid find_workspace get_workspaces lookup_user_orgs Bytes-discrete ℕ_discrete
would_create = refl
