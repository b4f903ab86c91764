-- ===== src/Cmd/HumanTable.antt =====
-- WorkspacesHumanTable and MakeImageMap of internal/coderutil/workspace.go: the table of
-- `coder workspaces ls`.
--
-- The images are fetched at the same time; a run is given by the order of their ids in which the
-- functions of the group finish, which begins with the order of a Go map.
pub mod Laws
use coder_cli.Prelude.{ℕ, Bool, Option, none, some, List, [], ◌∷◌, ◌++◌, map}
use coder_cli.Prelude.Texts.{Bytes}
use coder_cli.Prelude.Dict.{Dict, lookup, insert}
use coder_cli.Prelude.Results.{Result, ok, err, ◌>>=◌}
use coder_cli.Cmd.Api.{
  Workspace, Image, Provider, ContainerStatus, CmdError, not_found, Answer, Client,
}
use coder_cli.Cmd.Lookup.{provider_map}
use coder_cli.Pkg.ErrGroup.{Emitted, new_group, finish_all, wait}

-- WorkspaceTable, without the CVM flag
pub record TableRow : Type 0 where
  pub name : Bytes
  pub image : Bytes
  pub cpu : ℕ
  pub memory_gb : ℕ
  pub disk_gb : ℕ
  pub status : ContainerStatus
  pub provider : Bytes

-- An error of a query, that of the group, or a nil pointer that is followed.
pub data TableErr : Type 0 where
  query_err : CmdError → TableErr
  group_err : Emitted → TableErr
  nil_pointer : TableErr

-- the loop that puts every image id into the map
unfoldable pub image_ids : List Workspace → Dict (Option Image) → Dict (Option Image)
image_ids [] m = m
image_ids (w ∷ ws) m = image_ids ws (insert w.image_id none m)

abbrev pub keys : {V : Type 0} → Dict V → List Bytes
keys [] = []
keys ((k, v) ∷ m) = k ∷ keys m

module _ (client : Client) (image_by_id : Bytes → Answer Image) where
  abbrev pub fetched : Bytes → Answer (Unit {0})
  fetched id = image_by_id id >>= λ img. ok tt

  abbrev pub store : Bytes → Answer Image → Dict (Option Image) → Dict (Option Image)
  store id (ok img) m = insert id (some img) m
  store id (err e) m = m

  -- the functions of the group
  unfoldable pub fetch_all : List Bytes → Dict (Option Image) → Dict (Option Image)
  fetch_all [] m = m
  fetch_all (id ∷ ids) m = fetch_all ids (store id (image_by_id id) m)

  abbrev pub grouped : {A : Type 0} → Option Emitted → A → Result TableErr A
  grouped none a = ok a
  grouped (some e) a = err (group_err e)

  -- MakeImageMap
  unfoldable pub make_image_map :
      List Workspace → List Bytes → Result TableErr (Dict (Option Image))
  unfolding image_ids fetch_all
  make_image_map ws order =
      grouped (wait (finish_all (map fetched order) new_group)) (fetch_all order (image_ids ws []))

  abbrev pub query : {A : Type 0} → Answer A → Result TableErr A
  query (ok a) = ok a
  query (err e) = err (query_err e)

  abbrev pub provider_of : Option Provider → Result TableErr Provider
  provider_of none = err (query_err not_found)
  provider_of (some p) = ok p

  -- `imageMap[e.ImageID].Repository`
  abbrev pub repository_of : Option (Option Image) → Result TableErr Bytes
  repository_of (some (some img)) = ok img.repository
  repository_of (some none) = err nil_pointer
  repository_of none = err nil_pointer

  abbrev pub row_of : Workspace → Bytes → Bytes → TableRow
  row_of w repository provider = record {
    name = w.name;
    image = repository ++ b':' ∷ w.image_tag;
    cpu = w.cpu_cores;
    memory_gb = w.memory_gb;
    disk_gb = w.disk_gb;
    status = w.status;
    provider = provider;
  }

  -- the loop of WorkspacesHumanTable
  unfoldable pub table_rows :
      Dict (Option Image) → Dict Provider → List Workspace → Result TableErr (List TableRow)
  table_rows images providers [] = ok []
  table_rows images providers (w ∷ ws) = do
    p ← provider_of (lookup w.resource_pool_id providers)
    repository ← repository_of (lookup w.image_id images)
    rest ← table_rows images providers ws
    ok (row_of w repository p.name ∷ rest)

  -- WorkspacesHumanTable
  unfoldable pub workspaces_human_table :
      List Workspace → List Bytes → Result TableErr (List TableRow)
  unfolding make_image_map table_rows
  workspaces_human_table ws order = do
    images ← make_image_map ws order
    ps ← query client.providers
    table_rows images (provider_map ps []) ws
