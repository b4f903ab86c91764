-- ===== src/Cmd/HumanTable/Laws.antt =====
-- The table never follows a nil pointer.
use mathlib.Core.List.{Permᴰ}
use coder_cli.Prelude.{
  ◌++◌, ◌≡◌, ◌≢◌, refl, ◌∙◌, ◌⊎◌, inl, inr, ◌<◌, ◌^◌, Option, none, some, List, [], ◌∷◌, map,
  length, length-map, In, In-perm, All, subst, Bool-cases, Option-cases,
}
use coder_cli.Prelude.Texts.{Bytes, codes, same, same-eq, same_self}
use coder_cli.Prelude.Dict.{Dict, lookup, insert, lookup-insert}
use coder_cli.Prelude.Results.{Result, ok, err, ◌>>=◌, bind_ok, Result-cases}
use coder_cli.Cmd.Api.{Workspace, Image, Provider, Answer, Client}
use coder_cli.Cmd.Lookup.{provider_map}
use coder_cli.Pkg.ErrGroup.{Emitted, new_group, finish_all, wait}
use coder_cli.Pkg.ErrGroup.Laws.{wait_iff, All-IsOk}
use coder_cli.Cmd.HumanTable.{
  TableRow, TableErr, nil_pointer, image_ids, keys, fetched, fetch_all, grouped, make_image_map,
  row_of, table_rows, workspaces_human_table,
}

module _ {V : Type 0} where
  In-keys-insert : (k : Bytes) (v : V) (m : Dict V) → In k (keys (insert k v m))
  unfolding insert
  In-keys-insert k v [] = inl refl
  In-keys-insert k v ((j, w) ∷ m) = elim (Bool-cases (same j k)) [
    | inl e ↦ rw e (inl refl)
    | inr e ↦ rw e (inr (In-keys-insert k v m))
  ]

  In-keys-kept : (i k : Bytes) (v : V) (m : Dict V) → In i (keys m) → In i (keys (insert k v m))
  unfolding insert
  In-keys-kept i k v [] h = absurd h
  In-keys-kept i k v ((j, w) ∷ m) h = elim (Bool-cases (same j k)) [
    | inl e ↦ rw e (elim h [ inl q ↦ inl (q ∙ same-eq j k e) | inr q ↦ inr q ])
    | inr e ↦ rw e (elim h [ inl q ↦ inl q | inr q ↦ inr (In-keys-kept i k v m q) ])
  ]

image_ids-kept :
    (i : Bytes) (ws : List Workspace) (m : Dict (Option Image))
    → In i (keys m)
    → In i (keys (image_ids ws m))
unfolding image_ids
image_ids-kept i [] m h = h
image_ids-kept i (w ∷ ws) m h = image_ids-kept i ws _ (In-keys-kept i w.image_id none m h)

image_ids-In :
    (w : Workspace) (ws : List Workspace) (m : Dict (Option Image))
    → In w ws
    → In w.image_id (keys (image_ids ws m))
unfolding image_ids
image_ids-In w [] m h = absurd h
image_ids-In w (v ∷ ws) m (inl e) =
    rw e (image_ids-kept v.image_id ws _ (In-keys-insert v.image_id none m))
image_ids-In w (v ∷ ws) m (inr h) = image_ids-In w ws _ h

module _ (client : Client) (image_by_id : Bytes → Answer Image) where
  -- The map has the image of the id.
  abbrev pub HasImage : Dict (Option Image) → Bytes → Type 0
  HasImage m id = (img : Image) × (image_by_id id ≡ ok img) × (lookup id m ≡ some (some img))

  store-HasImage :
      (id j : Bytes) (img : Image) (m : Dict (Option Image))
      → image_by_id j ≡ ok img
      → HasImage m id
      → HasImage (insert j (some img) m) id
  store-HasImage id j img m e (i, f, h) = elim (Bool-cases (same j id)) [
    | inl s ↦ (
      img,
      subst (λ k. image_by_id k ≡ ok img) (same-eq j id s) e,
      rw (lookup-insert j id (some img) m, s) refl,
    )
    | inr n ↦ (i, f, rw (lookup-insert j id (some img) m, n) h)
  ]

  fetch_all-HasImage :
      (order : List Bytes) (m : Dict (Option Image)) (id : Bytes)
      → All (λ j. fetched client image_by_id j ≡ ok tt) order
      → HasImage m id ⊎ In id order
      → HasImage (fetch_all client image_by_id order m) id
  unfolding fetch_all
  fetch_all-HasImage [] m id h (inl k) = k
  fetch_all-HasImage [] m id h (inr k) = absurd k
  fetch_all-HasImage (j ∷ js) m id (e, h) k =
      let (img, ei, _) = bind_ok (image_by_id j) _ tt e in
      rw ei (fetch_all-HasImage js (insert j (some img) m) id h (stored img ei k))
    where
      stored :
          (img : Image)
          → image_by_id j ≡ ok img
          → HasImage m id ⊎ In id (j ∷ js)
          → HasImage (insert j (some img) m) id ⊎ In id js
      stored img ei (inl p) = inl (store-HasImage id j img m ei p)
      stored img ei (inr (inl q)) = inl (img, rw q ei, rw (q, lookup-insert, same_self) refl)
      stored img ei (inr (inr r)) = inr r

  grouped_ok :
      {A : Type 0} (o : Option Emitted) (a b : A)
      → Path (Result TableErr A) (grouped client image_by_id o a) (ok b)
      → (o ≡ none) × (a ≡ b)
  grouped_ok none a b h = (refl, cc)
  grouped_ok (some e) a b h = absurd cc

  -- An order in which the functions of the group may finish: that of the ids of the images.
  abbrev pub IsOrder : List Workspace → List Bytes → Type 0
  IsOrder ws order = Permᴰ (keys (image_ids ws [])) order × (length order < 2 ^ 31)

  make_image_map-HasImage :
      (ws : List Workspace) (order : List Bytes) (m : Dict (Option Image))
      → IsOrder ws order
      → make_image_map client image_by_id ws order ≡ ok m
      → (w : Workspace) → In w ws
      → HasImage m w.image_id
  unfolding make_image_map
  make_image_map-HasImage ws order m (p, b) h w i =
      let (n, q) =
        grouped_ok (wait (finish_all (map (fetched client image_by_id) order) new_group))
          (fetch_all client image_by_id order (image_ids ws [])) m h in
      let (_, (f, _), _) =
        wait_iff (map (fetched client image_by_id) order)
          (rw (length-map (fetched client image_by_id) order) b) in
      subst (λ t. HasImage t w.image_id) q
        (fetch_all-HasImage order (image_ids ws []) w.image_id
          ((All-IsOk (fetched client image_by_id) order).0 (f n))
          (inr (In-perm w.image_id p (image_ids-In w ws [] i))))

  -- The columns of a row.
  abbrev pub Shows : Workspace → Image → Provider → TableRow → Type 0
  Shows w img p r =
      (r.name ≡ w.name)
      × (r.image ≡ img.repository ++ (codes ":" ++ w.image_tag))
      × (r.cpu ≡ w.cpu_cores)
      × (r.memory_gb ≡ w.memory_gb)
      × (r.disk_gb ≡ w.disk_gb)
      × (r.status ≡ w.status)
      × (r.provider ≡ p.name)

  -- Each row shows its workspace, with the image that the server has for it and a provider of the map.
  abbrev pub RowsMatch : Dict Provider → List Workspace → List TableRow → Type 0
  RowsMatch providers [] [] = Unit
  RowsMatch providers (w ∷ ws) (r ∷ rs) =
      ((img : Image) × (p : Provider) × (image_by_id w.image_id ≡ ok img)
        × (lookup w.resource_pool_id providers ≡ some p)
        × Shows w img p r)
      × RowsMatch providers ws rs
  RowsMatch providers [] (r ∷ rs) = ⊥
  RowsMatch providers (w ∷ ws) [] = ⊥

  -- The loop of the table, over a map that has every image.
  abbrev pub IsGood : Dict Provider → List Workspace → Result TableErr (List TableRow) → Type 0
  IsGood providers ws (ok rows) = RowsMatch providers ws rows
  IsGood providers ws (err e) = e ≢ nil_pointer

  table_rows-IsGood :
      (images : Dict (Option Image)) (providers : Dict Provider) (ws : List Workspace)
      → ((w : Workspace) → In w ws → HasImage images w.image_id)
      → IsGood providers ws (table_rows client image_by_id images providers ws)
  unfolding table_rows
  table_rows-IsGood images providers [] h = tt
  table_rows-IsGood images providers (w ∷ ws) h =
      let (img, e, l) = h w (inl refl) in
      let rest = table_rows-IsGood images providers ws (λ v i. h v (inr i)) in
      elim (Option-cases (lookup w.resource_pool_id providers)) [
        | inl n ↦ rw (table_rows, n) (λ q. cc)
        | inr (p, f) ↦
            rw (table_rows, f, l)
              (extended (row_of client image_by_id w img.repository p.name)
                (img, p, e, f, (refl, refl, refl, refl, refl, refl, refl)) _ rest)
      ]
    where
      extended :
          (row : TableRow)
          → ((img : Image) × (p : Provider) × (image_by_id w.image_id ≡ ok img)
              × (lookup w.resource_pool_id providers ≡ some p)
              × Shows w img p row)
          → (r : Result TableErr (List TableRow)) → IsGood providers ws r
          → IsGood providers (w ∷ ws) (r >>= λ rs. ok (row ∷ rs))
      extended row fact (ok rs) g = (fact, g)
      extended row fact (err e) g = g

grouped_err :
    {A : Type 0} (client : Client) (image_by_id : Bytes → Answer Image) (o : Option Emitted) (a : A)
    (x : TableErr)
    → Path (Result TableErr A) (grouped client image_by_id o a) (err x)
    → x ≢ nil_pointer
grouped_err client image_by_id none a x h q = absurd cc
grouped_err client image_by_id (some e) a x h q = absurd cc

make_image_map-err :
    (client : Client) (image_by_id : Bytes → Answer Image) (ws : List Workspace)
    (order : List Bytes) (x : TableErr)
    → make_image_map client image_by_id ws order ≡ err x
    → x ≢ nil_pointer
unfolding make_image_map
make_image_map-err client image_by_id ws order x h = grouped_err client image_by_id _ _ x h

-- The table never follows the nil pointer that stands in the map of the images for one that is not
-- fetched, in whatever order they are fetched; and when it succeeds it has a row for every workspace, in
-- their order, with the workspace's name, its amounts and status, its own image with its tag, and the
-- name of a provider under its id. There are fewer than 2 ^ 31 images.
pub workspaces_human_table-IsGood :
    (client : Client) (image_by_id : Bytes → Answer Image) (ws : List Workspace)
    (order : List Bytes) (ps : List Provider)
    → IsOrder client image_by_id ws order
    → client.providers ≡ ok ps
    → IsGood client image_by_id
        (provider_map ps [])
        ws
        (workspaces_human_table client image_by_id ws order)
unfolding workspaces_human_table
workspaces_human_table-IsGood client image_by_id ws order ps o h =
    elim (Result-cases (make_image_map client image_by_id ws order)) [
      | inl (m, e) ↦
          rw (workspaces_human_table, e, h)
            (table_rows-IsGood client image_by_id m (provider_map ps []) ws
              (make_image_map-HasImage client image_by_id ws order m o e))
      | inr (x, e) ↦
          rw (workspaces_human_table, e) (make_image_map-err client image_by_id ws order x e)
    ]
