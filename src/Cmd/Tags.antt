-- ===== src/Cmd/Tags.antt =====
-- The handlers of internal/cmd/tags.go, over the calls of the client for the tags of an image.
pub mod Laws
use coder_cli.Prelude.{Bool, List, [], ◌∷◌, if◌then◌else◌}
use coder_cli.Prelude.Texts.{Bytes, codes, same}
use coder_cli.Prelude.Results.{Result, ok, err, ◌>>=◌}
use coder_cli.Cmd.Api.{CmdError, Answer, Client}
use coder_cli.Cmd.Lookup.{find_img}
use coder_cli.Sdk.Client.Users.{me}

-- CreateImageTagReq
pub record CreateImageTagReq : Type 0 where
  pub tag : Bytes
  pub default : Bool

-- The flags that are required.
pub record TagFlags : Type 0 where
  pub image_name : Bytes
  pub org_name : Bytes

pub data TagRequest : Type 0 where
  create_image_tag : Bytes → CreateImageTagReq → TagRequest
  delete_image_tag : Bytes → Bytes → TagRequest

pub record TagEnv (Tag : Type 0) : Type 0 where
  pub client : Client
  pub accepts : TagRequest → Answer (Unit {0})
  pub image_tags : Bytes → Answer (List Tag)

pub data Output (Tag : Type 0) : Type 0 where
  table json : List Tag → Output Tag
  unknown_output : Output Tag

module _ {Tag : Type 0} (env : TagEnv Tag) (flags : TagFlags) where
  -- The request that a handler sends, when the image is found.
  unfoldable pub on_image : (Bytes → TagRequest) → Answer (Unit {0}) × List TagRequest
  on_image make = elim (find_img env.client me flags.image_name flags.org_name) [
    | err e ↦ (err e, [])
    | ok img ↦ (env.accepts (make img.id), make img.id ∷ [])
  ]

  -- the handler of `tags create`
  abbrev pub create_tag : Bytes → Bool → Answer (Unit {0}) × List TagRequest
  create_tag tag default_tag =
      on_image (λ id. create_image_tag id (record { tag = tag; default = default_tag }))

  -- the handler of `tags rm`
  abbrev pub rm_tag : Bytes → Answer (Unit {0}) × List TagRequest
  rm_tag tag = on_image (λ id. delete_image_tag id tag)

  -- the handler of `tags ls`
  unfoldable pub list_tags : Bytes → Answer (Output Tag)
  list_tags output_fmt = do
    img ← find_img env.client me flags.image_name flags.org_name
    tags ← env.image_tags img.id
    ok (
        if same output_fmt (codes "human")
        then table tags
        else if same output_fmt (codes "json")
        then json tags
        else unknown_output)
