-- ===== src/Sdk/Client/Images.antt =====
-- coder-sdk/image.go, tags.go and registries.go.
pub mod Laws
use coder_cli.Prelude.{Bool, if◌then◌else◌, Option, none, some, List, [], ◌∷◌, ◌++◌}
use coder_cli.Prelude.Texts.{Bytes, codes}
use coder_cli.Prelude.Results.{Result, ok, err, ◌>>=◌}
use coder_cli.Cmd.Api.{Image}
use coder_cli.Sdk.Http.{
  Json, Http, DefaultClient, SdkError, decode_err, Method, get, post, put, patch, delete, Payload,
  no_payload, as_json, RequestOptions, no_options, with_query_params, request_body,
}
use coder_cli.Sdk.Client.{fetch, send, submit, ◌/◌}

abbrev pub images_path : Bytes
images_path = codes "/api/v0/images"

abbrev registries_path : Bytes
registries_path = codes "/api/v0/registries"

-- the query for an organization
abbrev pub of_org : Bytes → RequestOptions
of_org org_id = with_query_params ((codes "org", org_id) ∷ [])

-- A body that is JSON. `Decode` into a value that is no pointer takes any JSON and leaves the value.
abbrev pub into_copy : {T : Type 0} → T → (Bytes → Bool) → Option Bytes → Option T
into_copy zero_value is_json none = none
into_copy zero_value is_json (some b) = if is_json b then some zero_value else none

module _ (http : Http) (c : DefaultClient) where
  -- ImportImage
  pub import_image : {R : Type 0} ⦃j : Json R⦄ ⦃i : Json Image⦄ → R → Result SdkError Image
  import_image req = submit http c post images_path (as_json req) no_options

  -- ImageByID
  unfoldable pub image_by_id : ⦃j : Json Image⦄ → Bytes → Result SdkError Image
  image_by_id id = fetch http c (images_path / id) no_options

  -- OrganizationImages
  unfoldable pub organization_images :
      ⦃j : Json (List Image)⦄ → Bytes → Result SdkError (List Image)
  organization_images org_id = fetch http c images_path (of_org org_id)

  -- UpdateImage
  pub update_image : {R : Type 0} ⦃j : Json R⦄ → Bytes → R → Result SdkError (Unit {0})
  update_image id req = send http c patch (images_path / id) (as_json req)

  -- UpdateImageTags
  pub update_image_tags : Bytes → Result SdkError (Unit {0})
  update_image_tags id = send http c post (images_path / id / codes "tags/update") no_payload

  -- CreateImageTag, which passes its zero value and not a pointer to it
  unfoldable pub create_image_tag :
      {R T : Type 0} ⦃j : Json R⦄ → T → (Bytes → Bool) → Bytes → R → Result SdkError T
  create_image_tag zero_value is_json id req =
      request_body http c post (images_path / id / codes "tags") (as_json req)
        (into_copy zero_value is_json) no_options

  -- DeleteImageTag
  pub delete_image_tag : Bytes → Bytes → Result SdkError (Unit {0})
  delete_image_tag id tag = send http c delete (images_path / id / codes "tags" / tag) no_payload

  -- ImageTags
  pub image_tags : {T : Type 0} ⦃j : Json (List T)⦄ → Bytes → Result SdkError (List T)
  image_tags id = fetch http c (images_path / id / codes "tags") no_options

  -- ImageTagByID
  pub image_tag_by_id : {T : Type 0} ⦃j : Json T⦄ → Bytes → Bytes → Result SdkError T
  image_tag_by_id id tag_id = fetch http c (images_path / id / codes "tags" / tag_id) no_options

  -- Registries
  pub registries : {R : Type 0} ⦃j : Json (List R)⦄ → Bytes → Result SdkError (List R)
  registries org_id = fetch http c registries_path (of_org org_id)

  -- RegistryByID
  pub registry_by_id : {R : Type 0} ⦃j : Json R⦄ → Bytes → Result SdkError R
  registry_by_id id = fetch http c (registries_path / id) no_options

  -- UpdateRegistry
  pub update_registry : {R : Type 0} ⦃j : Json R⦄ → Bytes → R → Result SdkError (Unit {0})
  update_registry id req = send http c patch (registries_path / id) (as_json req)

  -- DeleteRegistry
  pub delete_registry : Bytes → Result SdkError (Unit {0})
  delete_registry id = send http c delete (registries_path / id) no_payload
