-- ===== src/Cmd/Tags/Laws.antt =====
-- The image that a tag is added to or removed from.
use coder_cli.Prelude.{◌≡◌, refl, ◌⊎◌, inl, inr, [], ◌∷◌}
use coder_cli.Prelude.Texts.{Bytes, same-eq}
use coder_cli.Prelude.Results.{ok, Result-cases}
use coder_cli.Cmd.Api.{Image}
use coder_cli.Cmd.Lookup.{find_img}
use coder_cli.Cmd.Lookup.Laws.{find_img_sound}
use coder_cli.Sdk.Client.Users.{me}
use coder_cli.Cmd.Tags.{TagEnv, TagFlags, TagRequest, on_image}

-- The handlers send nothing and fail, or send one request, on an image of the name that the flag
-- gives, and answer as the server does.
on_image_sound :
    {Tag : Type 0} (env : TagEnv Tag) (flags : TagFlags) (make : Bytes → TagRequest)
    → (((on_image env flags make).1 ≡ []) × ¬ ((on_image env flags make).0 ≡ ok tt))
      ⊎ ((img : Image) × (img.repository ≡ flags.image_name)
          × ((on_image env flags make).1 ≡ make img.id ∷ [])
          × ((on_image env flags make).0 ≡ env.accepts (make img.id)))
unfolding on_image
on_image_sound env flags make =
    elim (Result-cases (find_img env.client me flags.image_name flags.org_name)) [
      | inl (img, e) ↦
          rw (on_image, e)
            (inr (
              img,
              same-eq _ _ (find_img_sound env.client me flags.image_name flags.org_name img e),
              refl,
              refl,
            ))
      | inr (x, e) ↦ rw (on_image, e) (inl (refl, λ h. absurd cc))
    ]
