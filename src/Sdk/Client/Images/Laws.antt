-- ===== src/Sdk/Client/Images/Laws.antt =====
-- The tag that is created is not given back.
use coder_cli.Prelude.{◌≡◌, Bool, Option, none, some, arith}
use coder_cli.Prelude.Texts.{Bytes}
use coder_cli.Prelude.Results.{ok}
use coder_cli.Sdk.Http.{Json, Http, DefaultClient, no_options, post, as_json}
use coder_cli.Sdk.Http.Laws.{request_body_iff}
use coder_cli.Sdk.Client.Images.{into_copy, create_image_tag}

into_copy-zero :
    {T : Type 0} (z t : T) (is_json : Bytes → Bool) (o : Option Bytes)
    → into_copy z is_json o ≡ some t
    → t ≡ z
into_copy-zero z t is_json none h = absurd cc
into_copy-zero z t is_json (some b) h = ground arith

-- When `create_image_tag` succeeds, it gives the zero value, whatever tag the server has sent.
pub create_image_tag-zero :
    {R T : Type 0} ⦃j : Json R⦄ (http : Http) (c : DefaultClient) (zero_value tag : T)
    (is_json : Bytes → Bool) (id : Bytes) (req : R)
    → create_image_tag http c zero_value is_json id req ≡ ok tag
    → tag ≡ zero_value
unfolding create_image_tag
create_image_tag-zero http c zero_value tag is_json id req h =
    let (resp, _, _, _, _, e) =
      (request_body_iff http c post _ (as_json req) (into_copy zero_value is_json) no_options tag).0
        h in
    into_copy-zero zero_value tag is_json resp.body e
