-- ===== src/Cmd/Urls/Laws.antt =====
-- The requests of the commands on dev URLs, and the names they accept.
use coder_cli.Prelude.{
  ◌≡◌, refl, ℕ, zero, suc, ◌+◌, ◌≤◌, true, not, ◌&&◌, Option, none, some, List, [], ◌∷◌, All,
  length, arith,
}
use coder_cli.Prelude.Texts.{Bytes, same}
use coder_cli.Prelude.Results.{Result, ok, err, guard, guard-true, bind_ok}
use coder_cli.Cmd.Api.{Workspace, Answer}
use coder_cli.Cmd.Lookup.{find_workspace}
use coder_cli.Cmd.Urls.{
  DevUrl, DevUrlReq, UrlError, invalid_access, invalid_name, no_dev_url, Request, put_dev_url,
  create_dev_url, delete_dev_url, UrlEnv, me, lift_err, access_level_is_valid, is_inner,
  rest_matches, dev_url_name_is_valid, dev_url_id, validate_port, url_list, put_or_create,
  create_dev_url_cmd, remove_dev_url,
}

rest_matches-length :
    (n : ℕ) (s : Bytes)
    → rest_matches n s ≡ true
    → (length s ≤ n + 1) × All (λ c. is_inner c ≡ true) s
unfolding rest_matches
rest_matches-length n [] h = absurd cc
rest_matches-length n (c ∷ []) h = ground arith
rest_matches-length zero (c ∷ d ∷ cs) h = absurd cc
rest_matches-length (suc n) (c ∷ d ∷ cs) h =
    let (l, r) = rest_matches-length n (d ∷ cs) (ground arith) in (omega arith, (ground arith, r))

-- A name that is accepted has from 1 to 43 bytes, each a letter, a digit, a hyphen or an underscore.
pub dev_url_name_is_valid-length :
    (name : Bytes)
    → dev_url_name_is_valid name ≡ true
    → (1 ≤ length name) × ((length name ≤ 43) × All (λ c. is_inner c ≡ true) name)
unfolding dev_url_name_is_valid
dev_url_name_is_valid-length [] h = absurd cc
dev_url_name_is_valid-length (c ∷ []) h = ground arith
dev_url_name_is_valid-length (c ∷ d ∷ cs) h =
    let (l, r) = rest_matches-length 41 (d ∷ cs) (ground arith) in
    (omega arith, (omega arith, (ground arith, r)))

-- what remove_dev_url does with the dev URL that it finds
abbrev removal : Workspace → Option Bytes → Result UrlError Request
removal w (some url_id) = ok (delete_dev_url w.id url_id)
removal w none = err no_dev_url

put_or_create-put :
    (env : UrlEnv) (w : Workspace) (r req : DevUrlReq) (o : Option Bytes) (wid uid : Bytes)
    → put_or_create env w r o ≡ put_dev_url wid uid req
    → removal w o ≡ ok (delete_dev_url wid uid)
put_or_create-put env w r req (some id) wid uid h = cc
put_or_create-put env w r req none wid uid h = absurd cc

put_or_create-create :
    (env : UrlEnv) (w : Workspace) (r req : DevUrlReq) (o : Option Bytes) (wid : Bytes)
    → put_or_create env w r o ≡ create_dev_url wid req
    → removal w o ≡ err no_dev_url
put_or_create-create env w r req (some id) wid h = absurd cc
put_or_create-create env w r req none wid h = refl

module _ (env : UrlEnv) (workspace_name port access name scheme : Bytes) where
  -- What a creation that gets as far as its request has found.
  abbrev Found : Request → Type 0
  Found r =
      (n : ℕ) × (w : Workspace) × (urls : List DevUrl) × (validate_port env port ≡ ok n)
      × (find_workspace env.client workspace_name me ≡ ok w)
      × (url_list env workspace_name ≡ ok urls)
      × (access_level_is_valid (env.to_upper access) ≡ true)
      × (put_or_create env w
            (record {
              port = n;
              name = name;
              access = env.to_upper access;
              workspace_id = w.id;
              scheme = scheme;
            })
            (dev_url_id n urls)
          ≡ r)

  create_dev_url_cmd-Found :
      (r : Request) → create_dev_url_cmd env workspace_name port access name scheme ≡ ok r → Found r
  unfolding create_dev_url_cmd
  create_dev_url_cmd-Found r h =
      let (n, hn, h1) = bind_ok (validate_port env port) _ r h in
      let (u, hg, h2) =
        bind_ok (guard (access_level_is_valid (env.to_upper access)) invalid_access) _ r h1 in
      let (_, _, h3) =
        bind_ok (guard (not (not (same name []) && not (dev_url_name_is_valid name))) invalid_name)
          _ r h2 in
      let (w, hw, h4) = bind_ok (lift_err (find_workspace env.client workspace_name me)) _ r h3 in
      let (urls, hu, h5) = bind_ok (lift_err (url_list env workspace_name)) _ r h4 in
      (n, w, urls, hn, lift_ok _ w hw, lift_ok _ urls hu, guard-true _ _ u hg, cc)
    where
      lift_ok : {A : Type 0} (m : Answer A) (a : A) → lift_err m ≡ ok a → m ≡ ok a
      lift_ok (ok x) a e = cc
      lift_ok (err x) a e = absurd cc

  remove_dev_url-found :
      (n : ℕ) (w : Workspace) (urls : List DevUrl)
      → validate_port env port ≡ ok n
      → find_workspace env.client workspace_name me ≡ ok w
      → url_list env workspace_name ≡ ok urls
      → remove_dev_url env workspace_name port ≡ removal w (dev_url_id n urls)
  unfolding remove_dev_url
  remove_dev_url-found n w urls h1 h2 h3 = rw (h1, h2, h3) (ground arith)

  -- The creation and the removal agree on the dev URL of a port: where a creation would patch one,
  -- the removal deletes that one, of the same workspace.
  pub create_dev_url_cmd-put :
      (workspace_id url_id : Bytes) (req : DevUrlReq)
      → create_dev_url_cmd env workspace_name port access name scheme
        ≡ ok (put_dev_url workspace_id url_id req)
      → remove_dev_url env workspace_name port ≡ ok (delete_dev_url workspace_id url_id)
  create_dev_url_cmd-put workspace_id url_id req h =
      let (n, w, urls, h1, h2, h3, _, e) = create_dev_url_cmd-Found _ h in
      rw (remove_dev_url-found n w urls h1 h2 h3)
        (put_or_create-put env w _ req (dev_url_id n urls) workspace_id url_id e)

  -- Where a creation would create a dev URL, the removal finds none, and sends no request.
  pub create_dev_url_cmd-create :
      (workspace_id : Bytes) (req : DevUrlReq)
      → create_dev_url_cmd env workspace_name port access name scheme
        ≡ ok (create_dev_url workspace_id req)
      → remove_dev_url env workspace_name port ≡ err no_dev_url
  create_dev_url_cmd-create workspace_id req h =
      let (n, w, urls, h1, h2, h3, _, e) = create_dev_url_cmd-Found _ h in
      rw (remove_dev_url-found n w urls h1 h2 h3)
        (put_or_create-create env w _ req (dev_url_id n urls) workspace_id e)
