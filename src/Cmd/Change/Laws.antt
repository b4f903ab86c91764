-- ===== src/Cmd/Change/Laws.antt =====
-- What is sent to the server, and for which workspace.
use coder_cli.Prelude.{
  ◌≡◌, refl, sym, ◌⊎◌, ◌≤◌, Bool, true, false, not, ◌&&◌, [], All, length, arith,
}
use coder_cli.Prelude.Texts.{Bytes, same}
use coder_cli.Prelude.Results.{ok, err, guard, bind_ok, guard-true}
use coder_cli.Cmd.Api.{Workspace, is_on, org_required, prompt_refused, Answer}
use coder_cli.Cmd.Lookup.{find_workspace, is_multi_org_member}
use coder_cli.Cmd.Update.{UpdateReq, build_update_req}
use coder_cli.Cmd.Update.Laws.{build_update_req-disk_gb}
use coder_cli.Cmd.Change.{
  Request, edit_workspace, rebuild_workspace, ChangeEnv, EditFlags, may_change, prepare_edit, edit,
  prepare_rebuild, rebuild,
}

-- The workspace that the name stands for may be changed: it is off, or the user agreed.
abbrev pub Agreed : ChangeEnv → Bytes → Bytes → Bool → Workspace → Type 0
Agreed env name user force w =
    (find_workspace env.client name user ≡ ok w)
    × ((is_on w.status ≡ false) ⊎ (force ≡ true) ⊎ (env.confirms ≡ true))

may_change_sound :
    (env : ChangeEnv) (force : Bool) (w : Workspace)
    → may_change env force w ≡ true
    → (is_on w.status ≡ false) ⊎ (force ≡ true) ⊎ (env.confirms ≡ true)
may_change_sound env force w h = ground arith

abbrev pub EditIsSafe : ChangeEnv → Bytes → EditFlags → Request → Type 0
EditIsSafe env name flags r =
    (w : Workspace) × (req : UpdateReq) × (r ≡ edit_workspace w.id req)
    × (w.disk_gb ≤ req.disk_gb)
    × Agreed env name flags.user flags.force w

prepare_edit_sound :
    (env : ChangeEnv) (name : Bytes) (flags : EditFlags) (w : Workspace) (req : UpdateReq)
    → prepare_edit env name flags ≡ ok (w, req)
    → (w.disk_gb ≤ req.disk_gb) × Agreed env name flags.user flags.force w
unfolding prepare_edit
prepare_edit_sound env name flags w req h =
    let (v, hv, h1) = bind_ok (find_workspace env.client name flags.user) _ (w, req) h in
    let (multi, _, h2) = bind_ok (is_multi_org_member env.client flags.user) _ (w, req) h1 in
    let (_, _, h3) =
      bind_ok (guard (not (multi && same flags.org [])) org_required) _ (w, req) h2 in
    let (built, hb, h4) = bind_ok (build_update_req env.client _) _ (w, req) h3 in
    let (u, hg, h5) = bind_ok (guard (may_change env flags.force v) prompt_refused) _ (w, req) h4 in
    let same_w : v ≡ w = cc in
    let same_req : built ≡ req = cc in
    let safe = build_update_req-disk_gb env.client _ built hb in
    rw (sym same_w, sym same_req)
      (safe.0, (hv, may_change_sound env flags.force v (guard-true _ _ u hg)))

prepare_rebuild_sound :
    (env : ChangeEnv) (name user : Bytes) (force : Bool) (w : Workspace)
    → prepare_rebuild env name user force ≡ ok w
    → Agreed env name user force w
unfolding prepare_rebuild
prepare_rebuild_sound env name user force w h =
    let (v, hv, h1) = bind_ok (find_workspace env.client name user) _ w h in
    let (u, hg, h2) = bind_ok (guard (may_change env force v) prompt_refused) _ w h1 in
    let same_w : v ≡ w = cc in
    rw (sym same_w) (hv, may_change_sound env force v (guard-true _ _ u hg))

-- A request that the edit handler sends edits the workspace that is found by the name, does not
-- shrink its disk, and is sent only if that workspace is off or the user agreed, by the flag or at
-- the prompt. There is one request at most.
pub edit_sound :
    (env : ChangeEnv) (name : Bytes) (flags : EditFlags)
    → All (EditIsSafe env name flags) (edit env name flags).1 × (length (edit env name flags).1 ≤ 1)
unfolding edit
edit_sound env name flags = go (prepare_edit env name flags) refl
  where
    go :
        (p : Answer (Workspace × UpdateReq))
        → prepare_edit env name flags ≡ p
        → All (EditIsSafe env name flags) (edit env name flags).1
          × (length (edit env name flags).1 ≤ 1)
    go (err e) h = rw (edit, h) (tt, omega arith)
    go (ok (w, req)) h =
        let (disk, agreed) = prepare_edit_sound env name flags w req h in
        rw (edit, h) (((w, req, refl, disk, agreed), tt), omega arith)

-- A request that the rebuild handler sends rebuilds the workspace that is found by the name, and is
-- sent only if that is off or the user agreed. There is one request at most.
pub rebuild_sound :
    (env : ChangeEnv) (name user : Bytes) (force follow : Bool)
    → All
        (λ r. (w : Workspace) × (r ≡ rebuild_workspace w.id) × Agreed env name user force w)
        (rebuild env name user force follow).1
      × (length (rebuild env name user force follow).1 ≤ 1)
unfolding rebuild
rebuild_sound env name user force follow = go (prepare_rebuild env name user force) refl
  where
    go :
        (p : Answer Workspace)
        → prepare_rebuild env name user force ≡ p
        → All
            (λ r. (w : Workspace) × (r ≡ rebuild_workspace w.id) × Agreed env name user force w)
            (rebuild env name user force follow).1
          × (length (rebuild env name user force follow).1 ≤ 1)
    go (err e) h = rw (rebuild, h) (tt, omega arith)
    go (ok w) h =
        rw (rebuild, h)
          (((w, refl, prepare_rebuild_sound env name user force w h), tt), omega arith)
