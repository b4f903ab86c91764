-- ===== src/Cmd/Update/Laws.antt =====
-- What buildUpdateReq asks the server for.
use coder_cli.Prelude.{subst, ◌≡◌, sym, ◌⊎◌, ◌≤◌, true, false, [], arith}
use coder_cli.Prelude.Texts.{same, same-eq, same_self}
use coder_cli.Prelude.Results.{bind_ok, ok}
use coder_cli.Cmd.Api.{Image, Client}
use coder_cli.Cmd.Lookup.{find_img}
use coder_cli.Cmd.Lookup.Laws.{find_img_sound}
use coder_cli.Cmd.Update.{UpdateConf, UpdateReq, update_defaults, fill_req, build_update_req}

-- A request that is built never shrinks the disk of the workspace, and takes the flags for CPU and
-- memory where they are not zero.
pub build_update_req-disk_gb :
    (client : Client) (conf : UpdateConf) (req : UpdateReq)
    → build_update_req client conf ≡ ok req
    → (conf.workspace.disk_gb ≤ req.disk_gb)
      × ((conf.disk_gb ≤ req.disk_gb)
          × (((conf.cpu ≡ 0) ⊎ (req.cpu_cores ≡ conf.cpu))
              × ((conf.mem_gb ≡ 0) ⊎ (req.memory_gb ≡ conf.mem_gb))))
unfolding build_update_req fill_req
build_update_req-disk_gb client conf req h =
    let (d, hd, h1) = bind_ok (update_defaults client conf) _ req h in
    let q : req ≡ fill_req conf d = cc in
    rw q (ground arith, (ground arith, (ground arith, ground arith)))

-- The check for an image that the workspace uses already never refuses: with an image named that
-- `find_img` gives, the request takes that image whatever the workspace uses, and its default
-- amounts, the disk included unless it is smaller than the workspace's.
pub build_update_req-not_already_using :
    (client : Client) (conf : UpdateConf) (img : Image)
    → same conf.image [] ≡ false
    → find_img client conf.user conf.image conf.org_name ≡ ok img
    → build_update_req client conf
      ≡ ok (
          fill_req conf (record {
            image_id = img.id;
            cpu_cores = img.default_cpu_cores;
            memory_gb = img.default_memory_gb;
            disk_gb = img.default_disk_gb;
          }))
unfolding build_update_req update_defaults
build_update_req-not_already_using client conf img set h =
    let t : same conf.image img.repository ≡ true =
      subst (λ s. same conf.image s ≡ true)
        (sym (same-eq img.repository conf.image (find_img_sound client _ _ _ img h)))
        (same_self conf.image) in
    rw (set, h, t)
