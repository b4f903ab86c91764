-- ===== src/Sync/Work.antt =====
-- internal/sync/sync.go: the rsync and remote commands that an event leads to.
--
-- `World` holds what the programs and the file system answer: how rsync ends for a source and a
-- target, whether a remote command succeeds, what os.Stat says, the two directories, and filepath.Rel and
-- filepath.Join. What is run is recorded in order as a list of commands.
pub mod Laws
use coder_cli.Prelude.{
  ℕ, ◌+◌, Bool, true, false, not, Option, none, some, List, [], ◌∷◌, ◌++◌, ◌==◌, if◌then◌else◌,
}
use coder_cli.Prelude.Texts.{Bytes, codes}
use coder_cli.Prelude.Dict.{Dict}
use coder_cli.Sync.EventCache.{
  Event, create, remove, write, rename, unknown, TimedEvent, Stat, file, dir, missing, stat_err,
  add_all, sequential_events, concurrent_events,
}

-- How the rsync process ends: well, with an exit code, or not started.
pub data Exit : Type 0 where
  done not_started : Exit
  code : ℕ → Exit

pub data SyncError : Type 0 where
  incompatible data_stream rsync_err remote_err stat_failed panics : SyncError

pub data Command : Type 0 where
  rsync : Bytes → Bytes → Command
  remote : Bytes → Bytes → Command

pub record World : Type 0 where
  pub rsync_exit : Bytes → Bytes → Exit
  pub remote_ok : Bytes → Bytes → Bool
  pub stat : Bytes → Stat
  pub local_dir : Bytes
  pub remote_dir : Bytes
  pub rel : Bytes → Bytes → Option Bytes
  pub join : Bytes → Bytes → Bytes

-- The arguments of rsync in syncPaths.
unfoldable pub rsync_args : Bool → Bool → Bytes → Bytes → Bytes → Bytes → List Bytes
rsync_args delete debug self local workspace target =
    let args =
      codes "-zz"
      ∷ codes "-a"
      ∷ codes "--delete"
      ∷ codes "-e"
      ∷ (self ++ codes " sh")
      ∷ local
      ∷ (workspace ++ b':' ∷ target)
      ∷ [] in
    let args' = if delete then codes "--delete" ∷ args else args in
    if debug then codes "--progress" ∷ args' else args'

-- The error of syncPaths, none for success.
unfoldable pub exit_error : Exit → Option SyncError
exit_error done = none
exit_error not_started = some rsync_err
exit_error (code n) =
    if n == 2 then some incompatible else if n == 12 then some data_stream else some rsync_err

abbrev pub Outcome : Type 0
Outcome = Option SyncError × List Command

module _ (w : World) where
  -- convertPath, none for its panic
  unfoldable pub convert_path : Bytes → Option Bytes
  convert_path local = elim (w.rel w.local_dir local) [
    | none ↦ none
    | some r ↦ some (w.join w.remote_dir r)
  ]

  sync_paths : Bytes → Bytes → Outcome
  unfolding exit_error
  sync_paths local target = (exit_error (w.rsync_exit local target), rsync local target ∷ [])

  remote_cmd : Bytes → Bytes → Outcome
  remote_cmd prog path =
      (if w.remote_ok prog path then none else some remote_err, remote prog path ∷ [])

  -- os.IsNotExist of the error of os.Stat
  is_missing : Stat → Bool
  is_missing missing = true
  is_missing _ = false

  -- handleCreate
  unfoldable pub handle_create : Bytes → Outcome
  unfolding sync_paths is_missing convert_path
  handle_create local = elim (convert_path local) [
    | none ↦ (some panics, [])
    | some target ↦
        let (result, commands) = sync_paths local target in
        elim result [
          | none ↦ (none, commands)
          | some e ↦ if is_missing (w.stat local) then (none, commands) else (some e, commands)
        ]
  ]

  -- handleDelete
  unfoldable pub handle_delete : Bytes → Outcome
  unfolding remote_cmd convert_path
  handle_delete local = elim (convert_path local) [
    | none ↦ (some panics, [])
    | some target ↦ remote_cmd (codes "rm -rf") target
  ]

  -- handleRename
  unfoldable pub handle_rename : Bytes → Outcome
  unfolding handle_create handle_delete
  handle_rename local = elim (w.stat local) [
    | missing ↦ handle_delete local
    | stat_err ↦ (some stat_failed, [])
    | dir ↦ handle_create (local ++ codes "/.")
    | file ↦ handle_create local
  ]

  on_event : Event → Bytes → Outcome
  unfolding handle_create handle_rename handle_delete
  on_event write local = handle_create local
  on_event create local = handle_create local
  on_event rename local = handle_rename local
  on_event remove local = handle_delete local
  on_event (unknown n) local = (none, [])

  -- work; the outcome is logged, so an error of one event does not stop the others, but a panic does
  unfoldable pub work : TimedEvent → Outcome
  unfolding on_event
  work ev = on_event ev.event ev.path

  abbrev pub is_panic : Option SyncError → Bool
  is_panic (some panics) = true
  is_panic _ = false

  unfoldable pub work_all : List TimedEvent → List Command
  unfolding work
  work_all [] = []
  work_all (ev ∷ evs) =
      let rest = work_all evs in
      let (result, commands) = work ev in if is_panic result then commands else commands ++ rest

  -- workEventGroup. Both lists ask os.Stat, the second one when the first list is worked off. The
  -- concurrent part is taken in the order in which its tasks are started.
  unfoldable pub work_event_group : (Bytes → Stat) → (Bytes → Stat) → List TimedEvent → List Command
  unfolding work_all
  work_event_group stat stat' evs =
      let cache = add_all evs [] in
      work_all (sequential_events stat cache ++ concurrent_events stat' cache)
