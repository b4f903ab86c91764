-- ===== src/Cmd/Fleet.antt =====
-- The handlers of `coder workspaces stop` and `coder workspaces rm` (internal/cmd/workspaces.go),
-- which work on several workspaces at the same time.
--
-- A run is given by the order in which the functions of the group finish: a rearrangement of the
-- arguments.
pub mod Laws
use coder_cli.Prelude.{Bool, not, ◌&&◌, Option, none, some, List, [], ◌∷◌, ◌++◌, map, if◌then◌else◌}
use coder_cli.Prelude.Texts.{Bytes}
use coder_cli.Prelude.Results.{Result, ok, err}
use coder_cli.Cmd.Api.{Workspace, CmdError, Answer, Client}
use coder_cli.Cmd.Lookup.{find_workspace}
use coder_cli.Pkg.ErrGroup.{Group, new_group, finish_all, Emitted, wait}

pub data FleetRequest : Type 0 where
  stop_workspace delete_workspace : Bytes → FleetRequest

-- The client, the prompt, and the answers of the server.
pub record FleetEnv : Type 0 where
  pub client : Client
  pub confirms : Bool
  pub accepts : FleetRequest → Answer (Unit {0})

-- The errors of the handlers: that of Wait, or that of a prompt that is not confirmed.
pub data Ended : Type 0 where
  waited : Option Emitted → Ended
  refused : Ended

module _ (env : FleetEnv) (make : Bytes → FleetRequest) (user : Bytes) where
  -- the function for one name: its result, and what it sends
  unfoldable pub one : Bytes → Answer (Unit {0}) × List FleetRequest
  one name = elim (find_workspace env.client name user) [
    | err e ↦ (err e, [])
    | ok w ↦ (env.accepts (make w.id), make w.id ∷ [])
  ]

  abbrev pub sent : List Bytes → List FleetRequest
  sent [] = []
  sent (name ∷ names) = (one name).1 ++ sent names

  -- the group of the functions
  unfoldable pub each : List Bytes → Option Emitted × List FleetRequest
  unfolding one
  each order = (wait (finish_all (map (λ name. (one name).0) order) new_group), sent order)

-- the handler of stop
unfoldable pub stop : FleetEnv → Bytes → List Bytes → Ended × List FleetRequest
stop env user order = let r = each env stop_workspace user order in (waited r.0, r.1)

-- the handler of rm
unfoldable pub rm : FleetEnv → Bool → Bytes → List Bytes → Ended × List FleetRequest
rm env force user order =
    if not force && not env.confirms
    then (refused, [])
    else (let r = each env delete_workspace user order in (waited r.0, r.1))
