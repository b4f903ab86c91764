-- ===== src/Cmd/Providers.antt =====
-- The handlers of internal/cmd/providers.go that change or remove a provider; `create` is not modelled.
--
-- The functions of `rm` share the variable `err` of their handler: each assigns it what the server
-- answers, and tests it afterwards. A run of theirs is a list of moves.
pub mod Laws
use coder_cli.Prelude.{Bool, Option, none, some, List, [], ◌∷◌, ◌++◌, if◌then◌else◌}
use coder_cli.Prelude.Texts.{Bytes, same}
use coder_cli.Prelude.Results.{Result, ok, err, ◌>>=◌, ◌>>◌, guard}
use coder_cli.Cmd.Api.{Provider, CmdError, not_found, Answer, Client}
use coder_cli.Cmd.Lookup.{first, provider_by_name}
use coder_cli.Pkg.ErrGroup.{Group, new_group, finish, Emitted, wait}

pub data ProviderRequest : Type 0 where
  cordon rename_to : Bytes → Bytes → ProviderRequest
  uncordon delete_provider : Bytes → ProviderRequest

pub record ProviderEnv : Type 0 where
  pub client : Client
  pub accepts : ProviderRequest → Answer (Unit {0})

module _ (env : ProviderEnv) where
  -- a request for the provider of a name
  unfoldable pub on_provider :
      (Bytes → ProviderRequest) → Bytes → Answer (Unit {0}) × List ProviderRequest
  on_provider make name = elim (provider_by_name env.client name) [
    | err e ↦ (err e, [])
    | ok p ↦ (env.accepts (make p.id), make p.id ∷ [])
  ]

  -- the handlers of cordon, uncordon and rename
  abbrev pub cordon_provider : Bytes → Bytes → Answer (Unit {0}) × List ProviderRequest
  cordon_provider name reason = on_provider (λ id. cordon id reason) name

  abbrev pub uncordon_provider : Bytes → Answer (Unit {0}) × List ProviderRequest
  uncordon_provider name = on_provider uncordon name

  abbrev pub rename_provider : Bytes → Bytes → Answer (Unit {0}) × List ProviderRequest
  rename_provider old_name new_name = on_provider (λ id. rename_to id new_name) old_name

-- The loop of rm that looks for the id; the last one of the name stays.
unfoldable pub id_by_name : Bytes → List Provider → Bytes → Bytes
id_by_name name [] id = id
id_by_name name (p ∷ ps) id = id_by_name name ps (if same p.name name then p.id else id)

-- A function of the group reports a missing name, assigns `err`, or tests it and returns.
pub data Move : Type 0 where
  misses : Move
  assigns : Bytes → Move
  tests : Move

-- The moves of the function for a name.
unfoldable pub moves : List Provider → Bytes → List Move
unfolding id_by_name
moves ps name =
    let id = id_by_name name ps [] in if same id [] then misses ∷ [] else assigns id ∷ tests ∷ []

pub record Shared : Type 0 where
  pub last : Answer (Unit {0})
  pub group : Group CmdError
  pub sent : List ProviderRequest

abbrev pub fresh_shared : Shared
fresh_shared = record { last = ok tt; group = new_group; sent = [] }

module _ (env : ProviderEnv) where
  unfoldable pub move : Move → Shared → Shared
  move misses s = record s { group = finish (err not_found) s.group }
  move (assigns id) s = record s {
    last = env.accepts (delete_provider id);
    sent = s.sent ++ delete_provider id ∷ [];
  }
  move tests s = record s { group = finish s.last s.group }

  unfoldable pub move_all : List Move → Shared → Shared
  unfolding move
  move_all [] s = s
  move_all (m ∷ ms) s = move_all ms (move m s)

  -- rm, for an order of the moves of its functions
  unfoldable pub rm_providers : List Move → Option Emitted × List ProviderRequest
  unfolding move_all
  rm_providers order = let s = move_all order fresh_shared in (wait s.group, s.sent)

-- Two functions that run at the same time.
pub data Merge : List Move → List Move → List Move → Type 0 where
  done : Merge [] [] []
  left : (m : Move) {xs ys zs : List Move} → Merge xs ys zs → Merge (m ∷ xs) ys (m ∷ zs)
  right : (m : Move) {xs ys zs : List Move} → Merge xs ys zs → Merge xs (m ∷ ys) (m ∷ zs)
