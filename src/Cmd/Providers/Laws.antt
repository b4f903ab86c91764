-- ===== src/Cmd/Providers/Laws.antt =====
-- What the handlers ask for, and what `rm` reports.
use coder_cli.Prelude.{
  ◌≡◌, refl, sym, ap, ◌∙◌, ◌↔◌, ◌⊎◌, inl, inr, false, none, some, List, [], ◌∷◌, ◌++◌, ◌<◌, ◌^◌,
  map, length-map, All, length, if◌then◌else◌, Bool-cases,
}
use coder_cli.Prelude.Texts.{Bytes, codes, same}
use coder_cli.Prelude.Results.{ok, err, Result-cases, bind_ok}
use coder_cli.Cmd.Api.{Provider, CmdError, not_found, Answer, Client}
use coder_cli.Cmd.Lookup.{first, found_or, provider_by_name}
use coder_cli.Cmd.Lookup.Laws.{found_ok}
use coder_cli.Pkg.ErrGroup.{new_group, finish, finish_all, Emitted, wait}
use coder_cli.Pkg.ErrGroup.Laws.{wait_iff, All-IsOk}
use coder_cli.Cmd.Providers.{
  ProviderRequest, delete_provider, ProviderEnv, on_provider, id_by_name, Move, assigns, tests,
  moves, Shared, fresh_shared, move, move_all, rm_providers, Merge, done, left, right,
}

moves-found :
    (ps : List Provider) (name : Bytes)
    → same (id_by_name name ps []) [] ≡ false
    → moves ps name ≡ assigns (id_by_name name ps []) ∷ tests ∷ []
unfolding moves
moves-found ps name h = rw (moves, h) refl

overwritten :
    (env : ProviderEnv) (x y : Bytes) (r : Answer (Unit {0}))
    → env.accepts (delete_provider y) ≡ r
    → (rm_providers env (assigns x ∷ assigns y ∷ tests ∷ tests ∷ [])).0
      ≡ wait (finish r (finish r new_group))
unfolding rm_providers move_all finish
overwritten env x y r e = ap (λ q. wait (finish q (finish q new_group))) e

quiet : wait (finish {E = CmdError} (ok tt) (finish (ok tt) new_group)) ≡ none
unfolding finish wait
quiet = refl

reported :
    (e : CmdError)
    → wait (finish (err e) (finish (err e) new_group))
      ≡ some (record { number = 2; word = codes "failures" })
unfolding finish wait
reported e = refl

-- Of two providers that `rm` deletes at the same time, the server refuses the first and accepts the
-- second. Then the two functions can run such that the refusal is not reported and the handler
-- succeeds, and such that two failures are reported.
pub rm_providers-lost :
    (env : ProviderEnv) (ps : List Provider) (a b : Bytes) (e : CmdError)
    → same (id_by_name a ps []) [] ≡ false
    → same (id_by_name b ps []) [] ≡ false
    → env.accepts (delete_provider (id_by_name a ps [])) ≡ err e
    → env.accepts (delete_provider (id_by_name b ps [])) ≡ ok tt
    → ((order : List Move) × Merge (moves ps a) (moves ps b) order
        × ((rm_providers env order).0 ≡ none))
      × ((order : List Move) × (m : Emitted) × Merge (moves ps a) (moves ps b) order
          × ((rm_providers env order).0 ≡ some m)
          × (m.number ≡ 2))
rm_providers-lost env ps a b e ha hb ea eb =
    rw (moves-found ps a ha, moves-found ps b hb)
      (
        (
          assigns (id_by_name a ps []) ∷ assigns (id_by_name b ps []) ∷ tests ∷ tests ∷ [],
          left _ (right _ (left _ (right _ done))),
          overwritten env _ (id_by_name b ps []) (ok tt) eb ∙ quiet,
        ),
        (
          assigns (id_by_name b ps []) ∷ assigns (id_by_name a ps []) ∷ tests ∷ tests ∷ [],
          record { number = 2; word = codes "failures" },
          right _ (left _ (right _ (left _ done))),
          overwritten env _ (id_by_name a ps []) (err e) ea ∙ reported e,
          refl,
        ),
      )

-- A run of `rm` in which no other function moves between the assignment and the test of one.
abbrev pub alone : List Provider → List Bytes → List Move
alone ps [] = []
alone ps (name ∷ names) = moves ps name ++ alone ps names

-- The result that the function for a name has then.
abbrev pub outcome : ProviderEnv → List Provider → Bytes → Answer (Unit {0})
outcome env ps name =
    let id = id_by_name name ps [] in
    if same id [] then err not_found else env.accepts (delete_provider id)

move_all-alone :
    (env : ProviderEnv) (ps : List Provider) (names : List Bytes) (s : Shared)
    → (move_all env (alone ps names) s).group ≡ finish_all (map (outcome env ps) names) s.group
unfolding move_all finish_all move moves
move_all-alone env ps [] s = refl
move_all-alone env ps (name ∷ names) s = elim (Bool-cases (same (id_by_name name ps []) [])) [
  | inl h ↦ rw h (move_all-alone env ps names _)
  | inr h ↦ rw h (move_all-alone env ps names _)
]

-- Where the functions of `rm` do not interfere, it succeeds if and only if every name stands for a
-- provider and the server deletes it; there are fewer than 2 ^ 31 names.
pub rm_providers-alone :
    (env : ProviderEnv) (ps : List Provider) (names : List Bytes)
    → length names < 2 ^ 31
    → ((rm_providers env (alone ps names)).0 ≡ none)
      ↔ All (λ name. outcome env ps name ≡ ok tt) names
unfolding rm_providers
rm_providers-alone env ps names h =
    let (_, n, _) =
      wait_iff (map (outcome env ps) names) (rw (length-map (outcome env ps) names) h) in
    let (f, g) = All-IsOk (outcome env ps) names in
    let e = ap wait (move_all-alone env ps names fresh_shared) in
    (λ q. f (n.0 (sym e ∙ q)), λ a. e ∙ n.1 (g a))

provider_by_name-first :
    (client : Client) (name : Bytes) (p : Provider)
    → provider_by_name client name ≡ ok p
    → (ps : List Provider) × (client.providers ≡ ok ps)
      × (found_or not_found (first (λ q. same q.name name) ps) ≡ ok p)
unfolding provider_by_name
provider_by_name-first client name p h = bind_ok client.providers _ p h

-- The handlers of cordon, uncordon and rename send one request, for the first provider of the name, or
-- report why they cannot.
pub on_provider_sound :
    (env : ProviderEnv) (make : Bytes → ProviderRequest) (name : Bytes)
    → ((e : CmdError) × (provider_by_name env.client name ≡ err e)
        × (on_provider env make name ≡ (err e, [])))
      ⊎ ((p : Provider) × (ps : List Provider) × (env.client.providers ≡ ok ps)
          × (first (λ q. same q.name name) ps ≡ some p)
          × (on_provider env make name ≡ (env.accepts (make p.id), make p.id ∷ [])))
unfolding on_provider
on_provider_sound env make name = elim (Result-cases (provider_by_name env.client name)) [
  | inl (p, e) ↦
      let (ps, hp, hf) = provider_by_name-first env.client name p e in
      inr (p, ps, hp, found_ok _ _ p hf, rw (on_provider, e) refl)
  | inr (x, e) ↦ inl (x, e, rw (on_provider, e) refl)
]
