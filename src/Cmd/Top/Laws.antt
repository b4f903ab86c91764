-- ===== src/Cmd/Top/Laws.antt =====
-- Which workspaces stand in a group, and what a group's resources are.
use coder_cli.Prelude.{
  ◌≡◌, refl, ap, ℕ, zero, suc, ◌+◌, ◌≤◌, Bool, not, ◌&&◌, List, [], ◌∷◌, ◌++◌, append-nil,
  append_assoc, inl, inr, map, keep, arith, leb, length, take, if◌then◌else◌, Bool-cases,
  length-append,
}
use coder_cli.Prelude.Texts.{Bytes, same, same-eq}
use coder_cli.Prelude.Dict.{Dict, lookup, insert, lookup-insert}
use coder_cli.Cmd.Api.{Workspace}
use coder_cli.Cmd.Top.{
  Entities, TopOptions, entries, collect, group, filtered, org_name, user_email, provider_name,
  aggregate_by_user, aggregate_by_org, aggregate_by_provider, truncate,
}

length-take : (s : Bytes) (n : ℕ) → n ≤ length s → length (take n s) ≡ n
length-take s zero h = refl
length-take [] (suc n) h = absurd (omega arith)
length-take (x ∷ s) (suc n) h = ap suc (length-take s n (omega arith))

-- The workspaces that are not skipped and have the key, in the order of the list.
abbrev pub of_key :
    (Workspace → Bool) → (Workspace → Bytes) → Bytes → List Workspace → List Workspace
of_key skip key k = keep (λ w. not (skip w) && same (key w) k)

entries-insert :
    (k j : Bytes) (ws : List Workspace) (m : Dict (List Workspace))
    → entries j (insert k ws m) ≡ (if same k j then ws else entries j m)
entries-insert k j ws m = ground (arith, lookup-insert k j ws m)

module _ (skip : Workspace → Bool) (key : Workspace → Bytes) where
  entries-collect :
      (k : Bytes) (ws : List Workspace) (m : Dict (List Workspace))
      → entries k (collect skip key ws m) ≡ entries k m ++ of_key skip key k ws
  unfolding collect
  entries-collect k [] m = rw append-nil refl
  entries-collect k (w ∷ ws) m = elim (Bool-cases (skip w)) [
    | inl e ↦ rw e (entries-collect k ws m)
    | inr e ↦
        let m' = insert (key w) (entries (key w) m ++ w ∷ []) m in
        rw (e, entries-collect k ws m', entries-insert (key w) k (entries (key w) m ++ w ∷ []) m)
          (elim (Bool-cases (same (key w) k)) [
            | inl q ↦ rw (q, same-eq (key w) k q) (append_assoc (entries k m) (w ∷ []) _)
            | inr q ↦ rw q refl
          ])
  ]

  group-collect :
      {A : Type 0} (omit : A → Bool) (id : A → Bytes) (all : List A) (ws : List Workspace)
      → group omit id all (collect skip key ws [])
        ≡ map (λ a. (a, of_key skip key (id a) ws)) (keep (λ a. not (omit a)) all)
  unfolding group lookup
  group-collect omit id [] ws = refl
  group-collect omit id (a ∷ all) ws = elim (Bool-cases (omit a)) [
    | inl e ↦ rw e (group-collect omit id all ws)
    | inr e ↦ rw (e, group-collect omit id all ws, entries-collect (id a) ws []) refl
  ]

-- The groups by user are those of the users that pass the filter, in order, and each holds, in the
-- order of the list, the workspaces of its user whose organization passes the filter. The groups by
-- organization hold in the same way the workspaces whose user passes the filter, and those by
-- provider, where the filter is on the provider on both sides, the workspaces of the provider.
pub aggregate_by_lem :
    (all : Entities) (options : TopOptions)
    → (aggregate_by_user all options
        ≡ map
            (λ u. (
              u,
              of_key
                  (λ w. filtered options.org (org_name all.orgs w.organization_id))
                  (λ w. w.user_id)
                  u.id
                  all.workspaces,
            ))
            (keep (λ u. not (filtered options.user u.email)) all.users))
      × (aggregate_by_org all options
          ≡ map
              (λ o. (
                o,
                of_key
                    (λ w. filtered options.user (user_email all.users w.user_id))
                    (λ w. w.organization_id)
                    o.id
                    all.workspaces,
              ))
              (keep (λ o. not (filtered options.org o.name)) all.orgs))
      × (aggregate_by_provider all options
          ≡ map
              (λ p. (
                p,
                of_key
                    (λ w.
                      filtered options.provider (provider_name all.providers w.resource_pool_id))
                    (λ w. w.resource_pool_id)
                    p.id
                    all.workspaces,
              ))
              (keep (λ p. not (filtered options.provider p.name)) all.providers))
unfolding aggregate_by_user aggregate_by_org aggregate_by_provider
aggregate_by_lem all options = (
  group-collect _ _ _ _ all.users all.workspaces,
  group-collect _ _ _ _ all.orgs all.workspaces,
  group-collect _ _ _ _ all.providers all.workspaces,
)

-- A text that is cut keeps one byte more than the maximum.
pub truncate-length :
    (str replace : Bytes) (max : ℕ)
    → length (truncate str max replace)
      ≡ (if leb (length str) max then length str else max + 1 + length replace)
unfolding truncate
truncate-length str replace max =
    ground (arith, length-append (take (max + 1) str) replace, length-take str (max + 1))
