-- ===== src/Pkg/ErrGroup/Laws.antt =====
-- What a group reports.
use mathlib.Core.List.{Permᴰ}
use coder_cli.Prelude.{
  ◌≡◌, refl, sym, ap, ◌∙◌, ◌↔◌, suc, ◌+◌, ◌%◌, ◌^◌, ◌≤◌, ◌<◌, none, some, List, [], ◌∷◌, ◌++◌, All,
  map, length, arith, append_assoc, append-nil,
}
use coder_cli.Prelude.Results.{Result, ok, err}
use coder_cli.Pkg.ErrGroup.{Group, new_group, finish, finish_all, Emitted, wait}

module _ {E : Type 0} where
  -- The errors of some results.
  abbrev pub errors : List (Result E (Unit {0})) → List E
  errors [] = []
  errors (ok u ∷ rs) = errors rs
  errors (err e ∷ rs) = e ∷ errors rs

  abbrev pub IsOk : Result E (Unit {0}) → Type 0
  IsOk (ok u) = Unit
  IsOk (err e) = ⊥

  errors-length : (rs : List (Result E (Unit {0}))) → length (errors rs) ≤ length rs
  errors-length [] = omega arith
  errors-length (ok u ∷ rs) = omega (arith, errors-length rs)
  errors-length (err e ∷ rs) = omega (arith, errors-length rs)

  errors-All : (rs : List (Result E (Unit {0}))) → (length (errors rs) ≡ 0) ↔ All IsOk rs
  errors-All [] = (λ h. tt, λ h. refl)
  errors-All (ok u ∷ rs) = let (f, g) = errors-All rs in (λ h. (tt, f h), λ h. g h.1)
  errors-All (err e ∷ rs) = (λ h. absurd (omega arith), λ h. absurd h.0)

  finish_all-failures :
      (rs : List (Result E (Unit {0}))) (g : Group E)
      → g.failures < 2 ^ 32
      → (finish_all rs g).failures ≡ (g.failures + length (errors rs)) % 2 ^ 32
  unfolding finish_all finish
  finish_all-failures [] g h = omega arith
  finish_all-failures (ok u ∷ rs) g h = finish_all-failures rs g h
  finish_all-failures (err e ∷ rs) g h =
      finish_all-failures rs (finish (err e) g) (omega arith) ∙ omega arith

  finish_all-logged :
      (rs : List (Result E (Unit {0}))) (g : Group E)
      → (finish_all rs g).logged ≡ g.logged ++ errors rs
  unfolding finish_all finish
  finish_all-logged [] g = sym (append-nil g.logged)
  finish_all-logged (ok u ∷ rs) g = finish_all-logged rs g
  finish_all-logged (err e ∷ rs) g =
      finish_all-logged rs (finish (err e) g) ∙ append_assoc g.logged (e ∷ []) (errors rs)

  counted :
      (rs : List (Result E (Unit {0})))
      → length rs < 2 ^ 31
      → (finish_all rs new_group).failures ≡ length (errors rs)
  counted rs h =
      let bound = errors-length rs in finish_all-failures rs new_group (omega arith) ∙ omega arith

  wait-none : (g : Group E) → (wait g ≡ none) ↔ (g.failures ≡ 0)
  unfolding wait
  wait-none g = ground arith

  wait-some : (g : Group E) (m : Emitted) → wait g ≡ some m → m.number ≡ g.failures
  unfolding wait
  wait-some g m e = ground arith

  -- With fewer than 2 ^ 31 functions, every error is logged, in the order in which the functions
  -- finish, and Wait gives nil exactly if none failed, and otherwise their number.
  pub wait_iff :
      (rs : List (Result E (Unit {0})))
      → length rs < 2 ^ 31
      → let g = finish_all rs new_group in
        (g.logged ≡ errors rs)
        × ((wait g ≡ none) ↔ All IsOk rs)
        × ((m : Emitted) → wait g ≡ some m → m.number ≡ length (errors rs))
  wait_iff rs h =
      let c = counted rs h in
      (
        finish_all-logged rs new_group,
        (
          λ e. (errors-All rs).0 (sym c ∙ (wait-none (finish_all rs new_group)).0 e),
          λ a. (wait-none (finish_all rs new_group)).1 (c ∙ (errors-All rs).1 a),
        ),
        λ m e. wait-some (finish_all rs new_group) m e ∙ c,
      )

  errors-perm :
      {rs qs : List (Result E (Unit {0}))} → Permᴰ rs qs → length (errors rs) ≡ length (errors qs)
  errors-perm Permᴰ.nil = refl
  errors-perm (Permᴰ.cons {a = a} {b = b} {l₁ = rs} {l₂ = qs} e p) =
      rw e (more b rs qs (errors-perm p))
    where
      more :
          (r : Result E (Unit {0})) (rs qs : List (Result E (Unit {0})))
          → length (errors rs) ≡ length (errors qs)
          → length (errors (r ∷ rs)) ≡ length (errors (r ∷ qs))
      more (ok u) rs qs h = h
      more (err x) rs qs h = ap suc h
  errors-perm (Permᴰ.swap {a' = a'} {b' = b'} {l = l} e q) = rw (e, q) (two b' a' l)
    where
      two :
          (r q : Result E (Unit {0})) (l : List (Result E (Unit {0})))
          → length (errors (r ∷ q ∷ l)) ≡ length (errors (q ∷ r ∷ l))
      two (ok u) (ok v) l = refl
      two (ok u) (err x) l = refl
      two (err x) (ok u) l = refl
      two (err x) (err y) l = refl
  errors-perm (Permᴰ.trans p q) = errors-perm p ∙ errors-perm q

  -- Wait gives the same whatever the order is in which the functions finish.
  pub wait-perm :
      (rs qs : List (Result E (Unit {0})))
      → Permᴰ rs qs
      → wait (finish_all rs new_group) ≡ wait (finish_all qs new_group)
  unfolding wait
  wait-perm rs qs p =
      let e : (finish_all rs new_group).failures ≡ (finish_all qs new_group).failures =
        finish_all-failures rs new_group (omega arith)
        ∙ ap (λ n. (0 + n) % 2 ^ 32) (errors-perm p)
        ∙ sym (finish_all-failures qs new_group (omega arith)) in
      rw e refl

  -- The results of functions that all succeed.
  pub All-IsOk :
      {A : Type 0} (f : A → Result E (Unit {0})) (xs : List A)
      → All IsOk (map f xs) ↔ All (λ x. f x ≡ ok tt) xs
  All-IsOk f [] = (λ h. h, λ h. h)
  All-IsOk f (x ∷ xs) =
      let (g, k) = All-IsOk f xs in (λ h. (accepted (f x) h.0, g h.1), λ h. (rw h.0 tt, k h.1))
    where
      accepted : (r : Result E (Unit {0})) → IsOk r → r ≡ ok tt
      accepted (ok tt) h = refl
      accepted (err e) h = absurd h
