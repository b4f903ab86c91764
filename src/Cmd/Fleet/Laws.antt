-- ===== src/Cmd/Fleet/Laws.antt =====
-- What is stopped or removed, and what is reported.
use mathlib.Core.List.{Permᴰ}
use mathlib.Core.List.Permᴰ
use coder_cli.Prelude.{
  ◌≡◌, refl, sym, ap, ◌↔◌, ◌⊎◌, inl, inr, ◌<◌, ◌^◌, Bool, true, false, not, ◌&&◌, none, List, [],
  ◌∷◌, map, All, In, In-append, In-perm, All-perm, length-perm, In-append_left, In-append_right,
  length, length-map, arith,
}
use coder_cli.Prelude.Texts.{Bytes}
use coder_cli.Prelude.Results.{ok, err, Result-cases}
use coder_cli.Cmd.Api.{Workspace, CmdError, Answer}
use coder_cli.Cmd.Lookup.{find_workspace}
use coder_cli.Pkg.ErrGroup.Laws.{IsOk, wait_iff}
use coder_cli.Cmd.Fleet.{
  FleetRequest, stop_workspace, delete_workspace, FleetEnv, waited, refused, one, sent, each, stop,
  rm,
}

module _ (env : FleetEnv) (make : Bytes → FleetRequest) (user : Bytes) where
  -- The request is for the workspace that one of the names stands for.
  abbrev pub ForOne : List Bytes → FleetRequest → Type 0
  ForOne names r =
      (name : Bytes) × (w : Workspace) × In name names
      × (find_workspace env.client name user ≡ ok w)
      × (r ≡ make w.id)

  -- The workspace is found, and the server does what is asked.
  abbrev pub Done : Bytes → Type 0
  Done name =
      (w : Workspace) × (find_workspace env.client name user ≡ ok w)
      × (env.accepts (make w.id) ≡ ok tt)

  one-found :
      (name : Bytes) (w : Workspace)
      → find_workspace env.client name user ≡ ok w
      → one env make user name ≡ (env.accepts (make w.id), make w.id ∷ [])
  unfolding one
  one-found name w e = rw (one, e) refl

  one-err :
      (name : Bytes) (x : CmdError)
      → find_workspace env.client name user ≡ err x
      → one env make user name ≡ (err x, [])
  unfolding one
  one-err name x e = rw (one, e) refl

  found :
      (name : Bytes)
      → ((w : Workspace) × (find_workspace env.client name user ≡ ok w))
        ⊎ ((x : CmdError) × (find_workspace env.client name user ≡ err x))
  found name = Result-cases (find_workspace env.client name user)

  accepted : (a : Answer (Unit {0})) → IsOk a → a ≡ ok tt
  accepted (ok tt) h = refl
  accepted (err e) h = absurd h

  one-Done : (name : Bytes) → IsOk (one env make user name).0 → Done name
  one-Done name h = elim (found name) [
    | inl (w, e) ↦ (w, e, accepted _ (rw (one-found name w e) at h))
    | inr (x, e) ↦ absurd (rw (one-err name x e) at h)
  ]

  Done-one : (name : Bytes) → Done name → IsOk (one env make user name).0
  Done-one name (w, e, a) = rw (one-found name w e, a) tt

  All-Done :
      (order : List Bytes)
      → All IsOk (map (λ name. (one env make user name).0) order) ↔ All Done order
  All-Done [] = (λ h. h, λ h. h)
  All-Done (name ∷ names) =
      let (fs, gs) = All-Done names in
      (λ h. (one-Done name h.0, fs h.1), λ h. (Done-one name h.0, gs h.1))

  sent-ForOne :
      (order : List Bytes) (r : FleetRequest) → In r (sent env make user order) → ForOne order r
  sent-ForOne [] r h = absurd h
  sent-ForOne (name ∷ names) r h = elim (In-append r (one env make user name).1 _ h) [
    | inl i ↦ elim (found name) [
      | inl (w, e) ↦ (name, w, inl refl, e, only (rw (one-found name w e) at i))
      | inr (x, e) ↦ absurd (rw (one-err name x e) at i)
    ]
    | inr i ↦ let (n, w, j, f, e) = sent-ForOne names r i in (n, w, inr j, f, e)
  ]
    where
      only : {x : FleetRequest} → In r (x ∷ []) → r ≡ x
      only (inl e) = e
      only (inr h) = absurd h

  sent_all :
      (order : List Bytes) (r : FleetRequest) → ForOne order r → In r (sent env make user order)
  sent_all [] r (n, w, j, f, e) = absurd j
  sent_all (name ∷ names) r (n, w, inl j, f, e) =
      In-append_left r (one env make user name).1 _
        (rw (one-found name w (rw j at f), e) (inl refl))
  sent_all (name ∷ names) r (n, w, inr j, f, e) =
      In-append_right r (one env make user name).1 _ (sent_all names r (n, w, j, f, e))

  each_sound :
      (names order : List Bytes)
      → Permᴰ names order
      → length names < 2 ^ 31
      → (((each env make user order).0 ≡ none) ↔ All Done names)
        × ((r : FleetRequest) → In r (each env make user order).1 ↔ ForOne names r)
  unfolding each
  each_sound names order p h =
      let (_, n, _) =
        wait_iff (map (λ name. (one env make user name).0) order)
          (short order (rw (sym (length-perm p)) h)) in
      let (f, g) = All-Done order in
      (
        (λ e. All-perm Done (Permᴰ.symm p) (f (n.0 e)), λ a. n.1 (g (All-perm Done p a))),
        λ r. (
          λ i. renamed r (Permᴰ.symm p) (sent-ForOne order r i),
          λ o. sent_all order r (renamed r p o),
        ),
      )
    where
      renamed : {xs ys : List Bytes} (r : FleetRequest) → Permᴰ xs ys → ForOne xs r → ForOne ys r
      renamed r q (n, w, j, f, e) = (n, w, In-perm n q j, f, e)

      short :
          (xs : List Bytes)
          → length xs < 2 ^ 31
          → length (map (λ name. (one env make user name).0) xs) < 2 ^ 31
      short xs h = rw length-map h

-- The stop handler, in whatever order its functions finish, asks the server to stop exactly the
-- workspaces that the names stand for, and succeeds if and only if every name stands for one and the
-- server accepts to stop it. There are fewer than 2 ^ 31 names.
pub stop_sound :
    (env : FleetEnv) (user : Bytes) (names order : List Bytes)
    → Permᴰ names order
    → length names < 2 ^ 31
    → (((stop env user order).0 ≡ waited none) ↔ All (Done env stop_workspace user) names)
      × ((r : FleetRequest) → In r (stop env user order).1 ↔ ForOne env stop_workspace user names r)
unfolding stop
stop_sound env user names order p h =
    let (e, s) = each_sound env stop_workspace user names order p h in
    ((λ q. e.0 cc, λ a. ap waited (e.1 a)), s)

rm-refused :
    (env : FleetEnv) (force : Bool) (user : Bytes) (order : List Bytes)
    → (not force && not env.confirms) ≡ true
    → rm env force user order ≡ (refused, [])
unfolding rm
rm-refused env force user order e = rw (rm, e) refl

rm-each :
    (env : FleetEnv) (force : Bool) (user : Bytes) (order : List Bytes)
    → (not force && not env.confirms) ≡ false
    → rm env force user order
      ≡ (waited (each env delete_workspace user order).0, (each env delete_workspace user order).1)
unfolding rm
rm-each env force user order e = rw (rm, e) refl

-- The rm handler does the same with removals where its prompt is confirmed or the flag forces it; else
-- it sends nothing and reports the refusal.
pub rm_sound :
    (env : FleetEnv) (force : Bool) (user : Bytes) (names order : List Bytes)
    → Permᴰ names order
    → length names < 2 ^ 31
    → (((force ≡ false) × (env.confirms ≡ false)) → rm env force user order ≡ (refused, []))
      × (((force ≡ true) ⊎ (env.confirms ≡ true))
          → (((rm env force user order).0 ≡ waited none)
              ↔ All (Done env delete_workspace user) names)
            × ((r : FleetRequest)
                → In r (rm env force user order).1 ↔ ForOne env delete_workspace user names r))
rm_sound env force user names order p h = (
  λ q. rm-refused env force user order (ground arith),
  λ q.
      let (e, s) = each_sound env delete_workspace user names order p h in
      rw (rm-each env force user order (ground arith)) ((λ t. e.0 cc, λ a. ap waited (e.1 a)), s),
)
