-- ===== src/Sync/Work/Laws.antt =====
-- Which commands an event leads to (internal/sync/sync.go).
use coder_cli.Prelude.{
  ◌≡◌, refl, sym, ap, subst, ◌≢◌, none, List, Option-cases, ◌↔◌, ◌⊎◌, inl, inr, Bool, true, false,
  some, [], ◌∷◌, ◌++◌, In, All, length, arith, ◌≤◌,
}
use coder_cli.Prelude.Texts.{Bytes, codes}
use coder_cli.Sync.EventCache.{
  Event, create, remove, write, rename, unknown, TimedEvent, Stat, file, dir, missing, stat_err,
}
use coder_cli.Sync.Work.{
  SyncError, Command, rsync, remote, World, rsync_args, exit_error, convert_path, panics, Outcome,
  handle_create, handle_delete, handle_rename, on_event, work,
}

-- rsync is told to delete what the source lacks for every value of the parameter `delete`; the
-- parameter decides only whether the flag stands there twice.
pub rsync_args-delete :
    (delete debug : Bool) (self local workspace target : Bytes)
    → In (codes "--delete") (rsync_args delete debug self local workspace target)
unfolding rsync_args
rsync_args-delete true true self local workspace target = inr (inl refl)
rsync_args-delete true false self local workspace target = inl refl
rsync_args-delete false true self local workspace target = inr (inr (inr (inl refl)))
rsync_args-delete false false self local workspace target = inr (inr (inl refl))

-- rsync copies a path to where it belongs in the remote directory.
abbrev pub SyncsTo : World → Bytes → Command → Type 0
SyncsTo w path c =
    (r : Bytes) × (w.rel w.local_dir path ≡ some r) × (c ≡ rsync path (w.join w.remote_dir r))

-- What a path has become in the remote directory is removed.
abbrev pub RemovesAt : World → Bytes → Command → Type 0
RemovesAt w path c =
    (r : Bytes) × (w.rel w.local_dir path ≡ some r)
    × (c ≡ remote (codes "rm -rf") (w.join w.remote_dir r))

-- The command that an event of a path asks for. A renamed path is treated by what is there now; a
-- directory is copied with `/.` behind it.
abbrev pub ActsOn : World → Event → Bytes → Command → Type 0
ActsOn w write path c = SyncsTo w path c
ActsOn w create path c = SyncsTo w path c
ActsOn w remove path c = RemovesAt w path c
ActsOn w rename path c =
    ((w.stat path ≡ missing) × RemovesAt w path c)
    ⊎ (((w.stat path ≡ dir) × SyncsTo w (path ++ codes "/.") c)
        ⊎ ((w.stat path ≡ file) × SyncsTo w path c))
ActsOn w (unknown n) path c = ⊥

abbrev pub is_handled : Event → Bool
is_handled (unknown n) = false
is_handled _ = true

-- One command at most, of a kind, and one exactly where there is no error.
abbrev pub Does : (Command → Type 0) → Outcome → Type 0
Does P o = All P o.1 × (length o.1 ≤ 1) × (o.0 ≡ none → length o.1 ≡ 1)

Does-map :
    (P Q : Command → Type 0) (o : Outcome) → ((c : Command) → P c → Q c) → Does P o → Does Q o
Does-map P Q (e, cs) f (a, l, h) = (mapped cs a, l, h)
  where
    mapped : (cs : List Command) → All P cs → All Q cs
    mapped [] a = tt
    mapped (c ∷ cs) (p, a) = (f c p, mapped cs a)

convert_path_cases :
    (w : World) (path : Bytes)
    → (convert_path w path ≡ none)
      ⊎ ((r : Bytes) × (w.rel w.local_dir path ≡ some r)
          × (convert_path w path ≡ some (w.join w.remote_dir r)))
unfolding convert_path
convert_path_cases w path = elim (Option-cases (w.rel w.local_dir path)) [
  | inl e ↦ inl (rw (convert_path, e) refl)
  | inr (r, e) ↦ inr (r, e, rw (convert_path, e) refl)
]

no_panic : {A : Type 0} → some panics ≡ none → A
no_panic q = absurd cc

handle_create-commands :
    (w : World) (local target : Bytes)
    → convert_path w local ≡ some target
    → (handle_create w local).1 ≡ rsync local target ∷ []
unfolding handle_create
handle_create-commands w local target e = rw (handle_create, e) (ground arith)

handle_create-Does : (w : World) (local : Bytes) → Does (SyncsTo w local) (handle_create w local)
unfolding handle_create
handle_create-Does w local = elim (convert_path_cases w local) [
  | inl e ↦ rw (handle_create, e) (tt, omega arith, no_panic)
  | inr (r, h, e) ↦
      let q = handle_create-commands w local (w.join w.remote_dir r) e in
      (
        subst (All (SyncsTo w local)) (sym q) ((r, h, refl), tt),
        rw q (omega arith),
        λ x. ap length q,
      )
]

handle_delete-Does : (w : World) (local : Bytes) → Does (RemovesAt w local) (handle_delete w local)
unfolding handle_delete
handle_delete-Does w local = elim (convert_path_cases w local) [
  | inl e ↦ rw (handle_delete, e) (tt, omega arith, no_panic)
  | inr (r, h, e) ↦ rw (handle_delete, e) (((r, h, refl), tt), omega arith, λ x. refl)
]

handle_rename-Does :
    (w : World) (path : Bytes) (s : Stat)
    → w.stat path ≡ s
    → Does (ActsOn w rename path) (handle_rename w path)
unfolding handle_rename
handle_rename-Does w path missing e =
    rw (handle_rename, e) (Does-map _ _ _ (λ c p. inl (e, p)) (handle_delete-Does w path))
handle_rename-Does w path stat_err e = rw (handle_rename, e) (tt, omega arith, λ q. absurd cc)
handle_rename-Does w path dir e =
    rw (handle_rename, e)
      (Does-map _ _ _ (λ c p. inr (inl (e, p))) (handle_create-Does w (path ++ codes "/.")))
handle_rename-Does w path file e =
    rw (handle_rename, e) (Does-map _ _ _ (λ c p. inr (inr (e, p))) (handle_create-Does w path))

-- An event leads to one command at most, and to one where it is handled without an error: a creation
-- or a write copies the path with rsync to its place in the remote directory, a removal removes what is
-- there, and a rename does the one or the other by what the path is now. An event of another kind leads
-- to none.
pub work-ActsOn :
    (w : World) (ev : TimedEvent)
    → All (ActsOn w ev.event ev.path) (work w ev).1
      × (length (work w ev).1 ≤ 1)
      × (is_handled ev.event ≡ true → (work w ev).0 ≡ none → length (work w ev).1 ≡ 1)
unfolding work
work-ActsOn w ev = go ev.event
  where
    go :
        (e : Event)
        → All (ActsOn w e ev.path) (on_event w e ev.path).1
          × (length (on_event w e ev.path).1 ≤ 1)
          × (is_handled e ≡ true
              → (on_event w e ev.path).0 ≡ none
              → length (on_event w e ev.path).1 ≡ 1)
    go create = let (a, l, h) = handle_create-Does w ev.path in (a, l, λ k. h)
    go write = let (a, l, h) = handle_create-Does w ev.path in (a, l, λ k. h)
    go remove = let (a, l, h) = handle_delete-Does w ev.path in (a, l, λ k. h)
    go rename = let (a, l, h) = handle_rename-Does w ev.path (w.stat ev.path) refl in (a, l, λ k. h)
    go (unknown n) = (tt, omega arith, λ k. absurd cc)

-- A creation or a write of a path that has a place in the remote directory fails exactly where rsync
-- fails and the path is not found to be gone afterwards; the error then tells which of the known exit
-- codes it was.
pub handle_create-error :
    (w : World) (local target : Bytes) (e : SyncError)
    → convert_path w local ≡ some target
    → ((handle_create w local).0 ≡ some e)
      ↔ ((exit_error (w.rsync_exit local target) ≡ some e) × (w.stat local ≢ missing))
unfolding handle_create
handle_create-error w local target e h = rw (handle_create, h) (ground arith)
