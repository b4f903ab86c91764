-- ===== src/Sync/EventCache/Laws.antt =====
-- What the cache keeps of a group of events, and how it is divided (internal/sync/eventcache.go).
use coder_cli.Prelude.{
  ◌≡◌, refl, sym, ◌∙◌, ◌↔◌, ◌⊎◌, inl, inr, true, false, not, ◌&&◌, Option, none, some, List, [],
  ◌∷◌, In, In-keep, if◌then◌else◌, arith, Bool-cases,
}
use mathlib.Core.Bool.{false≢true}
use coder_cli.Prelude.Texts.{Bytes, same}
use coder_cli.Prelude.Dict.{Dict, lookup, lookup-insert, lookup-erase}
use coder_cli.Sync.EventCache.{
  TimedEvent, Stat, is_create, is_remove, is_file, add, add_all, values, sequential_events,
  concurrent_events,
}

-- What remains of the events of one path: a removal right behind a creation leaves nothing, and
-- otherwise the later event replaces the earlier one.
abbrev pub settle : Option TimedEvent → TimedEvent → Option TimedEvent
settle none ev = some ev
settle (some last) ev = if is_create last.event && is_remove ev.event then none else some ev

abbrev pub settle_all : Bytes → Option TimedEvent → List TimedEvent → Option TimedEvent
settle_all path old [] = old
settle_all path old (ev ∷ evs) =
    settle_all path (if same ev.path path then settle old ev else old) evs

lookup-add :
    (path : Bytes) (ev : TimedEvent) (cache : Dict TimedEvent)
    → lookup path (add ev cache)
      ≡ (if same ev.path path then settle (lookup path cache) ev else lookup path cache)
unfolding add
lookup-add path ev cache =
    ground (arith, lookup-insert ev.path path ev cache, lookup-erase ev.path path cache)

lookup-add_all_onto :
    (path : Bytes) (evs : List TimedEvent) (cache : Dict TimedEvent)
    → lookup path (add_all evs cache) ≡ settle_all path (lookup path cache) evs
unfolding add_all
lookup-add_all_onto path [] cache = refl
lookup-add_all_onto path (ev ∷ evs) cache =
    lookup-add_all_onto path evs (add ev cache) ∙ rw lookup-add

-- The cache of a group holds for each path what remains of that path's events, taken in order, and
-- the events of other paths do not matter.
pub lookup-add_all :
    (path : Bytes) (evs : List TimedEvent) → lookup path (add_all evs []) ≡ settle_all path none evs
unfolding lookup
lookup-add_all path evs = lookup-add_all_onto path evs []

In-sequential :
    (stat : Bytes → Stat) (cache : Dict TimedEvent) (ev : TimedEvent)
    → In ev (sequential_events stat cache)
      ↔ (In ev (values cache) × (is_file (stat ev.path) ≡ false))
unfolding sequential_events
In-sequential stat cache ev =
    let (to, from) = In-keep (λ (e : TimedEvent). not (is_file (stat e.path))) ev (values cache) in
    (
      λ h. ((to h).0, let t : not (is_file (stat ev.path)) ≡ true = (to h).1 in ground arith),
      λ h. from (h.0, let t : is_file (stat ev.path) ≡ false = h.1 in ground arith),
    )

In-concurrent :
    (stat : Bytes → Stat) (cache : Dict TimedEvent) (ev : TimedEvent)
    → In ev (concurrent_events stat cache)
      ↔ (In ev (values cache) × (is_file (stat ev.path) ≡ true))
unfolding concurrent_events
In-concurrent stat cache ev = In-keep (λ (e : TimedEvent). is_file (stat e.path)) ev (values cache)

-- With one answer of os.Stat for each path, every event of the cache is worked on either one after
-- the other or concurrently, and never both.
pub events_partition :
    (stat : Bytes → Stat) (cache : Dict TimedEvent) (ev : TimedEvent)
    → (In ev (values cache)
        ↔ (In ev (sequential_events stat cache) ⊎ In ev (concurrent_events stat cache)))
      × (¬ (In ev (sequential_events stat cache) × In ev (concurrent_events stat cache)))
events_partition stat cache ev =
    let (seq_to, seq_from) = In-sequential stat cache ev in
    let (conc_to, conc_from) = In-concurrent stat cache ev in
    (
      (
        λ h. elim (Bool-cases (is_file (stat ev.path))) [
          | inl e ↦ inr (conc_from (h, e))
          | inr e ↦ inl (seq_from (h, e))
        ],
        λ h. elim h [ inl s ↦ (seq_to s).0 | inr c ↦ (conc_to c).0 ],
      ),
      λ h. false≢true (sym (seq_to h.0).1 ∙ (conc_to h.1).1),
    )

-- The two lists ask os.Stat one after the other. An event is in both exactly where its path was no
-- file at the first question and is a file at the second.
pub events_overlap :
    (stat stat' : Bytes → Stat) (cache : Dict TimedEvent) (ev : TimedEvent)
    → (In ev (sequential_events stat cache) × In ev (concurrent_events stat' cache))
      ↔ (In ev (values cache) × (is_file (stat ev.path) ≡ false) × (is_file (stat' ev.path) ≡ true))
events_overlap stat stat' cache ev =
    let (seq_to, seq_from) = In-sequential stat cache ev in
    let (conc_to, conc_from) = In-concurrent stat' cache ev in
    (
      λ h. ((seq_to h.0).0, (seq_to h.0).1, (conc_to h.1).1),
      λ h. (seq_from (h.0, h.1), conc_from (h.0, h.2)),
    )
