-- ===== src/Wsnet/Cache/Laws.antt =====
-- The invariant of the cache, and what eviction may and may not drop (wsnet/cache.go).
use coder_cli.Prelude.{
  ℕ, ◌-◌, ◌<◌, is_set, ◌≡◌, refl, ap, ◌∙◌, ◌↔◌, ◌⊎◌, inl, inr, Bool, true, false, ◌&&◌, Option,
  none, some, List, [], ◌∷◌, ◌++◌, ◌==◌, if◌then◌else◌, arith, Bool-cases, Option-cases, All,
}
use coder_cli.Prelude.Texts.{Bytes, same, same_self}
use coder_cli.Prelude.Dict.{
  Dict, lookup, insert, erase, NodupKeys, lookup-insert, lookup-erase, insert-NodupKeys,
  erase-NodupKeys,
}
use coder_cli.Wsnet.Cache.{
  DialerCache, Probe, dial_cache, should_evict, shut_one, touch, store, close_all, close, closed_ok,
  close_err, Action, touches, stores, forgets, shuts, closes_cache, act, act_all, evict_one,
  cache_closed, dialer, Others, nobody, redial, on_found, dial, Op, dials, evicts, closes_all,
  perform, perform_all,
}

abbrev pub held_by : ℕ → Option ℕ → Bool
held_by d none = false
held_by d (some current) = current == d

abbrev pub values : Dict ℕ → List ℕ
values [] = []
values ((key, d) ∷ m) = d ∷ values m

-- Both maps have each key once, and a dialer in the cache has an access time.
pub record IsValid (c : DialerCache) : Type 0 where
  pub dialers_nodup : NodupKeys c.dialers
  pub atime_nodup : NodupKeys c.atime
  pub timed :
      (key : Bytes) → is_set (lookup key c.dialers) ≡ true → is_set (lookup key c.atime) ≡ true

module _ (p : Probe) where
  act-IsValid : (a : Action) (c : DialerCache) → IsValid c → IsValid (act p a c)
  unfolding act close shut_one
  act-IsValid (touches key now) c v = record {
    dialers_nodup = v.dialers_nodup;
    atime_nodup = insert-NodupKeys key now c.atime v.atime_nodup;
    timed = λ j h. ground (arith, v.timed j h, lookup-insert key j now c.atime);
  }
  act-IsValid (stores key now d) c v = record {
    dialers_nodup = insert-NodupKeys key d c.dialers v.dialers_nodup;
    atime_nodup = insert-NodupKeys key now c.atime v.atime_nodup;
    timed = λ j h.
        ground (arith, v.timed j, lookup-insert key j d c.dialers, lookup-insert key j now c.atime);
  }
  act-IsValid (forgets key) c v = record {
    dialers_nodup = erase-NodupKeys key c.dialers v.dialers_nodup;
    atime_nodup = erase-NodupKeys key c.atime v.atime_nodup;
    timed =
        λ j h. ground (arith, v.timed j, lookup-erase key j c.dialers, lookup-erase key j c.atime);
  }
  act-IsValid (shuts d) c v = record {
    dialers_nodup = ground (arith, v.dialers_nodup);
    atime_nodup = ground (arith, v.atime_nodup);
    timed = λ j h. ground (arith, v.timed j);
  }
  act-IsValid closes_cache c v = record {
    dialers_nodup = ground (arith, v.dialers_nodup);
    atime_nodup = ground (arith, v.atime_nodup);
    timed = λ j h. ground (arith, v.timed j);
  }

  act_all-IsValid : (acts : List Action) (c : DialerCache) → IsValid c → IsValid (act_all p acts c)
  unfolding act_all
  act_all-IsValid [] c v = v
  act_all-IsValid (a ∷ acts) c v = act_all-IsValid acts (act p a c) (act-IsValid a c v)

  evict_one-IsValid :
      (key : Bytes) (d : ℕ) (decided : Bool) (before between : List Action) (c : DialerCache)
      → IsValid c
      → IsValid (evict_one p key d decided before between c)
  unfolding evict_one act
  evict_one-IsValid key d false before between c v = v
  evict_one-IsValid key d true before between c v =
      let c' = act_all p before (shut_one p d c) in
      let v' : IsValid c' = act_all-IsValid before (shut_one p d c) (act-IsValid (shuts d) c v) in
      let w = act-IsValid (forgets key) _ (act_all-IsValid between c' v') in
      elim (Option-cases (lookup key c'.dialers)) [
        | inl e ↦ rw (evict_one, e) v'
        | inr (current, e) ↦ elim (Bool-cases (current == d)) [
          | inl h ↦ rw (evict_one, e, h) w
          | inr h ↦ rw (evict_one, e, h) v'
        ]
      ]

  redial-IsValid :
      (key : Bytes) (now : ℕ) (dialed : Option ℕ) (o : Others) (c : DialerCache)
      → IsValid c
      → IsValid (redial p key now dialed o c).0
  unfolding redial act
  redial-IsValid key now none o c v = act_all-IsValid o.before_store c v
  redial-IsValid key now (some d) o c v =
      let c1 = act_all p o.before_store c in
      let c2 = act_all p o.before_end (store key now d c1) in
      let v2 : IsValid c2 =
        act_all-IsValid o.before_end (store key now d c1)
          (act-IsValid (stores key now d) c1 (act_all-IsValid o.before_store c v)) in
      elim (Bool-cases c2.is_closed) [ inl h ↦ rw (redial, h) v2 | inr h ↦ rw (redial, h) v2 ]

  on_found-IsValid :
      (key : Bytes) (now : ℕ) (dialed : Option ℕ) (o : Others) (c : DialerCache) (found : Option ℕ)
      → IsValid c
      → IsValid (on_found p key now dialed o c found).0
  unfolding on_found act
  on_found-IsValid key now dialed o c none v = redial-IsValid key now dialed o c v
  on_found-IsValid key now dialed o c (some d) v =
      let c1 = act_all p o.before_touch c in
      let v' : IsValid (touch key now c1) =
        act-IsValid (touches key now) c1 (act_all-IsValid o.before_touch c v) in
      elim (Bool-cases (p.signaling_closed d)) [
        | inl s ↦ rw (on_found, s) (redial-IsValid key now dialed o (touch key now c1) v')
        | inr s ↦ rw (on_found, s) v'
      ]

  perform-IsValid : (o : Op) (c : DialerCache) → IsValid c → IsValid (perform p o c)
  unfolding perform dial act
  perform-IsValid (dials key now dialed o) c v =
      let found = on_found p key now dialed o c (lookup key c.dialers) in
      elim c.is_closed as (λ b. IsValid (if b then (c, cache_closed) else found).0) [
        | true ↦ v
        | false ↦ on_found-IsValid key now dialed o c (lookup key c.dialers) v
      ]
  perform-IsValid (evicts key d decided before between) c v =
      evict_one-IsValid key d decided before between c v
  perform-IsValid closes_all c v = act-IsValid closes_cache c v

  -- Whatever calls of Dial and Close and tasks of evict follow one another, each with any actions of
  -- others between its sections under the lock: in what becomes of a new cache each map has a key once,
  -- and every dialer that is in the cache has an access time.
  pub perform_all-IsValid : (ttl : ℕ) (ops : List Op) → IsValid (perform_all p ops (dial_cache ttl))
  unfolding perform_all dial_cache lookup
  perform_all-IsValid ttl ops = go ops (dial_cache ttl) (start ttl)
    where
      start : (ttl : ℕ) → IsValid (dial_cache ttl)
      start ttl = record { dialers_nodup = tt; atime_nodup = tt; timed = λ j h. absurd cc }

      go : (ops : List Op) (c : DialerCache) → IsValid c → IsValid (perform_all p ops c)
      go [] c v = v
      go (o ∷ ops) c v = go ops (perform p o c) (perform-IsValid o c v)

-- A task that decided to evict a dialer, and whose comparison and deletion nothing comes between, takes
-- the dialer and the access time of its own key out of the cache if the cache still holds the dialer
-- that it captured, and nothing else; it closes that dialer, if it can be closed, and no other; and
-- the cache stays as open as it was.
pub lookup-evict_one :
    (p : Probe) (key : Bytes) (d : ℕ) (c : DialerCache) (j : Bytes)
    → let c' = evict_one p key d true [] [] c in
      let gone = same key j && held_by d (lookup key c.dialers) in
      (lookup j c'.dialers ≡ (if gone then none else lookup j c.dialers))
      × (lookup j c'.atime ≡ (if gone then none else lookup j c.atime))
      × (c'.shut ≡ (if p.closes d then c.shut ++ d ∷ [] else c.shut))
      × (c'.is_closed ≡ c.is_closed)
unfolding evict_one shut_one act_all
lookup-evict_one p key d c j =
    ground (arith, lookup-erase key j c.dialers, lookup-erase key j c.atime)

-- A dialer that is stored between the comparison and the deletion of a task is taken out of the cache
-- too, and is not closed.
pub evict_one-loses :
    (p : Probe) (key : Bytes) (d new now : ℕ) (c : DialerCache)
    → lookup key c.dialers ≡ some d
    → let c' = evict_one p key d true [] (stores key now new ∷ []) c in
      (lookup key c'.dialers ≡ none) × (c'.shut ≡ (if p.closes d then c.shut ++ d ∷ [] else c.shut))
unfolding evict_one shut_one act_all act
evict_one-loses p key d new now c h =
    ground (arith, same_self key, lookup-erase key key (insert key new c.dialers))

-- A call of Dial that has found a dialer, which is evicted before the access time is written, leaves an
-- access time without a dialer.
pub dial-leaves_time :
    (p : Probe) (key : Bytes) (now d : ℕ) (c : DialerCache)
    → c.is_closed ≡ false
    → lookup key c.dialers ≡ some d
    → p.signaling_closed d ≡ false
    → let c' = (dial p key now none (record nobody { before_touch = forgets key ∷ [] }) c).0 in
      (lookup key c'.dialers ≡ none) × (lookup key c'.atime ≡ some now)
unfolding dial on_found act_all act
dial-leaves_time p key now d c o h s = ground (
  arith,
  same_self key,
  lookup-erase key key c.dialers,
  lookup-insert key key now (erase key c.atime),
)

-- A task leaves a dialer alone exactly where the dialer still signals, answers a ping, and has open
-- connections or was used less than the time to live ago.
pub should_evict_iff :
    (p : Probe) (c : DialerCache) (key : Bytes) (d now t : ℕ)
    → lookup key c.atime ≡ some t
    → (should_evict p c key d now ≡ false) ↔ (
        (p.signaling_closed d ≡ false)
        × (p.pings d ≡ true)
        × ((p.is_idle d ≡ false) ⊎ (now - t < c.ttl)))
unfolding should_evict
should_evict_iff p c key d now t h = ground arith

dial_stores :
    (p : Probe) (key : Bytes) (now d : ℕ) (c : DialerCache)
    → c.is_closed ≡ false
    → (dial p key now (some d) nobody c).1 ≡ dialer d false
    → (lookup key (dial p key now (some d) nobody c).0.dialers ≡ some d)
      × ((dial p key now (some d) nobody c).0.is_closed ≡ false)
unfolding dial on_found redial act_all
dial_stores p key now d c is_open fresh =
    ground (arith, same_self key, lookup-insert key key d c.dialers)

dial_hits :
    (p : Probe) (key : Bytes) (later d : ℕ) (again : Option ℕ) (o : Others) (c : DialerCache)
    → c.is_closed ≡ false
    → lookup key c.dialers ≡ some d
    → p.signaling_closed d ≡ false
    → (dial p key later again o c).1 ≡ dialer d true
unfolding dial on_found
dial_hits p key later d again o c is_open found signals = ground arith

-- A key that was dialed is found again at the next call, with the same dialer and no second dial, as
-- long as the dialer signals and the cache is open.
pub dial-dial :
    (p : Probe) (key : Bytes) (now later d : ℕ) (again : Option ℕ) (o : Others) (c : DialerCache)
    → c.is_closed ≡ false
    → (dial p key now (some d) nobody c).1 ≡ dialer d false
    → p.signaling_closed d ≡ false
    → (dial p key later again o (dial p key now (some d) nobody c).0).1 ≡ dialer d true
dial-dial p key now later d again o c is_open fresh signals =
    let (found, still_open) = dial_stores p key now d c is_open fresh in
    dial_hits p key later d again o _ still_open found signals

close_all_sound :
    (p : Probe) (m : Dict ℕ)
    → (close_all p m).1 ≡ true
    → ((close_all p m).0 ≡ values m) × All (λ d. p.closes d ≡ true) (values m)
unfolding close_all
close_all_sound p [] h = (refl, tt)
close_all_sound p ((key, d) ∷ m) h = elim (Bool-cases (p.closes d)) [
  | inl e ↦ let (q, a) = close_all_sound p m (rw e at h) in (rw (e, q) refl, (e, a))
  | inr e ↦ absurd (no_way (rw e at h))
]
  where
    no_way : false ≡ true → ⊥
    no_way q = cc

-- A closed cache stays closed.
module _ (p : Probe) where
  act-closed : (a : Action) (c : DialerCache) → c.is_closed ≡ true → (act p a c).is_closed ≡ true
  unfolding act close shut_one
  act-closed (touches key now) c h = h
  act-closed (stores key now d) c h = h
  act-closed (forgets key) c h = h
  act-closed (shuts d) c h = ground arith
  act-closed closes_cache c h = ground arith

  act_all-closed :
      (acts : List Action) (c : DialerCache)
      → c.is_closed ≡ true
      → (act_all p acts c).is_closed ≡ true
  unfolding act_all
  act_all-closed [] c h = h
  act_all-closed (a ∷ acts) c h = act_all-closed acts (act p a c) (act-closed a c h)

  perform-closed :
      (o : Op) (c : DialerCache) → c.is_closed ≡ true → (perform p o c).is_closed ≡ true
  unfolding perform dial evict_one act
  perform-closed (dials key now dialed o) c h =
      let found = on_found p key now dialed o c (lookup key c.dialers) in
      ap (λ b. (if b then (c, cache_closed) else found).0.is_closed) h ∙ h
  perform-closed (evicts key d false before between) c h = h
  perform-closed (evicts key d true before between) c h =
      let c' = act_all p before (shut_one p d c) in
      let h' = act_all-closed before (shut_one p d c) (act-closed (shuts d) c h) in
      let k = act_all-closed between c' h' in
      elim (Option-cases (lookup key c'.dialers)) [
        | inl e ↦ rw (evict_one, e) h'
        | inr (current, e) ↦ elim (Bool-cases (current == d)) [
          | inl q ↦ rw (evict_one, e, q) k
          | inr q ↦ rw (evict_one, e, q) h'
        ]
      ]
  perform-closed closes_all c h = act-closed closes_cache c h

  perform_all-closed :
      (ops : List Op) (c : DialerCache)
      → c.is_closed ≡ true
      → (perform_all p ops c).is_closed ≡ true
  unfolding perform_all
  perform_all-closed [] c h = h
  perform_all-closed (o ∷ ops) c h = perform_all-closed ops (perform p o c) (perform-closed o c h)

close-closed :
    (p : Probe) (c : DialerCache) → (close p c).1 ≡ closed_ok → (close p c).0.is_closed ≡ true
unfolding close
close-closed p c h = ground arith

close-values :
    (p : Probe) (c : DialerCache)
    → (close p c).1 ≡ closed_ok
    → ((close p c).0.shut ≡ c.shut ++ values c.dialers)
      × All (λ d. p.closes d ≡ true) (values c.dialers)
unfolding close
close-values p c h = elim (Bool-cases ((close_all p c.dialers).1)) [
  | inl e ↦ let (q, a) = close_all_sound p c.dialers e in (ground arith, a)
  | inr e ↦ absurd (failed (rw (close, e) at h))
]
  where
    failed : close_err ≡ closed_ok → ⊥
    failed q = cc

-- Close reports success only if the Close of every cached dialer has succeeded, and then the cache is
-- closed: every later call of Dial is refused, whatever is done to the cache before it.
pub close_sound :
    (p : Probe) (c : DialerCache) (ops : List Op) (key : Bytes) (now : ℕ) (dialed : Option ℕ)
    (o : Others)
    → (close p c).1 ≡ closed_ok
    → ((close p c).0.shut ≡ c.shut ++ values c.dialers)
      × All (λ d. p.closes d ≡ true) (values c.dialers)
      × ((dial p key now dialed o (perform_all p ops (close p c).0)).1 ≡ cache_closed)
unfolding dial
close_sound p c ops key now dialed o h =
    let (q, a) = close-values p c h in
    (q, a, rw (dial, perform_all-closed p ops (close p c).0 (close-closed p c h)) refl)
