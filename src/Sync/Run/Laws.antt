-- ===== src/Sync/Run/Laws.antt =====
-- No event is lost unnoticed (internal/sync/sync.go).
use coder_cli.Prelude.{
  ℕ, ◌-◌, ◌≡◌, refl, sym, ◌∙◌, ap, inl, inr, true, List, [], ◌∷◌, ◌++◌, append-nil, append_assoc,
  ltb, length, arith, Bool-cases,
}
use coder_cli.Sync.EventCache.{TimedEvent}
use coder_cli.Sync.Run.{
  Input, reported, taken, tick, is_running, Loop, new_loop, max_inflight_inotify, max_event_delay,
  on_reported, receive, dispatch, step, run,
}

-- Groups that were worked on, one after the other.
abbrev pub joined : List (List TimedEvent) → List TimedEvent
joined [] = []
joined (g ∷ gs) = g ++ joined gs

-- The events that the library reported before the loop returned.
abbrev pub reports : List Input → List TimedEvent
reports [] = []
reports (reported ev ∷ is) = ev ∷ reports is
reports (taken ∷ is) = reports is
reports (tick now ∷ is) = reports is

-- All events that the loop has or had.
abbrev pub held : Loop → List TimedEvent
held l = joined l.dispatched ++ (l.event_group ++ l.timed_events)

joined-append :
    (gs : List (List TimedEvent)) (g : List TimedEvent) → joined (gs ++ g ∷ []) ≡ joined gs ++ g
joined-append [] g = append-nil g
joined-append (h ∷ gs) g =
    ap (λ t. h ++ t) (joined-append gs g) ∙ sym (append_assoc h (joined gs) g)

-- The next step keeps every event, if the loop goes on and nothing was dropped.
abbrev Kept : Loop → List TimedEvent → Loop → Type 0
Kept l more l' =
    is_running l'.status ≡ true
    → l'.dropped_events ≡ 0
    → (l.dropped_events ≡ 0) × (held l' ≡ held l ++ more)

on_reported-Kept : (ev : TimedEvent) (l : Loop) → Kept l (ev ∷ []) (on_reported ev l)
unfolding on_reported
on_reported-Kept ev l = elim (Bool-cases (ltb (length l.timed_events) max_inflight_inotify)) [
  | inl fits ↦ rw fits (λ r d. (d, simp append_assoc))
  | inr full ↦ rw full (λ r d. absurd (omega arith))
]

receive-Kept : (evs : List TimedEvent) (l : Loop) → l.timed_events ≡ evs → Kept l [] (receive evs l)
unfolding receive
receive-Kept [] l e r d = (d, sym (append-nil _))
receive-Kept (ev ∷ evs) l e r d = elim (Bool-cases (ltb 0 l.dropped_events)) [
  | inl lost ↦ absurd (ground arith)
  | inr none_lost ↦ (ground arith, simp (none_lost, e, append-nil, append_assoc))
]

dispatch-Kept :
    (now : ℕ) (evs : List TimedEvent) (l : Loop)
    → l.event_group ≡ evs
    → Kept l [] (dispatch now evs l)
unfolding dispatch
dispatch-Kept now [] l e r d = (d, sym (append-nil _))
dispatch-Kept now (ev ∷ evs) l e r d =
    elim (Bool-cases (ltb max_event_delay (now - ev.created_at))) [
      | inl late ↦ absurd (ground arith)
      | inr timely ↦ (ground arith, simp (timely, e, joined-append, append-nil, append_assoc))
    ]

step-Kept : (i : Input) (l : Loop) → Kept l (reports (i ∷ [])) (step i l)
unfolding step
step-Kept (reported ev) l = on_reported-Kept ev l
step-Kept taken l = receive-Kept l.timed_events l refl
step-Kept (tick now) l = dispatch-Kept now l.event_group l refl

reports-cons : (i : Input) (is : List Input) → reports (i ∷ is) ≡ reports (i ∷ []) ++ reports is
reports-cons (reported ev) is = refl
reports-cons taken is = refl
reports-cons (tick now) is = refl

run-Kept :
    (is : List Input) (l : Loop)
    → is_running (run is l).status ≡ true
    → (run is l).dropped_events ≡ 0
    → (is_running l.status ≡ true)
      × (l.dropped_events ≡ 0)
      × (held (run is l) ≡ held l ++ reports is)
unfolding run
run-Kept [] l = λ r d. (r, d, sym (append-nil _))
run-Kept (i ∷ is) l = elim (Bool-cases (is_running l.status)) [
  | inl on ↦
      rw (on, run)
        (λ r d.
          let (on', none_lost, same_events) = run-Kept is (step i l) r d in
          let (none_lost', step_events) = step-Kept i l on' none_lost in
          (refl, none_lost', rw (same_events, step_events, reports-cons i is, append_assoc)))
  | inr off ↦ rw (off, run) (λ r d. absurd (cc))
]

-- As long as the sync runs and has dropped nothing, the groups that were worked on, the group that
-- is being collected and the channel hold together every event that was reported, once and in order.
pub run-held :
    (is : List Input)
    → is_running (run is new_loop).status ≡ true
    → (run is new_loop).dropped_events ≡ 0
    → held (run is new_loop) ≡ reports is
run-held is r d = (run-Kept is new_loop r d).2
