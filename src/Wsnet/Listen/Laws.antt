-- ===== src/Wsnet/Listen/Laws.antt =====
-- The sockets and the loop of a listener.
use coder_cli.Prelude.{
  ◌≡◌, refl, ap, ◌∙◌, ◌⊎◌, inl, inr, ℕ, zero, suc, Bool, true, false, some, List, [], ◌∷◌, ◌++◌,
  All, ◌==◌, arith, subst, Bool-cases,
}
use coder_cli.Prelude.Results.{Result, ok, err}
use coder_cli.Wsnet.Listen.{
  Line, connected, DialErr, is_context_err, Dialed, no_socket, no_session, session, ErrChannel,
  live, drained, nil_channel, Loop, reading, retrying, returned, Listener, new_listener, say,
  close_ws, set_ws, dial, listen, received, ticked, close, Step, session_ends, reads_closed, ticks,
  context_ends, closes, registers, Reach, here, next,
}

-- At most one socket to the broker is open, and it is the current one.
abbrev pub OneSocket : Listener → Type 0
OneSocket l = (l.open_ws ≡ []) ⊎ ((id : ℕ) × (l.ws ≡ some id) × (l.open_ws ≡ id ∷ []))

self_test : (id : ℕ) → (id == id) ≡ true
self_test id = ground arith

close_ws-nil : (l : Listener) → OneSocket l → (close_ws l).open_ws ≡ []
unfolding close_ws
close_ws-nil l (inl e) = ground arith
close_ws-nil l (inr (id, e, q)) = rw (e, q, self_test id) refl

close_ws-closed : (l : Listener) → (close_ws l).closed ≡ l.closed
unfolding close_ws
close_ws-closed l = ground arith

-- The socket of a dial is open, and the only one.
abbrev pub Connected : Listener → Type 0
Connected l = (id : ℕ) × (l.ws ≡ some id) × (l.open_ws ≡ id ∷ [])

set_ws-Connected : (l : Listener) → l.open_ws ≡ [] → Connected (set_ws l)
set_ws-Connected l e = (l.next_ws, refl, ap (λ t. l.next_ws ∷ t) e)

dial-OneSocket : (d : Dialed) (l : Listener) → OneSocket l → OneSocket (dial d l).1
unfolding dial
dial-OneSocket (no_socket e) l h = inl (close_ws-nil (say Line.connecting l) h)
dial-OneSocket no_session l h =
    inr
      (set_ws-Connected (close_ws (say Line.connecting l)) (close_ws-nil (say Line.connecting l) h))
dial-OneSocket session l h =
    inr
      (set_ws-Connected (close_ws (say Line.connecting l)) (close_ws-nil (say Line.connecting l) h))

ticked-OneSocket : (d : Dialed) (l : Listener) → OneSocket l → OneSocket (ticked d l).0
unfolding ticked dial
ticked-OneSocket (no_socket e) l h = elim (Bool-cases (is_context_err e)) [
  | inl c ↦ rw c (dial-OneSocket (no_socket e) l h)
  | inr c ↦ rw c (dial-OneSocket (no_socket e) l h)
]
ticked-OneSocket no_session l h = dial-OneSocket no_session l h
ticked-OneSocket session l h = dial-OneSocket session l h

close_first :
    (l : Listener)
    → l.closed ≡ false
    → close l ≡ (
      true,
      close_ws (record l { closed = true; closed_conns = l.conn_closers ++ l.closed_conns }),
    )
unfolding close
close_first l e = rw e refl

close_again : (l : Listener) → l.closed ≡ true → close l ≡ (false, l)
unfolding close
close_again l e = rw e refl

close_ws-conns : (l : Listener) → (close_ws l).closed_conns ≡ l.closed_conns
unfolding close_ws
close_ws-conns l = ground arith

close-closed : (l : Listener) → (close l).1.closed ≡ true
close-closed l = elim (Bool-cases l.closed) [
  | inl e ↦ rw (close_again l e) e
  | inr e ↦ rw (close_first l e) (close_ws-closed _)
]

close-OneSocket : (l : Listener) → OneSocket l → OneSocket (close l).1
close-OneSocket l h = elim (Bool-cases l.closed) [
  | inl e ↦ rw (close_again l e) h
  | inr e ↦ rw (close_first l e) (inl (close_ws-nil _ h))
]

received-OneSocket :
    (b : Bool) (ch : ErrChannel) (l : Listener) → OneSocket l → OneSocket (received b ch l).0
unfolding received
received-OneSocket true ch l h = elim (Bool-cases l.closed) [ inl e ↦ rw e h | inr e ↦ rw e h ]
received-OneSocket false ch l h = elim (Bool-cases l.closed) [ inl e ↦ rw e h | inr e ↦ rw e h ]

Step-OneSocket : {s t : Listener × Loop} → Step s t → OneSocket s.0 → OneSocket t.0
Step-OneSocket (session_ends l) h = received-OneSocket true drained l h
Step-OneSocket (reads_closed l) h = received-OneSocket false drained l h
Step-OneSocket (ticks d ch l) h = ticked-OneSocket d l h
Step-OneSocket (context_ends ch l) h = h
Step-OneSocket (closes p l) h = close-OneSocket l h
Step-OneSocket (registers c p l) h = h

abbrev state_of : Result DialErr (Listener × Loop) → Listener
state_of (ok s) = s.0
state_of (err e) = new_listener

listen-OneSocket : (d : Dialed) (s : Listener × Loop) → listen d ≡ ok s → OneSocket s.0
unfolding listen dial
listen-OneSocket (no_socket x) s e = absurd cc
listen-OneSocket no_session s e = absurd cc
listen-OneSocket session s e =
    subst OneSocket (ap state_of e) (dial-OneSocket session new_listener (inl refl))

-- However the loop, the negotiations and the calls of Close interleave, a listener that `listen` has
-- made never has more than one socket to the broker open, and that one is its current socket.
pub Reach-OneSocket :
    (d : Dialed) (s : Listener × Loop) {t : Listener × Loop}
    → listen d ≡ ok s
    → Reach s t
    → OneSocket t.0
Reach-OneSocket d s e here = listen-OneSocket d s e
Reach-OneSocket d s e (next r k) = Step-OneSocket k (Reach-OneSocket d s e r)

-- A dial that fails for a reason other than the context.
abbrev pub IsRetried : Dialed → Type 0
IsRetried (no_socket e) = is_context_err e ≡ false
IsRetried no_session = Unit
IsRetried session = ⊥

-- The inner loop over the ticks.
abbrev pub retry : List Dialed → Listener × Loop → Listener × Loop
retry [] s = s
retry (d ∷ ds) (l, retrying ch) = retry ds (ticked d l)
retry (d ∷ ds) (l, reading ch) = (l, reading ch)
retry (d ∷ ds) (l, returned) = (l, returned)

dial-closed : (d : Dialed) (l : Listener) → (dial d l).1.closed ≡ l.closed
unfolding dial
dial-closed (no_socket e) l = close_ws-closed _
dial-closed no_session l = close_ws-closed _
dial-closed session l = close_ws-closed _

ticked_failed :
    (d : Dialed) (l : Listener)
    → IsRetried d
    → ticked d l ≡ (say Line.dial_failed (dial d l).1, retrying nil_channel)
unfolding ticked dial
ticked_failed (no_socket e) l h = rw h refl
ticked_failed no_session l h = refl
ticked_failed session l h = absurd h

-- After any number of dials that fail for a reason other than the context, a dial that succeeds
-- leaves the listener reading from the new session, with the new socket as the only one open.
pub retry-Connected :
    (ds : List Dialed) (ch : ErrChannel) (l : Listener)
    → All IsRetried ds
    → OneSocket l
    → (l' : Listener) × (retry (ds ++ session ∷ []) (l, retrying ch) ≡ (l', reading live))
      × Connected l'
      × (l'.closed ≡ l.closed)
unfolding ticked dial
retry-Connected [] ch l hs h = (
  say connected (dial session l).1,
  refl,
  set_ws-Connected (close_ws (say Line.connecting l)) (close_ws-nil (say Line.connecting l) h),
  dial-closed session l,
)
retry-Connected (d ∷ ds) ch l (hd, hs) h =
    let (l', e, k, c) =
      retry-Connected ds nil_channel (say Line.dial_failed (dial d l).1) hs
        (dial-OneSocket d l h) in
    (l', ap (retry (ds ++ session ∷ [])) (ticked_failed d l hd) ∙ e, k, c ∙ dial-closed d l)

-- Close closes the socket and every registered connection, once: a second call is refused and changes
-- nothing.
pub close_once :
    (l : Listener)
    → OneSocket l
    → l.closed ≡ false
    → let l' = (close l).1 in
      (l'.open_ws ≡ [])
      × (l'.closed_conns ≡ l.conn_closers ++ l.closed_conns)
      × (close l' ≡ (false, l'))
close_once l h e = (
  rw (close_first l e) (close_ws-nil _ h),
  rw (close_first l e) (close_ws-conns _),
  close_again (close l).1 (close-closed l),
)

-- A close between two dials does not stop the dialling: the next dial that succeeds connects the
-- closed listener to the broker again.
pub ticked-close :
    (l : Listener)
    → OneSocket l
    → let t = ticked session (close l).1 in
      (t.1 ≡ reading live) × Connected t.0 × (t.0.closed ≡ true)
unfolding ticked dial
ticked-close l h = (
  refl,
  set_ws-Connected (close_ws (say Line.connecting (close l).1))
      (close_ws-nil (say Line.connecting (close l).1) (close-OneSocket l h)),
  close_ws-closed _ ∙ close-closed l,
)

-- Some lines that report a connection.
abbrev pub said : ℕ → Listener → Listener
said zero l = l
said (suc n) l = say connected (said n l)

said-closed : (n : ℕ) (l : Listener) → (said n l).closed ≡ l.closed
said-closed zero l = refl
said-closed (suc n) l = said-closed n l

-- When the context ends while a listener that is not closed waits to dial again, and no dial has failed
-- since its session was lost, its loop goes on to read the closed channel of that session, and reports
-- a connection any number of times.
pub context_done-Reach :
    (n : ℕ) (l : Listener)
    → l.closed ≡ false
    → Reach (l, retrying drained) (said (suc n) l, reading drained)
unfolding received
context_done-Reach zero l e = next here (context_ends drained l)
context_done-Reach (suc n) l e =
    subst (λ t. Reach (l, retrying drained) t) (spin (said (suc n) l) (said-closed n l ∙ e))
      (next (context_done-Reach n l e) (reads_closed (said (suc n) l)))
  where
    spin :
        (m : Listener)
        → m.closed ≡ false
        → received false drained m ≡ (say connected m, reading drained)
    spin m q = rw q refl
