-- ===== src/Wsnet/Conn/Laws.antt =====
-- The buffering of a data channel (wsnet/conn.go).
use coder_cli.Prelude.{
  ℕ, ◌+◌, ◌<◌, ◌≤◌, ◌≡◌, refl, ◌↔◌, true, false, Option, none, some, inl, inr, Option-cases, List,
  [], ◌∷◌, ◌++◌, arith, All, All-append,
}
use coder_cli.Wsnet.Conn.{
  Conn, new_conn, init, close, resume, resumes, max_message_length, max_buffered_amount, too_large,
  blocks, write, Event, low, shuts, writes, react, react_all,
}

-- The length of the message that waits, if there is one.
abbrev waiting_length : Option ℕ → ℕ
waiting_length none = 0
waiting_length (some n) = n

pub record IsGood (c : Conn) : Type 0 where
  pub is_ready : c.ready ≡ true
  pub fits : waiting_length c.waiting ≤ max_message_length
  pub one_token : c.token ≤ 1
  pub agrees : c.closed ≡ c.chan_closed
  pub no_faults : c.faults ≡ 0
  pub small : All (λ n. n ≤ max_message_length) c.written

write-IsGood : (buffered n : ℕ) (c : Conn) → IsGood c → IsGood (write buffered n c).0
unfolding write
write-IsGood buffered n c g =
    let fits : (n ≤ max_message_length) → All (λ m. m ≤ max_message_length) (c.written ++ n ∷ []) =
      λ h. All-append _ c.written (n ∷ []) g.small (h, tt) in
    ground arith

resume-IsGood : (c : Conn) → IsGood c → IsGood (resume c)
unfolding resume
resume-IsGood c g = elim (Option-cases (c.waiting)) [
  | inl e ↦ rw (resume, e) g
  | inr (n, e) ↦
      let small : n ≤ max_message_length = rw e at g.fits in
      let fits : All (λ m. m ≤ max_message_length) (c.written ++ n ∷ []) =
        All-append _ c.written (n ∷ []) g.small (small, tt) in
      ground arith
]

react-IsGood : (e : Event) (c : Conn) → IsGood c → IsGood (react e c)
unfolding react
react-IsGood low c g = ground arith
react-IsGood shuts c g = ground arith
react-IsGood resumes c g = resume-IsGood c g
react-IsGood (writes buffered n) c g = write-IsGood buffered n c g

-- Once a connection is initialised, whatever writes, waits, notices of a low buffer and closes follow one
-- another: the channel that wakes a writer holds one token at most, it is neither closed twice nor sent
-- to when it is closed, and no message longer than 32 KB is sent or waits to be sent.
pub react_all-IsGood : (es : List Event) → IsGood (react_all es (init new_conn))
unfolding react_all init
react_all-IsGood es = go es (init new_conn) (ground arith)
  where
    go : (es : List Event) (c : Conn) → IsGood c → IsGood (react_all es c)
    go [] c g = g
    go (e ∷ es) c g = go es (react e c) (react-IsGood e c g)

-- A Close before `init` closes a nil channel, which panics.
pub close-faults : (close new_conn).faults ≡ 1
unfolding close
close-faults = refl

-- While no other Write waits, a message is refused exactly where it is longer than 32 KB, and a write waits exactly where it
-- would fill the buffer of 1 MB, no token is there and the connection is open. Otherwise it is sent.
pub write_iff :
    (buffered n : ℕ) (c : Conn)
    → c.waiting ≡ none
    → (((write buffered n c).1 ≡ too_large) ↔ (max_message_length < n))
      × (((write buffered n c).1 ≡ blocks) ↔ (
          (n ≤ max_message_length)
          × (max_buffered_amount ≤ buffered + n)
          × (c.token ≡ 0)
          × (c.chan_closed ≡ false)))
unfolding write
write_iff buffered n c h = ground arith
