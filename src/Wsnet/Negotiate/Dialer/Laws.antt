-- ===== src/Wsnet/Negotiate/Dialer/Laws.antt =====
-- Candidates in the dialer's handshake (wsnet/dial.go).
use coder_cli.Prelude.{
  is_set, ◌≡◌, refl, ◌⊎◌, inl, inr, false, some, List, [], ◌∷◌, ◌++◌, arith, Bool-cases,
  Option-cases,
}
use coder_cli.Prelude.Texts.{Bytes, same}
use coder_cli.Wsnet.Negotiate.{
  BrokerMessage, Decode, message, eof, broken, Library, Rtc, new_rtc, add_all, IsOrdered,
}
use coder_cli.Wsnet.Negotiate.Dialer.{
  is_waiting, waiting, Loop, on_candidate, on_answer, on_message, on_decode, run,
}

abbrev pub start : Loop
start = record { rtc = new_rtc; pending = []; status = waiting }

-- Candidates are added behind a remote description only, and wait as long as there is none.
pub record IsGood (l : Loop) : Type 0 where
  pub ordered : IsOrdered l.rtc
  pub handed_over : (is_set l.rtc.remote ≡ false) ⊎ (l.pending ≡ []) ⊎ (is_waiting l.status ≡ false)

pub add_all-remote :
    (lib : Library) (cs : List Bytes) (rtc : Rtc) → (add_all lib cs rtc).1.remote ≡ rtc.remote
unfolding add_all
add_all-remote lib [] rtc = refl
add_all-remote lib (c ∷ cs) rtc =
    ground (arith, add_all-remote lib cs (record rtc { added = rtc.added ++ c ∷ [] }))

on_candidate-IsGood :
    (lib : Library) (c : Bytes) (l : Loop) → IsGood l → IsGood (on_candidate lib c l)
unfolding on_candidate
on_candidate-IsGood lib c l g = ground arith

on_answer-IsGood : (lib : Library) (d : Bytes) (l : Loop) → IsGood l → IsGood (on_answer lib d l)
unfolding on_answer
on_answer-IsGood lib d l g =
    ground (arith, add_all-remote lib l.pending (record (l.rtc) { remote = some d }))

on_message-IsGood :
    (lib : Library) (msg : BrokerMessage) (l : Loop) → IsGood l → IsGood (on_message lib msg l)
unfolding on_message
on_message-IsGood lib msg l g = elim (Bool-cases (same msg.candidate [])) [
  | inl e ↦ elim (Option-cases (msg.answer)) [
    | inl n ↦ ground arith
    | inr (d, a) ↦ ground (arith, on_answer-IsGood lib d l g)
  ]
  | inr e ↦ ground (arith, on_candidate-IsGood lib msg.candidate l g)
]

on_decode-IsGood : (lib : Library) (m : Decode) (l : Loop) → IsGood l → IsGood (on_decode lib m l)
unfolding on_decode
on_decode-IsGood lib (message msg) l g = on_message-IsGood lib msg l g
on_decode-IsGood lib eof l g = ground arith
on_decode-IsGood lib broken l g = ground arith

-- Whatever messages arrive and whatever the library refuses: no remote candidate is added before the
-- answer is applied, and while the loop runs on none stays behind in the buffer after that.
pub run-IsGood : (lib : Library) (ms : List Decode) → IsGood (run lib ms start)
unfolding run
run-IsGood lib ms = go ms start (ground arith)
  where
    go : (ms : List Decode) (l : Loop) → IsGood l → IsGood (run lib ms l)
    go [] l g = g
    go (m ∷ ms) l g = elim (Bool-cases (is_waiting l.status)) [
      | inl e ↦ rw (e, run) (go ms (on_decode lib m l) (on_decode-IsGood lib m l g))
      | inr e ↦ rw (e, run) g
    ]
