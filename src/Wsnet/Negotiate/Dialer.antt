-- ===== src/Wsnet/Negotiate/Dialer.antt =====
-- Dialer.negotiate (wsnet/dial.go): the loop that reads the listener's messages.
--
-- `run` takes the messages that arrive. `waiting` means that the loop is still reading; `ended` that
-- the broker closed the connection, after which the loop returns what the goroutine of
-- waitForConnectionOpen reports.
pub mod Laws
pub mod Delivery
use coder_cli.Prelude.{
  ℕ, Bool, true, false, not, Option, none, some, List, [], ◌∷◌, ◌++◌, if◌then◌else◌,
}
use coder_cli.Prelude.Texts.{Bytes, same}
use coder_cli.Wsnet.Negotiate.{
  BrokerMessage, Decode, message, eof, broken, Library, Rtc, add_candidate, add_all, set_remote,
}

pub data NegotiateError : Type 0 where
  read unhandled set_answer : NegotiateError
  accept_candidate accept_pending : NegotiateError
  from_peer : Bytes → NegotiateError

pub data Status : Type 0 where
  waiting ended : Status
  failed : NegotiateError → Status

abbrev pub is_waiting : Status → Bool
is_waiting waiting = true
is_waiting _ = false

-- The variables of the loop.
pub record Loop : Type 0 where
  pub rtc : Rtc
  pub pending : List Bytes
  pub status : Status

module _ (lib : Library) where
  -- `msg.Candidate != ""`
  on_candidate : Bytes → Loop → Loop
  unfolding add_candidate
  on_candidate c l = elim (l.rtc.remote) [
    | none ↦ record l { pending = l.pending ++ c ∷ [] }
    | some d ↦
        let (accepted, rtc) = add_candidate lib c l.rtc in
        if accepted then record l { rtc = rtc } else record l { status = failed accept_candidate }
  ]

  -- `msg.Answer != nil`
  on_answer : Bytes → Loop → Loop
  unfolding set_remote add_all
  on_answer d l =
      let (accepted, rtc) = set_remote lib d l.rtc in
      if not accepted
      then record l { status = failed set_answer }
      else (let (all_added, rtc') = add_all lib l.pending rtc in
          if all_added
          then record l { rtc = rtc'; pending = [] }
          else record l { rtc = rtc'; status = failed accept_pending })

  unfoldable pub on_message : BrokerMessage → Loop → Loop
  unfolding on_candidate on_answer
  on_message msg l =
      if not (same msg.candidate []) then on_candidate msg.candidate l else elim (msg.answer) [
        | some d ↦ on_answer d l
        | none ↦
            if not (same msg.error [])
            then record l { status = failed (from_peer msg.error) }
            else record l { status = failed unhandled }
      ]

  on_decode : Decode → Loop → Loop
  unfolding on_message
  on_decode (message msg) l = on_message msg l
  on_decode eof l = record l { status = ended }
  on_decode broken l = record l { status = failed read }

  -- The loop, which reads on as long as it is waiting.
  unfoldable pub run : List Decode → Loop → Loop
  unfolding on_decode
  run [] l = l
  run (m ∷ ms) l = elim (is_waiting l.status) [ true ↦ run ms (on_decode m l) | false ↦ l ]
