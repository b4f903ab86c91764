-- ===== src/Wsnet/Negotiate/Dialer/Delivery.antt =====
-- The messages that a willing listener sends, in any order, and what the dialer makes of them
-- (wsnet/dial.go).
use coder_cli.Prelude.{
  ℕ, ◌≡◌, refl, ap, ◌∙◌, Bool, true, false, Option, none, some, List, [], ◌∷◌, ◌++◌, map,
  append-nil, append_assoc, if◌then◌else◌, arith,
}
use coder_cli.Prelude.Texts.{Bytes, Bytes-discrete}
use coder_cli.Wsnet.Negotiate.{Decode, message, eof, Library, add_all}
use coder_cli.Wsnet.Negotiate.Dialer.{
  is_waiting, waiting, ended, Loop, on_candidate, on_answer, on_message, on_decode, run,
}
use coder_cli.Wsnet.Negotiate.Dialer.Laws.{start}

-- A candidate, which is not the empty text, or an answer.
pub data Signal : Type 0 where
  offers : ℕ → Bytes → Signal
  answers : Bytes → Signal

abbrev pub as_message : Signal → Decode
as_message (offers b bs) = message (record {
  offer = none;
  servers = none;
  turn_proxy_url = [];
  policies = [];
  error = [];
  answer = none;
  candidate = b ∷ bs;
})
as_message (answers d) = message (record {
  offer = none;
  servers = none;
  turn_proxy_url = [];
  policies = [];
  error = [];
  answer = some d;
  candidate = [];
})

abbrev pub candidates : List Signal → List Bytes
candidates [] = []
candidates (offers b bs ∷ ss) = (b ∷ bs) ∷ candidates ss
candidates (answers d ∷ ss) = candidates ss

abbrev pub has_answer : List Signal → Bool
has_answer [] = false
has_answer (offers b bs ∷ ss) = has_answer ss
has_answer (answers d ∷ ss) = true

-- The library accepts every candidate and every description.
pub record Accepts (lib : Library) : Type 0 where
  pub candidate : (c : Bytes) → lib.accepts_candidate c ≡ true
  pub description : (d : Bytes) → lib.accepts_description d ≡ true

run_stopped :
    (lib : Library) (ms : List Decode) (l : Loop) → is_waiting l.status ≡ false → run lib ms l ≡ l
unfolding run
run_stopped lib [] l h = refl
run_stopped lib (m ∷ ms) l h = ground arith

module _ (lib : Library) (acc : Accepts lib) where
  pub add_all-append :
      (cs : List Bytes) (remote : Option Bytes) (added : List Bytes)
      → add_all lib cs (record { remote = remote; added = added })
        ≡ (true, record { remote = remote; added = added ++ cs })
  unfolding add_all
  add_all-append [] remote added = rw append-nil
  add_all-append (c ∷ cs) remote added =
      rw (acc.candidate c, add_all)
        (add_all-append cs remote (added ++ c ∷ [])
          ∙ ap (λ t. (true, record { remote = remote; added = t }))
              (append_assoc added (c ∷ []) cs))

  abbrev loop : Option Bytes → List Bytes → List Bytes → Loop
  loop remote added pending = record {
    rtc = record { remote = remote; added = added };
    pending = pending;
    status = waiting;
  }

  answered :
      (d : Bytes) (remote : Option Bytes) (added pending : List Bytes)
      → on_decode lib (as_message (answers d)) (loop remote added pending)
        ≡ loop (some d) (added ++ pending) []
  unfolding on_decode on_message on_answer Bytes-discrete
  answered d remote added pending =
      ground (arith, acc.description d, add_all-append pending (some d) added)

  offered_late :
      (b : ℕ) (bs d : Bytes) (added pending : List Bytes)
      → on_decode lib (as_message (offers b bs)) (loop (some d) added pending)
        ≡ loop (some d) (added ++ (b ∷ bs) ∷ []) pending
  unfolding on_decode on_message on_candidate Bytes-discrete
  offered_late b bs d added pending = ground (arith, acc.candidate (b ∷ bs))

  offered_early :
      (b : ℕ) (bs : Bytes) (added pending : List Bytes)
      → on_decode lib (as_message (offers b bs)) (loop none added pending)
        ≡ loop none added (pending ++ (b ∷ bs) ∷ [])
  unfolding on_decode on_message on_candidate Bytes-discrete
  offered_early b bs added pending = refl

  abbrev Ends : Loop → List Bytes → List Bytes → Type 0
  Ends l added pending = (l.status ≡ ended) × (l.rtc.added ≡ added) × (l.pending ≡ pending)

  after_answer :
      (ss : List Signal) (rest : List Decode) (d : Bytes) (added : List Bytes)
      → Ends
          (run lib (map as_message ss ++ eof ∷ rest) (loop (some d) added []))
          (added ++ candidates ss)
          []
  unfolding run on_decode
  after_answer [] rest d added =
      rw
        (run_stopped lib rest (record (loop (some d) added []) { status = ended }) refl, append-nil)
        (refl, refl, refl)
  after_answer (offers b bs ∷ ss) rest d added =
      rw (offered_late b bs d added [], ← append_assoc added ((b ∷ bs) ∷ []) (candidates ss))
        (after_answer ss rest d (added ++ (b ∷ bs) ∷ []))
  after_answer (answers d' ∷ ss) rest d added =
      rw (answered d' (some d) added [], append-nil) (after_answer ss rest d' added)

  before_answer :
      (ss : List Signal) (rest : List Decode) (pending : List Bytes)
      → Ends
          (run lib (map as_message ss ++ eof ∷ rest) (loop none [] pending))
          (if has_answer ss then pending ++ candidates ss else [])
          (if has_answer ss then [] else pending ++ candidates ss)
  unfolding run on_decode
  before_answer [] rest pending =
      rw (run_stopped lib rest (record (loop none [] pending) { status = ended }) refl, append-nil)
        (refl, refl, refl)
  before_answer (offers b bs ∷ ss) rest pending =
      rw (offered_early b bs [] pending, ← append_assoc pending ((b ∷ bs) ∷ []) (candidates ss))
        (before_answer ss rest (pending ++ (b ∷ bs) ∷ []))
  before_answer (answers d ∷ ss) rest pending =
      rw (answered d none [] pending) (after_answer ss rest d pending)

  -- With a library that accepts them, every candidate that arrives before the connection ends is
  -- handed to it once, in the order of arrival, also those that came before the answer. Where no
  -- answer came they are all still in the buffer.
  pub run-candidates :
      (ss : List Signal) (rest : List Decode)
      → let l = run lib (map as_message ss ++ eof ∷ rest) start in
        (l.status ≡ ended)
        × (l.rtc.added ≡ (if has_answer ss then candidates ss else []))
        × (l.pending ≡ (if has_answer ss then [] else candidates ss))
  run-candidates ss rest = before_answer ss rest []
