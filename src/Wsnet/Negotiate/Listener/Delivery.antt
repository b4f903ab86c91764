-- ===== src/Wsnet/Negotiate/Listener/Delivery.antt =====
-- A handshake that nothing hinders: candidates, an offer, and more candidates (wsnet/listen.go).
use coder_cli.Prelude.{
  ℕ, ◌≡◌, ap, ◌∙◌, true, false, none, some, List, [], ◌∷◌, ◌++◌, map, append-nil, append_assoc,
  arith,
}
use coder_cli.Prelude.Texts.{Bytes, Bytes-discrete}
use coder_cli.Wsnet.Ice.{IceServer}
use coder_cli.Wsnet.Negotiate.{Decode, message, set_remote}
use coder_cli.Wsnet.Negotiate.Dialer.Delivery.{offers, as_message, Accepts, add_all-append}
use coder_cli.Wsnet.Negotiate.Listener.{
  waiting, answer_message, Env, Session, validates, add_pending_all, send_answer, connect, on_offer,
  maybe_offer, on_candidate, on_decode, run,
}
use coder_cli.Wsnet.Negotiate.Listener.Laws.{start}

-- A candidate, which is not the empty text.
abbrev pub Candidate : Type 0
Candidate = ℕ × Bytes

abbrev pub text : Candidate → Bytes
text (b, bs) = b ∷ bs

abbrev pub offered : Candidate → Decode
offered (b, bs) = as_message (offers b bs)

abbrev pub offer_message : Bytes → List IceServer → Bytes → Decode
offer_message d servers url = message (record {
  offer = some d;
  servers = some servers;
  turn_proxy_url = url;
  policies = [];
  error = [];
  answer = none;
  candidate = [];
})

-- Nothing fails for this offer, and the library's answer is `a`.
pub record Willing (env : Env) (d : Bytes) (servers : List IceServer) (url a : Bytes) : Type 0 where
  pub accepts : Accepts env.lib
  pub valid : validates env servers ≡ true
  pub parses : env.parses_url url ≡ true
  pub peers : env.makes_peer servers ≡ true
  pub answers : env.create_answer d ≡ some a
  pub local : env.set_local a ≡ true
  pub marshal : env.marshals ≡ true
  pub write : env.writes ≡ true

module _ (env : Env) (d : Bytes) (servers : List IceServer) (url a : Bytes)
    (ok : Willing env d servers url a) where
  abbrev before : List Bytes → Session
  before pending = record start { pending = pending }

  abbrev pub after : List Bytes → Session
  after added = record {
    rtc = some (record { remote = some d; added = added });
    pending = [];
    sent = answer_message a ∷ [];
    flushed = true;
    conn_closed = false;
    dropped = false;
    replaced = [];
    closers = 1;
    status = waiting;
  }

  offer_step :
      (pending : List Bytes)
      → on_decode env (offer_message d servers url) (before pending) ≡ after pending
  unfolding on_decode maybe_offer on_offer connect send_answer add_pending_all set_remote
      Bytes-discrete
  offer_step pending = ground (
    arith,
    ok.valid,
    ok.parses,
    ok.peers,
    ok.answers,
    ok.local,
    ok.marshal,
    ok.write,
    ok.accepts.description d,
    add_all-append env.lib ok.accepts pending (some d) [],
  )

  run-before :
      (cs : List Candidate) (pending : List Bytes) (ms : List Decode)
      → run env (map offered cs ++ ms) (before pending)
        ≡ run env ms (before (pending ++ map text cs))
  unfolding run on_decode on_candidate Bytes-discrete
  run-before [] pending ms = rw append-nil
  run-before (c ∷ cs) pending ms =
      run-before cs (pending ++ text c ∷ []) ms
      ∙ ap (λ t. run env ms (before t)) (append_assoc pending (text c ∷ []) (map text cs))

  run-after :
      (cs : List Candidate) (added : List Bytes)
      → run env (map offered cs) (after added) ≡ after (added ++ map text cs)
  unfolding run on_decode on_candidate maybe_offer Bytes-discrete
  run-after [] added = rw append-nil
  run-after (c ∷ cs) added = rw (ok.accepts.candidate (text c)) (
      run-after cs (added ++ text c ∷ [])
      ∙ ap after (append_assoc added (text c ∷ []) (map text cs)))

  -- Where nothing fails, one answer is sent for an offer, and every candidate, whether it came before
  -- the offer or after it, is handed to the peer connection once and in the order of arrival.
  pub run-offer :
      (early late : List Candidate)
      → run env (map offered early ++ offer_message d servers url ∷ map offered late) start
        ≡ after (map text early ++ map text late)
  unfolding run
  run-offer early late =
      run-before early [] (offer_message d servers url ∷ map offered late)
      ∙ (ap (run env (map offered late)) (offer_step (map text early))
          ∙ run-after late (map text early))
