-- ===== src/Wsnet/Dial/Laws.antt =====
-- What is sent before the negotiation, and when a ping succeeds.
use mathlib.Core.Path.{ap₂}
use coder_cli.Prelude.{
  ◌≡◌, refl, ap, ◌↔◌, ◌⊎◌, inl, inr, true, Option, none, some, [], ◌∷◌, ◌++◌, map, arith,
  Bool-cases,
}
use coder_cli.Prelude.Texts.{Bytes}
use coder_cli.Wsnet.Ice.Laws.{candidates_of, gather-between}
use coder_cli.Wsnet.Dial.{
  DialOptions, DialEnv, DialErr, peer_err, offer_message, candidate_message, Prepared, offer_of,
  send_offer, sent_early, with_offer, dial, connecting, opened, wait_for_data_channel_open, PingEnv,
  ping,
}

-- What the broker has been sent by then: nothing, or the offer with the servers and the proxy of the
-- options, and then every candidate once, in the order in which it was found.
abbrev pub SentInOrder : DialEnv → DialOptions → Prepared → Type 0
SentInOrder env options p =
    ((e : DialErr) × (p.error ≡ some e) × (p.sent ≡ []))
    ⊎ ((offer : Bytes) × (env.makes_offer ≡ some offer)
        × (env.writes ≡ true)
        × (p.error ≡ none)
        × (p.sent
            ≡ offer_message (offer_of options offer)
              ∷ map candidate_message (
                  candidates_of env.early
                  ++ (candidates_of env.between ++ candidates_of env.late))))

send_offer-sent :
    (env : DialEnv) (options : DialOptions) (offer : Bytes)
    → (send_offer env options offer).sent
      ≡ offer_message (offer_of options offer)
        ∷ map candidate_message
            (candidates_of env.early ++ (candidates_of env.between ++ candidates_of env.late))
send_offer-sent env options offer =
    let (e, f) = gather-between env.early env.between env.late in
    ap₂
      (λ a b.
        map candidate_message a ++ offer_message (offer_of options offer) ∷ map candidate_message b)
      e f

no_early : (env : DialEnv) → sent_early env ≡ []
no_early env = ap (map candidate_message) (gather-between env.early [] []).0

with_offer-SentInOrder :
    (env : DialEnv) (options : DialOptions) (o : Option Bytes)
    → env.makes_offer ≡ o
    → SentInOrder env options (with_offer env options o)
unfolding with_offer
with_offer-SentInOrder env options none h = inl (DialErr.offer_err, refl, no_early env)
with_offer-SentInOrder env options (some offer) h = elim (Bool-cases env.sets_local) [
  | inr a ↦ rw (with_offer, a) (inl (DialErr.local_err, refl, no_early env))
  | inl a ↦ elim (Bool-cases env.marshals) [
    | inr b ↦ rw (with_offer, a, b) (inl (DialErr.marshal_err, refl, no_early env))
    | inl b ↦ elim (Bool-cases env.writes) [
      | inr c ↦ rw (with_offer, a, b, c) (inl (DialErr.write_err, refl, no_early env))
      | inl c ↦
          rw (with_offer, a, b, c) (inr (offer, h, refl, refl, send_offer-sent env options offer))
    ]
  ]
]

-- Either Dial fails before the negotiation and has sent the broker nothing, or the offer could be
-- written, and it has sent the offer and then every candidate that is found before the offer, while it
-- is written and after the queue is flushed, once and in order.
pub dial-SentInOrder :
    (env : DialEnv) (options : DialOptions) → SentInOrder env options (dial env options)
unfolding dial
dial-SentInOrder env options = elim (Bool-cases env.makes_peer) [
  | inr a ↦ rw (dial, a) (inl (peer_err, refl, refl))
  | inl a ↦ elim (Bool-cases env.makes_control) [
    | inr b ↦ rw (dial, a, b) (inl (DialErr.control_err, refl, no_early env))
    | inl b ↦ rw (dial, a, b) (with_offer-SentInOrder env options env.makes_offer refl)
  ]
]

-- A ping succeeds if and only if the channel is open, or opens in time, can be detached, or is, and both
-- the write and the read succeed.
pub ping_iff :
    (env : PingEnv)
    → (ping env ≡ none) ↔ (
        ((env.state ≡ opened) ⊎ ((env.state ≡ connecting) × (env.opens ≡ true)))
        × ((env.detached ≡ true) ⊎ (env.detaches ≡ true))
        × (env.writes ≡ true)
        × (env.reads ≡ some true))
unfolding ping wait_for_data_channel_open
ping_iff env = ground arith
