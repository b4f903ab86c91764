-- ===== src/Wsnet/Proto/Laws.antt =====
-- What getAddress accepts (wsnet/proto.go).
use coder_cli.Prelude.{
  ℕ, ◌+◌, ◌-◌, ◌*◌, ◌<◌, ◌≡◌, refl, ◌≢◌, ◌↔◌, ◌⊎◌, inl, inr, Bool, true, false, ◌&&◌, none, some,
  List, [], ◌∷◌, ◌++◌, leb, any, In, arith, Bool-cases, Option-cases,
}
use coder_cli.Prelude.Texts.{
  Bytes, differs_iff, has_byte, cut_first, cut_first-append, cut_last-append,
}
use coder_cli.Prelude.Results.{ok, err}
use coder_cli.Wsnet.Proto.{
  Net, DialPolicy, errorf, policy_err, read_digits, parse_port, unsigned, split_host_port,
  join_host_port, canonicalize_host, permits, check_policies, check_port, check_host, get_address,
}

-- A policy applies where each of its fields that is set agrees with the address.
abbrev pub Permits : Net → DialPolicy → Bytes → Bytes → ℕ → Type 0
Permits net p network host port =
    ((p.network ≡ []) ⊎ (p.network ≡ network))
    × ((p.host ≡ []) ⊎ (canonicalize_host net p.host ≡ canonicalize_host net host))
    × ((p.port ≡ 0) ⊎ (p.port ≡ port))

abbrev pub Allowed : Net → List DialPolicy → Bytes → Bytes → ℕ → Type 0
Allowed net policies network host port =
    (policies ≡ []) ⊎ ((p : DialPolicy) × In p policies × Permits net p network host port)

permits_iff :
    (net : Net) (p : DialPolicy) (network host : Bytes) (port : ℕ)
    → (permits net p network (canonicalize_host net host) port ≡ true)
      ↔ Permits net p network host port
unfolding permits
permits_iff net p network host port = ground (
  arith,
  differs_iff p.network p.network network,
  differs_iff p.host (canonicalize_host net p.host) (canonicalize_host net host),
)

module _ (net : Net) (network host : Bytes) (port : ℕ) where
  abbrev passes : List DialPolicy → Bool
  passes = any (λ p. permits net p network (canonicalize_host net host) port)

  passes_sound :
      (ps : List DialPolicy)
      → passes ps ≡ true
      → (p : DialPolicy) × In p ps × Permits net p network host port
  passes_sound [] h = cc
  passes_sound (p ∷ ps) h =
      elim (Bool-cases (permits net p network (canonicalize_host net host) port)) [
        | inl yes_ ↦ (p, inl refl, (permits_iff net p network host port).0 yes_)
        | inr no_ ↦ let (q, m, good) = passes_sound ps (rw no_ at h) in (q, inr m, good)
      ]

  passes_complete :
      (ps : List DialPolicy) (p : DialPolicy)
      → In p ps
      → Permits net p network host port
      → passes ps ≡ true
  passes_complete [] p m h = absurd m
  passes_complete (q ∷ ps) p (inl e) h = rw (← e, (permits_iff net p network host port).1 h)
  passes_complete (q ∷ ps) p (inr m) h = rw (passes_complete ps p m h) (ground arith)

parse_port_lt : (port : Bytes) {n : ℕ} → parse_port port ≡ some n → n < 65536
unfolding parse_port
parse_port_lt port h = ground arith

check_port_sound :
    (net : Net) (policies : List DialPolicy) (protocol network host port : Bytes)
    {r : Bytes × Bytes}
    → check_port net policies protocol network host port ≡ ok r
    → (n : ℕ) × (parse_port port ≡ some n)
      × (r ≡ (network, join_host_port host port))
      × Allowed net policies network host n
unfolding check_port check_policies
check_port_sound net [] protocol network host port h = elim (Option-cases (parse_port port)) [
  | inl e ↦ absurd (ground arith)
  | inr (n, e) ↦ (n, e, ground arith, inl refl)
]
check_port_sound net (p ∷ ps) protocol network host port h = elim (Option-cases (parse_port port)) [
  | inl e ↦ absurd (ground arith)
  | inr (n, e) ↦ elim (Bool-cases (passes net network host n (p ∷ ps))) [
    | inl y ↦ (n, e, ground arith, inr (passes_sound net network host n (p ∷ ps) y))
    | inr x ↦ absurd (ground arith)
  ]
]

check_host_sound :
    (net : Net) (policies : List DialPolicy) (protocol network host port : Bytes)
    {r : Bytes × Bytes}
    → check_host net policies protocol network host port ≡ ok r
    → (network ≢ []) × (host ≢ []) × (check_port net policies protocol network host port ≡ ok r)
unfolding check_host
check_host_sound net policies protocol network host port h = ground arith

-- What a successful getAddress promises: the parts are those of the protocol text, the network and
-- the host are set, the port fits 16 bits, and no policy list was given or one of its policies
-- permits the address.
abbrev pub Granted : Net → List DialPolicy → Bytes → Bytes × Bytes → Type 0
Granted net policies protocol r =
    (network address host port : Bytes) × (n : ℕ) × (cut_first b':' protocol
      ≡ some (network, address))
    × (split_host_port address ≡ some (host, port))
    × (network ≢ [])
    × (host ≢ [])
    × (parse_port port ≡ some n)
    × (n < 65536)
    × (r ≡ (network, join_host_port host port))
    × Allowed net policies network host n

-- An address that getAddress returns was asked for by the protocol text, has a network, a host and
-- a port below 65536, and is permitted: there are no policies or one of them permits it.
pub get_address_sound :
    (net : Net) (policies : List DialPolicy) (protocol : Bytes) {r : Bytes × Bytes}
    → get_address net policies protocol ≡ ok r
    → Granted net policies protocol r
unfolding get_address
get_address_sound net policies protocol h = elim (Option-cases (cut_first b':' protocol)) [
  | inl e ↦ absurd (ground arith)
  | inr ((network, address), e) ↦ elim (Option-cases (split_host_port address)) [
    | inl e' ↦ absurd (ground arith)
    | inr ((host, port), e') ↦
        let (hn, hh, h') =
          check_host_sound net policies protocol network host port (ground arith) in
        let (n, parsed, shape, allowed) =
          check_port_sound net policies protocol network host port h' in
        (
          network,
          address,
          host,
          port,
          n,
          e,
          e',
          hn,
          hh,
          parsed,
          parse_port_lt port parsed,
          shape,
          allowed,
        )
  ]
]

-- A host without colons and brackets, which is what a name or an IPv4 address is.
abbrev pub IsPlainHost : Bytes → Type 0
IsPlainHost host =
    (host ≢ [])
    × (has_byte b':' host ≡ false)
    × (has_byte b'[' host ≡ false)
    × (has_byte b']' host ≡ false)

abbrev IsNotDigit : ℕ → Type 0
IsNotDigit c = (leb b'0' c && leb c b'9') ≡ false

read_digits-eq-none :
    (c n : ℕ) (s : Bytes) → IsNotDigit c → has_byte c s ≡ true → read_digits n s ≡ none
unfolding read_digits
read_digits-eq-none c n [] d h = cc
read_digits-eq-none c n (x ∷ s) d h =
    ground (arith, read_digits-eq-none c (n * 10 + (x - b'0')) s d)

unsigned-eq-none : (c : ℕ) (s : Bytes) → IsNotDigit c → has_byte c s ≡ true → unsigned s ≡ none
unfolding unsigned
unsigned-eq-none c [] d h = cc
unsigned-eq-none c (x ∷ s) d h = read_digits-eq-none c 0 (x ∷ s) d h

-- The only bytes of a port are digits and a sign.
parse_port-has_byte :
    (c : ℕ) (s : Bytes) {v : ℕ}
    → IsNotDigit c
    → (c ≢ b'-') × (c ≢ b'+')
    → parse_port s ≡ some v
    → has_byte c s ≡ false
unfolding parse_port
parse_port-has_byte c [] d e h = refl
parse_port-has_byte c (x ∷ s) {v} d e h =
    ground (arith, unsigned-eq-none c s d, unsigned-eq-none c (x ∷ s) d)

split_host_port-join_host_port :
    (host port : Bytes) {n : ℕ}
    → IsPlainHost host
    → parse_port port ≡ some n
    → split_host_port (join_host_port host port) ≡ some (host, port)
unfolding split_host_port join_host_port
split_host_port-join_host_port [] port p h = absurd (p.0 refl)
split_host_port-join_host_port (c ∷ host) port p h = ground (
  arith,
  cut_last-append b':' (c ∷ host) port,
  parse_port-has_byte b':' port refl (omega arith) h,
  parse_port-has_byte b'[' port refl (omega arith) h,
  parse_port-has_byte b']' port refl (omega arith) h,
)

check_policies_complete :
    (net : Net) (policies : List DialPolicy) (protocol network host port : Bytes) (n : ℕ)
    → parse_port port ≡ some n
    → Allowed net policies network host n
    → check_port net policies protocol network host port ≡ ok (network, join_host_port host port)
unfolding check_port check_policies
check_policies_complete net [] protocol network host port n e a = ground arith
check_policies_complete net (q ∷ qs) protocol network host port n e (inl a) = cc
check_policies_complete net (q ∷ qs) protocol network host port n e (inr (p, m, good)) =
    ground (arith, passes_complete net network host n (q ∷ qs) p m good)

-- A protocol text that is written from a network, a plain host and a port gives these back, if
-- there are no policies or one of them permits the address.
pub get_address_complete :
    (net : Net) (policies : List DialPolicy) (network host port : Bytes) (n : ℕ)
    → network ≢ []
    → has_byte b':' network ≡ false
    → IsPlainHost host
    → parse_port port ≡ some n
    → Allowed net policies network host n
    → get_address net policies (network ++ b':' ∷ join_host_port host port)
      ≡ ok (network, join_host_port host port)
unfolding get_address check_host
get_address_complete net policies network host port n set plain_network plain_host parsed allowed =
    ground (
      arith,
      cut_first-append b':' network (join_host_port host port) plain_network,
      split_host_port-join_host_port host port plain_host parsed,
      check_policies_complete net policies (network ++ b':' ∷ join_host_port host port) network host
          port n parsed allowed,
    )

-- Every refusal of getAddress is a plain formatted error: it is never the policy error type.
pub get_address-ne-policy_err :
    (net : Net) (policies : List DialPolicy) (protocol p : Bytes)
    → get_address net policies protocol ≢ err (policy_err p)
unfolding get_address check_host
get_address-ne-policy_err net policies protocol p h = ground arith

-- The text of a refusal is not empty.
pub get_address-text :
    (net : Net) (policies : List DialPolicy) (protocol text : Bytes)
    → get_address net policies protocol ≡ err (errorf text)
    → text ≢ []
unfolding get_address check_host
get_address-text net policies protocol text h = ground arith
