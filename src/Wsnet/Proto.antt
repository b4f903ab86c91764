-- ===== src/Wsnet/Proto.antt =====
-- wsnet/proto.go: dial policies, and the address that a data channel's protocol names.
--
-- Text is a list of bytes. `Net` stands for the library functions that are not modelled:
-- `quote` for the verb %q, and `loopback` for net.ParseIP with IsLoopback (none: no IP address).
-- net.SplitHostPort, net.JoinHostPort and strconv.Atoi are written out. An error of `fmt.Errorf`
-- is its text, and `policy_err` is the type notPermittedByPolicyErr.
pub mod Laws
use coder_cli.Prelude.{
  ℕ, ◌+◌, ◌-◌, ◌*◌, ◌^◌, Bool, true, false, ◌&&◌, ◌||◌, not, Option, none, some, List, [], ◌∷◌,
  ◌++◌, ltb, leb, ◌==◌, if◌then◌else◌, any,
}
use coder_cli.Prelude.Texts.{
  Bytes, codes, same, has_byte, trim_prefix, trim_suffix, cut_first, cut_last,
}
use coder_cli.Prelude.Results.{Result, ok, err}

pub record Net : Type 0 where
  pub quote : Bytes → Bytes
  pub loopback : Bytes → Option Bool

pub record DialPolicy : Type 0 where
  pub network : Bytes
  pub host : Bytes
  pub port : ℕ

pub data GoError : Type 0 where
  errorf : Bytes → GoError
  policy_err : Bytes → GoError

-- A run of decimal digits behind a value.
unfoldable pub read_digits : ℕ → Bytes → Option ℕ
read_digits n [] = some n
read_digits n (c ∷ s) =
    let rest = read_digits (n * 10 + (c - b'0')) s in
    if leb b'0' c && leb c b'9' then rest else none

unsigned : Bytes → Option ℕ
unfolding read_digits
unsigned [] = none
unsigned (d ∷ t) = read_digits 0 (d ∷ t)

in_range : Bool → ℕ → Option ℕ → Option (Bool × ℕ)
in_range sign max none = none
in_range sign max (some n) = if leb n max then some (sign, n) else none

-- strconv.Atoi: the sign and the size of the number, none on a syntax or a range error
unfoldable pub atoi : Bytes → Option (Bool × ℕ)
unfolding unsigned in_range
atoi [] = none
atoi (c ∷ s) =
    if c == b'-'
    then in_range true (2 ^ 63) (unsigned s)
    else if c == b'+'
    then in_range false (2 ^ 63 - 1) (unsigned s)
    else in_range false (2 ^ 63 - 1) (unsigned (c ∷ s))

-- `err != nil || portParsed < 0 || bits.Len(uint(portParsed)) > 16`, as the port that passes
as_port : Option (Bool × ℕ) → Option ℕ
as_port none = none
as_port (some (true, n)) = if ltb 0 n then none else some n
as_port (some (false, n)) = if leb (2 ^ 16) n then none else some n

unfoldable pub parse_port : Bytes → Option ℕ
unfolding atoi as_port
parse_port port = as_port (atoi port)

-- the host in front of the last colon, brackets taken off
bracketed : Bytes → Option Bytes
bracketed rest = elim (cut_first b']' rest) [
  | none ↦ none
  | some (h, after) ↦ if same after [] && not (has_byte b'[' h) then some h else none
]

plain : Bytes → Option Bytes
plain h = if has_byte b':' h || has_byte b'[' h || has_byte b']' h then none else some h

host_part : Bytes → Option Bytes
unfolding bracketed plain
host_part [] = some []
host_part (c ∷ rest) = if c == b'[' then bracketed rest else plain (c ∷ rest)

with_port : Bytes → Option Bytes → Option (Bytes × Bytes)
with_port port none = none
with_port port (some h) = if has_byte b'[' port || has_byte b']' port then none else some (h, port)

-- net.SplitHostPort
unfoldable pub split_host_port : Bytes → Option (Bytes × Bytes)
unfolding host_part with_port
split_host_port s = elim (cut_last b':' s) [
  | none ↦ none
  | some (front, port) ↦ with_port port (host_part front)
]

-- net.JoinHostPort
unfoldable pub join_host_port : Bytes → Bytes → Bytes
join_host_port host port =
    if has_byte b':' host then b'[' ∷ host ++ b']' ∷ b':' ∷ port else host ++ b':' ∷ port

module _ (net : Net) where
  -- canonicalizeHost
  unfoldable pub canonicalize_host : Bytes → Bytes
  canonicalize_host addr =
      let bare = trim_suffix b']' (trim_prefix b'[' addr) in
      elim (net.loopback bare) [
        | none ↦ bare
        | some looped ↦ if looped then codes "localhost" else bare
      ]

  -- DialPolicy.permits
  unfoldable pub permits : DialPolicy → Bytes → Bytes → ℕ → Bool
  permits p network host port =
      if not (same p.network []) && not (same p.network network)
      then false
      else if not (same p.host []) && not (same (canonicalize_host p.host) host)
      then false
      else if not (p.port == 0) && not (p.port == port)
      then false
      else true

  -- the policies of the message, tried in order
  check_policies :
      List DialPolicy → Bytes → Bytes → Bytes → ℕ → Bytes → Result GoError (Bytes × Bytes)
  check_policies policies protocol network host port addr =
      if any (λ p. permits p network host port) policies
      then ok (network, addr)
      else err (
          errorf
            (codes "connections are not permitted to " ++ net.quote protocol ++ codes " by policy"))

  check_port : List DialPolicy → Bytes → Bytes → Bytes → Bytes → Result GoError (Bytes × Bytes)
  unfolding check_policies
  check_port policies protocol network host port = elim (parse_port port) [
    | none ↦
        err
          (errorf (codes "invalid dial address " ++ net.quote protocol ++ codes " port: " ++ port))
    | some n ↦
        let addr = join_host_port host port in
        elim policies [
          | [] ↦ ok (network, addr)
          | p ∷ ps ↦ check_policies (p ∷ ps) protocol network (canonicalize_host host) n addr
        ]
  ]

  check_host : List DialPolicy → Bytes → Bytes → Bytes → Bytes → Result GoError (Bytes × Bytes)
  unfolding check_port
  check_host policies protocol network host port =
      if same network []
      then err (
          errorf
            (codes "invalid dial address " ++ net.quote protocol ++ codes " network: " ++ network))
      else if same host []
      then err
          (errorf (codes "invalid dial address " ++ net.quote protocol ++ codes " host: " ++ host))
      else check_port policies protocol network host port

  -- BrokerMessage.getAddress, at the policies of the message
  unfoldable pub get_address : List DialPolicy → Bytes → Result GoError (Bytes × Bytes)
  unfolding check_host
  get_address policies protocol = elim (cut_first b':' protocol) [
    | none ↦ err (errorf (codes "invalid dial address: " ++ protocol))
    | some (network, address) ↦ elim (split_host_port address) [
      | none ↦ err (errorf (codes "invalid dial address: " ++ protocol))
      | some (host, port) ↦ check_host policies protocol network host port
    ]
  ]
