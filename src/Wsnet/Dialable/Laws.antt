-- ===== src/Wsnet/Dialable/Laws.antt =====
-- What is left open, and who is shown the credentials.
use coder_cli.Prelude.{
  ◌≡◌, refl, inl, inr, ℕ, ◌+◌, Bool, true, false, ◌||◌, none, some, List, [], ◌∷◌, ◌++◌, All,
  All-append, any, if◌then◌else◌, arith, Bool-cases, Option-cases,
}
use coder_cli.Prelude.Texts.{Bytes}
use coder_cli.Prelude.Results.{err, Result-cases}
use coder_cli.Wsnet.Ice.{Scheme, is_turn}
use coder_cli.Wsnet.Dialable.{
  Call, listen_err, open_conn, close_conn, make_client, close_client, bind, open_allocation,
  close_allocation, allocate, Dialed, assertion_fails, within, Server, pass_of, IceNet,
  check_allocation, check_binding, check_client, dial_ice_url, dial_urls, dial_ice,
}

-- What is opened and closed.
pub data Kind : Type 0 where
  connections clients allocations : Kind

abbrev pub opened : Kind → Call → ℕ
opened connections open_conn = 1
opened clients make_client = 1
opened allocations open_allocation = 1
opened _ _ = 0

abbrev pub closed : Kind → Call → ℕ
closed connections close_conn = 1
closed clients close_client = 1
closed allocations close_allocation = 1
closed _ _ = 0

-- How often something is done.
abbrev pub total : (Call → ℕ) → List Call → ℕ
total f [] = 0
total f (c ∷ cs) = f c + total f cs

total-append : (f : Call → ℕ) (xs ys : List Call) → total f (xs ++ ys) ≡ total f xs + total f ys
total-append f [] ys = omega arith
total-append f (c ∷ xs) ys = omega (arith, total-append f xs ys)

abbrev pub IsBalanced : List Call → Type 0
IsBalanced cs = (k : Kind) → total (opened k) cs ≡ total (closed k) cs

-- An allocation is asked for with the credentials of the server.
abbrev pub IsEntitled : Bool → Server → Call → Type 0
IsEntitled turn server (allocate u p) =
    (turn ≡ true) × (u ≡ server.username) × (p ≡ pass_of server.credential)
IsEntitled turn server _ = Unit

abbrev pub Sound : Bool → Server → List Call → Type 0
Sound turn server cs = IsBalanced cs × All (IsEntitled turn server) cs

module _ (net : IceNet) (skip_verify : Bool) (server : Server) where
  check_allocation-Sound :
      (url : Bytes) (scheme : Scheme)
      → Sound (is_turn scheme) server (check_allocation net skip_verify server url scheme).1
  unfolding check_allocation
  check_allocation-Sound url scheme = elim (Bool-cases (is_turn scheme)) [
    | inl t ↦ elim (Option-cases (net.allocate url server.username (pass_of server.credential))) [
      | inl e ↦ rw (t, e) (allocated, ((refl, refl, refl), (tt, (tt, tt))))
      | inr (text, e) ↦ rw (t, e) (refused, ((refl, refl, refl), tt))
    ]
    | inr f ↦ rw f (λ k. refl, tt)
  ]
    where
      allocated : IsBalanced (
          allocate server.username (pass_of server.credential)
          ∷ open_allocation
          ∷ close_allocation
          ∷ [])
      allocated connections = refl
      allocated clients = refl
      allocated allocations = refl

      refused : IsBalanced (allocate server.username (pass_of server.credential) ∷ [])
      refused connections = refl
      refused clients = refl
      refused allocations = refl

  check_binding-Sound :
      (url : Bytes) (scheme : Scheme)
      → Sound (is_turn scheme) server (check_binding net skip_verify server url scheme).1
  unfolding check_binding
  check_binding-Sound url scheme =
      let (b, a) = check_allocation-Sound url scheme in
      elim (Option-cases (net.binding url)) [
        | inl e ↦ rw (check_binding, e) (bound _ b, (tt, a))
        | inr (text, e) ↦ rw (check_binding, e) (bound [] (λ k. refl), (tt, tt))
      ]
    where
      bound : (cs : List Call) → IsBalanced cs → IsBalanced (bind ∷ cs)
      bound cs b connections = omega (arith, b connections)
      bound cs b clients = omega (arith, b clients)
      bound cs b allocations = omega (arith, b allocations)

  -- A close behind what was opened keeps the balance.
  within-Sound :
      (turn : Bool) (before after : Call) (d : Dialed)
      → ((k : Kind) → opened k before ≡ closed k after)
      → ((k : Kind) → closed k before ≡ 0)
      → ((k : Kind) → opened k after ≡ 0)
      → IsEntitled turn server before
      → IsEntitled turn server after
      → Sound turn server d.1
      → Sound turn server (within before d after).1
  within-Sound turn before after d p q r i j (b, a) = (
    λ k. omega (
      arith,
      total-append (opened k) d.1 (after ∷ []),
      total-append (closed k) d.1 (after ∷ []),
      p k,
      q k,
      r k,
      b k,
    ),
    (i, All-append (IsEntitled turn server) d.1 (after ∷ []) a (j, tt)),
  )

  check_client-Sound :
      (url : Bytes) (scheme : Scheme)
      → Sound (is_turn scheme) server (check_client net skip_verify server url scheme).1
  unfolding check_client
  check_client-Sound url scheme = elim (Bool-cases (assertion_fails server.credential)) [
    | inl b ↦ rw (check_client, b) (λ k. refl, tt)
    | inr b ↦ elim (Bool-cases (net.makes_client url server.username (pass_of server.credential))) [
      | inl e ↦
          rw (check_client, b, e)
            (within-Sound _ make_client close_client (listened (net.listens url)) same_kind
              opens_only closes_only tt tt (listening (net.listens url)))
      | inr e ↦ rw (check_client, b, e) (λ k. refl, tt)
    ]
  ]
    where
      listened : Bool → Dialed
      listened b =
          if b then check_binding net skip_verify server url scheme else (err listen_err, [])

      listening : (b : Bool) → Sound (is_turn scheme) server (listened b).1
      listening true = check_binding-Sound url scheme
      listening false = (λ k. refl, tt)

      same_kind : (k : Kind) → opened k make_client ≡ closed k close_client
      same_kind connections = refl
      same_kind clients = refl
      same_kind allocations = refl

      opens_only : (k : Kind) → closed k make_client ≡ 0
      opens_only connections = refl
      opens_only clients = refl
      opens_only allocations = refl

      closes_only : (k : Kind) → opened k close_client ≡ 0
      closes_only connections = refl
      closes_only clients = refl
      closes_only allocations = refl

  -- The URL of the server is one of a TURN server, by its scheme.
  abbrev pub is_turn_url : Bytes → Bool
  is_turn_url url = elim (net.parse_url url) [
    | none ↦ false
    | some (scheme, proto) ↦ is_turn scheme
  ]

  dial_ice_url-Sound :
      (url : Bytes) → Sound (is_turn_url url) server (dial_ice_url net skip_verify server url).1
  unfolding dial_ice_url
  dial_ice_url-Sound url = elim (Option-cases (net.parse_url url)) [
    | inl e ↦ rw (dial_ice_url, is_turn_url, e) (λ k. refl, tt)
    | inr ((scheme, proto), e) ↦ elim (Bool-cases (net.opens skip_verify url)) [
      | inl o ↦
          rw (dial_ice_url, is_turn_url, e, o)
            (within-Sound _ open_conn close_conn (check_client net skip_verify server url scheme)
              same_kind opens_only closes_only tt tt (check_client-Sound url scheme))
      | inr o ↦ rw (dial_ice_url, is_turn_url, e, o) (λ k. refl, tt)
    ]
  ]
    where
      same_kind : (k : Kind) → opened k open_conn ≡ closed k close_conn
      same_kind connections = refl
      same_kind clients = refl
      same_kind allocations = refl

      opens_only : (k : Kind) → closed k open_conn ≡ 0
      opens_only connections = refl
      opens_only clients = refl
      opens_only allocations = refl

      closes_only : (k : Kind) → opened k close_conn ≡ 0
      closes_only connections = refl
      closes_only clients = refl
      closes_only allocations = refl

  IsEntitled-or :
      (a b : Bool) (cs : List Call)
      → (a ≡ true → b ≡ true)
      → All (IsEntitled a server) cs
      → All (IsEntitled b server) cs
  IsEntitled-or a b [] i h = tt
  IsEntitled-or a b (allocate u p ∷ cs) i ((t, e, q), h) = ((i t, e, q), IsEntitled-or a b cs i h)
  IsEntitled-or a b (open_conn ∷ cs) i (j, h) = (tt, IsEntitled-or a b cs i h)
  IsEntitled-or a b (close_conn ∷ cs) i (j, h) = (tt, IsEntitled-or a b cs i h)
  IsEntitled-or a b (make_client ∷ cs) i (j, h) = (tt, IsEntitled-or a b cs i h)
  IsEntitled-or a b (close_client ∷ cs) i (j, h) = (tt, IsEntitled-or a b cs i h)
  IsEntitled-or a b (bind ∷ cs) i (j, h) = (tt, IsEntitled-or a b cs i h)
  IsEntitled-or a b (open_allocation ∷ cs) i (j, h) = (tt, IsEntitled-or a b cs i h)
  IsEntitled-or a b (close_allocation ∷ cs) i (j, h) = (tt, IsEntitled-or a b cs i h)

  dial_urls-Sound :
      (urls : List Bytes)
      → Sound (any is_turn_url urls) server (dial_urls net skip_verify server urls).1
  unfolding dial_urls
  dial_urls-Sound [] = (λ k. refl, tt)
  dial_urls-Sound (url ∷ urls) =
      let (b, a) = dial_ice_url-Sound url in
      let (b', a') = dial_urls-Sound urls in
      let here =
        IsEntitled-or (is_turn_url url) (is_turn_url url || any is_turn_url urls) _ (λ e. rw e refl)
          a in
      let there =
        IsEntitled-or (any is_turn_url urls) (is_turn_url url || any is_turn_url urls) _
          (λ e. ground arith) a' in
      elim (Result-cases ((dial_ice_url net skip_verify server url).0)) [
        | inr (x, e) ↦ rw (dial_urls, e) (b, here)
        | inl (u, e) ↦
            let xs = (dial_ice_url net skip_verify server url).1 in
            let ys = (dial_urls net skip_verify server urls).1 in
            rw (dial_urls, e)
              (
                λ k. omega (
                  arith,
                  total-append (opened k) xs ys,
                  total-append (closed k) xs ys,
                  b k,
                  b' k,
                ),
                All-append (IsEntitled _ server) xs ys here there,
              )
      ]

-- DialICE closes as many connections, clients and allocations, of each kind, as it opens, whatever
-- fails, and it asks for an allocation only if one of the server's URLs is that of a TURN server, with
-- the server's name and password.
pub dial_ice_sound :
    (net : IceNet) (skip_verify : Bool) (server : Server)
    → IsBalanced (dial_ice net skip_verify server).1
      × All
          (IsEntitled (any (is_turn_url net skip_verify server) server.urls) server)
          (dial_ice net skip_verify server).1
dial_ice_sound net skip_verify server = dial_urls-Sound net skip_verify server server.urls
