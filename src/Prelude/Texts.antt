-- ===== src/Prelude/Texts.antt =====
-- Go strings as lists of bytes, with the functions of the packages strings, net and strconv that
-- the code calls.
use Prim.Native.Nat.{ℕ, ◌+◌}
use Prim.Native.Char.{code}
use Prim.Native.String.{String}
use mathlib.Core.Path.{◌≡◌, refl, sym, ap, ap₂}
use mathlib.Core.Logic.{ite, dite, if_pos, if_neg, ◌↔◌, ◌⊎◌, inl, inr}
use mathlib.Core.Bool.{Bool, true, false, not, ◌&&◌, false≢true}
use mathlib.Core.List.{List, [], ◌∷◌, ◌++◌}
use native.Mathlib.Omega.{arith}
use mathlib.Core.Option.{Option, none, some}
use native.Mathlib.Decide.{ℕ_discrete}
use coder_cli.Prelude.Tests.{◌==◌, if◌then◌else◌}
use coder_cli.Prelude.Lists.{any}

abbrev pub Bytes : Type 0
Bytes = List ℕ

-- The bytes of a literal, which is ASCII.
abbrev pub codes : String → Bytes
codes String.[] = []
codes (String.◌∷◌ c s) = code c ∷ codes s

abbrev head_or : ℕ → Bytes → ℕ
head_or d [] = d
head_or d (x ∷ xs) = x

abbrev pub tail_of : Bytes → Bytes
tail_of [] = []
tail_of (x ∷ xs) = xs

unfoldable pub Bytes-discrete : Discrete Bytes
Bytes-discrete [] [] = yes refl
Bytes-discrete [] (y ∷ ys) = no (λ e. cc)
Bytes-discrete (x ∷ xs) [] = no (λ e. cc)
Bytes-discrete (x ∷ xs) (y ∷ ys) =
    let rest = Bytes-discrete xs ys in
    dite (ℕ_discrete x y)
      (λ e. dite rest (λ r. yes (ap₂ (λ a b. a ∷ b) e r)) (λ r. no (λ p. r (ap tail_of p))))
      (λ e. no (λ p. e (ap (head_or 0) p)))

-- `a == b` on strings. The decision stays shut in proofs, where a split gives the equation.
abbrev pub same : Bytes → Bytes → Bool
same a b = ite (Bytes-discrete a b) true false

-- strings.HasPrefix
abbrev pub has_prefix : Bytes → Bytes → Bool
has_prefix s [] = true
has_prefix [] (p ∷ ps) = false
has_prefix (x ∷ xs) (p ∷ ps) = x == p && has_prefix xs ps

-- strings.Index, none for -1
unfoldable pub index : Bytes → Bytes → Option ℕ
index [] sub = if has_prefix [] sub then some 0 else none
index (x ∷ xs) sub =
    let rest = index xs sub in
    if has_prefix (x ∷ xs) sub then some 0 else elim rest [ none ↦ none | some i ↦ some (i + 1) ]

-- strings.Contains
abbrev pub contains : Bytes → Bytes → Bool
contains s sub = elim (index s sub) [ none ↦ false | some i ↦ true ]

-- strings.TrimPrefix and strings.TrimSuffix for a byte
abbrev pub trim_prefix : ℕ → Bytes → Bytes
trim_prefix c [] = []
trim_prefix c (x ∷ xs) = if x == c then xs else x ∷ xs

abbrev pub trim_suffix : ℕ → Bytes → Bytes
trim_suffix c [] = []
trim_suffix c (x ∷ []) = if x == c then [] else x ∷ []
trim_suffix c (x ∷ y ∷ s) = x ∷ trim_suffix c (y ∷ s)

-- strings.IndexByte
abbrev pub has_byte : ℕ → Bytes → Bool
has_byte c = any (λ x. x == c)

-- strings.SplitN(s, c, 2) cut at the first `c`; none if there is no `c`
unfoldable pub cut_first : ℕ → Bytes → Option (Bytes × Bytes)
cut_first c [] = none
cut_first c (x ∷ xs) =
    let rest = cut_first c xs in
    if x == c then some ([], xs) else elim rest [ none ↦ none | some (a, b) ↦ some (x ∷ a, b) ]

-- A cut at the last `c`, as by strings.LastIndexByte.
unfoldable pub cut_last : ℕ → Bytes → Option (Bytes × Bytes)
cut_last c [] = none
cut_last c (x ∷ xs) = elim (cut_last c xs) [
  | some (a, b) ↦ some (x ∷ a, b)
  | none ↦ if x == c then some ([], xs) else none
]

pub cut_first-append :
    (c : ℕ) (xs ys : Bytes) → has_byte c xs ≡ false → cut_first c (xs ++ c ∷ ys) ≡ some (xs, ys)
unfolding cut_first
cut_first-append c [] ys h = ground arith
cut_first-append c (x ∷ xs) ys h = ground (arith, cut_first-append c xs ys)

pub cut_last-eq-none : (c : ℕ) (ys : Bytes) → has_byte c ys ≡ false → cut_last c ys ≡ none
unfolding cut_last
cut_last-eq-none c [] h = refl
cut_last-eq-none c (y ∷ ys) h = ground (arith, cut_last-eq-none c ys)

pub cut_last-append :
    (c : ℕ) (xs ys : Bytes) → has_byte c ys ≡ false → cut_last c (xs ++ c ∷ ys) ≡ some (xs, ys)
unfolding cut_last
cut_last-append c [] ys h = ground (arith, cut_last-eq-none c ys h)
cut_last-append c (x ∷ xs) ys h = ground (arith, cut_last-append c xs ys h)

-- A field that is set and differs, as a test and as a statement.
pub differs_iff :
    (set a b : Bytes) → ((not (same set []) && not (same a b)) ≡ false) ↔ ((set ≡ []) ⊎ (a ≡ b))
differs_iff set a b = elim (Bytes-discrete set []) [
  | yes e ↦ (λ h. inl e, λ h. rw (if_pos _ e))
  | no n ↦ elim (Bytes-discrete a b) [
    | yes q ↦ (λ h. inr q, λ h. rw (if_neg _ n, if_pos _ q))
    | no m ↦ (
      λ h. absurd (false≢true (sym (rw (if_neg _ n, if_neg _ m) at h))),
      λ h. elim h [ inl e ↦ absurd (n e) | inr q ↦ absurd (m q) ],
    )
  ]
]

pub same-eq : (a b : Bytes) → same a b ≡ true → a ≡ b
same-eq a b h = ground arith

pub same_self : (a : Bytes) → same a a ≡ true
same_self a = elim (Bytes-discrete a a) [ yes e ↦ rw (if_pos _ e) | no n ↦ absurd (n refl) ]
