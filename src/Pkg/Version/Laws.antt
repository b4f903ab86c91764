-- ===== src/Pkg/Version/Laws.antt =====
-- Which versions of a server match.
use coder_cli.Prelude.{
  ◌≡◌, refl, sym, ℕ, some, true, false, [], ◌∷◌, ◌++◌, ◌==◌, append_assoc, arith, inl, inr,
  Bool-cases,
}
use coder_cli.Prelude.Texts.{Bytes, has_prefix, has_byte, trim_prefix, cut_first-append}
use coder_cli.Pkg.Version.{major_minor, versions_match}

has_prefix-append : (p s : Bytes) → has_prefix (p ++ s) p ≡ true
has_prefix-append [] s = refl
has_prefix-append (x ∷ p) s = rw (self x) (has_prefix-append p s)
  where
    self : (x : ℕ) → (x == x) ≡ true
    self x = ground arith

major_minor-join :
    (major minor patch : Bytes)
    → has_byte b'.' major ≡ false
    → has_byte b'.' minor ≡ false
    → major_minor (major ++ b'.' ∷ (minor ++ b'.' ∷ patch)) ≡ some (major ++ b'.' ∷ minor)
unfolding major_minor
major_minor-join major minor patch h k =
    rw
      (
        major_minor,
        cut_first-append b'.' major (minor ++ b'.' ∷ patch) h,
        cut_first-append b'.' minor patch k,
      )
      refl

prefix_trim :
    (major minor rest : Bytes)
    → has_prefix
        (trim_prefix b'v' (major ++ b'.' ∷ (minor ++ rest)))
        (trim_prefix b'v' (major ++ b'.' ∷ minor))
      ≡ true
prefix_trim [] minor rest = has_prefix-append (b'.' ∷ minor) rest
prefix_trim (x ∷ major) minor rest =
    rw (sym (append_assoc major (b'.' ∷ minor) rest)) (trimmed (major ++ b'.' ∷ minor))
  where
    trimmed :
        (p : Bytes)
        → has_prefix (trim_prefix b'v' (x ∷ (p ++ rest))) (trim_prefix b'v' (x ∷ p)) ≡ true
    trimmed p = elim (Bool-cases (x == b'v')) [
      | inl e ↦ rw e (has_prefix-append p rest)
      | inr e ↦ rw e (has_prefix-append (x ∷ p) rest)
    ]

-- A server matches if its version begins with the major and minor version of the program, also when its
-- minor version goes on with further digits: 1.20 matches a program of version 1.2.
pub versions_match-prefix :
    (major minor patch rest : Bytes)
    → has_byte b'.' major ≡ false
    → has_byte b'.' minor ≡ false
    → versions_match (major ++ b'.' ∷ (minor ++ b'.' ∷ patch)) (major ++ b'.' ∷ (minor ++ rest))
      ≡ true
unfolding versions_match
versions_match-prefix major minor patch rest h k =
    rw (versions_match, major_minor-join major minor patch h k) (prefix_trim major minor rest)
