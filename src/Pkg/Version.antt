-- ===== src/Pkg/Version.antt =====
-- internal/version/version.go: whether the server has the major and minor version of the program.
pub mod Laws
use coder_cli.Prelude.{Bool, false, Option, none, some, ◌∷◌, ◌++◌}
use coder_cli.Prelude.Texts.{Bytes, has_prefix, trim_prefix, cut_first}

-- `strings.Split(Version, ".")` cut at the first two dots and joined again, none for fewer than three
-- parts
unfoldable pub major_minor : Bytes → Option Bytes
major_minor version = elim (cut_first b'.' version) [
  | none ↦ none
  | some (major, rest) ↦ elim (cut_first b'.' rest) [
    | none ↦ none
    | some (minor, patch) ↦ some (major ++ b'.' ∷ minor)
  ]
]

-- VersionsMatch, with the variable Version as its first argument
unfoldable pub versions_match : Bytes → Bytes → Bool
unfolding major_minor
versions_match version api_version = elim (major_minor version) [
  | none ↦ false
  | some m ↦ has_prefix (trim_prefix b'v' api_version) (trim_prefix b'v' m)
]
