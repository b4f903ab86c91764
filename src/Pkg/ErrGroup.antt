-- ===== src/Pkg/ErrGroup.antt =====
-- pkg/clog/errgroup.go: a group of functions that run at the same time, with a count of the failures.
--
-- The functions finish in any order; a run is the list of their results in that order. The count is
-- an int32, written as its 32 bits.
pub mod Laws
use coder_cli.Prelude.{
  ℕ, suc, ◌+◌, ◌%◌, ◌^◌, Bool, true, false, ◌&&◌, Option, none, some, List, [], ◌∷◌, ◌++◌, ltb,
  ◌==◌, if◌then◌else◌,
}
use coder_cli.Prelude.Texts.{Bytes, codes}
use coder_cli.Prelude.Results.{Result, ok, err}

-- group, with what it has logged
pub record Group (E : Type 0) : Type 0 where
  pub failures : ℕ
  pub logged : List E

-- atomic.AddInt32(&g.failures, 1)
abbrev pub add_int32 : ℕ → ℕ
add_int32 n = (n + 1) % 2 ^ 32

-- the error of Wait: the number and the word of its text
pub record Emitted : Type 0 where
  pub number : ℕ
  pub word : Bytes

-- an int32 above 1
abbrev pub is_many : ℕ → Bool
is_many n = ltb 1 n && ltb n (2 ^ 31)

module _ {E : Type 0} where
  -- LoggedErrGroup
  abbrev pub new_group : Group E
  new_group = record { failures = 0; logged = [] }

  -- The function of Go when `f` has returned.
  unfoldable pub finish : Result E (Unit {0}) → Group E → Group E
  finish (ok u) g = g
  finish (err e) g = record { failures = add_int32 g.failures; logged = g.logged ++ e ∷ [] }

  unfoldable pub finish_all : List (Result E (Unit {0})) → Group E → Group E
  unfolding finish
  finish_all [] g = g
  finish_all (r ∷ rs) g = finish_all rs (finish r g)

  -- Wait, none for nil
  unfoldable pub wait : Group E → Option Emitted
  wait g =
      if g.failures == 0
      then none
      else some (record {
        number = g.failures;
        word = if is_many g.failures then codes "failures" else codes "failure";
      })
