-- ===== src/Cmd/ApiErrors.antt =====
-- handleAPIError of internal/cmd/errors.go, with Error of pkg/clog/clog.go.
--
-- `ErrorEnv` stands for xerrors.As, json.Unmarshal and fmt; `tip` is clog.Tipf, which takes its text
-- as a format.
pub mod Laws
use coder_cli.Prelude.{ℕ, Bool, Option, none, some, List, [], ◌∷◌, ◌++◌, if◌then◌else◌}
use coder_cli.Prelude.Texts.{Bytes, codes, same}
use coder_cli.Sdk.Errors.{ApiError, HttpError, payload}

-- templatePayload, verbosePayload (a text) and preconditionPayload
pub record TemplatePayload : Type 0 where
  pub error_type : Bytes
  pub msgs : List Bytes

pub record PreconditionPayload : Type 0 where
  pub message : Bytes
  pub solution : Bytes

pub record ErrorEnv (E : Type 0) : Type 0 where
  pub as_http : E → Option HttpError
  pub decode : Bytes → Option ApiError
  pub template : Bytes → Option TemplatePayload
  pub verbose : Bytes → Option Bytes
  pub precondition : Bytes → Option PreconditionPayload
  pub text : E → Bytes
  pub decimal : ℕ → Bytes
  pub tip : Bytes → Bytes

-- The original error, or a CLIError of the level "error" with its header and lines.
pub data Handled (E : Type 0) : Type 0 where
  original : E → Handled E
  detailed : Bytes → List Bytes → Handled E

module _ {E : Type 0} (env : ErrorEnv E) where
  -- a branch of the switch, for details that decode or not
  abbrev pub detail : {P : Type 0} → E → (P → Handled E) → Option P → Handled E
  detail e show none = original e
  detail e show (some p) = show p

  -- the switch
  unfoldable pub by_code : E → ℕ → ApiError → Handled E
  by_code e status api =
      if same api.code (codes "wac_template")
      then detail e (λ p. detailed p.error_type p.msgs) (env.template api.details)
      else if same api.code (codes "verbose")
      then detail e (λ v. detailed (env.text e) (v ∷ [])) (env.verbose api.details)
      else if same api.code (codes "precondition")
      then detail e
          (λ p.
            detailed (codes "Precondition Error : Status Code=" ++ env.decimal status)
              (p.message ∷ [] ∷ env.tip p.solution ∷ []))
          (env.precondition api.details)
      else original e

  -- handleAPIError
  unfoldable pub handle_api_error : E → Handled E
  unfolding by_code
  handle_api_error e = elim (env.as_http e) [
    | none ↦ original e
    | some http ↦ elim ((payload env.decode http).1) [
      | none ↦ original e
      | some api ↦ by_code e http.status_code api
    ]
  ]
