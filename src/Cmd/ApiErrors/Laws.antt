-- ===== src/Cmd/ApiErrors/Laws.antt =====
-- An error is replaced only by the details of its response.
use coder_cli.Prelude.{◌≡◌, refl, ◌⊎◌, inl, inr, ℕ, Option, none, some, Bool-cases, Option-cases}
use coder_cli.Prelude.Texts.{Bytes, codes, same, same-eq}
use coder_cli.Sdk.Errors.{ApiError, HttpError, payload}
use coder_cli.Cmd.ApiErrors.{
  TemplatePayload, PreconditionPayload, ErrorEnv, Handled, original, detail, by_code,
  handle_api_error,
}

-- The code is one of three, and the details decode to what belongs to it.
abbrev pub IsKnown : {E : Type 0} → ErrorEnv E → ApiError → Type 0
IsKnown env api =
    ((api.code ≡ codes "wac_template")
      × ((p : TemplatePayload) × (env.template api.details ≡ some p)))
    ⊎ (((api.code ≡ codes "verbose") × ((v : Bytes) × (env.verbose api.details ≡ some v)))
        ⊎ ((api.code ≡ codes "precondition")
            × ((p : PreconditionPayload) × (env.precondition api.details ≡ some p))))

detail_cases :
    {E P : Type 0} (env : ErrorEnv E) (e : E) (show : P → Handled E) (o : Option P)
    → (detail env e show o ≡ original e) ⊎ ((p : P) × (o ≡ some p))
detail_cases env e show none = inl refl
detail_cases env e show (some p) = inr (p, refl)

by_code_sound :
    {E : Type 0} (env : ErrorEnv E) (e : E) (status : ℕ) (api : ApiError)
    → (by_code env e status api ≡ original e) ⊎ IsKnown env api
unfolding by_code
by_code_sound env e status api = elim (Bool-cases (same api.code (codes "wac_template"))) [
  | inl a ↦ elim (detail_cases env e _ (env.template api.details)) [
    | inl h ↦ inl (rw (by_code, a) h)
    | inr p ↦ inr (inl (same-eq _ _ a, p))
  ]
  | inr a ↦ elim (Bool-cases (same api.code (codes "verbose"))) [
    | inl b ↦ elim (detail_cases env e _ (env.verbose api.details)) [
      | inl h ↦ inl (rw (by_code, a, b) h)
      | inr p ↦ inr (inr (inl (same-eq _ _ b, p)))
    ]
    | inr b ↦ elim (Bool-cases (same api.code (codes "precondition"))) [
      | inl c ↦ elim (detail_cases env e _ (env.precondition api.details)) [
        | inl h ↦ inl (rw (by_code, a, b, c) h)
        | inr p ↦ inr (inr (inr (same-eq _ _ c, p)))
      ]
      | inr c ↦ inl (rw (by_code, a, b, c) refl)
    ]
  ]
]

-- The original error is given back, unless it holds the error of a response whose payload has one of
-- the three codes and details that decode to what belongs to the code.
handle_api_error_sound :
    {E : Type 0} (env : ErrorEnv E) (e : E)
    → (handle_api_error env e ≡ original e)
      ⊎ ((http : HttpError) × (api : ApiError) × (env.as_http e ≡ some http)
          × ((payload env.decode http).1 ≡ some api)
          × IsKnown env api)
unfolding handle_api_error
handle_api_error_sound env e = elim (Option-cases (env.as_http e)) [
  | inl h ↦ inl (rw (handle_api_error, h) refl)
  | inr (http, h) ↦ elim (Option-cases ((payload env.decode http).1)) [
    | inl q ↦ inl (rw (handle_api_error, h, q) refl)
    | inr (api, q) ↦ elim (by_code_sound env e http.status_code api) [
      | inl b ↦ inl (rw (handle_api_error, h, q) b)
      | inr k ↦ inr (http, api, h, q, k)
    ]
  ]
]
