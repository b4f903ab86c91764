-- ===== src/Cmd/BuildLog/Laws.antt =====
-- What stays on the screen after a build.
use coder_cli.Prelude.{
  ◌≡◌, refl, ap, ◌∙◌, ℕ_discrete, Bool, true, false, none, some, List, [], ◌∷◌, ◌++◌, append_assoc,
  map, if◌then◌else◌,
}
use coder_cli.Prelude.Texts.{Bytes, codes, Bytes-discrete}
use coder_cli.Cmd.BuildLog.{
  Log, start, substage, done, stage, error, Spinner, Trail, finished, failure_mark, trim_text,
  stage_spinner, error_spinner, on_stage, on_error, trail_build_logs,
}

-- What a build sends before it is done.
pub data Progress : Type 0 where
  starts substages : Progress
  stages errors : Bytes → Progress

abbrev pub as_log : Progress → Log
as_log starts = start
as_log substages = substage
as_log (stages msg) = stage msg
as_log (errors msg) = error msg

abbrev pub nothing : Trail
nothing = record { spinner = none; lines = [] }

-- Whether the next stage or error is an error.
abbrev pub fails : List Progress → Bool
fails [] = false
fails (starts ∷ ps) = fails ps
fails (substages ∷ ps) = fails ps
fails (stages msg ∷ ps) = false
fails (errors msg ∷ ps) = true

module _ (red : Bytes → Bytes) where
  -- What a stage and an error leave, with whether an error came next: the mark of a failure is put in
  -- front of the text that was shown, without two blanks at its beginning.
  abbrev pub stage_line : Bytes → Bool → Bytes
  stage_line msg failed =
      (if failed then 226 ∷ 157 ∷ 140 ∷ [] else 226 ∷ 156 ∷ 133 ∷ []) ++ (codes " -- " ++ msg)

  abbrev pub error_line : Bytes → Bool → Bytes
  error_line msg failed =
      if failed
      then (226 ∷ 157 ∷ 140 ∷ [])
        ++ (codes " " ++ trim_text (codes "  ") (red (codes "  -- " ++ msg)))
      else red ((226 ∷ 157 ∷ 140 ∷ []) ++ (codes " -- " ++ msg))

  -- One line for each stage and each error.
  abbrev final_line : Spinner → Bool → Bytes
  final_line s failed =
      if failed then failure_mark ++ (codes " " ++ trim_text (codes "  ") s.suffix) else s.final_msg

  abbrev pub final_lines : List Progress → List Bytes
  final_lines [] = []
  final_lines (starts ∷ ps) = final_lines ps
  final_lines (substages ∷ ps) = final_lines ps
  final_lines (stages msg ∷ ps) = stage_line msg (fails ps) ∷ final_lines ps
  final_lines (errors msg ∷ ps) = error_line msg (fails ps) ∷ final_lines ps

  final_line-stage :
      (msg : Bytes) (b : Bool) → final_line (stage_spinner red true msg) b ≡ stage_line msg b
  unfolding Bytes-discrete ℕ_discrete
  final_line-stage msg true = refl
  final_line-stage msg false = refl

  final_line-error :
      (msg : Bytes) (b : Bool) → final_line (error_spinner red true msg) b ≡ error_line msg b
  final_line-error msg true = refl
  final_line-error msg false = refl

  abbrev spinning : Spinner → List Bytes → Trail
  spinning s lines = record { spinner = some s; lines = lines }

  trail-spinning :
      (ps : List Progress) (rest : List Log) (s : Spinner) (lines : List Bytes)
      → let r = trail_build_logs red true (map as_log ps ++ done ∷ rest) (spinning s lines) in
        (r.0.lines ≡ lines ++ final_line s (fails ps) ∷ final_lines ps) × (r.1 ≡ finished)
  unfolding trail_build_logs on_stage on_error
  trail-spinning [] rest s lines = (refl, refl)
  trail-spinning (starts ∷ ps) rest s lines = trail-spinning ps rest s lines
  trail-spinning (substages ∷ ps) rest s lines = trail-spinning ps rest s lines
  trail-spinning (stages msg ∷ ps) rest s lines =
      let (e, f) =
        trail-spinning ps rest (stage_spinner red true msg) (lines ++ s.final_msg ∷ []) in
      (
        e
            ∙ append_assoc lines (s.final_msg ∷ []) _
            ∙ ap (λ t. lines ++ s.final_msg ∷ t ∷ final_lines ps) (final_line-stage msg (fails ps)),
        f,
      )
  trail-spinning (errors msg ∷ ps) rest s lines =
      let (e, f) =
        trail-spinning ps rest (error_spinner red true msg) (lines ++ final_line s true ∷ []) in
      (
        e
            ∙ append_assoc lines (final_line s true ∷ []) _
            ∙ ap (λ t. lines ++ final_line s true ∷ t ∷ final_lines ps)
                (final_line-error msg (fails ps)),
        f,
      )

  -- On a terminal, a build that is done leaves one line for each stage and each error, in order: that of
  -- a stage has a check mark, or the mark of a failure where the next of them is an error; that of an
  -- error has the mark of a failure always, and is red, the mark with it unless the next is an error
  -- again. What comes behind the end of the build is not read.
  pub trail_build_logs-final_lines :
      (ps : List Progress) (rest : List Log)
      → let r = trail_build_logs red true (map as_log ps ++ done ∷ rest) nothing in
        (r.0.lines ≡ final_lines ps) × (r.1 ≡ finished)
  unfolding trail_build_logs on_stage on_error
  trail_build_logs-final_lines [] rest = (refl, refl)
  trail_build_logs-final_lines (starts ∷ ps) rest = trail_build_logs-final_lines ps rest
  trail_build_logs-final_lines (substages ∷ ps) rest = trail_build_logs-final_lines ps rest
  trail_build_logs-final_lines (stages msg ∷ ps) rest =
      let (e, f) = trail-spinning ps rest (stage_spinner red true msg) [] in
      (e ∙ ap (λ t. t ∷ final_lines ps) (final_line-stage msg (fails ps)), f)
  trail_build_logs-final_lines (errors msg ∷ ps) rest =
      let (e, f) = trail-spinning ps rest (error_spinner red true msg) [] in
      (e ∙ ap (λ t. t ∷ final_lines ps) (final_line-error msg (fails ps)), f)
