-- ===== src/Cmd/Policy.antt =====
-- The handler of `coder workspaces policy-template` (internal/cmd/workspaces.go) with the texts of
-- merge conflicts (coder-sdk/workspace.go).
--
-- The decimal text of a number and `%q` are parameters.
pub mod Laws
use coder_cli.Prelude.{
  ℕ, suc, Bool, true, false, not, ◌&&◌, ◌||◌, Option, none, some, List, [], ◌∷◌, ◌++◌, ◌==◌, is_set,
  if◌then◌else◌,
}
use coder_cli.Prelude.Texts.{Bytes, codes, same}
use coder_cli.Prelude.Results.{Result, ok, err, ◌>>=◌, ◌>>◌, guard}
use coder_cli.Cmd.Api.{Workspace, CmdError, bad_scope, template_unset, Answer}
use coder_cli.Cmd.FromConfig.{local_file}
use coder_cli.Sdk.Client.Workspaces.{ParseTemplateRequest}

-- WorkspaceTemplateMergeConflict; a TplError is its messages
pub record MergeConflict : Type 0 where
  pub workspace_id : Bytes
  pub current_warnings : List Bytes
  pub current_error : Option (List Bytes)
  pub latest_warnings : List Bytes
  pub latest_error : Option (List Bytes)
  pub current_is_latest : Bool
  pub message : Bytes

abbrev pub is_empty : {A : Type 0} → List A → Bool
is_empty [] = true
is_empty (x ∷ xs) = false

-- strings.Join with a line end
abbrev pub join_lines : List Bytes → Bytes
join_lines [] = []
join_lines (l ∷ []) = l
join_lines (l ∷ m ∷ ls) = l ++ (10 ∷ join_lines (m ∷ ls))

abbrev line : Bytes → Bytes
line s = s ++ 10 ∷ []

-- one of the two blocks of warnings and errors
abbrev pub block : List Bytes → Option (List Bytes) → Bytes
block warnings error =
    (if is_empty warnings then [] else line (codes "Warnings: ") ++ line (join_lines warnings))
    ++ elim error [ none ↦ [] | some msgs ↦ line (codes "Errors: ") ++ line (join_lines msgs) ]

abbrev pub current_conflicts : MergeConflict → Bool
current_conflicts mc = not (is_empty mc.current_warnings) || is_set mc.current_error

abbrev pub update_conflicts : MergeConflict → Bool
update_conflicts mc = not (is_empty mc.latest_warnings) || is_set mc.latest_error

abbrev pub no_conflicts : Bytes
no_conflicts = line (codes "No workspace conflicts")

-- WorkspaceTemplateMergeConflict.String
unfoldable pub conflict_text : MergeConflict → Bytes
conflict_text mc =
    mc.message
    ++ (if not (current_conflicts mc) && not (update_conflicts mc)
        then no_conflicts
        else (if current_conflicts mc then block mc.current_warnings mc.current_error else [])
          ++ (if not mc.current_is_latest && update_conflicts mc
              then line (codes "If workspace is updated to the latest template:")
                ++ block mc.latest_warnings mc.latest_error
              else []))

-- the counters of Summary
pub record Counts : Type 0 where
  pub current_warnings : ℕ
  pub update_warnings : ℕ
  pub current_errors : ℕ
  pub update_errors : ℕ

abbrev pub no_counts : Counts
no_counts = record {
  current_warnings = 0;
  update_warnings = 0;
  current_errors = 0;
  update_errors = 0;
}

abbrev count_if : Bool → ℕ → ℕ
count_if b n = if b then suc n else n

-- the loop of Summary
unfoldable pub count_conflicts : List MergeConflict → Counts → Counts
count_conflicts [] c = c
count_conflicts (mc ∷ mcs) c = count_conflicts mcs (record {
  current_warnings = count_if (not (is_empty mc.current_warnings)) c.current_warnings;
  update_warnings = count_if (not (is_empty mc.latest_warnings)) c.update_warnings;
  current_errors = count_if (is_set mc.current_error) c.current_errors;
  update_errors = count_if (is_set mc.latest_error) c.update_errors;
})

module _ (decimal : ℕ → Bytes) where
  abbrev pub counted : ℕ → Bytes → Bytes
  counted n text = if n == 0 then [] else decimal n ++ line text

  -- the lines of the kinds that occur
  abbrev pub impact_lines : Counts → Bytes
  impact_lines c =
      counted c.current_errors (codes " workspaces will not be able to be rebuilt")
      ++ (counted c.update_errors
            (codes " workspaces will not be able to be rebuilt if updated to the latest version")
          ++ (counted c.current_warnings (codes " workspaces will be impacted")
              ++ counted c.update_warnings
                  (codes " workspaces will be impacted if updated to the latest version")))

  -- WorkspaceTemplateMergeConflicts.Summary, behind its loop
  unfoldable pub summary_text : Counts → Bytes
  summary_text c =
      if c.current_errors == 0
        && (c.update_errors == 0 && (c.current_warnings == 0 && c.update_warnings == 0))
      then no_conflicts
      else impact_lines c

  -- WorkspaceTemplateMergeConflicts.Summary
  unfoldable pub summary : List MergeConflict → Bytes
  unfolding count_conflicts summary_text
  summary mcs = summary_text (count_conflicts mcs no_counts)

pub record PolicyFlags : Type 0 where
  pub ref : Bytes
  pub repo : Bytes
  pub filepath : Bytes
  pub dry_run : Bool
  pub default_template : Bool
  pub scope : Bytes

-- SetPolicyTemplate
pub record SetPolicy : Type 0 where
  pub template_id : Bytes
  pub scope : Bytes
  pub dry_run : Bool

pub record PolicyEnv : Type 0 where
  pub read_file : Bytes → Option Bytes
  pub parses : ParseTemplateRequest → Answer Bytes
  pub sets : SetPolicy → Answer (List MergeConflict)
  pub workspace_by_id : Bytes → Answer Workspace
  pub quote : Bytes → Bytes
  pub decimal : ℕ → Bytes

abbrev pub site_scope : Bytes
site_scope = codes "site"

abbrev pub skip_template_org : Bytes
skip_template_org = codes "SKIP_ORG"

module _ (env : PolicyEnv) where
  -- the request of ParseTemplate
  unfoldable pub policy_parse : PolicyFlags → Option Bytes → ParseTemplateRequest
  policy_parse flags file = record {
    repo_url = flags.repo;
    ref = flags.ref;
    filepath = codes ".coder/coder.yaml";
    org_id = skip_template_org;
    local = file;
  }

  -- The id of the template: that of the file, or none.
  unfoldable pub policy_template_id : PolicyFlags → Answer Bytes
  unfolding policy_parse
  policy_template_id flags =
      if same flags.filepath []
      then ok []
      else (do file ← local_file env.read_file flags.filepath; env.parses (policy_parse flags file))

  -- The handler up to SetPolicyTemplate.
  unfoldable pub prepare_policy : PolicyFlags → Answer SetPolicy
  unfolding policy_template_id
  prepare_policy flags = do
    guard (same flags.scope site_scope) bad_scope
    guard (not (same flags.filepath [] && not flags.default_template)) template_unset
    id ← policy_template_id flags
    ok (record { template_id = id; scope = flags.scope; dry_run = flags.dry_run })

  -- the heading of a conflict
  abbrev heading : MergeConflict → Answer Workspace → Bytes
  heading mc (err e) = codes "Workspace " ++ (env.quote mc.workspace_id ++ codes ":")
  heading mc (ok w) =
      codes "Workspace "
      ++ (env.quote w.name
          ++ (codes " in organization " ++ (env.quote w.organization_id ++ codes ":")))

  -- what is printed for the conflicts
  unfoldable pub report : List MergeConflict → List Bytes
  unfolding conflict_text
  report [] = []
  report (mc ∷ mcs) =
      heading mc (env.workspace_by_id mc.workspace_id) ∷ conflict_text mc ∷ report mcs

  -- setPolicyTemplate: its result, the policies that are set, and what is printed
  unfoldable pub set_policy_template : PolicyFlags → Answer (Unit {0}) × List SetPolicy × List Bytes
  unfolding prepare_policy report summary
  set_policy_template flags = elim (prepare_policy flags) [
    | err e ↦ (err e, [], [])
    | ok req ↦ elim (env.sets req) [
      | err e ↦ (err e, req ∷ [], [])
      | ok mcs ↦ (ok tt, req ∷ [], report mcs ++ codes "Summary:" ∷ summary env.decimal mcs ∷ [])
    ]
  ]
