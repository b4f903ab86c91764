-- ===== src/Cmd/Policy/Laws.antt =====
-- What a summary counts, and which policy is set.
use coder_cli.Prelude.{
  ◌≡◌, refl, ◌≢◌, some, append-nil, Option-cases, sym, ap, ◌∙◌, ◌⊎◌, inl, inr, ℕ, suc, ◌+◌, ◌≤◌,
  Bool, true, false, not, ◌&&◌, ◌||◌, Option, List, [], ◌∷◌, ◌++◌, All, keep, any, length, ◌==◌,
  is_set, if◌then◌else◌, arith, subst, Bool-cases,
}
use coder_cli.Prelude.Texts.{Bytes, codes, same, same-eq, same_self}
use coder_cli.Prelude.Results.{ok, err, guard, bind_ok, guard-true, Result-cases}
use coder_cli.Cmd.Api.{CmdError, Answer, bad_scope, template_unset, file_unreadable}
use coder_cli.Cmd.FromConfig.{local_file}
use coder_cli.Cmd.Policy.{
  MergeConflict, is_empty, current_conflicts, update_conflicts, no_conflicts, Counts, no_counts,
  count_conflicts, impact_lines, summary_text, summary, PolicyFlags, SetPolicy, PolicyEnv,
  site_scope, policy_parse, policy_template_id, prepare_policy, set_policy_template,
}

-- How many conflicts pass a test.
abbrev pub number : (MergeConflict → Bool) → List MergeConflict → ℕ
number p mcs = length (keep p mcs)

-- The numbers of conflicts with warnings and with errors, added to some counts.
abbrev pub tally : List MergeConflict → Counts → Counts
tally mcs c = record {
  current_warnings = number (λ mc. not (is_empty mc.current_warnings)) mcs + c.current_warnings;
  update_warnings = number (λ mc. not (is_empty mc.latest_warnings)) mcs + c.update_warnings;
  current_errors = number (λ mc. is_set mc.current_error) mcs + c.current_errors;
  update_errors = number (λ mc. is_set mc.latest_error) mcs + c.update_errors;
}

number-cons :
    (p : MergeConflict → Bool) (mc : MergeConflict) (mcs : List MergeConflict) (n : ℕ)
    → number p mcs + (if p mc then suc n else n) ≡ number p (mc ∷ mcs) + n
number-cons p mc mcs n = ground arith

counts_eq :
    {a a' b b' c c' d d' : ℕ}
    → a ≡ a'
    → b ≡ b'
    → c ≡ c'
    → d ≡ d'
    → Path Counts
        (record {
          current_warnings = a;
          update_warnings = b;
          current_errors = c;
          update_errors = d;
        })
        (record {
          current_warnings = a';
          update_warnings = b';
          current_errors = c';
          update_errors = d';
        })
counts_eq p q r s = λ i. record {
  current_warnings = p i;
  update_warnings = q i;
  current_errors = r i;
  update_errors = s i;
}

-- The counters of the loop are the numbers of the conflicts that pass each test, over where they began.
count_conflicts-tally :
    (mcs : List MergeConflict) (c : Counts) → count_conflicts mcs c ≡ tally mcs c
unfolding count_conflicts
count_conflicts-tally [] c = sym (
    counts_eq (zero_plus c.current_warnings) (zero_plus c.update_warnings)
      (zero_plus c.current_errors) (zero_plus c.update_errors))
  where
    zero_plus : (n : ℕ) → 0 + n ≡ n
    zero_plus n = omega arith
count_conflicts-tally (mc ∷ mcs) c =
    count_conflicts-tally mcs _
    ∙ counts_eq (number-cons (λ m. not (is_empty m.current_warnings)) mc mcs c.current_warnings)
        (number-cons (λ m. not (is_empty m.latest_warnings)) mc mcs c.update_warnings)
        (number-cons (λ m. is_set m.current_error) mc mcs c.current_errors)
        (number-cons (λ m. is_set m.latest_error) mc mcs c.update_errors)

number-any :
    (p : MergeConflict → Bool) (mcs : List MergeConflict) → (number p mcs == 0) ≡ not (any p mcs)
number-any p [] = refl
number-any p (mc ∷ mcs) = ground (arith, number-any p mcs)

abbrev pub has_conflict : MergeConflict → Bool
has_conflict mc = current_conflicts mc || update_conflicts mc

any-or4 :
    (mcs : List MergeConflict)
    → (not (any (λ m. is_set m.current_error) mcs)
        && (not (any (λ m. is_set m.latest_error) mcs)
            && (not (any (λ m. not (is_empty m.current_warnings)) mcs)
                && not (any (λ m. not (is_empty m.latest_warnings)) mcs))))
      ≡ not (any has_conflict mcs)
any-or4 [] = refl
any-or4 (mc ∷ mcs) =
    shuffle (is_set mc.current_error) (is_set mc.latest_error) (not (is_empty mc.current_warnings))
      (not (is_empty mc.latest_warnings)) _ _ _ _ _ (any-or4 mcs)
  where
    shuffle :
        (a b c d a' b' c' d' x : Bool)
        → (not a' && (not b' && (not c' && not d'))) ≡ not x
        → (not (a || a') && (not (b || b') && (not (c || c') && not (d || d'))))
          ≡ not (((c || a) || (d || b)) || x)
    shuffle a b c d a' b' c' d' x h = ground arith

-- How many workspaces have warnings and errors, of each kind.
abbrev pub numbers : List MergeConflict → Counts
numbers mcs = record {
  current_warnings = number (λ m. not (is_empty m.current_warnings)) mcs;
  update_warnings = number (λ m. not (is_empty m.latest_warnings)) mcs;
  current_errors = number (λ m. is_set m.current_error) mcs;
  update_errors = number (λ m. is_set m.latest_error) mcs;
}

count_conflicts-numbers : (mcs : List MergeConflict) → count_conflicts mcs no_counts ≡ numbers mcs
count_conflicts-numbers mcs =
    count_conflicts-tally mcs no_counts
    ∙ counts_eq (plus_zero _) (plus_zero _) (plus_zero _) (plus_zero _)
  where
    plus_zero : (n : ℕ) → n + 0 ≡ n
    plus_zero n = omega arith

all_zero :
    (mcs : List MergeConflict)
    → let c = numbers mcs in
      (c.current_errors == 0
        && (c.update_errors == 0 && (c.current_warnings == 0 && c.update_warnings == 0)))
      ≡ not (any has_conflict mcs)
all_zero mcs =
    rw
      (
        number-any (λ m. is_set m.current_error) mcs,
        number-any (λ m. is_set m.latest_error) mcs,
        number-any (λ m. not (is_empty m.current_warnings)) mcs,
        number-any (λ m. not (is_empty m.latest_warnings)) mcs,
      )
      (any-or4 mcs)

summary_text-numbers :
    (decimal : ℕ → Bytes) (mcs : List MergeConflict)
    → summary_text decimal (numbers mcs)
      ≡ (if any has_conflict mcs then impact_lines decimal (numbers mcs) else no_conflicts)
unfolding summary_text
summary_text-numbers decimal mcs =
    rw (all_zero mcs)
      (swapped no_conflicts (impact_lines decimal (numbers mcs)) (any has_conflict mcs))
  where
    swapped : {A : Type 0} (x y : A) (b : Bool) → (if not b then x else y) ≡ (if b then y else x)
    swapped x y true = refl
    swapped x y false = refl

-- The kinds of conflicts with what the summary says of them, in its order.
abbrev pub kinds : List ((MergeConflict → Bool) × Bytes)
kinds =
    (λ m. is_set m.current_error, codes " workspaces will not be able to be rebuilt")
    ∷ (
      λ m. is_set m.latest_error,
      codes " workspaces will not be able to be rebuilt if updated to the latest version",
    )
    ∷ (λ m. not (is_empty m.current_warnings), codes " workspaces will be impacted")
    ∷ (
      λ m. not (is_empty m.latest_warnings),
      codes " workspaces will be impacted if updated to the latest version",
    )
    ∷ []

-- A line for each kind that occurs: the number of the workspaces of the kind, and its text.
abbrev pub lines_of :
    (ℕ → Bytes) → List ((MergeConflict → Bool) × Bytes) → List MergeConflict → Bytes
lines_of decimal [] mcs = []
lines_of decimal ((test, text) ∷ ks) mcs =
    let rest = lines_of decimal ks mcs in
    if number test mcs == 0 then rest else (decimal (number test mcs) ++ (text ++ 10 ∷ [])) ++ rest

kept_line :
    (b : Bool) (x rest rest' : Bytes)
    → rest ≡ rest'
    → (if b then [] else x) ++ rest ≡ (if b then rest' else x ++ rest')
kept_line true x rest rest' e = e
kept_line false x rest rest' e = ap (λ t. x ++ t) e

last_line : (b : Bool) (x : Bytes) → (if b then [] else x) ≡ (if b then [] else x ++ [])
last_line true x = refl
last_line false x = sym (append-nil x)

impact_lines-lines_of :
    (decimal : ℕ → Bytes) (mcs : List MergeConflict)
    → impact_lines decimal (numbers mcs) ≡ lines_of decimal kinds mcs
impact_lines-lines_of decimal mcs =
    let c = numbers mcs in
    kept_line (c.current_errors == 0)
      (decimal c.current_errors ++ (codes " workspaces will not be able to be rebuilt" ++ 10 ∷ []))
      _ _
      (kept_line (c.update_errors == 0)
        (decimal c.update_errors
          ++ (codes " workspaces will not be able to be rebuilt if updated to the latest version"
              ++ 10 ∷ []))
        _ _
        (kept_line (c.current_warnings == 0)
          (decimal c.current_warnings ++ (codes " workspaces will be impacted" ++ 10 ∷ [])) _ _
          (last_line (c.update_warnings == 0) (
            decimal c.update_warnings
            ++ (codes " workspaces will be impacted if updated to the latest version"
                ++ 10 ∷ [])))))

-- The summary reports that there is no conflict exactly if no workspace has a warning or an error, now
-- or with the latest template; else it has a line for each kind that occurs, with the number of the
-- workspaces that have one.
pub summary_lem :
    (decimal : ℕ → Bytes) (mcs : List MergeConflict)
    → summary decimal mcs ≡ (
        if any has_conflict mcs
        then lines_of decimal kinds mcs
        else codes "No workspace conflicts" ++ 10 ∷ [])
unfolding summary
summary_lem decimal mcs =
    ap (summary_text decimal) (count_conflicts-numbers mcs)
    ∙ summary_text-numbers decimal mcs
    ∙ ap (λ t. if any has_conflict mcs then t else no_conflicts) (impact_lines-lines_of decimal mcs)

-- The template is what the server makes of the file of the flag.
abbrev pub IsParsed : PolicyEnv → PolicyFlags → Bytes → Type 0
IsParsed env flags id =
    (text : Bytes) × (env.read_file flags.filepath ≡ some text)
    × (env.parses (record {
      repo_url = flags.repo;
      ref = flags.ref;
      filepath = codes ".coder/coder.yaml";
      org_id = codes "SKIP_ORG";
      local = some text;
    })
        ≡ ok id)

abbrev pub IsWarranted : PolicyEnv → PolicyFlags → SetPolicy → Type 0
IsWarranted env flags req =
    (req.scope ≡ codes "site")
    × (req.dry_run ≡ flags.dry_run)
    × (((flags.filepath ≡ []) × (flags.default_template ≡ true) × (req.template_id ≡ []))
        ⊎ ((flags.filepath ≢ []) × IsParsed env flags req.template_id))

differ : false ≡ true → ⊥
differ q = cc

read_file_ok :
    (read : Bytes → Option Bytes) (path : Bytes) (file : Option Bytes)
    → same path [] ≡ false
    → local_file read path ≡ ok file
    → (text : Bytes) × (read path ≡ some text) × (file ≡ some text)
unfolding local_file
read_file_ok read path file e h = elim (Option-cases (read path)) [
  | inl n ↦ absurd (failed (rw (local_file, e, n) at h))
  | inr (text, n) ↦ (text, n, read_text (rw (local_file, e, n) at h))
]
  where
    failed : Path (Answer (Option Bytes)) (err file_unreadable) (ok file) → ⊥
    failed q = cc

    read_text :
        {text : Bytes} → Path (Answer (Option Bytes)) (ok (some text)) (ok file) → file ≡ some text
    read_text q = cc

policy_template_id_sound :
    (env : PolicyEnv) (flags : PolicyFlags) (id : Bytes)
    → policy_template_id env flags ≡ ok id
    → ((flags.filepath ≡ []) × (id ≡ [])) ⊎ ((flags.filepath ≢ []) × IsParsed env flags id)
unfolding policy_template_id policy_parse
policy_template_id_sound env flags id h = elim (Bool-cases (same flags.filepath [])) [
  | inl e ↦ let q = rw e at h in inl (same-eq _ _ e, cc)
  | inr e ↦
      let (file, hf, hp) = bind_ok (local_file env.read_file flags.filepath) _ id (rw e at h) in
      let (text, hr, q) = read_file_ok env.read_file flags.filepath file e hf in
      inr
        (λ empty. differ (sym e ∙ ap (λ t. same t []) empty ∙ same_self []), (text, hr, rw q at hp))
]

prepare_policy_sound :
    (env : PolicyEnv) (flags : PolicyFlags) (req : SetPolicy)
    → prepare_policy env flags ≡ ok req
    → IsWarranted env flags req
unfolding prepare_policy
prepare_policy_sound env flags req h =
    let (u, hs, h1) = bind_ok (guard (same flags.scope site_scope) bad_scope) _ req h in
    let (v, hd, h2) =
      bind_ok (guard (not (same flags.filepath [] && not flags.default_template)) template_unset) _
        req h1 in
    let (id, hi, h3) = bind_ok (policy_template_id env flags) _ req h2 in
    let q : Path SetPolicy
        (record { template_id = id; scope = flags.scope; dry_run = flags.dry_run }) req =
      cc in
    subst (IsWarranted env flags) q (
      same-eq _ _ (guard-true _ _ u hs),
      refl,
      elim (policy_template_id_sound env flags id hi) [
        | inl (e, i) ↦ inl (e, wanted e (guard-true _ _ v hd), i)
        | inr p ↦ inr p
      ],
    )
  where
    wanted :
        flags.filepath ≡ []
        → not (same flags.filepath [] && not flags.default_template) ≡ true
        → flags.default_template ≡ true
    wanted e g = let t : same flags.filepath [] ≡ true = rw e (same_self []) in ground arith

set_policy_template-err :
    (env : PolicyEnv) (flags : PolicyFlags) (x : CmdError)
    → prepare_policy env flags ≡ err x
    → (set_policy_template env flags).1 ≡ []
unfolding set_policy_template
set_policy_template-err env flags x e = rw (set_policy_template, e) refl

set_policy_template-sets :
    (env : PolicyEnv) (flags : PolicyFlags) (req : SetPolicy)
    → prepare_policy env flags ≡ ok req
    → (set_policy_template env flags).1 ≡ req ∷ []
unfolding set_policy_template
set_policy_template-sets env flags req e = elim (Result-cases (env.sets req)) [
  | inl (mcs, a) ↦ rw (set_policy_template, e, a) refl
  | inr (x, a) ↦ rw (set_policy_template, e, a) refl
]

-- A policy is set only for the whole site, with the flag for a dry run passed on; its template is the
-- one that the server parses the given file to, with the flags of the repository, or, when no file is
-- given, none, and then only if the flag asks for the default. One is set at most.
pub set_policy_template_sound :
    (env : PolicyEnv) (flags : PolicyFlags)
    → All (IsWarranted env flags) (set_policy_template env flags).1
      × (length (set_policy_template env flags).1 ≤ 1)
set_policy_template_sound env flags = elim (Result-cases (prepare_policy env flags)) [
  | inl (req, e) ↦
      rw (set_policy_template-sets env flags req e)
        ((prepare_policy_sound env flags req e, tt), omega arith)
  | inr (x, e) ↦ rw (set_policy_template-err env flags x e) (tt, omega arith)
]
