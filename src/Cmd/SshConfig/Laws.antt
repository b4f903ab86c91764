-- ===== src/Cmd/SshConfig/Laws.antt =====
-- What the removal of the section finds, for any tokens and for those of the program.
use coder_cli.Prelude.{
  ◌≡◌, refl, suc, ℕ, ◌+◌, ◌-◌, Bool, true, false, Option, none, some, List, [], ◌∷◌, ◌++◌,
  append_assoc, append-nil, leb, ◌==◌, length, drop, length-append, take_all, drop_add, arith,
  if◌then◌else◌,
}
use coder_cli.Prelude.Texts.{Bytes, index, has_prefix, has_byte}
use coder_cli.Cmd.Api.{Workspace, Provider}
use coder_cli.Cmd.SshConfig.{
  ssh_start_token, ssh_start_message, ssh_end_token, slice_from, slice_to, and_then, remove_section,
  remove_old_config, section_body, host_entries, make_new_configs,
}

has_prefix-append :
    (c : ℕ) (sub xs ys : Bytes)
    → has_byte c sub ≡ false
    → has_prefix (xs ++ c ∷ ys) sub ≡ has_prefix xs sub
has_prefix-append c [] [] ys h = refl
has_prefix-append c [] (x ∷ xs) ys h = refl
has_prefix-append c (p ∷ ps) [] ys h = ground arith
has_prefix-append c (p ∷ ps) (x ∷ xs) ys h = ground (arith, has_prefix-append c ps xs ys)

has_prefix_self : (sub ys : Bytes) → has_prefix (sub ++ ys) sub ≡ true
has_prefix_self [] ys = ground arith
has_prefix_self (p ∷ ps) ys = ground (arith, has_prefix_self ps ys)

abbrev shift : ℕ → Option ℕ → Option ℕ
shift n none = none
shift n (some i) = some (i + n)

-- A text is not found across a byte that it does not have.
index-append :
    (c : ℕ) (sub xs ys : Bytes)
    → has_byte c sub ≡ false
    → index xs sub ≡ none
    → index (xs ++ c ∷ ys) sub ≡ shift (length xs + 1) (index ys sub)
unfolding index
index-append c sub [] ys h n = ground (arith, has_prefix-append c sub [] ys h)
index-append c sub (x ∷ xs) ys h n =
    ground (arith, has_prefix-append c sub (x ∷ xs) ys h, index-append c sub xs ys h)

index_self : (sub ys : Bytes) → index (sub ++ ys) sub ≡ some 0
unfolding index
index_self sub ys = index_prefix (sub ++ ys) sub (has_prefix_self sub ys)
  where
    index_prefix : (s sub : Bytes) → has_prefix s sub ≡ true → index s sub ≡ some 0
    index_prefix [] sub h = ground arith
    index_prefix (x ∷ xs) sub h = ground arith

-- A section between newlines, with the text before and after it.
abbrev framed : Bytes → Bytes → Bytes → Bytes → Bytes
framed before body e after = before ++ (10 ∷ (body ++ (10 ∷ (e ++ after))))

length-framed :
    (before body e after : Bytes)
    → length (framed before body e after)
      ≡ length before + length body + length e + length after + 2
length-framed before body e after = omega (
  arith,
  length-append before (10 ∷ (body ++ (10 ∷ (e ++ after)))),
  length-append body (10 ∷ (e ++ after)),
  length-append e after,
)

drop-framed :
    (before body e after : Bytes) (n : ℕ)
    → n ≡ length before + (suc (length body + (suc (length e + 1))))
    → drop n (framed before body e after) ≡ drop 1 after
drop-framed before body e after n h = rw (
  h,
  drop_add (suc (length body + (suc (length e + 1)))) before (10 ∷ (body ++ (10 ∷ (e ++ after)))),
  drop_add (suc (length e + 1)) body (10 ∷ (e ++ after)),
  drop_add 1 e after,
)

module _ (s e : Bytes) (hs : has_byte 10 s ≡ false) (he : has_byte 10 e ≡ false) where
  start_index :
      (before inner after : Bytes)
      → index before s ≡ none
      → index (framed before (s ++ inner) e after) s ≡ some (length before + 1)
  start_index before inner after h =
      rw (index-append 10 s before _ hs h, append_assoc s inner (10 ∷ (e ++ after)), index_self s _)
        (ground arith)

  end_index :
      (before body after : Bytes)
      → index before e ≡ none
      → index body e ≡ none
      → index (framed before body e after) e ≡ some (length body + 1 + (length before + 1))
  end_index before body after h hb =
      rw (index-append 10 e before _ he h, index-append 10 e body _ he hb, index_self e after)
        (ground arith)

  remove_found :
      (config : Bytes) (i j : ℕ)
      → index config s ≡ some i
      → index config e ≡ some j
      → remove_section s e config ≡ (
          if i == 0
          then and_then (slice_from (j + length e + 1) config) (λ t. some (t, true))
          else and_then
              (slice_to (i - 1) config)
              (λ u. and_then (slice_from (j + length e + 1) config) (λ t. some (u ++ t, true))))
  unfolding remove_section
  remove_found config i j h1 h2 = rw (h1, h2, remove_section)

  -- What the removal gives for a configuration whose first section stands between `before` and
  -- `after`: the two without the byte that follows the end token, or a panic, when there is none.
  pub remove_section-framed :
      (before inner after : Bytes)
      → index before s ≡ none
      → index before e ≡ none
      → index (s ++ inner) e ≡ none
      → remove_section s e (framed before (s ++ inner) e after)
        ≡ (if leb 1 (length after) then some (before ++ drop 1 after, true) else none)
  unfolding remove_section
  remove_section-framed before inner after h1 h2 h3 =
      let c = framed before (s ++ inner) e after in
      let n = length (s ++ inner) + 1 + (length before + 1) + length e + 1 in
      let long = length-framed before (s ++ inner) e after in
      rw
        (remove_found c (length before + 1) (length (s ++ inner) + 1 + (length before + 1))
          (start_index before inner after h1) (end_index before (s ++ inner) after h2 h3))
        (ground (
          arith,
          long,
          take_all before (10 ∷ ((s ++ inner) ++ (10 ∷ (e ++ after)))),
          drop-framed before (s ++ inner) e after n,
        ))

start_token_line : has_byte 10 ssh_start_token ≡ false
unfolding ssh_start_token
start_token_line = refl

end_token_line : has_byte 10 ssh_end_token ≡ false
unfolding ssh_end_token
end_token_line = refl

-- A configuration that holds neither token is what the removal gives back after `make_new_configs`
-- has been appended to it, whatever the workspaces, if no text of the section holds the end token.
pub remove_old_config-make_new_configs :
    (quote : Bytes → Bytes) (unix : Bool)
    (sorted : List (Workspace × Provider) → List (Workspace × Provider))
    (config bin_path key : Bytes) (ws : List (Workspace × Provider)) (options : List Bytes)
    → index config ssh_start_token ≡ none
    → index config ssh_end_token ≡ none
    → index (section_body quote unix bin_path key options (sorted ws)) ssh_end_token ≡ none
    → remove_old_config (config ++ make_new_configs quote unix sorted bin_path ws key options)
      ≡ some (config, true)
unfolding make_new_configs section_body
remove_old_config-make_new_configs quote unix sorted config bin_path key ws options h1 h2 h3 =
    let inner =
      10 ∷ ssh_start_message
      ++ (10 ∷ 10 ∷ host_entries quote unix bin_path key options (sorted ws)) in
    rw
      (remove_section-framed ssh_start_token ssh_end_token start_token_line end_token_line config
        inner (10 ∷ []) h1 h2 h3)
      (rw append-nil refl)

-- Where the file ends with the end token, the removal panics: it slices one byte past the end.
pub remove_old_config-panics :
    (before inner : Bytes)
    → index before ssh_start_token ≡ none
    → index before ssh_end_token ≡ none
    → index (ssh_start_token ++ inner) ssh_end_token ≡ none
    → remove_old_config
        (before ++ (10 ∷ ((ssh_start_token ++ inner) ++ (10 ∷ (ssh_end_token ++ [])))))
      ≡ none
remove_old_config-panics before inner =
    remove_section-framed ssh_start_token ssh_end_token start_token_line end_token_line before inner
      []

-- Without a start token there is nothing to remove.
pub remove_old_config-none :
    (config : Bytes)
    → index config ssh_start_token ≡ none
    → remove_old_config config ≡ some (config, false)
unfolding remove_section
remove_old_config-none config h = rw (remove_section, h)
