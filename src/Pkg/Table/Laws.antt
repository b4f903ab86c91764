-- ===== src/Pkg/Table/Laws.antt =====
-- The columns of a table.
use coder_cli.Prelude.{
  ◌≡◌, refl, sym, ap, ◌∙◌, inl, inr, Option, none, some, List, [], ◌∷◌, ◌++◌, append_assoc, length,
  length-append, Bool-cases, if◌then◌else◌,
}
use coder_cli.Prelude.Texts.{Bytes}
use coder_cli.Pkg.Table.{
  Shape, no_field, plain, nested, Row, should_hide_field, should_flatten, field_name, cell, both,
  struct_values, struct_field_names,
}

-- Some cells, each with a tab behind it.
abbrev pub tabbed : List Bytes → Bytes
tabbed [] = []
tabbed (c ∷ cs) = c ++ b'\t' ∷ tabbed cs

tabbed-append : (xs ys : List Bytes) → tabbed (xs ++ ys) ≡ tabbed xs ++ tabbed ys
tabbed-append [] ys = refl
tabbed-append (x ∷ xs) ys =
    ap (λ t. x ++ b'\t' ∷ t) (tabbed-append xs ys)
    ∙ sym (append_assoc x (b'\t' ∷ tabbed xs) (tabbed ys))

abbrev pub concat : Option (List Bytes) → Option (List Bytes) → Option (List Bytes)
concat (some xs) (some ys) = some (xs ++ ys)
concat (some xs) none = none
concat none o = none

-- What becomes of a field, by its tag: nothing, the columns of its own fields, or one column.
abbrev pub laid : Option Bytes → Option (List Bytes) → Bytes → Option (List Bytes)
laid tag inner one =
    if should_hide_field tag then some [] else if should_flatten tag then inner else some (one ∷ [])

-- The names over the columns, and the values in them, of the fields that are not hidden, in their order;
-- none where a field that is no struct is to be flattened.
abbrev pub columns : Shape → Option (List Bytes)
columns no_field = some []
columns (plain name tag s) = concat (laid tag none (field_name name tag)) (columns s)
columns (nested name tag inner s) =
    concat (laid tag (columns inner) (field_name name tag)) (columns s)

abbrev pub values : (s : Shape) → Row s → Option (List Bytes)
values no_field r = some []
values (plain name tag s) (v, r) = concat (laid tag none v) (values s r)
values (nested name tag inner s) (v, n, r) = concat (laid tag (values inner n) v) (values s r)

abbrev pub text_of : Option (List Bytes) → Option Bytes
text_of none = none
text_of (some cs) = some (tabbed cs)

abbrev pub SameLength : Option (List Bytes) → Option (List Bytes) → Type 0
SameLength none none = Unit
SameLength (some xs) (some ys) = length xs ≡ length ys
SameLength _ _ = ⊥

text_of-concat : (a b : Option (List Bytes)) → both (text_of a) (text_of b) ≡ text_of (concat a b)
text_of-concat none b = refl
text_of-concat (some xs) none = refl
text_of-concat (some xs) (some ys) = ap some (sym (tabbed-append xs ys))

text_of-cell :
    (v : Bytes) (b : Option (List Bytes)) → cell v (text_of b) ≡ text_of (concat (some (v ∷ [])) b)
text_of-cell v none = refl
text_of-cell v (some ys) = refl

text_of-skip : (b : Option (List Bytes)) → text_of b ≡ text_of (concat (some []) b)
text_of-skip none = refl
text_of-skip (some ys) = refl

-- The text of a field and of those behind it.
abbrev field_text : Option Bytes → Option Bytes → Bytes → Option Bytes → Option Bytes
field_text tag flat one rest =
    if should_hide_field tag
    then rest
    else if should_flatten tag
    then both flat rest
    else cell one rest

field_text-laid :
    (tag : Option Bytes) (inner rest : Option (List Bytes)) (one : Bytes)
    → field_text tag (text_of inner) one (text_of rest) ≡ text_of (concat (laid tag inner one) rest)
field_text-laid tag inner rest one = elim (Bool-cases (should_hide_field tag)) [
  | inl h ↦ rw h (text_of-skip rest)
  | inr h ↦ elim (Bool-cases (should_flatten tag)) [
    | inl f ↦ rw (h, f) (text_of-concat inner rest)
    | inr f ↦ rw (h, f) (text_of-cell one rest)
  ]
]

struct_field_names-columns : (s : Shape) → struct_field_names s ≡ text_of (columns s)
unfolding struct_field_names
struct_field_names-columns no_field = refl
struct_field_names-columns (plain name tag s) =
    rw (struct_field_names-columns s) (field_text-laid tag none (columns s) (field_name name tag))
struct_field_names-columns (nested name tag inner s) =
    rw (struct_field_names-columns s, struct_field_names-columns inner)
      (field_text-laid tag (columns inner) (columns s) (field_name name tag))

struct_values-values : (s : Shape) (r : Row s) → struct_values s r ≡ text_of (values s r)
unfolding struct_values
struct_values-values no_field r = refl
struct_values-values (plain name tag s) (v, r) =
    rw (struct_values-values s r) (field_text-laid tag none (values s r) v)
struct_values-values (nested name tag inner s) (v, n, r) =
    rw (struct_values-values s r, struct_values-values inner n)
      (field_text-laid tag (values inner n) (values s r) v)

concat-SameLength :
    (a a' b b' : Option (List Bytes))
    → SameLength a a'
    → SameLength b b'
    → SameLength (concat a b) (concat a' b')
concat-SameLength none none b b' h k = tt
concat-SameLength none (some ys) b b' h k = elim h [ ]
concat-SameLength (some xs) none b b' h k = elim h [ ]
concat-SameLength (some xs) (some ys) none (some vs) h k = elim k [ ]
concat-SameLength (some xs) (some ys) (some us) none h k = elim k [ ]
concat-SameLength (some xs) (some ys) none none h k = tt
concat-SameLength (some xs) (some ys) (some us) (some vs) h k =
    rw (length-append xs us, length-append ys vs, h, k) refl

laid-SameLength :
    (tag : Option Bytes) (i j : Option (List Bytes)) (n v : Bytes)
    → SameLength i j
    → SameLength (laid tag i n) (laid tag j v)
laid-SameLength tag i j n v h = elim (Bool-cases (should_hide_field tag)) [
  | inl a ↦ rw a refl
  | inr a ↦ elim (Bool-cases (should_flatten tag)) [ inl b ↦ rw (a, b) h | inr b ↦ rw (a, b) refl ]
]

columns-SameLength : (s : Shape) (r : Row s) → SameLength (columns s) (values s r)
columns-SameLength no_field r = refl
columns-SameLength (plain name tag s) (v, r) =
    concat-SameLength _ _ _ _ (laid-SameLength tag none none (field_name name tag) v tt)
      (columns-SameLength s r)
columns-SameLength (nested name tag inner s) (v, n, r) =
    concat-SameLength _ _ _ _
      (laid-SameLength tag _ _ (field_name name tag) v (columns-SameLength inner n))
      (columns-SameLength s r)

-- The header has a name, and the row a value, for every column, each with a tab behind it.
abbrev pub SameColumns : (s : Shape) → Row s → Type 0
SameColumns s r =
    (struct_field_names s ≡ text_of (columns s))
    × (struct_values s r ≡ text_of (values s r))
    × SameLength (columns s) (values s r)

-- The header of a table has the name of each column and a row the value of each, once, in order, with a
-- tab behind it, and these are equally many, whatever the tags hide or flatten; where one of them cannot
-- be made because a field that is no struct is to be flattened, neither can.
pub struct_values-SameColumns : (s : Shape) (r : Row s) → SameColumns s r
struct_values-SameColumns s r =
    (struct_field_names-columns s, struct_values-values s r, columns-SameLength s r)
