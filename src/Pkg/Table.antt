-- ===== src/Pkg/Table.antt =====
-- pkg/tablewriter/tablewriter.go: the text of a table that is made from the fields of a struct.
--
-- A type of structs is its fields as package reflect shows them: the name of each, its tag `table`, and
-- the fields of its own type where that is a struct again. A value has the `%v` text of every field.
-- The fields are exported, and a field that is to be flattened is no interface and no pointer to a struct.
-- none is the panic of reflect on a field that is to be flattened and is no struct. A failing writer is
-- not modelled.
pub mod Laws
use coder_cli.Prelude.{Bool, true, false, Option, none, some, List, [], ◌∷◌, ◌++◌, if◌then◌else◌}
use coder_cli.Prelude.Texts.{Bytes, codes, same}

pub data Shape : Type 0 where
  no_field : Shape
  plain : Bytes → Option Bytes → Shape → Shape
  nested : Bytes → Option Bytes → Shape → Shape → Shape

-- The values of a type.
abbrev pub Row : Shape → Type 0
Row no_field = Unit
Row (plain name tag s) = Bytes × Row s
Row (nested name tag inner s) = Bytes × Row inner × Row s

-- `Tag.Get`, which is empty for a missing tag
abbrev pub tag_is : Bytes → Option Bytes → Bool
tag_is t none = false
tag_is t (some s) = same s t

-- shouldHideField
abbrev pub should_hide_field : Option Bytes → Bool
should_hide_field = tag_is (codes "-")

-- shouldFlatten
abbrev pub should_flatten : Option Bytes → Bool
should_flatten = tag_is (codes "_")

-- fieldName
abbrev pub field_name : Bytes → Option Bytes → Bytes
field_name name none = name
field_name name (some custom) = custom

-- a text and a tab before the text of the other fields
abbrev pub cell : Bytes → Option Bytes → Option Bytes
cell v none = none
cell v (some rest) = some (v ++ b'\t' ∷ rest)

abbrev pub both : Option Bytes → Option Bytes → Option Bytes
both none rest = none
both (some a) none = none
both (some a) (some b) = some (a ++ b)

-- StructValues
unfoldable pub struct_values : (s : Shape) → Row s → Option Bytes
struct_values no_field r = some []
struct_values (plain name tag s) (v, r) =
    let rest = struct_values s r in
    if should_hide_field tag then rest else if should_flatten tag then none else cell v rest
struct_values (nested name tag inner s) (v, n, r) =
    let rest = struct_values s r in
    let flat = struct_values inner n in
    if should_hide_field tag
    then rest
    else if should_flatten tag
    then both flat rest
    else cell v rest

-- StructFieldNames
unfoldable pub struct_field_names : Shape → Option Bytes
struct_field_names no_field = some []
struct_field_names (plain name tag s) =
    let rest = struct_field_names s in
    if should_hide_field tag
    then rest
    else if should_flatten tag
    then none
    else cell (field_name name tag) rest
struct_field_names (nested name tag inner s) =
    let rest = struct_field_names s in
    let flat = struct_field_names inner in
    if should_hide_field tag
    then rest
    else if should_flatten tag
    then both flat rest
    else cell (field_name name tag) rest

abbrev pub cons_line : Option Bytes → Option (List Bytes) → Option (List Bytes)
cons_line none ls = none
cons_line (some l) none = none
cons_line (some l) (some ls) = some (l ∷ ls)

-- the rows of WriteTable
unfoldable pub rows : (s : Shape) → List (Row s) → Option (List Bytes)
unfolding struct_values
rows s [] = some []
rows s (r ∷ rs) = cons_line (struct_values s r) (rows s rs)

-- WriteTable: the lines that it gives to the tabwriter
unfoldable pub write_table : (s : Shape) → List (Row s) → Option (List Bytes)
unfolding rows struct_field_names
write_table s [] = some []
write_table s (r ∷ rs) = cons_line (struct_field_names s) (rows s (r ∷ rs))
