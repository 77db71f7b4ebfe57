-- ===== src/DataFields.antt =====
-- The printing of the data fields of an event by src/fsm_utils.c: `print_tab_levels` and
-- `print_data_field`, which goes through nested structures and unions.
pub mod Rendered
use fsm_lang.Base.{
  ℕ, zero, suc, ◌+◌, ◌%◌, Bool, true, false, Option, none, some, [], ◌∷◌, ◌++◌, ◌==◌, if◌then◌else◌,
  u32, Text, codes,
}

-- `struct _data_field_` with `struct _data_type_struct_`: the type, the level of indirection, whether
-- it is an array and of what dimension, and the field's name.
mutual
  pub data DataField : Type 0 where
    data_field : DataType → ℕ → Bool → Option Text → Text → DataField

  pub data DataType : Type 0 where
    dtt_simple : Text → DataType
    dtt_struct dtt_union : Members → DataType

  pub data Members : Type 0 where
    no_members : Members
    member : DataField → Members → Members

-- What an `ITERATOR_HELPER` carries: what was written to the stream, and the tab level.
pub record Helper : Type 0 where
  pub out : Text
  pub tab_level : ℕ

abbrev pub write : Text → Helper → Helper
write s pih = record pih { out = pih.out ++ s }

unfoldable pub print_tab_levels : ℕ → Text
print_tab_levels zero = []
print_tab_levels (suc levels) = b'\t' ∷ print_tab_levels levels

-- `tab_level++` and `tab_level--` on an `unsigned`.
abbrev pub indent : Helper → Helper
indent pih = record pih { tab_level = u32 (pih.tab_level + 1) }

abbrev pub unindent : Helper → Helper
unindent pih = record pih { tab_level = u32 (pih.tab_level + 4294967295) }

-- The loop over the levels of indirection; a blank stands before the first star.
unfoldable pub stars : Bool → ℕ → Text
stars first zero = []
stars first (suc level) = (if first then codes " *" else codes "*") ++ stars false level

abbrev pub array_suffix : Bool → Option Text → Text
array_suffix false dimension = []
array_suffix true none = codes "[" ++ codes "]"
array_suffix true (some dimension) = codes "[" ++ dimension ++ codes "]"

-- What stands behind the type.
unfoldable pub declarator : ℕ → Bool → Option Text → Text → Text
unfolding stars
declarator indirection_level is_array dimension name =
    stars true indirection_level
    ++ codes " "
    ++ name
    ++ array_suffix is_array dimension
    ++ codes ";\n"

-- What every call writes first.
abbrev pub tabs : Helper → Helper
tabs pih = write (print_tab_levels pih.tab_level) pih

abbrev pub close : Helper → Helper
close pih = write (codes "}") (tabs (unindent pih))

unfoldable mutual
  pub print_data_field : DataField → Helper → Helper
  print_data_field (data_field type indirection_level is_array dimension name) pih =
      write (declarator indirection_level is_array dimension name) (print_data_type type (tabs pih))

  pub print_data_type : DataType → Helper → Helper
  print_data_type (dtt_simple name) pih = write name pih
  print_data_type (dtt_struct members) pih =
      close (print_data_fields members (write (codes "struct {\n") (indent pih)))
  print_data_type (dtt_union members) pih =
      close (print_data_fields members (write (codes "union {\n") (indent pih)))

  -- `iterate_list(members, print_data_field, pih)`; the action never stops it.
  pub print_data_fields : Members → Helper → Helper
  print_data_fields no_members pih = pih
  print_data_fields (member field rest) pih = print_data_fields rest (print_data_field field pih)
