-- ===== src/DataFields/Rendered.antt =====
-- What `print_data_field` of src/fsm_utils.c writes, as a function of the field.
use fsm_lang.Base.{
  ℕ, ◌+◌, ◌<◌, ◌≡◌, refl, ◌∙◌, ap, arith, [], ◌++◌, append_assoc, append-nil, u32, Text, codes,
}
use fsm_lang.DataFields.{
  DataField, DataType, Members, data_field, dtt_simple, dtt_struct, dtt_union, no_members, member,
  Helper, close, print_tab_levels, declarator, print_data_field, print_data_type, print_data_fields,
}

unfoldable mutual
  pub rendered : DataField → ℕ → Text
  rendered (data_field type indirection_level is_array dimension name) level =
      print_tab_levels level
      ++ rendered_type type level
      ++ declarator indirection_level is_array dimension name

  pub rendered_type : DataType → ℕ → Text
  rendered_type (dtt_simple name) level = name
  rendered_type (dtt_struct members) level =
      codes "struct {\n"
      ++ rendered_members members (u32 (level + 1))
      ++ print_tab_levels level
      ++ codes "}"
  rendered_type (dtt_union members) level =
      codes "union {\n"
      ++ rendered_members members (u32 (level + 1))
      ++ print_tab_levels level
      ++ codes "}"

  pub rendered_members : Members → ℕ → Text
  rendered_members no_members level = []
  rendered_members (member field rest) level = rendered field level ++ rendered_members rest level

at_level : Text → ℕ → Helper
at_level out level = record { out = out; tab_level = level }

into : (out a b : Text) → out ++ a ++ b ≡ out ++ (a ++ b)
into out a b = append_assoc out a b

into_three : (out a b c : Text) → out ++ a ++ b ++ c ≡ out ++ (a ++ b ++ c)
into_three out a b c =
    ap (λ (t : Text). t ++ c) (append_assoc out a b) ∙ append_assoc out (a ++ b) c

into_four : (out a b c d : Text) → out ++ a ++ b ++ c ++ d ≡ out ++ (a ++ b ++ c ++ d)
into_four out a b c d =
    ap (λ (t : Text). t ++ d) (into_three out a b c) ∙ append_assoc out (a ++ b ++ c) d

-- The end of a structure or union, after its members.
close-rendered :
    (out opening inner : Text) (level : ℕ)
    → level < 4294967296
    → close (at_level (out ++ opening ++ inner) (u32 (level + 1)))
      ≡ at_level (out ++ (opening ++ inner ++ print_tab_levels level ++ codes "}")) level
unfolding at_level
close-rendered out opening inner level lt =
    let back : u32 (u32 (level + 1) + 4294967295) ≡ level = omega arith in
    rw back (ap (λ (t : Text). at_level t level) (into_four out opening inner _ (codes "}")))

mutual
  unfolding print_data_field print_data_type print_data_fields rendered rendered_type
      rendered_members at_level

  field-rendered :
      (f : DataField) (out : Text) (level : ℕ)
      → level < 4294967296
      → print_data_field f (at_level out level) ≡ at_level (out ++ rendered f level) level
  field-rendered (data_field type n a d name) out level lt =
      rw (type-rendered type (out ++ print_tab_levels level) level lt) (
        ap (λ (t : Text). at_level t level)
          (into_three out (print_tab_levels level) (rendered_type type level) _))

  type-rendered :
      (t : DataType) (out : Text) (level : ℕ)
      → level < 4294967296
      → print_data_type t (at_level out level) ≡ at_level (out ++ rendered_type t level) level
  type-rendered (dtt_simple name) out level lt = refl
  type-rendered (dtt_struct members) out level lt =
      ap close
        (members-rendered members (out ++ codes "struct {\n") (u32 (level + 1)) (omega arith))
      ∙ close-rendered out (codes "struct {\n") (rendered_members members (u32 (level + 1))) level
          lt
  type-rendered (dtt_union members) out level lt =
      ap close (members-rendered members (out ++ codes "union {\n") (u32 (level + 1)) (omega arith))
      ∙ close-rendered out (codes "union {\n") (rendered_members members (u32 (level + 1))) level lt

  members-rendered :
      (ms : Members) (out : Text) (level : ℕ)
      → level < 4294967296
      → print_data_fields ms (at_level out level)
        ≡ at_level (out ++ rendered_members ms level) level
  members-rendered no_members out level lt = rw append-nil
  members-rendered (member field rest) out level lt = rw (field-rendered field out level lt) (
      members-rendered rest (out ++ rendered field level) level lt
      ∙ ap (λ (t : Text). at_level t level) (into out (rendered field level) _))

-- From a tab level below 2 ^ 32, `print_data_field` writes a field, however deeply its structures
-- and unions are nested, as a function of the field and the level alone, every member one level
-- deeper than the structure or union that it stands in, and leaves the level as it was.
pub print_data_field-rendered :
    (f : DataField) (pih : Helper)
    → pih.tab_level < 4294967296
    → print_data_field f pih
      ≡ record { out = pih.out ++ rendered f pih.tab_level; tab_level = pih.tab_level }
unfolding at_level
print_data_field-rendered f pih lt = field-rendered f pih.out pih.tab_level lt
