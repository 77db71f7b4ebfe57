-- ===== src/Examples/Files.antt =====
-- File names and data fields, on concrete inputs.
use fsm_lang.Base.{◌≡◌, refl, arith, true, false, none, some, [], ◌++◌, codes}
use fsm_lang.FileNames.{file_name, create_file_name, get_file_name_no_dir}
use fsm_lang.FileNames.NoDir.{plain, base_name, get_file_name_no_dir-base_name}
use fsm_lang.DataFields.{
  DataField, data_field, dtt_simple, dtt_struct, no_members, member, Helper, print_data_field,
}
use fsm_lang.DataFields.Rendered.{rendered, print_data_field-rendered}

get_file_name_no_dir-base_name_example :
    (create_file_name true (some (codes "gen/door")) (codes ".c") ≡ file_name (codes "gen/door.c"))
    × (get_file_name_no_dir true (some (codes "gen/door.c"))
        ≡ file_name (base_name (codes "gen/door") ++ codes ".c"))
    × (plain (base_name (codes "gen/door") ++ codes ".c") ≡ true)
get_file_name_no_dir-base_name_example =
    get_file_name_no_dir-base_name (codes "gen/door") (codes ".c") refl (omega arith) (omega arith)

-- `struct { int count; } body;`
abbrev body : DataField
body =
    data_field
      (dtt_struct
        (member (data_field (dtt_simple (codes "int")) 0 false none (codes "count")) no_members))
      0 false none (codes "body")

abbrev fresh : Helper
fresh = record { out = []; tab_level = 1 }

print_data_field-rendered_example :
    print_data_field body fresh ≡ record { out = [] ++ rendered body 1; tab_level = 1 }
print_data_field-rendered_example = print_data_field-rendered body fresh (omega arith)

printed :
    print_data_field body fresh
    ≡ record { out = codes "\tstruct {\n\t\tint count;\n\t} body;\n"; tab_level = 1 }
unfolding print_data_field fsm_lang.DataFields.print_tab_levels fsm_lang.DataFields.declarator
printed = refl
