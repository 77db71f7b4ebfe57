-- ===== src/CFiles.antt =====
-- The five files that a C machine is written to: `newCMachineData`, `writeCFilePreambles`,
-- `initCMachine`, `initCSubMachine`, `closeCMachine` and `destroyCMachineData` of src/fsm_c_common.c.
-- A stream is known by the file that it was opened for. Writing to a NULL stream and closing a stream
-- that is not open give `none`. Memory for the names is had.
pub mod Opening
pub mod Phases
pub mod Start
pub mod Closing
use fsm_lang.Base.{
  ℕ, ◌+◌, Bool, true, false, not, ◌&&◌, ◌||◌, Option, none, some, List, [], ◌∷◌, ◌++◌, map, ◌==◌,
  if◌then◌else◌, Text, codes, to_upper,
}

-- `CREATED_FILES`
pub data CreatedFile : Type 0 where
  cf_c cf_h cf_pub_h cf_sub_machine_h cf_events_h : CreatedFile

abbrev pub cf_number : CreatedFile → ℕ
cf_number cf_c = 0
cf_number cf_h = 1
cf_number cf_pub_h = 2
cf_number cf_sub_machine_h = 3
cf_number cf_events_h = 4

abbrev pub same_file : CreatedFile → CreatedFile → Bool
same_file f g = cf_number f == cf_number g

abbrev pub created_files : List CreatedFile
created_files = cf_c ∷ cf_h ∷ cf_pub_h ∷ cf_sub_machine_h ∷ cf_events_h ∷ []

-- What `newCMachineData` puts behind the base name.
abbrev pub extension : CreatedFile → Text
extension cf_c = codes ".c"
extension cf_h = codes "_priv.h"
extension cf_pub_h = codes ".h"
extension cf_sub_machine_h = codes "_submach.h"
extension cf_events_h = codes "_events.h"

-- The part of `struct _c_machine_data_` about files, and the files themselves.
pub record Files : Type 0 where
  pub file_array : CreatedFile → Option CreatedFile
  pub file_name_array : CreatedFile → Option Text
  pub a_sub_machine_was_encountered : Bool
  pub is_open : CreatedFile → Bool
  pub on_disk : CreatedFile → Bool
  pub text : CreatedFile → Text

abbrev pub set_file {ℓ} : {A : Type ℓ} → (CreatedFile → A) → CreatedFile → A → CreatedFile → A
set_file f k v g = if same_file g k then v else f g

-- `fprintf` on the stream of a slot.
unfoldable pub write : CreatedFile → Text → Files → Option Files
write slot s d = elim (d.file_array slot) [
  | none ↦ none
  | some f ↦ some (record d { text = set_file d.text f (d.text f ++ s) })
]

abbrev pub and_then : Option Files → (Files → Option Files) → Option Files
and_then none k = none
and_then (some d) k = k d

-- `openFile(name, "w")` into a slot; whether a file can be opened is a parameter.
unfoldable pub open_slot : (CreatedFile → Bool) → CreatedFile → Files → Files
open_slot opens cf d =
    if opens cf
    then record d {
      file_array = set_file d.file_array cf (some cf);
      is_open = set_file d.is_open cf true;
      on_disk = set_file d.on_disk cf true;
      text = set_file d.text cf [];
    }
    else record d { file_array = set_file d.file_array cf none }

-- The loop that opens the files and stops at an error: whether there was one.
unfoldable pub open_files : (CreatedFile → Bool) → Bool → List CreatedFile → Files → Bool × Files
open_files opens sub_machine [] d = (false, d)
open_files opens sub_machine (cf ∷ cfs) d =
    let rest = open_files opens sub_machine cfs d in
    let opened = open_files opens sub_machine cfs (open_slot opens cf d) in
    if sub_machine && same_file cf cf_pub_h
    then rest
    else if opens cf
    then opened
    else (true, open_slot opens cf d)

-- `newCMachineData` with a base name; `allocated` is whether `calloc` gives the block.
unfoldable pub new_c_machine_data : Bool → Text → (CreatedFile → Bool) → Option Files
new_c_machine_data allocated base_file_name before =
    if allocated
    then some (record {
      file_array = λ cf. none;
      file_name_array = λ cf. some (base_file_name ++ extension cf);
      a_sub_machine_was_encountered = false;
      is_open = λ cf. false;
      on_disk = before;
      text = λ cf. [];
    })
    else none

-- `createHeaderCompilationGuard`, from what `getFileNameNoDir` returns.
unfoldable pub create_header_compilation_guard : Text → Text
create_header_compilation_guard = map λ c. if (c == b'.') || (c == b'-') then b'_' else to_upper c

-- The block that the preambles and inclusions are written with: several texts into one slot.
abbrev pub preamble : Text → Text
preamble name =
    codes "/**\n\t" ++ name ++ codes "\n\n\tThis file automatically generated by FSMLang\n*/\n\n"

-- A name that is NULL is not printed.
abbrev pub name_text : Option Text → Text
name_text none = []
name_text (some name) = name

abbrev pub guarded : Text → Text → Text
guarded name guard =
    preamble name ++ codes "#ifndef _" ++ guard ++ codes "_\n#define _" ++ guard ++ codes "_\n\n"

-- `writeHeaderPreamble`, with what `getFileNameNoDir` returns for a name.
unfoldable pub write_header_preamble : (Text → Text) → CreatedFile → Files → Option Files
unfolding create_header_compilation_guard write
write_header_preamble file_name_no_dir cf d =
    let name : Text = name_text (d.file_name_array cf) in
    let guard : Text = create_header_compilation_guard (file_name_no_dir name) in
    elim (d.file_array cf) [ none ↦ some d | some f ↦ write cf (guarded name guard) d ]

abbrev pub same_stream : Option CreatedFile → Option CreatedFile → Bool
same_stream none none = true
same_stream none (some g) = false
same_stream (some f) none = false
same_stream (some f) (some g) = same_file f g

abbrev pub include : Text → Text
include name = codes "#include \"" ++ name ++ codes "\"\n"

-- One round of the loop that writes the preambles.
unfoldable pub write_preamble : (Text → Text) → Option Text → CreatedFile → Files → Option Files
unfolding write_header_preamble
write_preamble file_name_no_dir parent_h cf d =
    let source : Option Files =
      write cf_c
        (preamble (name_text (d.file_name_array cf_c))
          ++ include (name_text (d.file_name_array cf_h))
          ++ codes "#include <stddef.h>\n\n")
        d in
    let header : Option Files = write_header_preamble file_name_no_dir cf d in
    let with_parent : Option Files = elim parent_h [
      | none ↦ header
      | some name ↦
          if same_file cf cf_h then and_then header (write cf_h (include name)) else header
    ] in
    if same_file cf cf_c
    then source
    else if same_file cf cf_pub_h && same_stream (d.file_array cf_pub_h) (d.file_array cf_h)
    then some d
    else with_parent

unfoldable pub write_preambles :
    (Text → Text) → Option Text → List CreatedFile → Files → Option Files
unfolding write_preamble
write_preambles file_name_no_dir parent_h [] d = some d
write_preambles file_name_no_dir parent_h (cf ∷ cfs) d =
    and_then (write_preamble file_name_no_dir parent_h cf d)
      (write_preambles file_name_no_dir parent_h cfs)

-- `writeCFilePreambles`; a sub-machine brings the name of its parent's header for sub-machines.
unfoldable pub write_c_file_preambles :
    (Text → Text) → (CreatedFile → Bool) → Option Text → Files → Option Files
unfolding open_files write_preambles
write_c_file_preambles file_name_no_dir opens parent_h d =
    let sub_machine : Bool = elim parent_h [ none ↦ false | some name ↦ true ] in
    let (error, tried) = open_files opens sub_machine created_files d in
    let shared : Files =
      if sub_machine
      then record tried { file_array = set_file tried.file_array cf_pub_h (tried.file_array cf_h) }
      else tried in
    if error then some shared else write_preambles file_name_no_dir parent_h created_files shared

-- `initCMachine`: what it returns, and the data, or NULL.
unfoldable pub init_c_machine :
    Bool
    → (Text → Text)
    → (CreatedFile → Bool)
    → Text
    → (CreatedFile → Bool)
    → Option (ℕ × Option Files)
unfolding new_c_machine_data write_c_file_preambles
init_c_machine allocated file_name_no_dir opens file_name before =
    elim (new_c_machine_data allocated file_name before) [
      | none ↦ some (1, none)
      | some d ↦
          let pub_include : Text = include (name_text (d.file_name_array cf_pub_h)) in
          elim (and_then
            (and_then
              (and_then (write_c_file_preambles file_name_no_dir opens none d)
                (write cf_h pub_include))
              (write cf_sub_machine_h pub_include))
            (write cf_pub_h (include (name_text (d.file_name_array cf_events_h))))) [
              | none ↦ none
              | some started ↦ some (0, some started)
            ]
    ]

-- `initCSubMachine`, with the parent's data and that of the top-level machine: what it returns, the data,
-- or NULL, and the parent's data afterwards. The names of types that it takes from the parent are left
-- out.
unfoldable pub init_c_sub_machine :
    Bool
    → (Text → Text)
    → (CreatedFile → Bool)
    → Text
    → (CreatedFile → Bool)
    → Files
    → Files
    → Option (ℕ × Option Files × Files)
unfolding new_c_machine_data write_c_file_preambles
init_c_sub_machine allocated file_name_no_dir opens file_name before parent top_level =
    elim (new_c_machine_data allocated file_name before) [
      | none ↦ some (1, none, parent)
      | some d ↦
          let parent_h : Text = name_text (parent.file_name_array cf_sub_machine_h) in
          let top_include : Text =
            include (name_text (top_level.file_name_array cf_pub_h)) ++ codes "\n" in
          elim (and_then
            (and_then (write_c_file_preambles file_name_no_dir opens (some parent_h) d)
              (write cf_h top_include))
            (write cf_sub_machine_h top_include)) [
              | none ↦ none
              | some started ↦
                  some (0, some started, record parent { a_sub_machine_was_encountered = true })
            ]
    ]

-- `FCLOSE_AND_CLEAR` and `unlink`
unfoldable pub fclose_and_clear : CreatedFile → Files → Option Files
fclose_and_clear cf d = elim (d.file_array cf) [
  | none ↦ some d
  | some f ↦
      if d.is_open f
      then some (record d {
        file_array = set_file d.file_array cf none;
        is_open = set_file d.is_open f false;
      })
      else none
]

unfoldable pub unlink : CreatedFile → Files → Files
unlink cf d = elim (d.file_name_array cf) [
  | none ↦ d
  | some name ↦ record d { on_disk = set_file d.on_disk cf false }
]

unfoldable pub close_files : List CreatedFile → Files → Option Files
unfolding fclose_and_clear
close_files [] d = some d
close_files (cf ∷ cfs) d = and_then (fclose_and_clear cf d) (close_files cfs)

unfoldable pub unlink_files : List CreatedFile → Files → Files
unfolding unlink
unlink_files [] d = d
unlink_files (cf ∷ cfs) d = unlink_files cfs (unlink cf d)

abbrev pub guard_end : Text
guard_end = codes "\n#endif\n"

-- The public header, where there is one of its own.
unfoldable pub end_public_header : Files → Option Files
unfolding write
end_public_header d = elim (d.file_array cf_pub_h) [
  | none ↦ some d
  | some f ↦
      if same_stream (d.file_array cf_pub_h) (d.file_array cf_h)
      then some d
      else write cf_pub_h guard_end d
]

-- The header for sub-machines goes where there were none.
unfoldable pub drop_sub_machine_header : Files → Option Files
unfolding fclose_and_clear unlink
drop_sub_machine_header d =
    let closed : Option Files = fclose_and_clear cf_sub_machine_h d in
    if d.a_sub_machine_was_encountered
    then some d
    else and_then closed (λ d1. some (unlink cf_sub_machine_h d1))

-- The branch of `destroyCMachineData` for a machine that was written.
unfoldable pub finish_files : Files → Option Files
unfolding write end_public_header drop_sub_machine_header
finish_files d = and_then (write cf_h guard_end d) (λ d1.
    and_then (write cf_sub_machine_h guard_end d1) (λ d2.
      and_then (write cf_events_h guard_end d2)
        (λ d3. and_then (end_public_header d3) drop_sub_machine_header)))

-- What `destroyCMachineData` does whether or not the machine was written.
unfoldable pub close_and_free : Bool → Files → Option Files
unfolding close_files unlink_files
close_and_free good d =
    let alone : Files =
      if same_stream (d.file_array cf_pub_h) (d.file_array cf_h)
      then record d { file_array = set_file d.file_array cf_pub_h none }
      else d in
    and_then (close_files created_files alone) (λ d1.
      let kept : Files = if good then d1 else unlink_files created_files d1 in
      some (record kept { file_name_array = λ cf. none }))

-- `destroyCMachineData` of a machine's data.
unfoldable pub destroy_c_machine_data : Bool → Files → Option Files
unfolding finish_files close_and_free
destroy_c_machine_data good d =
    and_then (if good then finish_files d else some d) (close_and_free good)
