-- ===== src/EventXref.antt =====
-- src/fsm_c_event_xref.c: the cross reference of events, in one of four formats.
pub mod Entries
pub mod Indexed
pub mod Formats
use fsm_lang.Base.{
  ℕ, ◌+◌, Bool, true, false, Option, none, some, List, [], ◌∷◌, ◌++◌, if◌then◌else◌, u32, Text,
  codes, text_eq, decimal,
}
use fsm_lang.Ancestry.{Machine, name}
use fsm_lang.FileNames.{FileName, create_file_name}
use fsm_lang.Sequence.{iterate}
use fsm_lang.Events.{
  EventInfo, Own, MachineInfo, MachineList, machine_info, no_machines, machine, as_top, as_sub,
  returns_events, Helper, write, write_name, at_first, count_entry,
}

-- The writers of `xref_writers`, in the order of `supported_formats`.
pub data Format : Type 0 where
  json csv tab xml : Format

abbrev pub suffix : Format → Text
suffix json = codes ".json"
suffix csv = codes ".csv"
suffix tab = codes ".tab"
suffix xml = codes ".xml"

-- `*psf + 1`
abbrev pub behind_dot : Text → Text
behind_dot [] = []
behind_dot (c ∷ s) = s

-- What is returned, and where `psf` and `pxref_writer` stand after the loop: at `none`, the NULL at the
-- end, if the format was not found.
unfoldable pub find_format : Text → List Format → Bool × Option Format
find_format fmt [] = (false, none)
find_format fmt (f ∷ fs) =
    if text_eq fmt (behind_dot (suffix f)) then (true, some f) else find_format fmt fs

unfoldable pub check_requested_xref_format : Text → Bool × Option Format
unfolding find_format
check_requested_xref_format fmt = find_format fmt (json ∷ csv ∷ tab ∷ xml ∷ [])

unfoldable pub print_xref_entry_json : Text → Helper → Helper
print_xref_entry_json n pih = write (codes "\" }\n") (
    write_name n (
      count_entry (
        write (codes "{ \"index\": \"" ++ decimal pih.counter0 ++ codes "\", \"name\": \"")
          (at_first (codes "  ") (codes ", ") pih))))

unfoldable pub print_xref_entry_csv : Text → Helper → Helper
print_xref_entry_csv n pih =
    write (codes "\n") (write_name n (count_entry (write (decimal pih.counter0 ++ codes ",") pih)))

unfoldable pub print_xref_entry_tab : Text → Helper → Helper
print_xref_entry_tab n pih =
    write (codes "\n") (write_name n (count_entry (write (decimal pih.counter0 ++ codes "\t") pih)))

unfoldable pub print_xref_entry_xml : Text → Helper → Helper
print_xref_entry_xml n pih = write (codes "'/>\n") (
    write_name n (
      count_entry
        (write (codes "<event_xref index='" ++ decimal pih.counter0 ++ codes "' name='") pih)))

-- `(*pxref_writer)->entry_writer`
unfoldable pub entry_writer : Format → Text → Helper → Helper
unfolding print_xref_entry_json print_xref_entry_csv print_xref_entry_tab print_xref_entry_xml
entry_writer json = print_xref_entry_json
entry_writer csv = print_xref_entry_csv
entry_writer tab = print_xref_entry_tab
entry_writer xml = print_xref_entry_xml

-- `print_event_xref_json` and the three like it.
unfoldable pub print_event_xref : Format → EventInfo → Helper → Bool × Helper
unfolding entry_writer
print_event_xref f event pih = (false, entry_writer f event.name pih)

-- `iterate_sub_machines`, which always returns false, on a machine whose `parent` is given.
unfoldable mutual
  unfolding print_event_xref

  pub iterate_sub_machines : Format → MachineInfo → Machine → Helper → Helper
  iterate_sub_machines f (machine_info o subs) parent pih =
      record (each_sub_machine f subs (as_sub parent o) (
        entry_writer f (codes "noEvent")
          (iterate (print_event_xref f) o.event_list (record pih { pmi = as_sub parent o })))) {
            pmi = pih.pmi;
          }

  -- `iterate_list(machine_list, iterate_sub_machines, pih)`, if there is a list.
  pub each_sub_machine : Format → MachineList → Machine → Helper → Helper
  each_sub_machine f no_machines pmi pih = pih
  each_sub_machine f (machine m rest) pmi pih =
      each_sub_machine f rest pmi (iterate_sub_machines f m pmi pih)

unfoldable pub complete_top_level : Format → Own → Helper → Helper
unfolding entry_writer
complete_top_level f o pih =
    entry_writer f (codes "numEvents")
      (if returns_events o then entry_writer f (codes "noEvent") pih else pih)

unfoldable pub process_any_sub_machines : Format → MachineList → Machine → Helper → Helper
unfolding entry_writer each_sub_machine iterate_sub_machines
process_any_sub_machines f no_machines pmi pih = pih
process_any_sub_machines f (machine m rest) pmi pih =
    entry_writer f (codes "numAllEvents") (each_sub_machine f (machine m rest) pmi pih)

-- What the four writers write before and behind the entries.
abbrev pub opening : Format → Own → Text
opening json o = codes "{\n\"event_xrefs\":[\n"
opening csv o = []
opening tab o = []
opening xml o = codes "<event_xrefs machine_name='" ++ o.name ++ codes "'>\n"

abbrev pub closing : Format → Text
closing json = codes "]\n}\n"
closing csv = codes "\n"
closing tab = codes "\n"
closing xml = codes "</event_xrefs>\n"

-- Only the JSON writer sets `first`.
abbrev pub starts_first : Format → Bool
starts_first json = true
starts_first csv = false
starts_first tab = false
starts_first xml = false

-- `writeCEventXRef`: the text of the file.
unfoldable pub write_c_event_xref : Format → MachineInfo → Text
unfolding print_event_xref complete_top_level process_any_sub_machines
write_c_event_xref f (machine_info o subs) =
    let ih : Helper = record {
      fout = opening f o;
      pmi = as_top o;
      first = starts_first f;
      counter0 = 0;
    } in
    (write (closing f) (
      process_any_sub_machines f subs (as_top o)
        (complete_top_level f o (iterate (print_event_xref f) o.event_list ih)))).fout

-- The writer's file: its name and whether it exists and is open.
pub record Output : Type 0 where
  pub fname : Option FileName
  pub exists_on_disk : Bool
  pub is_open : Bool

-- `initCEventXRefWriter`: whether memory can be had and the file can be opened are arguments.
unfoldable pub init_c_event_xref_writer : Bool → Bool → Format → Text → Output → ℕ × Output
init_c_event_xref_writer memory opens f base out =
    let named : Output = record out {
      fname = some (create_file_name memory (some base) (suffix f));
    } in
    if opens
    then (0, record named { exists_on_disk = true; is_open = true })
    else (1, record named { is_open = false })

-- `closeCEventXRefWriter`
unfoldable pub close_c_event_xref_writer : Bool → Output → Output
close_c_event_xref_writer good out = record out {
  is_open = false;
  exists_on_disk = if good then out.exists_on_disk else false;
  fname = none;
}
