-- ===== src/DebugNames.antt =====
-- The arrays of names that a generated machine has for debugging: `writeDebugInfo` of
-- src/fsm_c_common.c with `print_sub_machine_event_names` of src/fsm_utils.c.
pub mod Quoted
pub mod Arrays
pub mod Order
use fsm_lang.Base.{Bool, true, false, List, map, ◌++◌, if◌then◌else◌, Text, codes}
use fsm_lang.Ancestry.{Machine, alc_lower, inclusion, print_ancestry}
use fsm_lang.Sequence.{iterate}
use fsm_lang.Events.{
  EventInfo, Own, MachineInfo, MachineList, machine_info, no_machines, machine, as_sub,
  returns_events, Helper, write, at_first,
}

-- What `ucMachineName`, `ucfqMachineName`, `ufMachineName` and `fqMachineName` return for the machine.
pub record MachineNames : Type 0 where
  pub uc_machine_name : Text
  pub ucfq_machine_name : Text
  pub uf_machine_name : Text
  pub fq_machine_name : Text

-- `printAncestry(pih->pmi, pih->fout, "_", alc_lower, ai_include_self)`
abbrev pub write_ancestry : Helper → Helper
write_ancestry pih =
    write (print_ancestry pih.pmi (codes "_") alc_lower (inclusion true false false)).1 pih

-- The iterator of src/fsm_utils.c, with the global `short_dbg_names`.
unfoldable pub print_sub_machine_component_name : Bool → EventInfo → Helper → Bool × Helper
print_sub_machine_component_name short_dbg_names pid pih = (
  false,
  if short_dbg_names
      then write (codes "\t, \"" ++ pid.name ++ codes "\"\n") pih
      else write (codes "_" ++ pid.name ++ codes "\"\n")
          (write_ancestry (write (codes "\t, \"") pih)),
)

unfoldable pub cap_names_of : Bool → Helper → Helper
cap_names_of short_dbg_names pih =
    if short_dbg_names
    then write (codes "\t, \"noEvent\"\n") pih
    else write (codes "_noEvent\"\n") (write_ancestry (write (codes "\t, \"") pih))

-- `print_sub_machine_event_names`, which always returns false.
unfoldable mutual
  unfolding print_sub_machine_component_name cap_names_of

  pub print_sub_machine_event_names : Bool → MachineInfo → Machine → Helper → Helper
  print_sub_machine_event_names short_dbg_names (machine_info o subs) parent pih =
      each_event_names short_dbg_names subs (as_sub parent o) (
        cap_names_of short_dbg_names (
          iterate (print_sub_machine_component_name short_dbg_names) o.event_list
            (record pih { pmi = as_sub parent o; first = false })))

  pub each_event_names : Bool → MachineList → Machine → Helper → Helper
  each_event_names short_dbg_names no_machines pmi pih = pih
  each_event_names short_dbg_names (machine m rest) pmi pih =
      each_event_names short_dbg_names rest pmi
        (print_sub_machine_event_names short_dbg_names m pmi pih)

-- The two iterators over names of events and of states.
unfoldable pub print_quoted_pid_name_as_list_element : Text → Helper → Bool × Helper
print_quoted_pid_name_as_list_element n pih =
    (false, write (codes "\"" ++ n ++ codes "\"\n") (at_first (codes "\t ") (codes "\t,") pih))

unfoldable pub print_quoted_pid_name_with_ancestry_as_list_element :
    MachineNames → Text → Helper → Bool × Helper
print_quoted_pid_name_with_ancestry_as_list_element names n pih = (
  false,
  write (codes "\"" ++ names.uf_machine_name ++ codes "_" ++ n ++ codes "\"\n")
      (at_first (codes "\t ") (codes "\t,") pih),
)

abbrev pub name_of : EventInfo → Text
name_of e = e.name

-- The events and states of a machine by their names, as the iterators read them.
abbrev pub names_of : List EventInfo → List Text
names_of = map name_of

abbrev pub restart : Helper → Helper
restart pih = record pih { first = true }

-- What stands in the arrays behind the events and behind the states.
unfoldable pub cap_event_names_short : Own → Helper → Helper
cap_event_names_short o pih =
    write (codes "\t, \"numEvents\"\n")
      (if returns_events o then write (codes "\t, \"noEvent\"\n") pih else pih)

unfoldable pub cap_event_names_long : Own → Helper → Helper
cap_event_names_long o pih =
    write (codes "\t, \"" ++ o.name ++ codes "_numEvents\"\n") (
      if returns_events o
      then write (codes "\t, \"" ++ o.name ++ codes "_noEvent\"\n") pih
      else pih)

unfoldable pub cap_state_names_short : Own → Helper → Helper
cap_state_names_short o pih =
    if o.actions_return_states then write (codes "\t,\"noTransition\"\n") pih else pih

unfoldable pub cap_state_names_long : MachineNames → Own → Helper → Helper
cap_state_names_long names o pih =
    if o.actions_return_states
    then write (codes "\t, \"" ++ names.fq_machine_name ++ codes "_noTransition\"\n") pih
    else pih

-- The end of the one array and the start of the other; the end of the text.
abbrev pub state_names_start : MachineNames → Helper → Helper
state_names_start names pih = restart (
    write (codes "char *" ++ names.uc_machine_name ++ codes "_STATE_NAMES[] = {\n")
      (write (codes "};\n\n") pih))

abbrev pub debug_end : Helper → Text
debug_end pih = (write (codes "#endif\n") (write (codes "};\n\n") pih)).fout

abbrev pub debug_start : Text → MachineNames → Machine → Helper
debug_start debug names pmi = record {
  fout =
      codes "\n#ifdef "
      ++ debug
      ++ codes "_DEBUG\nchar *"
      ++ names.uc_machine_name
      ++ codes "_EVENT_NAMES[] = {\n";
  pmi = pmi;
  first = true;
  counter0 = 0;
}

-- `writeDebugInfoShort`
unfoldable pub write_debug_info_short : MachineNames → MachineInfo → Machine → Text
unfolding print_quoted_pid_name_as_list_element print_sub_machine_event_names each_event_names
    cap_event_names_short cap_state_names_short
write_debug_info_short names (machine_info o subs) pmi = debug_end (
    cap_state_names_short o (
      iterate print_quoted_pid_name_as_list_element o.state_list (
        state_names_start names (
          each_event_names true subs pmi (
            cap_event_names_short o (
              iterate print_quoted_pid_name_as_list_element (names_of o.event_list)
                (debug_start names.uc_machine_name names pmi)))))))

-- `writeDebugInfoLong`. That `pmi` is set before the iterations that do not read it is left out.
unfoldable pub write_debug_info_long : MachineNames → MachineInfo → Machine → Text
unfolding print_quoted_pid_name_with_ancestry_as_list_element print_sub_machine_event_names
    each_event_names cap_event_names_long cap_state_names_long
write_debug_info_long names (machine_info o subs) pmi = debug_end (
    cap_state_names_long names o (
      iterate (print_quoted_pid_name_with_ancestry_as_list_element names) o.state_list (
        state_names_start names (
          each_event_names false subs pmi (
            cap_event_names_long o (
              iterate (print_quoted_pid_name_with_ancestry_as_list_element names)
                (names_of o.event_list) (debug_start names.ucfq_machine_name names pmi)))))))

-- `writeDebugInfo`
unfoldable pub write_debug_info : Bool → MachineNames → MachineInfo → Machine → Text
unfolding write_debug_info_short write_debug_info_long
write_debug_info short_dbg_names names m pmi =
    if short_dbg_names
    then write_debug_info_short names m pmi
    else write_debug_info_long names m pmi
