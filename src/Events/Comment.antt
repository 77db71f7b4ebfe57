-- ===== src/Events/Comment.antt =====
-- The comment with the cross reference of events in the events header: `addEventCrossReference` of
-- src/fsm_c_common.c.
use fsm_lang.Base.{
  Bool, true, false, not, ◌&&◌, [], ◌++◌, ltb, if◌then◌else◌, Text, codes, decimal, pad_left,
}
use fsm_lang.Ancestry.{Machine, alc_lower, inclusion, print_ancestry}
use fsm_lang.Sequence.{iterate}
use fsm_lang.Events.{
  EventInfo, Own, MachineInfo, MachineList, machine_info, no_machines, machine, as_top, as_sub,
  returns_events, assign_external_event_values, Helper, write, count_entry,
}

unfoldable pub print_event_cross_reference_entry : Text → Helper → Helper
print_event_cross_reference_entry event_name pih = write (codes "_" ++ event_name ++ codes "\n") (
    write (print_ancestry pih.pmi (codes "_") alc_lower (inclusion true false false)).1
      (count_entry (write (codes "\t" ++ pad_left 5 (decimal pih.counter0) ++ codes "  ") pih)))

unfoldable pub print_event_cross_reference : EventInfo → Helper → Bool × Helper
unfolding print_event_cross_reference_entry
print_event_cross_reference event pih = (false, print_event_cross_reference_entry event.name pih)

-- The test that both the machine and its sub-machines make.
unfoldable pub cap_cross_reference : Own → Helper → Helper
unfolding print_event_cross_reference_entry
cap_cross_reference o pih =
    if returns_events o then print_event_cross_reference_entry (codes "noEvent") pih else pih

-- `print_sub_machine_event_cross_reference`, which always returns false; `pmi` is the machine itself
-- again only where it has sub-machines, and was not changed where it has none.
unfoldable mutual
  unfolding print_event_cross_reference cap_cross_reference

  pub print_sub_machine_event_cross_reference : MachineInfo → Machine → Helper → Helper
  print_sub_machine_event_cross_reference (machine_info o subs) parent pih =
      record (each_cross_reference subs (as_sub parent o) (
        cap_cross_reference o (
          iterate print_event_cross_reference o.event_list
            (record pih { pmi = as_sub parent o })))) { pmi = as_sub parent o }

  pub each_cross_reference : MachineList → Machine → Helper → Helper
  each_cross_reference no_machines pmi pih = pih
  each_cross_reference (machine m rest) pmi pih =
      each_cross_reference rest pmi (print_sub_machine_event_cross_reference m pmi pih)

-- The branch where there are sub-machines.
unfoldable pub sub_machines_cross_reference : MachineList → Machine → Helper → Helper
unfolding each_cross_reference print_event_cross_reference_entry
sub_machines_cross_reference no_machines pmi pih = pih
sub_machines_cross_reference (machine m rest) pmi pih =
    print_event_cross_reference_entry (codes "numAllEvents")
      (record (each_cross_reference (machine m rest) pmi pih) { pmi = pmi })

-- Whether the warning is given instead, and what is written.
unfoldable pub add_event_cross_reference : Bool → MachineInfo → Bool × Text
unfolding assign_external_event_values print_event_cross_reference cap_cross_reference
    sub_machines_cross_reference
add_event_cross_reference compact_action_array (machine_info o subs) =
    let ih : Helper = record {
      fout = codes "/*\n\tEvent Cross Reference:\n\n";
      pmi = as_top o;
      first = true;
      counter0 = 0;
    } in
    if ltb 0 o.external_event_designation_count
      && not (assign_external_event_values compact_action_array o)
    then (true, [])
    else (
      false,
      (write (codes "\n*/\n") (
          sub_machines_cross_reference subs (as_top o) (
            print_event_cross_reference_entry (codes "numEvents")
              (cap_cross_reference o (iterate print_event_cross_reference o.event_list ih))))).fout,
    )
