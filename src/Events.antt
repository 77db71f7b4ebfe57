-- ===== src/Events.antt =====
-- The events of a machine and of all its sub-machines, as the C generators number and name them:
-- `print_machine_component`, `print_sub_machine_event` and `print_sub_machine_events` of
-- src/fsm_utils.c, and the event enumeration of `commonHeaderStart` of src/fsm_c_common.c. What is written to a stream is
-- collected as a text.
pub mod Enumerators
pub mod Written
pub mod Header
pub mod Values
pub mod Blocks
pub mod Names
pub mod Top
pub mod Walk
pub mod Comment
pub mod Commented
pub mod Returning
pub mod Silent
pub mod Designated
pub mod Finder
pub mod Nested
pub mod Numbered
use fsm_lang.Base.{
  ℕ, zero, suc, ◌+◌, Bool, true, false, not, ◌&&◌, ◌||◌, Option, none, some, List, [], ◌∷◌, ◌++◌,
  ◌==◌, if◌then◌else◌, u32, length, Text, codes, decimal,
}
use fsm_lang.Ancestry.{
  Machine, top, sub, name, alc_lower, inclusion, print_ancestry, print_name_with_ancestry,
}
use fsm_lang.Sequence.{iterate}
use fsm_lang.Counts.{with_ordinals}

-- The `ID_INFO` of an event: its name, and that of its external designation unless it is NULL.
pub record EventInfo : Type 0 where
  pub name : Text
  pub external_designation : Option Text

-- What the code reads of a `MACHINE_INFO`, its sub-machines and its parent apart.
pub record Own : Type 0 where
  pub name : Text
  pub sub_machine_depth : ℕ
  pub actions_return_states : Bool
  pub actions_return_void : Bool
  pub external_event_designation_count : ℕ
  pub event_list : List EventInfo
  pub state_list : List Text

-- `struct _machine_info_` with its `machine_list`, which is NULL where there are no sub-machines.
mutual
  pub data MachineInfo : Type 0 where
    machine_info : Own → MachineList → MachineInfo

  pub data MachineList : Type 0 where
    no_machines : MachineList
    machine : MachineInfo → MachineList → MachineList

abbrev pub own : MachineInfo → Own
own (machine_info o subs) = o

-- A machine as its sub-machines see it through their `parent`.
abbrev pub as_top : Own → Machine
as_top o = top o.name o.sub_machine_depth

abbrev pub as_sub : Machine → Own → Machine
as_sub parent o = sub parent o.name o.sub_machine_depth

-- `LAST_LIST_MEMBER` of a list that is not empty.
abbrev pub last_member : MachineInfo → MachineList → MachineInfo
last_member m no_machines = m
last_member m (machine n rest) = last_member n rest

-- `!(modFlags & mfActionsReturnStates) && !(modFlags & mfActionsReturnVoid)`
abbrev pub returns_events : Own → Bool
returns_events o = not o.actions_return_states && not o.actions_return_void

-- `ITERATOR_HELPER`, with what was written to its stream.
pub record Helper : Type 0 where
  pub fout : Text
  pub pmi : Machine
  pub first : Bool
  pub counter0 : ℕ

abbrev pub write : Text → Helper → Helper
write s pih = record pih { fout = pih.fout ++ s }

-- `printNameWithAncestry(n, pih->pmi, pih->fout, "_", alc_lower, ai_include_self)`
abbrev pub full_name : Machine → Text → Text
full_name pmi n = print_name_with_ancestry n pmi (codes "_") alc_lower (inclusion true false false)

abbrev pub write_name : Text → Helper → Helper
write_name n pih = write (full_name pih.pmi n) pih

-- `print_machine_component`, which nothing sets `first` for.
unfoldable pub print_machine_component : EventInfo → Helper → Bool × Helper
print_machine_component pid pih = (
  false,
  write
      ((if pih.first then [] else codes ",") ++ name pih.pmi ++ codes "_" ++ pid.name ++ codes "\n")
      pih,
)

-- The iterator over a list of events; the element brings its ordinal.
unfoldable pub print_sub_machine_event : ℕ × EventInfo → Helper → Bool × Helper
print_sub_machine_event (ordinal, pid) pih =
    let begun = write (codes "\t, ") pih in
    let named =
      if ordinal == 0
      then write_name (codes "firstEvent") (
          write (codes " = ")
            (write_name pid.name (write (codes "\n\t, ") (write_name (codes "firstEvent") begun))))
      else write_name pid.name begun in
    (false, write (codes "\n") named)

-- `print_sub_machine_events`, which always returns false. The parent is what the machine's `parent`
-- points to; `nested_events` is the branch where there are sub-machines.
unfoldable mutual
  unfolding print_sub_machine_event

  pub print_sub_machine_events : MachineInfo → Machine → Helper → Helper
  print_sub_machine_events (machine_info o subs) parent pih = nested_events subs (as_sub parent o) (
      write (codes "\n") (
        write_name (codes "noEvent") (
          write (codes "\t, ") (
            iterate print_sub_machine_event (with_ordinals 0 o.event_list)
              (record pih { pmi = as_sub parent o; first = false })))))

  pub nested_events : MachineList → Machine → Helper → Helper
  nested_events no_machines pmi pih = pih
  nested_events (machine m rest) pmi pih = write (codes "\n") (
      write (full_name (as_sub pmi (own (last_member m rest))) (codes "noEvent")) (
        write (codes " = ") (
          write_name (codes "lastEvent") (
            write (codes "\t, ")
              (record (each_sub_machine_events rest pmi (print_sub_machine_events m pmi pih)) {
                pmi = pmi;
              })))))

  -- `iterate_list(machine_list, print_sub_machine_events, pih)`
  pub each_sub_machine_events : MachineList → Machine → Helper → Helper
  each_sub_machine_events no_machines pmi pih = pih
  each_sub_machine_events (machine m rest) pmi pih =
      each_sub_machine_events rest pmi (print_sub_machine_events m pmi pih)

-- `assignExternalEventValues`, with the global `compact_action_array`. `unsigned` counts are compared.
unfoldable pub assign_external_event_values : Bool → Own → Bool
assign_external_event_values compact_action_array o =
    (o.actions_return_states || o.actions_return_void)
    && length o.event_list == o.external_event_designation_count
    && not compact_action_array

-- `externalDesignation->name`, which is read only where each event has a designation.
abbrev pub designation_name : EventInfo → Text
designation_name e = elim e.external_designation [ none ↦ [] | some d ↦ d ]

-- `(first = false, a) : b`
abbrev pub at_first : Text → Text → Helper → Helper
at_first a b pih = record (write (if pih.first then a else b) pih) { first = false }

-- `(*counter0)++` on an `unsigned`, whose value before is written.
abbrev pub count_entry : Helper → Helper
count_entry pih = record pih { counter0 = u32 (pih.counter0 + 1) }

unfoldable pub print_event_enum_member : Bool → Own → EventInfo → Helper → Bool × Helper
unfolding assign_external_event_values
print_event_enum_member compact_action_array o e pih = (
  false,
  let named = write (name pih.pmi) (at_first (codes "\t ") (codes "\t, ") pih) in
      if assign_external_event_values compact_action_array o
      then write (codes "_" ++ e.name ++ codes " = " ++ designation_name e ++ codes "\n") named
      else write (codes "_" ++ e.name ++ codes "\n") named,
)

abbrev pub has_machines : MachineList → Bool
has_machines no_machines = false
has_machines (machine m rest) = true

-- A top-level machine has `machineName` for its name.
unfoldable pub cap_events : Own → Helper → Helper
cap_events o pih =
    if returns_events o then write (codes "\t, " ++ o.name ++ codes "_noEvent\n") pih else pih

unfoldable pub number_events : Bool → Own → Helper → Helper
number_events compact_action_array o pih =
    let numbered = write (codes "\t, " ++ o.name ++ codes "_numEvents") pih in
    write (codes "\n") (
      if assign_external_event_values compact_action_array o
      then write (codes " = " ++ decimal (length o.event_list)) numbered
      else numbered)

unfoldable pub number_all_events : Own → MachineList → Helper → Helper
number_all_events o subs pih =
    let ended = write (codes "\t, " ++ o.name ++ codes "_numAllEvents") pih in
    if has_machines subs
    then write (codes "\n") ended
    else write (codes " = " ++ o.name ++ codes "_numEvents\n") ended

-- The part of `commonHeaderStart` between `typedef enum` and the enumeration's name, which goes to the
-- events header.
unfoldable pub write_event_enum : Bool → MachineInfo → Text → Text
unfolding print_event_enum_member print_sub_machine_events nested_events each_sub_machine_events
    cap_events number_events number_all_events
write_event_enum compact_action_array (machine_info o subs) event_type =
    let started : Helper = record {
      fout = codes "typedef enum " ++ event_type ++ codes " {\n";
      pmi = as_top o;
      first = true;
      counter0 = 0;
    } in
    (write
      (codes "}"
        ++ (if compact_action_array then codes "__attribute__((__packed__)) " else codes " ")
        ++ codes " "
        ++ event_type
        ++ codes ";\n\n")
      (number_all_events o subs (
        each_sub_machine_events subs (as_top o) (
          number_events compact_action_array o (
            cap_events o (
              iterate (print_event_enum_member compact_action_array o) o.event_list
                started)))))).fout
