-- ===== src/Examples/Machines.antt =====
-- A machine with nested sub-machines, its event enumeration and its cross references.
use fsm_lang.Base.{
  ℕ, ◌+◌, ◌≡◌, refl, arith, true, false, none, some, List, [], ◌∷◌, ◌++◌, Text, codes,
  if◌then◌else◌, ltb, length,
}
use fsm_lang.Events.{
  EventInfo, Own, MachineInfo, MachineList, machine_info, no_machines, machine, as_top, as_sub,
  full_name, write_event_enum, assign_external_event_values, Helper, print_sub_machine_events,
}
use fsm_lang.Events.Nested.{with_last, print_sub_machine_events-collision}
use fsm_lang.Events.Enumerators.{sub_enumerators, lines, enum_lines, event_enum}
use fsm_lang.Events.Header.{enum_start, enum_end}
use fsm_lang.Events.Values.{Values, declare}
use fsm_lang.Events.Names.{sub_names, number, Declared, AllDeclared}
use fsm_lang.Events.Top.{all_names, names_behind, all_value, own_name, own_values}
use fsm_lang.Events.Numbered.{event_enum-numbered}
use fsm_lang.Events.Walk.{numbered_lines}
use fsm_lang.Events.Comment.{add_event_cross_reference}
use fsm_lang.Events.Commented.{comment_line, unchanged, comment_start, comment_end, top_commented}
use fsm_lang.Events.Returning.{add_event_cross_reference-numbered}
use fsm_lang.Events.Silent.{before_last, each_silent, add_event_cross_reference-silent}
use fsm_lang.Events.Designated.{add_event_cross_reference-designated}
use fsm_lang.Events.Finder.{
  InterfacesDeclared, find_and_run_sub_machine, find_and_run_sub_machine-owner,
}
use fsm_lang.EventXref.{json, write_c_event_xref, opening, closing}
use fsm_lang.EventXref.Indexed.{entry_lines, write_c_event_xref-numbered}
use fsm_lang.DebugNames.{MachineNames, write_debug_info}
use fsm_lang.DebugNames.Arrays.{debug_text}
use fsm_lang.DebugNames.Order.{write_debug_info-values}

abbrev event : Text → EventInfo
event n = record { name = n; external_designation = none }

abbrev plain_machine : Text → List EventInfo → Own
plain_machine n es = record {
  name = n;
  sub_machine_depth = 0;
  actions_return_states = false;
  actions_return_void = false;
  external_event_designation_count = 0;
  event_list = es;
  state_list = codes "idle" ∷ [];
}

-- `top` has the sub-machines `one` and `two`, and `two` has `leaf`.
abbrev root : Own
root = plain_machine (codes "top") (event (codes "go") ∷ event (codes "halt") ∷ [])

abbrev one : Own
one = plain_machine (codes "one") (event (codes "tick") ∷ [])

abbrev two : Own
two = plain_machine (codes "two") (event (codes "on") ∷ event (codes "off") ∷ [])

abbrev leaf : Own
leaf = plain_machine (codes "leaf") (event (codes "end") ∷ [])

abbrev children : MachineList
children =
    machine (machine_info one no_machines)
      (machine (machine_info two (machine (machine_info leaf no_machines) no_machines)) no_machines)

abbrev no_designation : Text → ℕ
no_designation d = 0

event_enum-numbered_example :
    (next : ℕ) × (vs : Values) × (write_event_enum false
        (machine_info root children)
        (codes "TOP_EVENT")
      ≡ enum_lines (enum_start (codes "TOP_EVENT")) (event_enum false (machine_info root children))
        ++ enum_end false (codes "TOP_EVENT"))
    × (declare no_designation (event_enum false (machine_info root children)) 0 []
        ≡ some (next, vs))
    × AllDeclared (own_values no_designation false root) vs
    × AllDeclared (number 2 (names_behind root children)) vs
    × Declared (own_name root (codes "numAllEvents"), all_value children 3) vs
event_enum-numbered_example =
    event_enum-numbered no_designation false root children (codes "TOP_EVENT") refl (omega arith)
      (omega arith)

write_c_event_xref-numbered_example :
    (write_c_event_xref json (machine_info root children)
      ≡ entry_lines json (opening json root) (number 0 (all_names root children)) ++ closing json)
    × (next : ℕ) × (vs : Values) × (declare no_designation
          (event_enum false (machine_info root children))
          0
          []
        ≡ some (next, vs))
    × AllDeclared (number 0 (all_names root children)) vs
unfolding assign_external_event_values
write_c_event_xref-numbered_example =
    write_c_event_xref-numbered json no_designation false root children refl (omega arith)
      (omega arith)

find_and_run_sub_machine-owner_example :
    (next : ℕ) × (vs : Values) × (interfaces : List (ℕ × ℕ)) × (v : ℕ) × (write_event_enum false
        (machine_info root children)
        (codes "TOP_EVENT")
      ≡ enum_lines (enum_start (codes "TOP_EVENT")) (event_enum false (machine_info root children))
        ++ enum_end false (codes "TOP_EVENT"))
    × (declare no_designation (event_enum false (machine_info root children)) 0 []
        ≡ some (next, vs))
    × InterfacesDeclared children (as_top root) interfaces vs
    × Declared (full_name (as_sub (as_top root) two) (codes "off"), v) vs
    × (find_and_run_sub_machine v interfaces 0 ≡ (
        if ltb 2 (
          length (
            sub_names
              (machine_info two (machine (machine_info leaf no_machines) no_machines))
              (as_top root)))
        then some 1
        else none))
find_and_run_sub_machine-owner_example =
    find_and_run_sub_machine-owner no_designation false root children (codes "TOP_EVENT")
      (machine_info two (machine (machine_info leaf no_machines) no_machines)) 1 1
      (full_name (as_sub (as_top root) two) (codes "off")) refl (omega arith) (omega arith)
      (refl, (refl, tt)) refl refl

add_event_cross_reference-numbered_example :
    (next : ℕ) × (vs : Values) × (add_event_cross_reference false (machine_info root children) ≡ (
      false,
      numbered_lines comment_line unchanged true comment_start (number 0 (all_names root children))
          ++ comment_end,
    ))
    × (declare no_designation (event_enum false (machine_info root children)) 0 []
        ≡ some (next, vs))
    × AllDeclared (number 0 (all_names root children)) vs
add_event_cross_reference-numbered_example =
    add_event_cross_reference-numbered no_designation false root children refl refl
      ((refl, tt), ((refl, ((refl, tt), tt)), tt)) (omega arith) (omega arith)

-- A sub-machine whose actions return nothing.
abbrev silent : Own
silent = record one { actions_return_void = true }

abbrev silent_child : MachineList
silent_child = machine (machine_info silent no_machines) no_machines

add_event_cross_reference-silent_example :
    (index : ℕ) × (next : ℕ) × (vs : Values) × (add_event_cross_reference false
        (machine_info root silent_child)
      ≡ (
        false,
        numbered_lines comment_line unchanged true comment_start
              (number 0 (before_last root silent_child))
            ++ comment_line true index (full_name (as_top root) (codes "numAllEvents"))
            ++ comment_end,
      ))
    × (declare no_designation (event_enum false (machine_info root silent_child)) 0 []
        ≡ some (next, vs))
    × Declared (full_name (as_top root) (codes "numAllEvents"), index + each_silent silent_child) vs
add_event_cross_reference-silent_example =
    add_event_cross_reference-silent no_designation false root (machine_info silent no_machines)
      no_machines refl refl (omega arith) (omega arith)

-- A machine whose one event has the value 5 from outside.
abbrev designated : Own
designated =
    record (plain_machine (codes "ext")
      (record { name = codes "go"; external_designation = some (codes "FIVE") } ∷ [])) {
        actions_return_void = true;
        external_event_designation_count = 1;
      }

abbrev five : Text → ℕ
five d = 5

add_event_cross_reference-designated_example :
    (next : ℕ) × (vs : Values) × (add_event_cross_reference false
        (machine_info designated no_machines)
      ≡ (if assign_external_event_values false designated
          then (
            false,
            numbered_lines comment_line unchanged true comment_start
                  (number 0 (top_commented designated no_machines))
                ++ comment_end,
          )
          else (true, [])))
    × (declare five (event_enum false (machine_info designated no_machines)) 0 [] ≡ some (next, vs))
    × AllDeclared (own_values five false designated) vs
add_event_cross_reference-designated_example =
    add_event_cross_reference-designated five false designated no_machines (omega arith) tt
      (omega arith)

abbrev root_names : MachineNames
root_names = record {
  uc_machine_name = codes "TOP";
  ucfq_machine_name = codes "TOP";
  uf_machine_name = codes "top";
  fq_machine_name = codes "top";
}

write_debug_info-values_example :
    (next : ℕ) × (vs : Values) × (write_debug_info false root_names
        (machine_info root children)
        (as_top root)
      ≡ debug_text false root_names root children)
    × (declare no_designation (event_enum false (machine_info root children)) 0 []
        ≡ some (next, vs))
    × Declared (full_name (as_sub (as_top root) one) (codes "tick"), 4) vs
unfolding assign_external_event_values
write_debug_info-values_example =
    write_debug_info-values false root_names no_designation false root children 4
      (as_sub (as_top root) one) (codes "tick") refl refl (omega arith) refl

-- `one` has the one sub-machine `two`, which has `leaf`; 4 enumerators were written before.
abbrev sibling : MachineList
sibling =
    machine (machine_info (plain_machine (codes "side") (event (codes "ring") ∷ [])) no_machines)
      no_machines

abbrev nested : MachineInfo
nested =
    machine_info one
      (with_last sibling (machine_info two (machine (machine_info leaf no_machines) no_machines)))

abbrev helper : Helper
helper = record { fout = []; pmi = as_top root; first = false; counter0 = 0 }

print_sub_machine_events-collision_example :
    (vs : Values) × ((print_sub_machine_events nested (as_top root) helper).fout
      ≡ lines [] (sub_enumerators nested (as_top root)))
    × (declare no_designation (sub_enumerators nested (as_top root)) 4 [] ≡ some (11, vs))
    × Declared (full_name (as_sub (as_top root) one) (codes "lastEvent"), 10) vs
    × Declared
        (full_name (as_sub (as_sub (as_sub (as_top root) one) two) leaf) (codes "firstEvent"), 11)
        vs
unfolding fsm_lang.Ancestry.print_name_with_ancestry fsm_lang.Ancestry.stream_str_case_aware
print_sub_machine_events-collision_example =
    print_sub_machine_events-collision one two leaf sibling no_machines no_machines (as_top root) 4
      [] no_designation (omega arith) (omega arith) refl refl (omega arith) helper

enumeration_text :
    write_event_enum false (machine_info root silent_child) (codes "TOP_EVENT")
    ≡ codes
        "typedef enum TOP_EVENT {\n\t top_go\n\t, top_halt\n\t, top_noEvent\n\t, top_numEvents\n"
      ++ codes
          "\t, top_one_firstEvent\n\t, top_one_tick = top_one_firstEvent\n\t, top_one_noEvent\n"
      ++ codes "\t, top_numAllEvents\n}  TOP_EVENT;\n\n"
unfolding write_event_enum fsm_lang.Sequence.iterate fsm_lang.Ancestry.print_name_with_ancestry
    fsm_lang.Ancestry.stream_str_case_aware
enumeration_text = refl
