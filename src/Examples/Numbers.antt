-- ===== src/Examples/Numbers.antt =====
-- Identifiers, counters, densities and lookups by index, on concrete inputs.
use fsm_lang.Base.{
  ℕ, ◌+◌, ◌≤◌, ◌≡◌, refl, true, false, ◌∷◌, [], List, none, some, arith, ◌==◌, if◌then◌else◌, codes,
  contains, ◌≢◌,
}
use fsm_lang.IdTable.{IdInfo, Memory, find_first, outcome, lookup_id, add_id, add_unique_id}
use fsm_lang.IdTable.Lookup.{add_id-lookup_id}
use fsm_lang.IdTable.Unique.{reported, add_unique_id-true}
use fsm_lang.Counts.{
  Event, State, count_sub_machine_inhibitors, count_states_with_zero_events,
  count_states_with_one_event, count_states_with_no_way_out, count_states_with_no_way_in,
  count_states_with_entry_exit_fns,
}
use fsm_lang.Counts.Tally.{count_states-tally}
use fsm_lang.Density.{Machine, Density}
use fsm_lang.ByIndex.{
  Lists, pos, event_pid_by_index, state_pid_by_index, transition_pid_by_index, event_name_by_index,
  state_name_by_index, by_index-get_elem?,
}
use fsm_lang.Memory.{null, ok}
use fsm_lang.Examples.Lists.{
  three_lists, first_cells, second_cells, first-IsList, second-IsList, empty-IsList,
}

abbrev identifiers : List IdInfo
identifiers = record { address = 5; name = codes "open"; type = 2 } ∷ []

abbrev block : Memory
block = record { element = true; id_info = 9 }

nine : 9 ≢ null
nine = ground arith

add_id-lookup_id_example :
    let r = add_id block identifiers 3 (codes "closed") 0 in
    (lookup_id r.ids (codes "closed") 6 ≡ outcome r.value r.ppid_info r.ids)
    × (find_first (codes "open") r.ids ≡ find_first (codes "open") identifiers)
add_id-lookup_id_example =
    add_id-lookup_id block identifiers 3 (codes "closed") 0 6 (codes "open") nine refl
      (ground arith) (ground arith, tt) refl

add_unique_id-true_example :
    (add_unique_id block identifiers 3 (codes "open") 0
      ≡ reported block identifiers 3 (codes "open") (find_first (codes "open") identifiers))
    × ((add_unique_id block identifiers 3 (codes "open") 0).value ≡ true)
add_unique_id-true_example =
    add_unique_id-true block identifiers 3 (codes "open") 0 nine (ground arith, tt)

abbrev events : List Event
events =
    record {
      external_designation = true;
      psharing_sub_machines = true;
      shared_with_parent = false;
      puser_event_data = some (record { translator = true; data_fields = false });
      handling_states_count = 1;
    }
    ∷ record {
      external_designation = false;
      psharing_sub_machines = false;
      shared_with_parent = true;
      puser_event_data = none;
      handling_states_count = 0;
    }
    ∷ []

abbrev states : List State
states =
    record {
      state_flags = 2;
      events_handled_count = 1;
      inbound_transitions_count = 0;
      outbound_transitions_count = 1;
    }
    ∷ record {
      state_flags = 5;
      events_handled_count = 0;
      inbound_transitions_count = 0;
      outbound_transitions_count = 0;
    }
    ∷ []

count_states-tally_example :
    (count_sub_machine_inhibitors states 4 ≡ 5)
    × (count_states_with_zero_events states 4 ≡ 5)
    × (count_states_with_one_event states 4 ≡ 5)
    × (count_states_with_no_way_out states 4 ≡ 5)
    × (count_states_with_no_way_in states 4 ≡ 5)
    × (count_states_with_entry_exit_fns states (4, 7) ≡ (1, 1))
count_states-tally_example = count_states-tally states 4 7 (omega arith) (omega arith)

-- The state 3 handles the event 1; the state 4 handles neither event.
abbrev door : Machine
door = record {
  state_list = 3 ∷ 4 ∷ [];
  event_list = 1 ∷ 2 ∷ [];
  pevents_handled_count = λ s. if s == 3 then 1 else 0;
  phandling_states_count = λ e. if e == 1 then 1 else 0;
}

abbrev blank : Density
blank = record { density_pct = λ x. 0; average = 0 }

few_events : (x : ℕ) → contains (3 ∷ 4 ∷ []) x ≡ true → (if x == 3 then 1 else 0) ≤ 2
few_events x h = ground arith

few_states : (x : ℕ) → contains (1 ∷ 2 ∷ []) x ≡ true → (if x == 1 then 1 else 0) ≤ 2
few_states x h = ground arith

abbrev machine_lists : Lists
machine_lists = record { event_list = 1; state_list = 4; transition_list = 7 }

by_index-get_elem?_example :
    (event_pid_by_index (some machine_lists) (pos 1) three_lists ≡ ok 20 three_lists)
    × (state_pid_by_index (some machine_lists) (pos 1) three_lists ≡ ok 30 three_lists)
    × (transition_pid_by_index (some machine_lists) (pos 1) three_lists ≡ ok null three_lists)
    × (event_name_by_index (λ a. a + 100) (some machine_lists) (pos 1) three_lists
        ≡ ok 120 three_lists)
    × (state_name_by_index (λ a. a + 100) (some machine_lists) (pos 1) three_lists
        ≡ ok 130 three_lists)
by_index-get_elem?_example =
    by_index-get_elem? (λ a. a + 100) machine_lists (pos 1) three_lists first_cells second_cells []
      first-IsList second-IsList empty-IsList (omega arith) (omega arith) (omega arith)
