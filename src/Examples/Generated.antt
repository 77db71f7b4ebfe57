-- ===== src/Examples/Generated.antt =====
-- The generated array and loop of a machine with two events and two states, on the populated array of
-- module `Arrays`.
use fsm_lang.Base.{
  ℕ, suc, ◌+◌, ◌<◌, ◌≡◌, refl, arith, true, false, Option, none, some, List, [], ◌∷◌, ◌++◌, map,
  leb, ◌-◌, ◌==◌, if◌then◌else◌, length, get_elem?, Text, codes, inl, inr, ◌⊎◌, Bool-cases,
}
use fsm_lang.ActionArray.{populate_action_array}
use fsm_lang.ActionTable.{Settings, array_start, define_action_array}
use fsm_lang.ActionTable.Rendered.{Cells, Rows, render_rows, cells, rows, define_action_array-rows}
use fsm_lang.ActionTable.Cells.{Actionable, cell_text}
use fsm_lang.ActionTable.Compiled.{define_action_array-populated}
use fsm_lang.ActionTable.Compact.{
  enum_open, array_open, declare_action_fn_enum, define_action_fn_array, declare_transition_fn_enum,
  define_transition_fn_array,
}
use fsm_lang.ActionTable.Compact.Indexed.{
  members, named, action_enumerator, user_function, fn_enumerator, state_enumerator, state_function,
  action_fns-indexed, transition_fns-indexed,
}
use fsm_lang.Events.{Own, machine_info, no_machines, as_top, full_name}
use fsm_lang.Events.Enumerators.{event_enum}
use fsm_lang.Events.Values.{Values, declare}
use fsm_lang.Events.Names.{Declared}
use fsm_lang.StateMachine.{Fsm, Entry, to_state, Program, returned, running, fsm_loop, sub_fsm_loop}
use fsm_lang.StateMachine.Rounds.{settled}
use fsm_lang.StateMachine.Stuck.{fsm_loop-inhibited}
use fsm_lang.StateMachine.Steps.{fsm_loop-returned, sub_fsm_loop-returned}
use fsm_lang.StateMachine.Compiled.{target, generated_array, fsm_loop-populated}
use fsm_lang.CFiles.{Files, cf_c, init_c_machine, destroy_c_machine_data}
use fsm_lang.CFiles.Start.{write_texts}
use fsm_lang.CFiles.Closing.{Closed, kept_files, destroy_c_machine_data-init}
use fsm_lang.Examples.Arrays.{door, blank}

abbrev plain : Settings
plain = record {
  compact_action_array = false;
  actions_return_states = false;
  transition_fn_count = 0;
  machine_name = codes "door";
  action_fn_type = codes "DOOR_ACTION_FN";
  action_trans_type = codes "DOOR_ACTION_TRANS";
}

actionable : (pai : ℕ) → Actionable plain door pai
actionable pai = (7, refl, refl)

abbrev filled : ℕ → ℕ → Option ℕ
filled = (populate_action_array door blank).action_array

define_action_array-rows_example :
    define_action_array plain door filled
    ≡ some (
        array_start plain door
        ++ render_rows (rows plain door filled door.event_list 0)
        ++ codes "};\n")
define_action_array-rows_example =
    define_action_array-rows plain door filled (omega arith) (omega arith)
      (λ i j pai h. actionable pai)

define_action_array-populated_example :
    let table : Rows = rows plain door filled door.event_list 0 in
    let row : Cells = cells plain door (filled 1) door.state_list 0 in
    (define_action_array plain door filled
      ≡ some (array_start plain door ++ render_rows table ++ codes "};\n"))
    × (length table ≡ 2)
    × (get_elem? table 1 ≡ some (codes "open", row))
    × (length row ≡ 2)
    × (get_elem? row 0 ≡ some (codes "open", cell_text plain door (some 5) 0))
unfolding populate_action_array fsm_lang.Sequence.iterate fsm_lang.Sequence.append
    fsm_lang.Counts.enumerate_pid_list
define_action_array-populated_example =
    define_action_array-populated plain door blank 5 2 3 refl refl (omega arith) (omega arith)
      (λ i j pai h. actionable pai) refl refl refl refl

abbrev two_actions : List Text
two_actions = codes "lock" ∷ [] ∷ codes "open" ∷ []

action_fns-indexed_example :
    let enumerators : List Text = map (action_enumerator (codes "door")) (named two_actions) in
    let functions : List Text = map user_function (named two_actions) in
    (declare_action_fn_enum (codes "door") (codes "FN") two_actions
      ≡ enum_open
        ++ members [] true enumerators
        ++ codes ", THIS(noAction_e)\n"
        ++ codes "} __attribute__((__packed__)) "
        ++ codes "FN"
        ++ codes "_E;\n\n")
    × (define_action_fn_array (codes "FN") two_actions
        ≡ array_open (codes "FN") (codes "THIS(action_fns)")
          ++ members (codes "\t") true functions
          ++ codes "\t,  THIS(noAction)\n};\n\n")
    × ((i : ℕ) (a : Text)
        → get_elem? (named two_actions) i ≡ some a
        → (get_elem? enumerators i ≡ some (action_enumerator (codes "door") a))
          × (get_elem? functions i ≡ some (user_function a)))
action_fns-indexed_example = action_fns-indexed (codes "door") (codes "FN") two_actions

abbrev choose : List Text
choose = codes "choose" ∷ []

transition_fns-indexed_example :
    let enumerators : List Text = map fn_enumerator choose ++ map state_enumerator two_actions in
    let functions : List Text =
      map user_function choose ++ map (state_function (codes "door")) two_actions in
    (declare_transition_fn_enum (codes "T") choose two_actions
      ≡ enum_open
        ++ members [] true enumerators
        ++ codes ", THIS(noTransition_e)\n"
        ++ codes "} __attribute__ (( __packed__ )) "
        ++ codes "T"
        ++ codes "_E;\n\n")
    × (define_transition_fn_array (codes "door") (codes "T") choose two_actions
        ≡ array_open (codes "T") (codes "door" ++ codes "_transition_fns")
          ++ members (codes "\t") true functions
          ++ codes "\t, "
          ++ codes "door"
          ++ codes "_noTransitionFn\n"
          ++ codes "};\n\n")
    × ((i : ℕ) (t : Text)
        → get_elem? choose i ≡ some t
        → (get_elem? enumerators i ≡ some (fn_enumerator t))
          × (get_elem? functions i ≡ some (user_function t)))
    × ((i : ℕ) (t : Text)
        → get_elem? two_actions i ≡ some t
        → (get_elem? enumerators (length choose + i) ≡ some (state_enumerator t))
          × (get_elem? functions (length choose + i) ≡ some (state_function (codes "door") t)))
transition_fns-indexed_example =
    transition_fns-indexed (codes "door") (codes "T") choose two_actions

-- The user's action counts its calls and returns `noEvent`, which is 2.
abbrev count_calls : ℕ → Fsm ℕ → ℕ × Fsm ℕ
count_calls a pfsm = (2, record pfsm { fsm_data = suc pfsm.fsm_data })

abbrev door_program : Program ℕ
door_program = record {
  action_array = generated_array door count_calls 2 filled;
  no_event = 2;
  executes_fns_on_state_transitions = true;
  machine_transition = none;
  run_appropriate_exit_function = some (λ d s. d + 10);
  run_appropriate_entry_function = none;
  has_sub_machines = false;
  submachine_inhibitor_count = 0;
  inhibits_sub_machines = λ s. false;
  find_and_run_sub_machine = λ pfsm e. (2, pfsm);
}

-- What the event enumeration reads of the same machine.
abbrev door_events : Own
door_events = record {
  name = codes "door";
  sub_machine_depth = 0;
  actions_return_states = false;
  actions_return_void = false;
  external_event_designation_count = 0;
  event_list =
      record { name = door.name 1; external_designation = none }
      ∷ record { name = door.name 2; external_designation = none }
      ∷ [];
  state_list = [];
}

abbrev at_first_state : Fsm ℕ
at_first_state = record { fsm_data = 0; state = 0; event = 0 }

fsm_loop-populated_example :
    let seen : Fsm ℕ = record at_first_state { event = 1 } in
    let next : ℕ = target door 5 0 in
    (last : ℕ) × (vs : Values) × (declare
        (λ d. 0)
        (event_enum false (machine_info door_events no_machines))
        0
        []
      ≡ some (last, vs))
    × Declared (full_name (as_top door_events) (codes "open"), 1) vs
    × Declared (full_name (as_top door_events) (codes "noEvent"), 2) vs
    × (fsm_loop door_program 2 1 at_first_state
        ≡ fsm_loop door_program 1 2 (settled door_program (count_calls 7 seen).1 next))
    × ((settled door_program (count_calls 7 seen).1 next).state ≡ next)
unfolding populate_action_array fsm_lang.Sequence.iterate fsm_lang.Sequence.append
    fsm_lang.Counts.enumerate_pid_list fsm_lang.Events.assign_external_event_values
fsm_loop-populated_example =
    fsm_loop-populated (λ d. 0) false door_events no_machines door blank door_program count_calls 5
      7 2 3 1 at_first_state refl (omega arith) refl refl refl refl refl refl refl refl refl
      (λ i j. refl) refl refl refl refl

-- In each state the event 0 goes to state 1, the event 1 to state 0 with event 0 after it.
abbrev two_rounds : ℕ → ℕ → Option (Entry ℕ)
two_rounds i j =
    if i == 0
    then some (record { action = λ pfsm. (2, pfsm); transition = to_state 1 })
    else some (record { action = λ pfsm. (0, pfsm); transition = to_state 0 })

abbrev two_round_program : Program ℕ
two_round_program = record door_program { action_array = two_rounds }

abbrev rank_of : ℕ → ℕ
rank_of e = if e == 2 then 0 else suc e

fsm_loop-returned_example :
    (after : Fsm ℕ) × (fsm_loop two_round_program 3 1 at_first_state ≡ returned after)
    × after.state < 2
fsm_loop-returned_example =
    fsm_loop-returned two_round_program rank_of 2 3 1 at_first_state refl
      (λ i j i_own j_in. elim (Bool-cases (i == 0)) [
        | inl first ↦ (
          record { action = λ pfsm. (2, pfsm); transition = to_state 1 },
          1,
          rw first refl,
          refl,
          omega arith,
          λ pfsm. (refl, omega arith, ground arith),
        )
        | inr later ↦ (
          record { action = λ pfsm. (0, pfsm); transition = to_state 0 },
          0,
          rw later refl,
          refl,
          omega arith,
          λ pfsm. (refl, omega arith, ground arith),
        )
      ])
      (omega arith) (omega arith) (omega arith)

-- State 0 inhibits the sub-machines.
abbrev inhibiting_program : Program ℕ
inhibiting_program = record door_program {
  has_sub_machines = true;
  submachine_inhibitor_count = 1;
  inhibits_sub_machines = λ s. s == 0;
}

fsm_loop-inhibited_example : fsm_loop inhibiting_program 100 5 at_first_state ≡ running
fsm_loop-inhibited_example =
    fsm_loop-inhibited inhibiting_program 100 5 at_first_state refl (omega arith) refl (omega arith)

-- A sub-machine with the events 4 and 5, whose `noEvent` is 6; its parent's `noEvent` is 9.
abbrev nested_program : Program ℕ
nested_program = record two_round_program { no_event = 6 }

sub_fsm_loop-returned_example :
    (back : ℕ) × (after : Fsm ℕ) × (sub_fsm_loop nested_program 9 4 3 5 at_first_state
      ≡ returned (back, after))
    × after.state < 2
    × ((back ≡ 9) ⊎ (back < 4))
sub_fsm_loop-returned_example =
    sub_fsm_loop-returned nested_program (λ e. if leb 4 e then 2 else 0) 9 4 2 3 5 at_first_state
      refl
      (λ e j i_own e_own j_in. elim (Bool-cases (e - 4 == 0)) [
        | inl first ↦ (
          record { action = λ pfsm. (2, pfsm); transition = to_state 1 },
          1,
          rw first refl,
          refl,
          omega arith,
          λ pfsm. (refl, omega arith, ground arith),
        )
        | inr later ↦ (
          record { action = λ pfsm. (0, pfsm); transition = to_state 0 },
          0,
          rw later refl,
          refl,
          omega arith,
          λ pfsm. (refl, omega arith, ground arith),
        )
      ])
      (omega arith) (omega arith) (omega arith)

-- A machine whose files can all be opened, and that has no sub-machine.
destroy_c_machine_data-init_example :
    (started : Files) × (written : Files) × (closed : Files) × (init_c_machine true
        (λ s. s)
        (λ cf. true)
        (codes "door")
        (λ cf. false)
      ≡ some (0, some started))
    × (write_texts ((cf_c, codes "int x;") ∷ []) started ≡ some written)
    × (destroy_c_machine_data true (record written { a_sub_machine_was_encountered = false })
        ≡ some closed)
    × Closed (kept_files true false) closed
destroy_c_machine_data-init_example =
    destroy_c_machine_data-init (λ s. s) (λ cf. true) (codes "door") (λ cf. false)
      ((cf_c, codes "int x;") ∷ []) false true (λ cf. refl)
