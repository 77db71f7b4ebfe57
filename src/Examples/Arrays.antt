-- ===== src/Examples/Arrays.antt =====
-- A machine with two events and two states whose action array is populated, by src/fsm_utils.c.
use fsm_lang.Base.{ℕ, ◌≡◌, refl, true, false, ◌∷◌, [], none, some, arith, codes, contains}
use fsm_lang.Sequence.{Distinct}
use fsm_lang.ActionArray.{Machine, Population, expand, populate_action_array}
use fsm_lang.ActionArray.Handlers.{Enumerated, Agrees, populate-Agrees}
use fsm_lang.ActionArray.Transitions.{Mirrored, populate-Mirrored}
use fsm_lang.ActionArray.Complete.{Fills, populate-Fills}
use fsm_lang.ActionArray.Handled.{Handled, populate-Handled}
use fsm_lang.ActionArray.Backed.{Uniform, none-Backed}
use fsm_lang.ActionArray.Uniform.{Sound, populate-Uniform}
use fsm_lang.Density.{Density, compute_event_and_state_density_pct}
use fsm_lang.Density.Bounds.{Computed}
use fsm_lang.Density.Populated.{measured, populate-Computed}
use fsm_lang.Counts.Enumerate.{numbered, enumerate_pid_list-Enumerated}

-- The events are 1 and 2, the states 3 and 4. The action info 5 has the action 7 and the transition
-- to the state 4.
abbrev pub door : Machine
door = record {
  name = λ a. codes "open";
  order = numbered (3 ∷ 4 ∷ []) (1 ∷ 2 ∷ []) (λ a. 0);
  is_state = λ a. true;
  transition_fn_returns_decl = λ a. [];
  action = λ a. some 7;
  transition = λ a. some 4;
  event_list = 1 ∷ 2 ∷ [];
  state_list = 3 ∷ 4 ∷ [];
  action_info_list = 5 ∷ [];
}

-- The matrix of the action info names the event 2 and all states.
abbrev pub blank : Population
blank = record {
  action_array = λ i j. none;
  states = λ s. record {
    event_density_pct = 0;
    pevents_handled = [];
    pinbound_transitions = [];
    poutbound_transitions = [];
    pactions_list = [];
  };
  events = λ e. record {
    single_pai_state_count = 0;
    psingle_pai = none;
    single_pai_for_all_states = false;
    phandling_states = [];
    pactions_list = [];
    state_density_pct = 0;
  };
  matrices = λ a. record { matrix_states = []; matrix_events = 2 ∷ [] };
  has_single_pai_events = false;
  error = false;
}

disjoint : (a : ℕ) → contains (3 ∷ 4 ∷ []) a ≡ true → contains (1 ∷ 2 ∷ []) a ≡ false
disjoint a h = ground arith

enumerate_pid_list-Enumerated_example : Enumerated door
enumerate_pid_list-Enumerated_example =
    enumerate_pid_list-Enumerated door (λ a. 0) refl (refl, (refl, tt)) (refl, (refl, tt)) disjoint
      (omega arith) (omega arith)

door-Enumerated : Enumerated door
door-Enumerated =
    enumerate_pid_list-Enumerated door (λ a. 0) refl (refl, (refl, tt)) (refl, (refl, tt)) disjoint
      (omega arith) (omega arith)

blank-Agrees : Agrees door blank
blank-Agrees = record {
  handling = λ e s. refl;
  filled = λ e s p q. refl;
  inside = λ i j h. ground arith;
  matrix_states = λ a s h. ground arith;
  matrix_events = λ a e h. ground arith;
}

populate-Agrees_example : Agrees door (populate_action_array door blank)
populate-Agrees_example = populate-Agrees door door-Enumerated blank blank-Agrees

populate-Mirrored_example : Mirrored (populate_action_array door blank).states
populate-Mirrored_example = populate-Mirrored door blank (λ s t. refl)

no_error : (populate_action_array door blank).error ≡ false
unfolding populate_action_array fsm_lang.Sequence.iterate fsm_lang.Sequence.append
    fsm_lang.Counts.enumerate_pid_list
no_error = refl

populate-Fills_example :
    Fills door 5 (expand door (blank.matrices 5)) (populate_action_array door blank)
populate-Fills_example = populate-Fills door blank 5 no_error refl

blank-Handled : Handled door blank
blank-Handled = record {
  events_handled = λ s. (tt, λ a h. ground arith);
  handling_states = λ e. (tt, λ a h. ground arith);
  matrix_states = λ a s h. ground arith;
  matrix_events = λ a e h. ground arith;
}

populate-Handled_example : Handled door (populate_action_array door blank)
populate-Handled_example = populate-Handled door blank blank-Handled

abbrev unmeasured : Density
unmeasured = record { density_pct = λ x. 0; average = 0 }

populate-Computed_example :
    let q = measured door (populate_action_array door blank) in
    Computed 2 q.pevents_handled_count
      (3 ∷ 4 ∷ [])
      (compute_event_and_state_density_pct q unmeasured unmeasured).0
    × Computed 2 q.phandling_states_count
        (1 ∷ 2 ∷ [])
        (compute_event_and_state_density_pct q unmeasured unmeasured).1
populate-Computed_example =
    populate-Computed door blank unmeasured unmeasured blank-Handled (omega arith) (omega arith)
      (omega arith) (omega arith) refl refl

blank-Sound : Sound door blank
unfolding fsm_lang.ActionArray.Single.fields
blank-Sound = record {
  backed = λ e. none-Backed door blank.action_array e _ refl;
  uniform = λ e h. ground arith;
  matrix_states = λ a s h. ground arith;
  matrix_events = λ a e h. ground arith;
}

-- The action info 5 is in both slots of the event 2.
all_states : ((populate_action_array door blank).events 2).single_pai_for_all_states ≡ true
unfolding populate_action_array fsm_lang.Sequence.iterate fsm_lang.Sequence.append
    fsm_lang.Counts.enumerate_pid_list
all_states = refl

populate-Uniform_example : Uniform door (populate_action_array door blank).action_array 2
populate-Uniform_example = populate-Uniform door (omega arith) blank 2 blank-Sound all_states
