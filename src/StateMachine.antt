-- ===== src/StateMachine.antt =====
-- The state machine of the generated C source, where actions return events: what
-- `writeOriginalFSMAre`, `writeOriginalFSMLoop`, `writeOriginalFSMLoopInnards` and their three
-- counterparts for sub-machines, all of src/fsm_c.c, write, as the functions that the written loops are.
-- The functions that the user writes are parameters; an element of the array that is outside its bounds
-- or NULL gives a fault.
pub mod Rounds
pub mod Steps
pub mod Stuck
pub mod Compiled
pub mod StateReturning
use fsm_lang.Base.{
  ℕ, zero, suc, ◌-◌, Bool, true, false, not, ◌&&◌, ◌||◌, Option, none, some, ltb, leb, ◌==◌,
  if◌then◌else◌,
}

-- The machine's structure behind `pfsm`; `fsm_data` stands for all that the user's functions may change.
pub record Fsm (W : Type 0) : Type 0 where
  pub fsm_data : W
  pub state : ℕ
  pub event : ℕ

-- An element of the action array: the action function, and the transition, which is a state where the
-- machine has no transition functions, and a function of `pfsm` and the event where it has some.
pub data Transition (W : Type 0) : Type 0 where
  to_state : ℕ → Transition W
  by_function : (Fsm W → ℕ → ℕ × Fsm W) → Transition W

pub record Entry (W : Type 0) : Type 0 where
  pub action : Fsm W → ℕ × Fsm W
  pub transition : Transition W

-- What the writer puts in: `noEvent`; the function for every transition and those to leave and enter
-- a state, if there are any, which are called if `executes_fns_on_state_transitions`; whether there
-- are sub-machines, the function that finds the one to run, and the states that inhibit them, of which
-- there are `submachine_inhibitor_count`.
pub record Program (W : Type 0) : Type 0 where
  pub action_array : ℕ → ℕ → Option (Entry W)
  pub no_event : ℕ
  pub executes_fns_on_state_transitions : Bool
  pub machine_transition : Option (Fsm W → ℕ → Fsm W)
  pub run_appropriate_exit_function : Option (W → ℕ → W)
  pub run_appropriate_entry_function : Option (W → ℕ → W)
  pub has_sub_machines : Bool
  pub submachine_inhibitor_count : ℕ
  pub inhibits_sub_machines : ℕ → Bool
  pub find_and_run_sub_machine : Fsm W → ℕ → ℕ × Fsm W

-- How a run ends, or that it goes on when the fuel is used up.
pub data Outcome (A : Type 0) : Type 0 where
  returned : A → Outcome A
  faulted running : Outcome A

module _ {W : Type 0} where
  -- The value of `transition`, or what the call of it returns.
  abbrev pub take_transition : Transition W → Fsm W → ℕ → ℕ × Fsm W
  take_transition (to_state s) pfsm e = (s, pfsm)
  take_transition (by_function f) pfsm e = f pfsm e

  abbrev pub on_transition : Option (Fsm W → ℕ → Fsm W) → Fsm W → ℕ → Fsm W
  on_transition none pfsm new_s = pfsm
  on_transition (some f) pfsm new_s = f pfsm new_s

  abbrev pub on_data : Option (W → ℕ → W) → Fsm W → ℕ → Fsm W
  on_data none pfsm s = pfsm
  on_data (some f) pfsm s = record pfsm { fsm_data = f pfsm.fsm_data s }

  module _ (g : Program W) where
    -- `if (pfsm->state != new_s)`, with what stands in the block.
    unfoldable pub change_state : Fsm W → ℕ → Fsm W
    change_state pfsm new_s =
        let left : Fsm W =
          on_data g.run_appropriate_exit_function (on_transition g.machine_transition pfsm new_s)
            (on_transition g.machine_transition pfsm new_s).state in
        if pfsm.state == new_s
        then pfsm
        else record (on_data g.run_appropriate_entry_function left new_s) { state = new_s }

    -- The loop's innards, where the array is indexed by `index`: the new event.
    unfoldable pub react : ℕ → ℕ → Fsm W → Option (ℕ × Fsm W)
    unfolding change_state
    react index e pfsm = elim (g.action_array index pfsm.state) [
      | none ↦ none
      | some x ↦
          let (new_e, acted) = x.action pfsm in
          elim (g.action_array index acted.state) [
            | none ↦ none
            | some y ↦
                let (new_s, moved) = take_transition y.transition acted e in
                some (
                  new_e,
                  if g.executes_fns_on_state_transitions
                      then change_state moved new_s
                      else record moved { state = new_s },
                )
          ]
    ]

    -- `doNotInhibitSubMachines(pfsm->state)`, which is asked only if some state inhibits.
    abbrev pub sub_machines_allowed : Fsm W → Bool
    sub_machines_allowed pfsm =
        g.submachine_inhibitor_count == 0 || not (g.inhibits_sub_machines pfsm.state)

    -- The body of the loop of `writeOriginalFSMLoop`, for the event `e`.
    unfoldable pub fsm_round : ℕ → Fsm W → Option (ℕ × Fsm W)
    unfolding react
    fsm_round e pfsm =
        let seen : Fsm W = record pfsm { event = e } in
        if g.has_sub_machines && not (ltb e g.no_event)
        then if sub_machines_allowed seen
          then some (g.find_and_run_sub_machine seen e)
          else some (e, seen)
        else react e e seen

    unfoldable pub fsm_loop : ℕ → ℕ → Fsm W → Outcome (Fsm W)
    unfolding fsm_round
    fsm_loop zero e pfsm = running
    fsm_loop (suc fuel) e pfsm =
        if e == g.no_event then returned pfsm else elim (fsm_round e pfsm) [
          | none ↦ faulted
          | some (new_e, after) ↦ fsm_loop fuel new_e after
        ]

    -- `writeOriginalSubFSMLoopInnards`, which takes the machine's first event off the index.
    unfoldable pub sub_react : ℕ → ℕ → Fsm W → Option (ℕ × Fsm W)
    unfolding react
    sub_react first e pfsm = react (e - first) e pfsm

    -- The body of the loop of `writeOriginalSubFSMLoop`; `first` is the machine's first event.
    unfoldable pub sub_fsm_round : ℕ → ℕ → Fsm W → Option (ℕ × Fsm W)
    unfolding sub_react
    sub_fsm_round first e pfsm =
        let seen : Fsm W = record pfsm { event = e } in
        if g.has_sub_machines && not (ltb e g.no_event)
        then if sub_machines_allowed seen
          then some (g.find_and_run_sub_machine seen e)
          else some (e, seen)
        else sub_react first e seen

    -- The function of a sub-machine returns an event: `PARENT(noEvent)` for its own `noEvent`.
    unfoldable pub sub_fsm_loop : ℕ → ℕ → ℕ → ℕ → Fsm W → Outcome (ℕ × Fsm W)
    unfolding sub_fsm_round
    sub_fsm_loop parent_no_event first zero e pfsm = running
    sub_fsm_loop parent_no_event first (suc fuel) e pfsm =
        if not (e == g.no_event) && leb first e
        then elim (sub_fsm_round first e pfsm) [
          | none ↦ faulted
          | some (new_e, after) ↦ sub_fsm_loop parent_no_event first fuel new_e after
        ]
        else returned (if e == g.no_event then parent_no_event else e, pfsm)
