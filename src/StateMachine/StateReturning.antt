-- ===== src/StateMachine/StateReturning.antt =====
-- The generated function where actions return states: what `writeActionsReturnStateFSM` of src/fsm_c.c
-- writes, for one event.
use fsm_lang.Base.{ℕ, ◌≡◌, refl, Option, none, some, ◌==◌, if◌then◌else◌, Bool-cases, inl, inr}
use fsm_lang.StateMachine.{Fsm, Program, change_state}

module _ {W : Type 0} (g : Program W) where
  -- The array holds action functions that return a state or `noTransition`; the program's own array is
  -- not used. The functions that run on transitions are called if the state changes.
  unfoldable pub state_returning_fsm :
      (ℕ → ℕ → Option (Fsm W → ℕ × Fsm W)) → ℕ → ℕ → Fsm W → Option (Fsm W)
  unfolding change_state
  state_returning_fsm action_array no_transition event pfsm = elim (action_array event pfsm.state) [
    | none ↦ none
    | some action ↦
        let (s, acted) = action pfsm in
        some (
          if s == no_transition
          then acted
          else record (if g.executes_fns_on_state_transitions
              then change_state g acted s
              else acted) { state = s })
  ]

  -- The function ends in the state that the action returned, or in the one that it left if it returned
  -- `noTransition`.
  pub state_returning_fsm-state :
      (action_array : ℕ → ℕ → Option (Fsm W → ℕ × Fsm W)) (no_transition event : ℕ) (pfsm : Fsm W)
      (action : Fsm W → ℕ × Fsm W)
      → action_array event pfsm.state ≡ some action
      → (after : Fsm W) × (state_returning_fsm action_array no_transition event pfsm ≡ some after)
        × (after.state
            ≡ (if (action pfsm).0 == no_transition then (action pfsm).1.state else (action pfsm).0))
  unfolding state_returning_fsm
  state_returning_fsm-state action_array no_transition event pfsm action slot =
      elim (Bool-cases ((action pfsm).0 == no_transition)) [
        | inl stay ↦ ((action pfsm).1, rw (state_returning_fsm, slot, stay) refl, rw stay refl)
        | inr go ↦ (
          record (if g.executes_fns_on_state_transitions
              then change_state g (action pfsm).1 (action pfsm).0
              else (action pfsm).1) { state = (action pfsm).0 },
          rw (state_returning_fsm, slot, go) refl,
          rw go refl,
        )
      ]
