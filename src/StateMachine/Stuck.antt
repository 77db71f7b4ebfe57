-- ===== src/StateMachine/Stuck.antt =====
-- The loop of the generated machine where the state inhibits the sub-machines.
use fsm_lang.Base.{ℕ, zero, suc, ◌<◌, ◌≡◌, refl, arith, true, some}
use fsm_lang.StateMachine.{Fsm, Program, running, fsm_round, fsm_loop}

module _ {W : Type 0} (g : Program W) where
  inhibited_round :
      (e : ℕ) (pfsm : Fsm W)
      → g.has_sub_machines ≡ true
      → 0 < g.submachine_inhibitor_count
      → g.inhibits_sub_machines pfsm.state ≡ true
      → g.no_event < e
      → fsm_round g e pfsm ≡ some (e, record pfsm { event = e })
  unfolding fsm_round
  inhibited_round e pfsm subs some_inhibitor inhibited above = ground arith

  -- Where some state inhibits the sub-machines, the loop of the generated machine never ends once
  -- it has an event of a sub-machine in a state that inhibits them: it still runs after any number
  -- of rounds.
  pub fsm_loop-inhibited :
      (fuel e : ℕ) (pfsm : Fsm W)
      → g.has_sub_machines ≡ true
      → 0 < g.submachine_inhibitor_count
      → g.inhibits_sub_machines pfsm.state ≡ true
      → g.no_event < e
      → fsm_loop g fuel e pfsm ≡ running
  unfolding fsm_loop
  fsm_loop-inhibited zero e pfsm subs some_inhibitor inhibited above = refl
  fsm_loop-inhibited (suc fuel) e pfsm subs some_inhibitor inhibited above = ground (
    arith,
    inhibited_round e pfsm subs some_inhibitor inhibited above,
    fsm_loop-inhibited fuel e (record pfsm { event = e }) subs some_inhibitor inhibited above,
  )
