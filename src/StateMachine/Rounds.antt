-- ===== src/StateMachine/Rounds.antt =====
-- One round of the generated loop, for an event of the machine itself.
use fsm_lang.Base.{
  ℕ, suc, ◌≡◌, refl, arith, true, false, some, ltb, leb, ◌-◌, not, ◌&&◌, ◌==◌, if◌then◌else◌, ap,
  ◌∙◌,
}
use fsm_lang.StateMachine.{
  Fsm, Entry, to_state, Program, change_state, react, fsm_round, fsm_loop, sub_react, sub_fsm_round,
  sub_fsm_loop,
}

abbrev pub settled : {W : Type 0} → Program W → Fsm W → ℕ → Fsm W
settled g pfsm s =
    if g.executes_fns_on_state_transitions then change_state g pfsm s else record pfsm { state = s }

pub settled-state :
    {W : Type 0} (g : Program W) (pfsm : Fsm W) (s : ℕ) → (settled g pfsm s).state ≡ s
unfolding change_state
settled-state g pfsm s = ground arith

pub react-entry :
    {W : Type 0} (g : Program W) (i e : ℕ) (pfsm : Fsm W) (x : Entry W) (s : ℕ)
    → g.action_array i pfsm.state ≡ some x
    → x.transition ≡ to_state s
    → (x.action pfsm).1.state ≡ pfsm.state
    → react g i e pfsm ≡ some ((x.action pfsm).0, settled g (x.action pfsm).1 s)
unfolding react
react-entry g i e pfsm x s slot goes kept =
    let again : g.action_array i (x.action pfsm).1.state ≡ some x =
      ap (λ (j : ℕ). g.action_array i j) kept ∙ slot in
    rw (react, slot, again, goes) refl

pub round-react :
    {W : Type 0} (g : Program W) (e : ℕ) (pfsm : Fsm W)
    → ((g.has_sub_machines && not (ltb e g.no_event)) ≡ false)
    → fsm_round g e pfsm ≡ react g e e (record pfsm { event = e })
unfolding fsm_round
round-react g e pfsm own = rw own refl

pub loop-round :
    {W : Type 0} (g : Program W) (fuel e new_e : ℕ) (pfsm after : Fsm W)
    → (e == g.no_event) ≡ false
    → fsm_round g e pfsm ≡ some (new_e, after)
    → fsm_loop g (suc fuel) e pfsm ≡ fsm_loop g fuel new_e after
unfolding fsm_loop
loop-round g fuel e new_e pfsm after some_event r = ground (arith, r)

pub sub_round-react :
    {W : Type 0} (g : Program W) (first e : ℕ) (pfsm : Fsm W)
    → ((g.has_sub_machines && not (ltb e g.no_event)) ≡ false)
    → sub_fsm_round g first e pfsm ≡ react g (e - first) e (record pfsm { event = e })
unfolding sub_fsm_round sub_react
sub_round-react g first e pfsm own = rw own refl

pub sub_loop-round :
    {W : Type 0} (g : Program W) (parent_no_event first fuel e new_e : ℕ) (pfsm after : Fsm W)
    → ((not (e == g.no_event) && leb first e) ≡ true)
    → sub_fsm_round g first e pfsm ≡ some (new_e, after)
    → sub_fsm_loop g parent_no_event first (suc fuel) e pfsm
      ≡ sub_fsm_loop g parent_no_event first fuel new_e after
unfolding sub_fsm_loop
sub_loop-round g parent_no_event first fuel e new_e pfsm after own r = ground (arith, r)
