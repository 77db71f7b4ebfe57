-- ===== src/StateMachine/Steps.antt =====
-- The loops of generated machines end, and what a sub-machine hands back.
use fsm_lang.Base.{
  ℕ, zero, ◌-◌, if◌then◌else◌, ◌≤◌, sym, ◌∙◌, suc, ◌<◌, ◌≡◌, refl, arith, false, Option, none, some,
  ◌==◌, ◌⊎◌, inl, inr, Bool-cases, leb, not, ◌&&◌,
}
use mathlib.Core.Path.{subst}
use fsm_lang.StateMachine.Rounds.{
  settled, settled-state, react-entry, round-react, loop-round, sub_round-react, sub_loop-round,
}
use fsm_lang.StateMachine.{
  Fsm, Program, Entry, to_state, returned, fsm_loop, sub_fsm_round, sub_fsm_loop,
}

round_cases :
    {W : Type 0} (o : Option (ℕ × Fsm W))
    → (o ≡ none) ⊎ ((new_e : ℕ) × (after : Fsm W) × (o ≡ some (new_e, after)))
round_cases none = inl refl
round_cases (some (new_e, after)) = inr (new_e, after, refl)

module _ {W : Type 0} (g : Program W) where
  -- The array has an element for each event of the machine and each state; its action leaves the state
  -- alone and returns `noEvent` or an event of a lower rank; its transition is to a state.
  abbrev pub Ranked : (ℕ → ℕ) → ℕ → Type 0
  Ranked rank states =
      (i j : ℕ)
      → i < g.no_event
      → j < states
      → (x : Entry W) × (s : ℕ) × (g.action_array i j ≡ some x)
        × (x.transition ≡ to_state s)
        × s < states
        × ((pfsm : Fsm W)
            → ((x.action pfsm).1.state ≡ pfsm.state)
              × (x.action pfsm).0 ≤ g.no_event
              × rank (x.action pfsm).0 < rank i)

  -- The loop of a generated machine without sub-machines returns, with the state in range, whatever
  -- functions run on transitions: no element outside the array is read, and fuel above the event's
  -- rank is enough. The array has an element for each event and state, whose transition is to one
  -- of the states, and whose action leaves the state alone and returns `noEvent` or an event of
  -- lower rank.
  pub fsm_loop-returned :
      (rank : ℕ → ℕ) (states fuel e : ℕ) (pfsm : Fsm W)
      → g.has_sub_machines ≡ false
      → Ranked rank states
      → e ≤ g.no_event
      → pfsm.state < states
      → rank e < fuel
      → (after : Fsm W) × (fsm_loop g fuel e pfsm ≡ returned after) × after.state < states
  unfolding fsm_loop
  fsm_loop-returned rank states zero e pfsm alone ranked within inside enough =
      let never : ⊥ = omega (arith, enough) in elim never [ ]
  fsm_loop-returned rank states (suc fuel) e pfsm alone ranked within inside enough =
      elim (Bool-cases (e == g.no_event)) [
        | inl last ↦ (pfsm, rw last refl, inside)
        | inr some_event ↦
            let seen : Fsm W = record pfsm { event = e } in
            let (x, s, slot, goes, s_inside, acts) = ranked e pfsm.state (ground arith) inside in
            let (kept, new_within, lower) = acts seen in
            let next : Fsm W = settled g (x.action seen).1 s in
            let (after, rest, ends_inside) =
              fsm_loop-returned rank states fuel (x.action seen).0 next alone ranked new_within
                (subst (λ (k : ℕ). k < states) (sym (settled-state g (x.action seen).1 s)) s_inside)
                (omega (arith, lower, enough)) in
            (
              after,
              loop-round g fuel e (x.action seen).0 pfsm next some_event (
                    round-react g e pfsm (ground arith) ∙ react-entry g e e seen x s slot goes kept)
                  ∙ rest,
              ends_inside,
            )
      ]

  sub_fsm_loop-hands_back :
      (parent_no_event first fuel e : ℕ) (pfsm : Fsm W) (back : ℕ) (after : Fsm W)
      → sub_fsm_loop g parent_no_event first fuel e pfsm ≡ returned (back, after)
      → (back ≡ parent_no_event) ⊎ (back < first)
  unfolding sub_fsm_loop
  sub_fsm_loop-hands_back parent_no_event first zero e pfsm back after h = cc
  sub_fsm_loop-hands_back parent_no_event first (suc fuel) e pfsm back after h =
      elim (round_cases (sub_fsm_round g first e pfsm)) [
        | inl fault ↦ ground (arith, fault)
        | inr (new_e, next, r) ↦ elim (Bool-cases (not (e == g.no_event) && leb first e)) [
          | inl on ↦
              sub_fsm_loop-hands_back parent_no_event first fuel new_e next back after
                (ground (arith, r, on))
          | inr off ↦ ground (arith, off)
        ]
      ]

  -- As `Ranked`, for a sub-machine whose events start at `first`; an action may also return an event of
  -- the parent, which is below `first`.
  abbrev pub SubRanked : (ℕ → ℕ) → ℕ → ℕ → Type 0
  SubRanked rank first states =
      (e j : ℕ)
      → first ≤ e
      → e < g.no_event
      → j < states
      → (x : Entry W) × (s : ℕ) × (g.action_array (e - first) j ≡ some x)
        × (x.transition ≡ to_state s)
        × s < states
        × ((pfsm : Fsm W)
            → ((x.action pfsm).1.state ≡ pfsm.state)
              × (x.action pfsm).0 ≤ g.no_event
              × rank (x.action pfsm).0 < rank e)

  sub_fsm_loop-ends :
      (rank : ℕ → ℕ) (parent_no_event first states fuel e : ℕ) (pfsm : Fsm W)
      → g.has_sub_machines ≡ false
      → SubRanked rank first states
      → e ≤ g.no_event
      → pfsm.state < states
      → rank e < fuel
      → (back : ℕ) × (after : Fsm W) × (sub_fsm_loop g parent_no_event first fuel e pfsm
          ≡ returned (back, after))
        × after.state < states
  unfolding sub_fsm_loop
  sub_fsm_loop-ends rank parent_no_event first states zero e pfsm alone ranked within inside
        enough =
      let never : ⊥ = omega (arith, enough) in elim never [ ]
  sub_fsm_loop-ends rank parent_no_event first states (suc fuel) e pfsm alone ranked within inside
        enough =
      elim (Bool-cases (not (e == g.no_event) && leb first e)) [
        | inr over ↦ (if e == g.no_event then parent_no_event else e, pfsm, rw over refl, inside)
        | inl own ↦
            let seen : Fsm W = record pfsm { event = e } in
            let (x, s, slot, goes, s_inside, acts) =
              ranked e pfsm.state (ground arith) (ground arith) inside in
            let (kept, new_within, lower) = acts seen in
            let next : Fsm W = settled g (x.action seen).1 s in
            let (back, after, rest, ends_inside) =
              sub_fsm_loop-ends rank parent_no_event first states fuel (x.action seen).0 next alone
                ranked new_within
                (subst (λ (k : ℕ). k < states) (sym (settled-state g (x.action seen).1 s)) s_inside)
                (omega (arith, lower, enough)) in
            (
              back,
              after,
              sub_loop-round g parent_no_event first fuel e (x.action seen).0 pfsm next own (
                    sub_round-react g first e pfsm (ground arith)
                    ∙ react-entry g (e - first) e seen x s slot goes kept)
                  ∙ rest,
              ends_inside,
            )
      ]

  -- The loop of a generated sub-machine without sub-machines of its own returns, with the state in
  -- range, and what it returns to its parent is the parent's `noEvent` or an event below its own
  -- first one. Its array has an element for each of its events and states, whose transition is to
  -- one of the states, and whose action leaves the state alone and returns an event of lower rank
  -- that is not above `noEvent`.
  pub sub_fsm_loop-returned :
      (rank : ℕ → ℕ) (parent_no_event first states fuel e : ℕ) (pfsm : Fsm W)
      → g.has_sub_machines ≡ false
      → SubRanked rank first states
      → e ≤ g.no_event
      → pfsm.state < states
      → rank e < fuel
      → (back : ℕ) × (after : Fsm W) × (sub_fsm_loop g parent_no_event first fuel e pfsm
          ≡ returned (back, after))
        × after.state < states
        × ((back ≡ parent_no_event) ⊎ (back < first))
  sub_fsm_loop-returned rank parent_no_event first states fuel e pfsm alone ranked within inside
        enough =
      let (back, after, ends, ends_inside) =
        sub_fsm_loop-ends rank parent_no_event first states fuel e pfsm alone ranked within inside
          enough in
      (
        back,
        after,
        ends,
        ends_inside,
        sub_fsm_loop-hands_back parent_no_event first fuel e pfsm back after ends,
      )
