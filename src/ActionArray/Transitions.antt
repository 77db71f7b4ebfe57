-- ===== src/ActionArray/Transitions.antt =====
-- The transition lists that `add_to_action_array` keeps for each state.
use fsm_lang.Base.{
  ℕ, ◌≡◌, refl, false, not, ◌&&◌, ◌||◌, Option, none, some, List, [], ◌∷◌, arith, ◌==◌,
  if◌then◌else◌, contains, Bool-cases, inl, inr,
}
use fsm_lang.Sequence.{
  absorb, add_unique, add_unique_except, iterate, contains-add_unique,
  absorb-add_unique_except-contains,
}
use fsm_lang.ActionArray.Induction.{Preserved, populate_action_array_inv}
use fsm_lang.ActionArray.{
  StateData, Machine, Population, with_state, add_inbound, add_inbound_state_wrapper, set_slot,
  note_action, count_single, note_handler, note_transition, add_to_action_array, is_some,
  start_event, finish_event, populate_action_array,
}

-- A state is in the outbound list of another exactly when that one is in its inbound list.
abbrev pub Mirrored : (ℕ → StateData) → Type 0
Mirrored d =
    (s t : ℕ) → contains (d s).poutbound_transitions t ≡ contains (d t).pinbound_transitions s

add_inbound-contains :
    (from to : ℕ) (p : Population) (x y : ℕ)
    → contains ((add_inbound from to p).states y).pinbound_transitions x
      ≡ (contains (p.states y).pinbound_transitions x || ((y == to) && (from == x)))
add_inbound-contains from to p x y =
    ground (arith, contains-add_unique (p.states to).pinbound_transitions from x)

inbound-contains :
    (s : ℕ) (rs : List ℕ) (p : Population) (x y : ℕ)
    → contains ((iterate (add_inbound_state_wrapper s) rs p).states y).pinbound_transitions x ≡ (
        contains (p.states y).pinbound_transitions x
        || ((s == x) && (contains rs y && not (y == s))))
unfolding iterate add_inbound_state_wrapper
inbound-contains s [] p x y = ground arith
inbound-contains s (r ∷ rs) p x y =
    let q = if s == r then p else add_inbound s r p in
    ground (arith, inbound-contains s rs q x y, add_inbound-contains s r p x y)

inbound-out :
    (s : ℕ) (rs : List ℕ) (p : Population) (x : ℕ)
    → ((iterate (add_inbound_state_wrapper s) rs p).states x).poutbound_transitions
      ≡ (p.states x).poutbound_transitions
unfolding iterate add_inbound_state_wrapper
inbound-out s [] p x = refl
inbound-out s (r ∷ rs) p x =
    let q = if s == r then p else add_inbound s r p in ground (arith, inbound-out s rs q x)

module _ (m : Machine) where
  -- A transition to a state.
  direct-Mirrored :
      (s t : ℕ) (p : Population)
      → (t == s) ≡ false
      → Mirrored p.states
      → Mirrored
          (with_state
            (λ d. record d { poutbound_transitions = add_unique d.poutbound_transitions t })
            s
            (add_inbound s t p)).states
  direct-Mirrored s t p ne h x y = ground (
    arith,
    h x y,
    contains-add_unique (p.states s).poutbound_transitions t y,
    contains-add_unique (p.states t).pinbound_transitions s x,
  )

  -- A transition by a function that returns one of the states `rs`.
  returned-Mirrored :
      (s : ℕ) (rs : List ℕ) (p : Population)
      → Mirrored p.states
      → Mirrored
          (iterate (add_inbound_state_wrapper s) rs (
            with_state
              (λ d. record d {
                poutbound_transitions = absorb (add_unique_except s) d.poutbound_transitions rs;
              })
              s
              p)).states
  returned-Mirrored s rs p h x y =
      let q =
        with_state
          (λ (d : StateData). record d {
            poutbound_transitions = absorb (add_unique_except s) d.poutbound_transitions rs;
          })
          s p in
      rw (inbound-contains s rs q x y, inbound-out s rs q x)
        (ground (
          arith,
          h x y,
          absorb-add_unique_except-contains s (p.states s).poutbound_transitions rs y,
        ))

  note_transition-Mirrored :
      (o : Option ℕ) (s : ℕ) (p : Population)
      → Mirrored p.states
      → Mirrored (note_transition m o s p).states
  unfolding note_transition
  note_transition-Mirrored none s p h = h
  note_transition-Mirrored (some t) s p h = elim (Bool-cases (m.is_state t)) [
    | inr fn ↦ rw fn (returned-Mirrored s (m.transition_fn_returns_decl t) p h)
    | inl state ↦ elim (Bool-cases (t == s)) [
      | inl same ↦ rw (state, same) h
      | inr other ↦ rw (state, other) (direct-Mirrored s t p other h)
    ]
  ]

  note_action-Mirrored :
      (o : Option ℕ) (e s : ℕ) (p : Population)
      → Mirrored p.states
      → Mirrored (note_action m o e s p).states
  unfolding note_action
  note_action-Mirrored none e s p h x y = h x y
  note_action-Mirrored (some a) e s p h x y = ground (arith, h x y)

  handled-Mirrored :
      (pai e s : ℕ) (p : Population)
      → Mirrored p.states
      → Mirrored (note_handler m e s (count_single m pai e p)).states
  unfolding note_handler count_single
  handled-Mirrored pai e s p h x y = ground (arith, h x y)

  add_to_action_array-Mirrored :
      (pai e s : ℕ) (p : Population)
      → Mirrored p.states
      → Mirrored (add_to_action_array m pai e s p).1.states
  unfolding add_to_action_array set_slot
  add_to_action_array-Mirrored pai e s p h =
      elim (Bool-cases (is_some (p.action_array (m.order e) (m.order s)))) [
        | inl taken ↦ rw taken h
        | inr free ↦
            let p₁ = set_slot m pai e s p in
            let p₂ = note_action m (m.action pai) e s p₁ in
            let p₃ = note_handler m e s (count_single m pai e p₂) in
            rw free (
              note_transition-Mirrored (m.transition pai) s p₃
                (handled-Mirrored pai e s p₂ (note_action-Mirrored (m.action pai) e s p₁ h)))
      ]

  Mirrored-Preserved : Preserved m (λ e. Unit) (λ s. Unit) (λ p. Mirrored p.states)
  unfolding start_event finish_event
  Mirrored-Preserved = record {
    states_of = λ pai s p h i. tt;
    events_of = λ pai e p h i. tt;
    step = λ pai e s p ev st h. add_to_action_array-Mirrored pai e s p h;
    start = λ pai e p h. h;
    finish = λ e p h x y. ground (arith, h x y);
    expanded = λ pai p h. h;
    begun = λ p h. h;
  }

  -- After `populate_action_array`, whether it reports an error or not, a state is in the outbound
  -- list of another exactly when that one is in its inbound list, if this held before.
  pub populate-Mirrored :
      (p : Population) → Mirrored p.states → Mirrored (populate_action_array m p).states
  populate-Mirrored =
      populate_action_array_inv m (λ e. Unit) (λ s. Unit) (λ p. Mirrored p.states)
        Mirrored-Preserved
