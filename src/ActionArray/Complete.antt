-- ===== src/ActionArray/Complete.antt =====
-- The slots that `populate_action_array` of src/fsm_utils.c fills for an action info.
use mathlib.Core.Path.{subst}
use fsm_lang.Base.{
  ℕ, ◌≡◌, refl, Bool, true, false, some, List, [], ◌∷◌, arith, ◌==◌, ◌∙◌, ap, sym, contains,
  Bool-cases, inl, inr, ==_self, ==_iff,
}
use fsm_lang.Sequence.{absorb-append, iterate, set_at, iterate_inv}
use fsm_lang.ActionArray.{
  Machine, Matrix, Population, is_some, or_all, expand, add_to_action_array, start_event,
  finish_event, iterate_matrix_states, process_action_info, populate_action_array,
}
use fsm_lang.ActionArray.Induction.{Preserved, iterate_matrix_states_inv, process_action_info_inv}
use fsm_lang.ActionArray.Frame.{add_to_action_array_taken, add_to_action_array_free}
use fsm_lang.ActionArray.Iteration.{Reports, iterate_complete}

module _ (m : Machine) where
  -- Nothing that is in the array is replaced.
  Kept-Preserved :
      (i j a : ℕ) → Preserved m (λ e. Unit) (λ s. Unit) (λ p. p.action_array i j ≡ some a)
  unfolding start_event finish_event
  Kept-Preserved i j a = record {
    states_of = λ pai s p h k. tt;
    events_of = λ pai e p h k. tt;
    step = λ pai e s p ev st h. step_kept pai e s p h;
    start = λ pai e p h. h;
    finish = λ e p h. ground arith;
    expanded = λ pai p h. h;
    begun = λ p h. h;
  }
    where
      step_kept :
          (pai e s : ℕ) (p : Population)
          → p.action_array i j ≡ some a
          → (add_to_action_array m pai e s p).1.action_array i j ≡ some a
      step_kept pai e s p h = elim (Bool-cases (is_some (p.action_array (m.order e) (m.order s)))) [
        | inl taken ↦ rw (add_to_action_array_taken m pai e s p taken) h
        | inr free ↦
            let (k, same) = add_to_action_array_free m pai e s p free in
            k.action_array i j ∙ ground arith
      ]

  add_to_action_array-Reports : (pai e : ℕ) → Reports (add_to_action_array m pai e)
  unfolding add_to_action_array
  add_to_action_array-Reports pai e s p = ground arith

  iterate_matrix_states-Reports : (pai : ℕ) → Reports (iterate_matrix_states m pai)
  unfolding iterate_matrix_states
  iterate_matrix_states-Reports pai e p = refl

  process_action_info-Reports : Reports (process_action_info m)
  unfolding process_action_info
  process_action_info-Reports pai p = refl

  step_fills :
      (pai e s : ℕ) (p : Population)
      → (add_to_action_array m pai e s p).1.error ≡ false
      → (add_to_action_array m pai e s p).1.action_array (m.order e) (m.order s) ≡ some pai
  step_fills pai e s p e' = elim (Bool-cases (is_some (p.action_array (m.order e) (m.order s)))) [
    | inl taken ↦ absurd (failed (add_to_action_array_taken m pai e s p taken) e')
    | inr free ↦
        let (k, same) = add_to_action_array_free m pai e s p free in
        k.action_array (m.order e) (m.order s) ∙ rw (==_self (m.order e), ==_self (m.order s))
  ]
    where
      failed :
          {r : Bool × Population} → r ≡ (true, record p { error = true }) → r.1.error ≡ false → ⊥
      failed a b = let c : ◌≡◌ {A = Bool} true false = rw a at b in cc

  finish_event-error : (e : ℕ) (p : Population) → (finish_event m e p).error ≡ p.error
  unfolding finish_event
  finish_event-error e p = ground arith

  finish_event-matrices :
      (e a : ℕ) (p : Population) → (finish_event m e p).matrices a ≡ p.matrices a
  unfolding finish_event
  finish_event-matrices e a p = ground arith

  step-matrices :
      (pai e s a : ℕ) (p : Population)
      → (add_to_action_array m pai e s p).1.matrices a ≡ p.matrices a
  step-matrices pai e s a p = elim (Bool-cases (is_some (p.action_array (m.order e) (m.order s)))) [
    | inl taken ↦ rw (add_to_action_array_taken m pai e s p taken)
    | inr free ↦ let (k, same) = add_to_action_array_free m pai e s p free in k.matrices a
  ]

  -- The slots of one event, after its round.
  event_fills :
      (pai e : ℕ) (p : Population)
      → (iterate_matrix_states m pai e p).1.error ≡ false
      → (s : ℕ) → contains (p.matrices pai).matrix_states s ≡ true
      → (iterate_matrix_states m pai e p).1.action_array (m.order e) (m.order s) ≡ some pai
  unfolding iterate_matrix_states
  event_fills pai e p err s i =
      let q =
        iterate (add_to_action_array m pai e) (p.matrices pai).matrix_states
          (start_event m pai e p) in
      (Kept-Preserved (m.order e) (m.order s) pai).finish e q (
        iterate_complete (add_to_action_array m pai e) (add_to_action_array-Reports pai e)
          (λ r. Unit) (λ x r. r.action_array (m.order e) (m.order x) ≡ some pai) (λ x r h. tt)
          (λ x r h f. step_fills pai e x r f)
          (λ x y r h. (Kept-Preserved (m.order e) (m.order x) pai).step pai e y r tt tt h)
          (p.matrices pai).matrix_states (start_event m pai e p) tt
          (sym (finish_event-error e q) ∙ err) s i)

  matrices_kept :
      (pai e a : ℕ) (p : Population) → (iterate_matrix_states m pai e p).1.matrices a ≡ p.matrices a
  unfolding iterate_matrix_states start_event
  matrices_kept pai e a p =
      let q =
        iterate (add_to_action_array m pai e) (p.matrices pai).matrix_states
          (start_event m pai e p) in
      finish_event-matrices e a q
      ∙ iterate_inv (λ (r : Population). r.matrices a ≡ p.matrices a) (add_to_action_array m pai e)
          (p.matrices pai).matrix_states (λ s r i g. step-matrices pai e s a r ∙ g)
          (start_event m pai e p) refl

  or_all-or_all : (own xs : List ℕ) → or_all own (or_all own xs) ≡ or_all own xs
  or_all-or_all own [] = rw (absorb-append [] own) (whole own)
    where
      whole : (ys : List ℕ) → or_all ys ys ≡ ys
      whole [] = refl
      whole (y ∷ ys) = refl
  or_all-or_all own (x ∷ xs) = refl

  -- Every slot that a matrix names holds its action info.
  abbrev pub Fills : ℕ → Matrix → Population → Type 0
  Fills pai x p =
      (e : ℕ)
      → contains x.matrix_events e ≡ true
      → (s : ℕ) → contains x.matrix_states s ≡ true
      → p.action_array (m.order e) (m.order s) ≡ some pai

  info-Fills :
      (pai : ℕ) (p : Population)
      → (process_action_info m pai p).1.error ≡ false
      → Fills pai (expand m (p.matrices pai)) (process_action_info m pai p).1
  unfolding process_action_info
  info-Fills pai p err e i s j =
      let x = expand m (p.matrices pai) in
      iterate_complete (iterate_matrix_states m pai) (iterate_matrix_states-Reports pai)
        (λ q. q.matrices pai ≡ x) (λ y q. q.action_array (m.order y) (m.order s) ≡ some pai)
        (λ y q h. matrices_kept pai y pai q ∙ h) (λ y q h f. event_fills pai y q f s (rw h j))
        (λ y z q h.
          iterate_matrix_states_inv m (λ e. Unit) (λ s. Unit) _
            (Kept-Preserved (m.order y) (m.order s) pai) pai z q tt h)
        x.matrix_events (record p { matrices = set_at p.matrices pai x }) (rw (==_self pai)) err e i

  expand-expand : (x : Matrix) → expand m (expand m x) ≡ expand m x
  unfolding expand
  expand-expand x = λ i. record {
    matrix_states = or_all-or_all m.state_list x.matrix_states i;
    matrix_events = or_all-or_all m.event_list x.matrix_events i;
  }

  info-matrices :
      (pai a : ℕ) (p : Population)
      → (process_action_info m pai p).1.matrices a
        ≡ set_at p.matrices pai (expand m (p.matrices pai)) a
  unfolding process_action_info
  info-matrices pai a p =
      let x = expand m (p.matrices pai) in
      let start = record p { matrices = set_at p.matrices pai x } in
      iterate_inv (λ (q : Population). q.matrices a ≡ start.matrices a)
        (iterate_matrix_states m pai) x.matrix_events (λ e q i g. matrices_kept pai e a q ∙ g) start
        refl

  -- Expanding a matrix more than once makes no difference.
  abbrev SameExpanded : Population → Population → Type 0
  SameExpanded p q = (a : ℕ) → expand m (q.matrices a) ≡ expand m (p.matrices a)

  info-SameExpanded :
      (pai : ℕ) (p q : Population)
      → SameExpanded p q
      → SameExpanded p (process_action_info m pai q).1
  info-SameExpanded pai p q h a = rw (info-matrices pai a q) (elim (Bool-cases (a == pai)) [
    | inl same ↦
        let e : a ≡ pai = (==_iff a pai).0 same in
        rw same (expand-expand (q.matrices pai) ∙ h pai ∙ ap (λ b. expand m (p.matrices b)) (sym e))
    | inr other ↦ rw other (h a)
  ])

  -- When `populate_action_array` reports no error, each action info of the machine is in every slot
  -- that its matrix names, an empty list of the matrix standing for all of the machine's events or
  -- states.
  pub populate-Fills :
      (p : Population) (pai : ℕ)
      → (populate_action_array m p).error ≡ false
      → contains m.action_info_list pai ≡ true
      → Fills pai (expand m (p.matrices pai)) (populate_action_array m p)
  unfolding populate_action_array
  populate-Fills p pai err i =
      iterate_complete (process_action_info m) process_action_info-Reports (SameExpanded p)
        (λ x q. Fills x (expand m (p.matrices x)) q) (λ x q h. info-SameExpanded x p q h)
        (λ x q h f. subst (λ y. Fills x y (process_action_info m x q).1) (h x) (info-Fills x q f))
        (λ x y q h e i s j.
          process_action_info_inv m (λ e. Unit) (λ s. Unit) _
            (Kept-Preserved (m.order e) (m.order s) x) y q (h e i s j))
        m.action_info_list (record p { error = false }) (λ a. refl) err pai i
