-- ===== src/ActionTable/Compiled.antt =====
-- What the written table has for the action infos of a populated machine.
use fsm_lang.Base.{
  ℕ, zero, suc, ◌+◌, ◌≡◌, ◌<◌, length, refl, ◌∙◌, ap, arith, true, false, Option, some, List, [],
  ◌∷◌, ◌++◌, get_elem?, codes, contains,
}
use fsm_lang.ActionArray.{Machine, Population, expand, populate_action_array}
use fsm_lang.ActionArray.Complete.{populate-Fills}
use fsm_lang.ActionTable.{Settings, array_start, define_action_array}
use fsm_lang.ActionTable.Cells.{cell_text}
use fsm_lang.ActionTable.Rendered.{
  Cells, Rows, render_rows, EachActionable, cells, rows, define_action_array-rows,
}

module _ (g : Settings) (m : Machine) where
  get_elem?-cells :
      (row : ℕ → Option ℕ) (ss : List ℕ) (k j n s : ℕ)
      → j + k ≡ n
      → get_elem? ss k ≡ some s
      → get_elem? (cells g m row ss j) k ≡ some (m.name s, cell_text g m (row n) n)
  get_elem?-cells row [] k j n s at h = cc
  get_elem?-cells row (x ∷ ss) zero j n s at h =
      let same : j ≡ n = omega (arith, at) in ground (arith, same)
  get_elem?-cells row (x ∷ ss) (suc k) j n s at h =
      get_elem?-cells row ss k (suc j) n s (omega (arith, at)) h

  get_elem?-rows :
      (action_array : ℕ → ℕ → Option ℕ) (es : List ℕ) (k i n e : ℕ)
      → i + k ≡ n
      → get_elem? es k ≡ some e
      → get_elem? (rows g m action_array es i) k
        ≡ some (m.name e, cells g m (action_array n) m.state_list 0)
  get_elem?-rows action_array [] k i n e at h = cc
  get_elem?-rows action_array (x ∷ es) zero i n e at h =
      let same : i ≡ n = omega (arith, at) in ground (arith, same)
  get_elem?-rows action_array (x ∷ es) (suc k) i n e at h =
      get_elem?-rows action_array es k (suc i) n e (omega (arith, at)) h

  length-cells :
      (row : ℕ → Option ℕ) (ss : List ℕ) (j : ℕ) → length (cells g m row ss j) ≡ length ss
  length-cells row [] j = refl
  length-cells row (s ∷ ss) j = ap suc (length-cells row ss (suc j))

  length-rows :
      (action_array : ℕ → ℕ → Option ℕ) (es : List ℕ) (i : ℕ)
      → length (rows g m action_array es i) ≡ length es
  length-rows action_array [] i = refl
  length-rows action_array (e ∷ es) i = ap suc (length-rows action_array es (suc i))

  -- For a populated machine whose population reported no error, `defineActionArray` writes a table
  -- with one row for each event and in it one element for each state: where actions return states
  -- one function, else a pair of an action and of a state or a transition function. For every event
  -- and state that the matrix of an action info names, the element at their orders has the action
  -- of that info and the target of its transition, or what stands for a missing one, with the names
  -- of the event and of the state before it. Orders are positions in the machine's lists, which are
  -- shorter than 2 ^ 31, and each action info in the array has an action, without a name only if it
  -- has a transition.
  pub define_action_array-populated :
      (p : Population) (pai e s : ℕ)
      → (populate_action_array m p).error ≡ false
      → contains m.action_info_list pai ≡ true
      → length m.event_list < 2147483648
      → length m.state_list < 2147483648
      → ((i : ℕ) → EachActionable g m ((populate_action_array m p).action_array i))
      → contains (expand m (p.matrices pai)).matrix_events e ≡ true
      → contains (expand m (p.matrices pai)).matrix_states s ≡ true
      → get_elem? m.event_list (m.order e) ≡ some e
      → get_elem? m.state_list (m.order s) ≡ some s
      → let slots : ℕ → ℕ → Option ℕ = (populate_action_array m p).action_array in
        let table : Rows = rows g m slots m.event_list 0 in
        let row : Cells = cells g m (slots (m.order e)) m.state_list 0 in
        (define_action_array g m slots
          ≡ some (array_start g m ++ render_rows table ++ codes "};\n"))
        × (length table ≡ length m.event_list)
        × (get_elem? table (m.order e) ≡ some (m.name e, row))
        × (length row ≡ length m.state_list)
        × (get_elem? row (m.order s) ≡ some (m.name s, cell_text g m (some pai) (m.order s)))
  define_action_array-populated p pai e s err listed few few_states ok in_events in_states at_e
        at_s =
      let q = populate_action_array m p in
      let filled : q.action_array (m.order e) (m.order s) ≡ some pai =
        populate-Fills m p pai err listed e in_events s in_states in
      (
        define_action_array-rows g m q.action_array few few_states ok,
        length-rows q.action_array m.event_list 0,
        get_elem?-rows q.action_array m.event_list (m.order e) 0 (m.order e) e (omega arith) at_e,
        length-cells (q.action_array (m.order e)) m.state_list 0,
        get_elem?-cells (q.action_array (m.order e)) m.state_list (m.order s) 0 (m.order s) s
              (omega arith) at_s
            ∙ ap (λ (slot : Option ℕ). some (m.name s, cell_text g m slot (m.order s))) filled,
      )
