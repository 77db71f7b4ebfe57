-- ===== src/ActionTable/Rendered.antt =====
-- The table that `defineActionArray` writes: a row for each event, in it an element for each state.
use fsm_lang.Base.{
  ℕ, suc, ◌≡◌, ◌<◌, refl, ◌∙◌, ap, sym, arith, Bool, true, false, Option, some, List, [], ◌∷◌, ◌++◌,
  append_assoc, ◌==◌, if◌then◌else◌, length, length-append, get_elem?, Text, codes,
}
use fsm_lang.ActionArray.{Machine}
use fsm_lang.ActionTable.{Settings, write_states, write_events, array_start, define_action_array}
use fsm_lang.ActionTable.Cells.{Actionable, cell_text, name_by_index-at, element-cell}

-- A row's elements with the names of their states, and the rows with the names of their events.
abbrev pub Cells : Type 0
Cells = List (Text × Text)

abbrev pub Rows : Type 0
Rows = List (Text × Cells)

abbrev pub render_cells : Bool → Cells → Text
render_cells first [] = []
render_cells first ((s, x) ∷ cells) =
    codes "\t\t/* -- "
    ++ s
    ++ codes " -- */\t"
    ++ (if first then [] else codes ", ")
    ++ x
    ++ codes "\n"
    ++ render_cells false cells

abbrev pub render_rows : Rows → Text
render_rows [] = []
render_rows ((e, cells) ∷ rows) =
    codes "\t{\n\t\t/* -- "
    ++ e
    ++ codes " -- */\n\n"
    ++ render_cells true cells
    ++ codes "\t},\n"
    ++ render_rows rows

pub get_elem?-behind : (xs ys : List ℕ) (y : ℕ) → get_elem? (xs ++ y ∷ ys) (length xs) ≡ some y
get_elem?-behind [] ys y = refl
get_elem?-behind (x ∷ xs) ys y = get_elem?-behind xs ys y

module _ (g : Settings) (m : Machine) where
  abbrev pub EachActionable : (ℕ → Option ℕ) → Type 0
  EachActionable row = (j pai : ℕ) → row j ≡ some pai → Actionable g m pai

  abbrev pub cells : (ℕ → Option ℕ) → List ℕ → ℕ → Cells
  cells row [] j = []
  cells row (s ∷ ss) j = (m.name s, cell_text g m (row j) j) ∷ cells row ss (suc j)

  abbrev pub rows : (ℕ → ℕ → Option ℕ) → List ℕ → ℕ → Rows
  rows action_array [] i = []
  rows action_array (e ∷ es) i =
      (m.name e, cells (action_array i) m.state_list 0) ∷ rows action_array es (suc i)

  write_states-cells :
      (row : ℕ → Option ℕ) (pre rest : List ℕ) (j : ℕ)
      → m.state_list ≡ pre ++ rest
      → length pre ≡ j
      → length m.state_list < 2147483648
      → EachActionable row
      → write_states g m row (length rest) j ≡ some (render_cells (j == 0) (cells row rest j))
  unfolding write_states
  write_states-cells row pre [] j h k few ok = refl
  write_states-cells row pre (s ∷ rest) j h k few ok =
      let at : get_elem? m.state_list j ≡ some s =
        ap (λ (l : List ℕ). get_elem? l j) h
        ∙ ap (λ (i : ℕ). get_elem? (pre ++ s ∷ rest) i) (sym k)
        ∙ get_elem?-behind pre rest s in
      let lt : j < 2147483648 =
        omega (arith, k, few, ap (λ (l : List ℕ). length l) h, length-append pre (s ∷ rest)) in
      let later : (suc j == 0) ≡ false = ground arith in
      rw
        (
          write_states,
          name_by_index-at g m m.state_list j s at lt,
          element-cell g m j s at lt (row j) (ok j),
          write_states-cells row (pre ++ s ∷ []) rest (suc j)
                (h ∙ sym (append_assoc pre (s ∷ []) rest))
                (length-append pre (s ∷ []) ∙ omega (arith, k)) few ok
              ∙ ap (λ (b : Bool). some (render_cells b (cells row rest (suc j)))) later,
        )
        refl

  pub row_text :
      (row : ℕ → Option ℕ)
      → length m.state_list < 2147483648
      → EachActionable row
      → write_states g m row (length m.state_list) 0
        ≡ some (render_cells true (cells row m.state_list 0))
  row_text row few ok = write_states-cells row [] m.state_list 0 refl refl few ok

  write_events-rows :
      (action_array : ℕ → ℕ → Option ℕ) (pre rest : List ℕ) (i : ℕ)
      → m.event_list ≡ pre ++ rest
      → length pre ≡ i
      → length m.event_list < 2147483648
      → length m.state_list < 2147483648
      → ((k : ℕ) → EachActionable (action_array k))
      → write_events g m action_array (length rest) i
        ≡ some (render_rows (rows action_array rest i))
  unfolding write_events
  write_events-rows action_array pre [] i h k few few_states ok = refl
  write_events-rows action_array pre (e ∷ rest) i h k few few_states ok =
      let at : get_elem? m.event_list i ≡ some e =
        ap (λ (l : List ℕ). get_elem? l i) h
        ∙ ap (λ (n : ℕ). get_elem? (pre ++ e ∷ rest) n) (sym k)
        ∙ get_elem?-behind pre rest e in
      let lt : i < 2147483648 =
        omega (arith, k, few, ap (λ (l : List ℕ). length l) h, length-append pre (e ∷ rest)) in
      rw
        (
          write_events,
          name_by_index-at g m m.event_list i e at lt,
          row_text (action_array i) few_states (ok i),
          write_events-rows action_array (pre ++ e ∷ []) rest (suc i)
              (h ∙ sym (append_assoc pre (e ∷ []) rest))
              (length-append pre (e ∷ []) ∙ omega (arith, k)) few few_states ok,
        )
        refl

  -- Where there are fewer than 2 ^ 31 events and states and each action info in the array has an
  -- action, without a name only if it has a transition, the written text is that of the table with a
  -- row for each event and an element for each state.
  pub define_action_array-rows :
      (action_array : ℕ → ℕ → Option ℕ)
      → length m.event_list < 2147483648
      → length m.state_list < 2147483648
      → ((i : ℕ) → EachActionable (action_array i))
      → define_action_array g m action_array
        ≡ some (array_start g m ++ render_rows (rows action_array m.event_list 0) ++ codes "};\n")
  unfolding define_action_array
  define_action_array-rows action_array few few_states ok =
      rw
        (
          define_action_array,
          write_events-rows action_array [] m.event_list 0 refl refl few few_states ok,
        )
        refl
