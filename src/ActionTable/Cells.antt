-- ===== src/ActionTable/Cells.antt =====
-- What `defineActionArray` writes for one slot of the action array, as a text of its own.
use fsm_lang.Base.{
  ℕ, ◌<◌, ◌≡◌, refl, arith, Bool, true, false, Option, none, some, List, [], ◌++◌, ◌==◌, ◌||◌, ap,
  ◌∙◌, if◌then◌else◌, get_elem?, u32, lt→ltb, Text, codes,
}
use fsm_lang.ActionArray.{Machine, has_text, is_some}
use fsm_lang.ActionTable.{
  Settings, name_by_index, compact_suffix, no_transition_suffix, transition_call,
  state_returning_element, target_state, transition_half, pair_element, dummy_element, element,
}

if-some :
    {x y : Option Text} {p q : Text} (b : Bool)
    → (b ≡ true → x ≡ some p)
    → (b ≡ false → y ≡ some q)
    → (if b then x else y) ≡ some (if b then p else q)
if-some true at_true at_false = at_true refl
if-some false at_true at_false = at_false refl

module _ (g : Settings) (m : Machine) where
  -- An action info has an action, whose name is empty only if there is a transition.
  abbrev pub Actionable : ℕ → Type 0
  Actionable pai =
      (a : ℕ) × (m.action pai ≡ some a)
      × ((has_text (m.name a) || is_some (m.transition pai)) ≡ true)

  abbrev pub action_text : Option ℕ → Text
  action_text none = []
  action_text (some a) = m.name a

  -- The action of a slot, `noAction` where there is none with a name.
  abbrev pub action_name : Option ℕ → Text
  action_name none = codes "noAction"
  action_name (some pai) =
      if has_text (action_text (m.action pai)) then action_text (m.action pai) else codes "noAction"

  -- The transition of a slot.
  abbrev pub slot_transition : Option ℕ → Option ℕ
  slot_transition none = none
  slot_transition (some pai) = m.transition pai

  -- A state or a transition function, or `noTransition`, behind `UFMN(`.
  abbrev pub transition_name : Option ℕ → Text → Text → Text
  transition_name none suffix no_suffix = codes "noTransition" ++ no_suffix ++ codes ")"
  transition_name (some t) suffix no_suffix =
      (if m.is_state t then codes "transitionTo" else []) ++ m.name t ++ suffix ++ codes ")"

  -- The state that a slot leads to, that of the column where it has no transition.
  abbrev pub column : ℕ → Text
  column j = action_text (get_elem? m.state_list j)

  abbrev pub next_state : Option ℕ → ℕ → Text
  next_state none j = column j
  next_state (some t) j = m.name t

  abbrev pub half_text : Option ℕ → ℕ → Text
  half_text o j =
      if g.transition_fn_count == 0
      then g.machine_name ++ codes "_" ++ next_state o j
      else codes "UFMN("
        ++ transition_name o (if g.compact_action_array then codes "_e" else [])
            (if g.compact_action_array then codes "_e" else codes "Fn")

  -- Where actions return states, the element is one function.
  abbrev pub returned_name : Option ℕ → Text
  returned_name none =
      codes "noTransition"
      ++ (if g.compact_action_array
          then codes "_e"
          else if g.transition_fn_count == 0
          then []
          else codes "Fn")
      ++ codes ")"
  returned_name (some pai) =
      if has_text (action_text (m.action pai))
      then action_text (m.action pai) ++ codes ")"
      else transition_name (m.transition pai) [] []

  -- The pair of an action and a transition; an empty slot has a blank behind the comma.
  abbrev pub pair_text : Option ℕ → ℕ → Text
  pair_text slot j =
      codes "{UFMN("
      ++ action_name slot
      ++ (if g.compact_action_array then codes "_e" else [])
      ++ (if is_some slot then codes ")," else codes "), ")
      ++ half_text (slot_transition slot) j
      ++ codes "}"

  -- The element for a slot in the column `j`.
  abbrev pub cell_text : Option ℕ → ℕ → Text
  cell_text slot j =
      if g.actions_return_states then codes "UFMN(" ++ returned_name slot else pair_text slot j

  pub name_by_index-at :
      (pids : List ℕ) (j s : ℕ)
      → get_elem? pids j ≡ some s
      → j < 2147483648
      → name_by_index m pids j ≡ some (m.name s)
  name_by_index-at pids j s h lt =
      let whole : u32 j ≡ j = omega (arith, lt) in
      rw (name_by_index, whole, lt→ltb j 2147483648 lt, h) refl

  module _ (j s : ℕ) (h : get_elem? m.state_list j ≡ some s) (lt : j < 2147483648) where
    column_lem : name_by_index m m.state_list j ≡ some (column j)
    column_lem = name_by_index-at m.state_list j s h lt ∙ ap some (rw h refl)

    target_state-next :
        (o : Option ℕ) → target_state g m o j ≡ some (g.machine_name ++ codes "_" ++ next_state o j)
    unfolding target_state
    target_state-next none = rw (target_state, column_lem) refl
    target_state-next (some t) = refl

    transition_half-half :
        (pai : ℕ) → transition_half g m pai j ≡ some (half_text (m.transition pai) j)
    unfolding transition_half
    transition_half-half pai =
        if-some (g.transition_fn_count == 0) (λ y. target_state-next (m.transition pai))
          (λ n. by_transition (m.transition pai) n)
      where
        by_transition :
            (o : Option ℕ)
            → (g.transition_fn_count == 0) ≡ false
            → (elim o [
              | none ↦ some (codes "UFMN(noTransition" ++ no_transition_suffix g ++ codes ")")
              | some t ↦ some (transition_call g m t (compact_suffix g))
            ])
              ≡ some (
                  codes "UFMN("
                  ++ transition_name o
                      (if g.compact_action_array then codes "_e" else [])
                      (if g.compact_action_array then codes "_e" else codes "Fn"))
        by_transition none n =
            ap (λ (t : Text). some (codes "UFMN(noTransition" ++ t ++ codes ")")) (rw n refl)
        by_transition (some t) n = refl

    dummy_element-cell : dummy_element g m j ≡ some (cell_text none j)
    unfolding dummy_element
    dummy_element-cell =
        if-some g.actions_return_states (λ b. refl)
          (λ b.
            ap
              (λ (half : Option Text). elim half [
                | none ↦ none
                | some h ↦
                    some
                      (codes "{UFMN(noAction" ++ compact_suffix g ++ codes "), " ++ h ++ codes "}")
              ])
              (if-some (g.transition_fn_count == 0) (λ y. target_state-next none) (λ n. refl)))

    pair_element-cell :
        (pai a : ℕ) → m.action pai ≡ some a → pair_element g m pai j ≡ some (pair_text (some pai) j)
    unfolding pair_element
    pair_element-cell pai a acts = rw (pair_element, acts, transition_half-half pai) refl

    state_returning-cell :
        (pai a : ℕ)
        → m.action pai ≡ some a
        → (has_text (m.name a) || is_some (m.transition pai)) ≡ true
        → state_returning_element g m pai ≡ some (codes "UFMN(" ++ returned_name (some pai))
    unfolding state_returning_element
    state_returning-cell pai a acts some_text =
        rw (state_returning_element, acts)
          (titled (m.transition pai) (has_text (m.name a)) some_text)
      where
        titled :
            (o : Option ℕ) (b : Bool)
            → (b || is_some o) ≡ true
            → (if b
                then some (codes "UFMN(" ++ m.name a ++ codes ")")
                else elim o [ none ↦ none | some t ↦ some (transition_call g m t []) ])
              ≡ some
                  (codes "UFMN(" ++ (if b then m.name a ++ codes ")" else transition_name o [] []))
        titled o true h = refl
        titled none false h = cc
        titled (some t) false h = refl

    -- An element is the text for its slot.
    pub element-cell :
        (slot : Option ℕ)
        → ((pai : ℕ) → slot ≡ some pai → Actionable pai)
        → element g m slot j ≡ some (cell_text slot j)
    unfolding element
    element-cell none ok = dummy_element-cell
    element-cell (some pai) ok =
        let (a, acts, some_text) = ok pai refl in
        if-some g.actions_return_states (λ b. state_returning-cell pai a acts some_text)
          (λ b. pair_element-cell pai a acts)
