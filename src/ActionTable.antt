-- ===== src/ActionTable.antt =====
-- The action array that src/fsm_c.c writes into the C source of a machine: `defineActionArray`, on the
-- action array of module `ActionArray`. Lists are sequences of addresses; a NULL that is read gives
-- `none`.
pub mod Cells
pub mod Rendered
pub mod Compiled
pub mod Compact
use fsm_lang.Base.{
  ℕ, zero, suc, ◌+◌, Bool, true, false, Option, none, some, List, [], ◌++◌, ◌==◌, if◌then◌else◌,
  length, get_elem?, ltb, u32, Text, codes,
}
use fsm_lang.ActionArray.{Machine, has_text}

-- What the writer reads apart from the machine: the option for a compact array, the machine's flag,
-- `transition_fn_list->count`, and what `machineName`, `actionFnType` and `actionTransType` return.
pub record Settings : Type 0 where
  pub compact_action_array : Bool
  pub actions_return_states : Bool
  pub transition_fn_count : ℕ
  pub machine_name : Text
  pub action_fn_type : Text
  pub action_trans_type : Text

-- `compact_action_array ? "_e" : ""`
abbrev pub compact_suffix : Settings → Text
compact_suffix g = if g.compact_action_array then codes "_e" else []

-- What follows `noTransition`.
abbrev pub no_transition_suffix : Settings → Text
no_transition_suffix g =
    if g.compact_action_array
    then codes "_e"
    else if g.transition_fn_count == 0
    then []
    else codes "Fn"

-- What stands at an `unsigned` index that is passed as an `int`: nothing where that is negative.
abbrev pub at_int : List ℕ → ℕ → Option ℕ
at_int pids i = if ltb (u32 i) 2147483648 then get_elem? pids (u32 i) else none

-- A name of the machine's lists by its index, as `eventNameByIndex` and `stateNameByIndex` find it.
abbrev pub name_by_index : Machine → List ℕ → ℕ → Option Text
name_by_index m pids i = elim (at_int pids i) [ none ↦ none | some pid ↦ some (m.name pid) ]

module _ (g : Settings) (m : Machine) where
  -- `UFMN(transitionTo…)` or `UFMN(…)`
  abbrev pub transition_call : ℕ → Text → Text
  transition_call t suffix =
      codes "UFMN("
      ++ (if m.is_state t then codes "transitionTo" else [])
      ++ m.name t
      ++ suffix
      ++ codes ")"

  -- Where actions return states, a slot that holds an action info.
  unfoldable pub state_returning_element : ℕ → Option Text
  state_returning_element pai = elim (m.action pai) [
    | none ↦ none
    | some a ↦
        let transition : Option Text = elim (m.transition pai) [
          | none ↦ none
          | some t ↦ some (transition_call t [])
        ] in
        if has_text (m.name a) then some (codes "UFMN(" ++ m.name a ++ codes ")") else transition
  ]

  -- Where there are no transition functions: the name of a state, or that of the column.
  unfoldable pub target_state : Option ℕ → ℕ → Option Text
  target_state (some t) j = some (g.machine_name ++ codes "_" ++ m.name t)
  target_state none j = elim (name_by_index m m.state_list j) [
    | none ↦ none
    | some s ↦ some (g.machine_name ++ codes "_" ++ s)
  ]

  -- The second half of an element, for a slot that holds an action info.
  unfoldable pub transition_half : ℕ → ℕ → Option Text
  unfolding target_state
  transition_half pai j =
      if g.transition_fn_count == 0
      then target_state (m.transition pai) j
      else elim (m.transition pai) [
        | none ↦ some (codes "UFMN(noTransition" ++ no_transition_suffix g ++ codes ")")
        | some t ↦ some (transition_call t (compact_suffix g))
      ]

  unfoldable pub pair_element : ℕ → ℕ → Option Text
  unfolding transition_half
  pair_element pai j = elim (m.action pai) [
    | none ↦ none
    | some a ↦ elim (transition_half pai j) [
      | none ↦ none
      | some half ↦ some (
          codes "{UFMN("
          ++ (if has_text (m.name a) then m.name a else codes "noAction")
          ++ compact_suffix g
          ++ codes "),"
          ++ half
          ++ codes "}")
    ]
  ]

  -- The dummy of an empty slot.
  unfoldable pub dummy_element : ℕ → Option Text
  unfolding target_state
  dummy_element j =
      let half : Option Text =
        if g.transition_fn_count == 0
        then target_state none j
        else some (
            codes "UFMN(noTransition"
            ++ (if g.compact_action_array then codes "_e" else codes "Fn")
            ++ codes ")") in
      if g.actions_return_states
      then some (codes "UFMN(noTransition" ++ no_transition_suffix g ++ codes ")")
      else elim half [
        | none ↦ none
        | some h ↦
            some (codes "{UFMN(noAction" ++ compact_suffix g ++ codes "), " ++ h ++ codes "}")
      ]

  unfoldable pub element : Option ℕ → ℕ → Option Text
  unfolding state_returning_element pair_element dummy_element
  element none j = dummy_element j
  element (some pai) j =
      if g.actions_return_states then state_returning_element pai else pair_element pai j

  -- The loop over the states, with the number of rounds left: the row's text.
  unfoldable pub write_states : (ℕ → Option ℕ) → ℕ → ℕ → Option Text
  unfolding element
  write_states row zero j = some []
  write_states row (suc rounds) j =
      let rest = write_states row rounds (suc j) in
      elim (name_by_index m m.state_list j) [
        | none ↦ none
        | some s ↦ elim (element (row j) j) [
          | none ↦ none
          | some x ↦ elim rest [
            | none ↦ none
            | some more ↦ some (
                codes "\t\t/* -- "
                ++ s
                ++ codes " -- */\t"
                ++ (if j == 0 then [] else codes ", ")
                ++ x
                ++ codes "\n"
                ++ more)
          ]
        ]
      ]

  -- The loop over the events.
  unfoldable pub write_events : (ℕ → ℕ → Option ℕ) → ℕ → ℕ → Option Text
  unfolding write_states
  write_events action_array zero i = some []
  write_events action_array (suc rounds) i =
      let rest = write_events action_array rounds (suc i) in
      elim (name_by_index m m.event_list i) [
        | none ↦ none
        | some e ↦ elim (write_states (action_array i) (length m.state_list) 0) [
          | none ↦ none
          | some row ↦ elim rest [
            | none ↦ none
            | some more ↦ some (
                codes "\t{\n\t\t/* -- " ++ e ++ codes " -- */\n\n" ++ row ++ codes "\t},\n" ++ more)
          ]
        ]
      ]

  abbrev pub array_start : Text
  array_start =
      codes "static const "
      ++ (if g.actions_return_states then g.action_fn_type else g.action_trans_type)
      ++ codes " "
      ++ g.machine_name
      ++ codes "_action_array[THIS(numEvents)]["
      ++ g.machine_name
      ++ codes "_numStates] =\n{\n"

  -- `defineActionArray` behind the arrays that a compact array refers to.
  unfoldable pub define_action_array : (ℕ → ℕ → Option ℕ) → Option Text
  unfolding write_events
  define_action_array action_array = elim (write_events action_array (length m.event_list) 0) [
    | none ↦ none
    | some rows ↦ some (array_start ++ rows ++ codes "};\n")
  ]
