-- ===== src/StateMachine/Compiled.antt =====
-- The generated loop with the array of a populated machine that has no transition functions.
use mathlib.Core.Path.{subst}
use fsm_lang.Base.{
  ℕ, zero, suc, ◌+◌, ◌<◌, ◌≡◌, refl, sym, arith, Bool, true, false, Option, none, some, List, [],
  ◌∷◌, ◌++◌, map, if◌then◌else◌, ◌&&◌, ltb, lt→ltb, length, get_elem?, Text, codes, contains, ap,
  ◌∙◌,
}
use fsm_lang.Ancestry
use fsm_lang.Events.{
  EventInfo, Own, MachineList, machine_info, as_top, full_name, returns_events,
  assign_external_event_values,
}
use fsm_lang.Events.Enumerators.{event_enum}
use fsm_lang.Events.Values.{Values, declare}
use fsm_lang.Events.Blocks.{event_names, EachLastLeaf}
use fsm_lang.Events.Names.{Declared}
use fsm_lang.Events.Top.{names_behind}
use fsm_lang.Events.Numbered.{all_names_declared}
use fsm_lang.Events.Finder.{number-get_elem?, get_elem?-below}
use fsm_lang.ActionArray.{Machine, Population, has_text, expand, populate_action_array}
use fsm_lang.ActionArray.Complete.{populate-Fills}
use fsm_lang.StateMachine.Rounds.{settled, settled-state, react-entry, round-react, loop-round}
use fsm_lang.StateMachine.{Fsm, Entry, to_state, Program, fsm_loop}

-- The state that an action info leads to from the state with an order.
abbrev pub target : Machine → ℕ → ℕ → ℕ
target m pai j = elim (m.transition pai) [ none ↦ j | some t ↦ m.order t ]

-- The array that `defineActionArray` writes, in the generated program: `perform` is what the user's
-- action functions do. A row and a column are positions, which say nothing of the enumerators' values;
-- outside its bounds there is no element. The enumerator of a state has its order for its value.
module _ {W : Type 0} (m : Machine) (perform : ℕ → Fsm W → ℕ × Fsm W) (no_event : ℕ) where
  unfoldable pub entry_of : Option ℕ → ℕ → Option (Entry W)
  entry_of none j = some (record { action = λ pfsm. (no_event, pfsm); transition = to_state j })
  entry_of (some pai) j = elim (m.action pai) [
    | none ↦ none
    | some a ↦ some (record {
      action = if has_text (m.name a) then perform a else (λ pfsm. (no_event, pfsm));
      transition = to_state (target m pai j);
    })
  ]

  unfoldable pub generated_array : (ℕ → ℕ → Option ℕ) → ℕ → ℕ → Option (Entry W)
  unfolding entry_of
  generated_array slots i j =
      if ltb i (length m.event_list) && ltb j (length m.state_list)
      then entry_of (slots i j) j
      else none

  generated_array-filled :
      (slots : ℕ → ℕ → Option ℕ) (i j pai a : ℕ)
      → i < length m.event_list
      → j < length m.state_list
      → slots i j ≡ some pai
      → m.action pai ≡ some a
      → has_text (m.name a) ≡ true
      → generated_array slots i j
        ≡ some (record { action = perform a; transition = to_state (target m pai j) })
  unfolding generated_array
  generated_array-filled slots i j pai a i_in j_in filled acts text =
      rw
        (
          generated_array,
          lt→ltb i (length m.event_list) i_in,
          lt→ltb j (length m.state_list) j_in,
          filled,
          entry_of,
          acts,
          text,
        )
        refl

abbrev tail_of : List Text → List Text
tail_of [] = []
tail_of (x ∷ xs) = xs

-- The names in an enumeration that is written for the same events.
abbrev pub event_texts : List EventInfo → List Text
event_texts = map λ e. e.name

event_names-at :
    (pmi : Ancestry.Machine) (name_of : ℕ → Text) (ids : List ℕ) (es : List EventInfo)
    (rest : List Text) (k e : ℕ)
    → map name_of ids ≡ event_texts es
    → get_elem? ids k ≡ some e
    → get_elem? (event_names pmi es ++ rest) k ≡ some (full_name pmi (name_of e))
event_names-at pmi name_of [] es rest k e same at = cc
event_names-at pmi name_of (x ∷ ids) [] rest k e same at = cc
event_names-at pmi name_of (x ∷ ids) (y ∷ es) rest zero e same at =
    let first : y.name ≡ name_of x = cc in
    let this : x ≡ e = cc in ap (λ (t : Text). some (full_name pmi t)) (first ∙ ap name_of this)
event_names-at pmi name_of (x ∷ ids) (y ∷ es) rest (suc k) e same at =
    event_names-at pmi name_of ids es rest k e (cc) at

event_names-behind :
    (pmi : Ancestry.Machine) (name_of : ℕ → Text) (ids : List ℕ) (es : List EventInfo) (n : Text)
    (rest : List Text)
    → map name_of ids ≡ event_texts es
    → get_elem? (event_names pmi es ++ n ∷ rest) (length ids) ≡ some n
event_names-behind pmi name_of [] [] n rest same = refl
event_names-behind pmi name_of [] (y ∷ es) n rest same = cc
event_names-behind pmi name_of (x ∷ ids) [] n rest same = cc
event_names-behind pmi name_of (x ∷ ids) (y ∷ es) n rest same =
    event_names-behind pmi name_of ids es n rest (cc)

-- Without designations the enumerator of an event has its position for its value, and `noEvent` has
-- the number of the events.
enumerators-Declared :
    (external : Text → ℕ) (compact : Bool) (o : Own) (subs : MachineList) (m : Machine) (k e : ℕ)
    → assign_external_event_values compact o ≡ false
    → EachLastLeaf subs
    → returns_events o ≡ true
    → map m.name m.event_list ≡ event_texts o.event_list
    → get_elem? m.event_list k ≡ some e
    → (next : ℕ) × (vs : Values) × (declare external (event_enum compact (machine_info o subs)) 0 []
        ≡ some (next, vs))
      × Declared (full_name (as_top o) (m.name e), k) vs
      × Declared (full_name (as_top o) (codes "noEvent"), length m.event_list) vs
enumerators-Declared external compact o subs m k e unused leaf returns same at =
    let (next, vs, declared, all) = all_names_declared external compact o subs unused leaf in
    let names : List Text = event_names (as_top o) o.event_list ++ names_behind o subs in
    let behind : names_behind o subs
        ≡ (full_name (as_top o) (codes "noEvent") ∷ tail_of (names_behind o subs)) =
      rw returns refl in
    let zero_plus : (j : ℕ) → 0 + j ≡ j = λ j. omega arith in
    (
      next,
      vs,
      declared,
      subst (λ (j : ℕ). Declared (full_name (as_top o) (m.name e), j) vs) (zero_plus k)
          (number-get_elem? names k 0 (full_name (as_top o) (m.name e)) vs
            (event_names-at (as_top o) m.name m.event_list o.event_list (names_behind o subs) k e
              same at)
            all),
      subst (λ (j : ℕ). Declared (full_name (as_top o) (codes "noEvent"), j) vs)
          (zero_plus (length m.event_list))
          (number-get_elem? names (length m.event_list) 0 (full_name (as_top o) (codes "noEvent"))
            vs
            (ap
                (λ (ns : List Text).
                  get_elem? (event_names (as_top o) o.event_list ++ ns) (length m.event_list))
                behind
              ∙ event_names-behind (as_top o) m.name m.event_list o.event_list
                  (full_name (as_top o) (codes "noEvent")) (tail_of (names_behind o subs)) same)
            all),
    )

-- On a populated machine whose population reported no error, the loop of the generated machine,
-- started with the value of an event's enumerator and in a state that the matrix of an action info
-- names, calls the action of that info once and goes on with the event that it returns, in the
-- state that the info's transition leads to, or in the same state if it has none. The state is
-- entered through `change_state` where functions run on transitions. The enumeration of the events
-- gives that event its order and `noEvent` the number of the events for value. The machine is a
-- top-level one without transition functions; its actions return events; external designations are
-- not used; no last sub-machine of a sub-machine has sub-machines itself; the program's array is
-- the written one, with nothing outside its bounds; the orders of the event and of the state are
-- their positions in the machine's lists; the action has a name, and it leaves the state alone.
pub fsm_loop-populated :
    {W : Type 0} (external : Text → ℕ) (compact : Bool) (o : Own) (subs : MachineList) (m : Machine)
    (p : Population) (g : Program W) (perform : ℕ → Fsm W → ℕ × Fsm W) (pai a e s fuel : ℕ)
    (pfsm : Fsm W)
    → assign_external_event_values compact o ≡ false
    → EachLastLeaf subs
    → returns_events o ≡ true
    → map m.name m.event_list ≡ event_texts o.event_list
    → (populate_action_array m p).error ≡ false
    → contains m.action_info_list pai ≡ true
    → contains (expand m (p.matrices pai)).matrix_events e ≡ true
    → contains (expand m (p.matrices pai)).matrix_states s ≡ true
    → get_elem? m.event_list (m.order e) ≡ some e
    → get_elem? m.state_list (m.order s) ≡ some s
    → g.no_event ≡ length m.event_list
    → ((i j : ℕ)
        → g.action_array i j
          ≡ generated_array m perform g.no_event (populate_action_array m p).action_array i j)
    → m.action pai ≡ some a
    → has_text (m.name a) ≡ true
    → pfsm.state ≡ m.order s
    → let seen : Fsm W = record pfsm { event = m.order e } in
      let next : ℕ = target m pai (m.order s) in
      (perform a seen).1.state ≡ pfsm.state
      → (last : ℕ) × (vs : Values) × (declare external
            (event_enum compact (machine_info o subs))
            0
            []
          ≡ some (last, vs))
        × Declared (full_name (as_top o) (m.name e), m.order e) vs
        × Declared (full_name (as_top o) (codes "noEvent"), g.no_event) vs
        × (fsm_loop g (suc fuel) (m.order e) pfsm
            ≡ fsm_loop g fuel (perform a seen).0 (settled g (perform a seen).1 next))
        × ((settled g (perform a seen).1 next).state ≡ next)
fsm_loop-populated external compact o subs m p g perform pai a e s fuel pfsm unused leaf returns
      names err listed in_events in_states at_e at_s bound same acts text at kept =
    let (last, vs, declared, event_is, no_event_is) =
      enumerators-Declared external compact o subs m (m.order e) e unused leaf returns names at_e in
    let seen = record pfsm { event = m.order e } in
    let next : ℕ = target m pai (m.order s) in
    let filled : (populate_action_array m p).action_array (m.order e) (m.order s) ≡ some pai =
      populate-Fills m p pai err listed e in_events s in_states in
    let e_in : m.order e < length m.event_list = get_elem?-below m.event_list (m.order e) e at_e in
    let s_in : m.order s < length m.state_list = get_elem?-below m.state_list (m.order s) s at_s in
    let slot : g.action_array (m.order e) pfsm.state
        ≡ some (record { action = perform a; transition = to_state next }) =
      ap (λ (j : ℕ). g.action_array (m.order e) j) at
      ∙ same (m.order e) (m.order s)
      ∙ generated_array-filled m perform g.no_event (populate_action_array m p).action_array
          (m.order e) (m.order s) pai a e_in s_in filled acts text in
    (
      last,
      vs,
      declared,
      event_is,
      subst (λ (j : ℕ). Declared (full_name (as_top o) (codes "noEvent"), j) vs) (sym bound)
          no_event_is,
      loop-round g fuel (m.order e) (perform a seen).0 pfsm (settled g (perform a seen).1 next)
          (ground (arith, e_in, bound))
          (round-react g (m.order e) pfsm (ground (arith, e_in, bound))
            ∙ react-entry g (m.order e) (m.order e) seen
                (record { action = perform a; transition = to_state next }) next slot refl kept),
      settled-state g (perform a seen).1 next,
    )
