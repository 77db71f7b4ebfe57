-- ===== src/ActionArray.antt =====
-- The action array of src/fsm_utils.c: `populate_action_array` and its iterators. An `ID_INFO` or an
-- `ACTION_INFO` is known by its address; the lists are sequences of addresses (module `Sequence`).
-- The array is a function of the two orders. Messages to stderr are left out.
pub mod Induction
pub mod Frame
pub mod Transitions
pub mod Expand
pub mod Handlers
pub mod Handled
pub mod Single
pub mod Backed
pub mod Uniform
pub mod Allocate
pub mod Iteration
pub mod Complete
use fsm_lang.Base.{
  ℕ, suc, ◌+◌, Bool, true, false, not, ◌&&◌, Option, none, some, List, [], ◌∷◌, ◌==◌, if◌then◌else◌,
  u32, length, Text,
}
use fsm_lang.Sequence.{absorb, append, add_unique, add_unique_except, iterate, set_at}

-- `struct _state_data_`, as far as this code goes.
pub record StateData : Type 0 where
  pub event_density_pct : ℕ
  pub pevents_handled : List ℕ
  pub pinbound_transitions : List ℕ
  pub poutbound_transitions : List ℕ
  pub pactions_list : List ℕ

-- `struct _event_data_`, as far as this code goes.
pub record EventData : Type 0 where
  pub single_pai_state_count : ℕ
  pub psingle_pai : Option ℕ
  pub single_pai_for_all_states : Bool
  pub phandling_states : List ℕ
  pub pactions_list : List ℕ
  pub state_density_pct : ℕ

-- What the parser has settled: for an `ID_INFO` its name, its `order`, whether its type is `STATE`,
-- and `transition_fn_returns_decl` (NULL and the empty list are treated alike by the code); for an
-- `ACTION_INFO` its action and transition; and the machine's lists.
pub record Machine : Type 0 where
  pub name : ℕ → Text
  pub order : ℕ → ℕ
  pub is_state : ℕ → Bool
  pub transition_fn_returns_decl : ℕ → List ℕ
  pub action : ℕ → Option ℕ
  pub transition : ℕ → Option ℕ
  pub event_list : List ℕ
  pub state_list : List ℕ
  pub action_info_list : List ℕ

-- `struct _matrix_info_`
pub record Matrix : Type 0 where
  pub matrix_states : List ℕ
  pub matrix_events : List ℕ

-- What population changes.
pub record Population : Type 0 where
  pub action_array : ℕ → ℕ → Option ℕ
  pub states : ℕ → StateData
  pub events : ℕ → EventData
  pub matrices : ℕ → Matrix
  pub has_single_pai_events : Bool
  pub error : Bool

abbrev pub is_some : {A : Type 0} → Option A → Bool
is_some none = false
is_some (some a) = true

-- `strlen(name) != 0`
abbrev pub has_text : Text → Bool
has_text [] = false
has_text (c ∷ s) = true

-- `psingle_pai == pai`
abbrev pub same_pai : Option ℕ → ℕ → Bool
same_pai none pai = false
same_pai (some p) pai = p == pai

abbrev pub with_state : (StateData → StateData) → ℕ → Population → Population
with_state f s p = record p { states = set_at p.states s (f (p.states s)) }

abbrev pub with_event : (EventData → EventData) → ℕ → Population → Population
with_event f e p = record p { events = set_at p.events e (f (p.events e)) }

abbrev pub add_inbound : ℕ → ℕ → Population → Population
add_inbound from =
    with_state λ d. record d { pinbound_transitions = add_unique d.pinbound_transitions from }

-- The iterator `add_inbound_state_wrapper`.
unfoldable pub add_inbound_state_wrapper : ℕ → ℕ → Population → Bool × Population
add_inbound_state_wrapper state_to_add ptransition_state p = (
  false,
  if state_to_add == ptransition_state then p else add_inbound state_to_add ptransition_state p,
)

-- `if (!list->count) copy_list(list, own)`
abbrev pub or_all : List ℕ → List ℕ → List ℕ
or_all own [] = absorb append [] own
or_all own (x ∷ xs) = x ∷ xs

module _ (m : Machine) where
  unfoldable pub set_slot : ℕ → ℕ → ℕ → Population → Population
  set_slot pai e s p = record p {
    action_array = λ i j. if i == m.order e && j == m.order s then some pai else p.action_array i j;
  }

  -- `if (action && strlen(action->name))`
  unfoldable pub note_action : Option ℕ → ℕ → ℕ → Population → Population
  note_action none e s p = p
  note_action (some a) e s p =
      if has_text (m.name a)
      then with_event (λ d. record d { pactions_list = add_unique d.pactions_list a }) e
          (with_state (λ d. record d { pactions_list = add_unique d.pactions_list a }) s p)
      else p

  unfoldable pub count_single : ℕ → ℕ → Population → Population
  count_single pai e p =
      if same_pai (p.events e).psingle_pai pai
      then with_event
          (λ d. record d { single_pai_state_count = u32 (d.single_pai_state_count + 1) }) e p
      else p

  unfoldable pub note_handler : ℕ → ℕ → Population → Population
  note_handler e s p =
      with_event (λ d. record d { phandling_states = add_unique d.phandling_states s }) e
        (with_state (λ d. record d { pevents_handled = add_unique d.pevents_handled e }) s p)

  -- `if (transition)`: to a state, or by a function that returns one of several.
  unfoldable pub note_transition : Option ℕ → ℕ → Population → Population
  unfolding add_inbound_state_wrapper
  note_transition none s p = p
  note_transition (some t) s p =
      if m.is_state t
      then (if t == s
          then p
          else with_state
              (λ d. record d { poutbound_transitions = add_unique d.poutbound_transitions t }) s
              (add_inbound s t p))
      else iterate (add_inbound_state_wrapper s) (m.transition_fn_returns_decl t) (
          with_state
            (λ d. record d {
              poutbound_transitions =
                  absorb (add_unique_except s) d.poutbound_transitions
                    (m.transition_fn_returns_decl t);
            })
            s p)

  -- The iterator over the states of a matrix.
  unfoldable pub add_to_action_array : ℕ → ℕ → ℕ → Population → Bool × Population
  unfolding set_slot note_action count_single note_handler note_transition
  add_to_action_array pai e s p =
      if is_some (p.action_array (m.order e) (m.order s))
      then (true, record p { error = true })
      else let q = note_transition (m.transition pai) s (
          note_handler e s
            (count_single pai e (note_action (m.action pai) e s (set_slot pai e s p)))) in
        (q.error, q)

  -- The counter and `psingle_pai` before the states are gone through.
  unfoldable pub start_event : ℕ → ℕ → Population → Population
  start_event pai e p =
      record (with_event
        (λ d. record d {
          single_pai_state_count = 0;
          psingle_pai = if is_some d.psingle_pai then d.psingle_pai else some pai;
        })
        e p) { error = false }

  unfoldable pub finish_event : ℕ → Population → Population
  finish_event e p =
      if (p.events e).single_pai_state_count == u32 (length m.state_list)
      then record (with_event (λ d. record d { single_pai_for_all_states = true }) e p) {
        has_single_pai_events = true;
      }
      else p

  -- The iterator over the events of a matrix.
  unfoldable pub iterate_matrix_states : ℕ → ℕ → Population → Bool × Population
  unfolding start_event add_to_action_array finish_event
  iterate_matrix_states pai e p =
      let q = finish_event e (
        iterate (add_to_action_array pai e) (p.matrices pai).matrix_states (start_event pai e p)) in
      (q.error, q)

  -- `ALL`: an empty list of a matrix stands for the machine's whole list.
  unfoldable pub expand : Matrix → Matrix
  expand x = record {
    matrix_states = or_all m.state_list x.matrix_states;
    matrix_events = or_all m.event_list x.matrix_events;
  }

  -- The iterator over the machine's action infos.
  unfoldable pub process_action_info : ℕ → Population → Bool × Population
  unfolding expand iterate_matrix_states
  process_action_info pai p =
      let x = expand (p.matrices pai) in
      let q =
        iterate (iterate_matrix_states pai) x.matrix_events
          (record p { matrices = set_at p.matrices pai x }) in
      (q.error, q)

  -- `populate_action_array`: the final population, whose `error` is what is returned.
  unfoldable pub populate_action_array : Population → Population
  unfolding process_action_info
  populate_action_array p =
      iterate process_action_info m.action_info_list (record p { error = false })
