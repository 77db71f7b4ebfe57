-- ===== src/ActionArray/Handled.antt =====
-- The members of the handler lists that `add_to_action_array` of src/fsm_utils.c keeps.
use fsm_lang.Base.{
  ℕ, ◌≤◌, ◌≡◌, refl, Bool, true, false, List, arith, ◌==◌, if◌then◌else◌, length, contains,
  Bool-cases, inl, inr, u32,
}
use fsm_lang.Sequence.{add_unique, set_at, contains-add_unique, add_unique-Distinct, Distinct}
use fsm_lang.Sequence.Subset.{Distinct-length}
use fsm_lang.ActionArray.{
  EventData, Machine, Population, is_some, expand, add_to_action_array, start_event, finish_event,
  populate_action_array,
}
use fsm_lang.ActionArray.Expand.{IsEvent, IsState, expand_states, expand_events, set_at-cases}
use fsm_lang.ActionArray.Frame.{Stepped, add_to_action_array_taken, add_to_action_array_free}
use fsm_lang.ActionArray.Induction.{Preserved, populate_action_array_inv}

-- No member twice, and only members of `own`.
abbrev pub Listed : List ℕ → List ℕ → Type 0
Listed own xs = Distinct xs × ((a : ℕ) → contains xs a ≡ true → contains own a ≡ true)

add_unique-Listed :
    (own ys : List ℕ) (m : ℕ) → contains own m ≡ true → Listed own ys → Listed own (add_unique ys m)
add_unique-Listed own ys m i (d, sub) =
    (add_unique-Distinct ys m d, λ a h. ground (arith, sub a, contains-add_unique ys m a))

pub Listed-length : (own xs : List ℕ) → Listed own xs → length xs ≤ length own
Listed-length own xs (d, sub) = Distinct-length xs own d sub

choose-Listed :
    (own ys zs : List ℕ) (b : Bool)
    → Listed own ys
    → Listed own zs
    → Listed own (if b then ys else zs)
choose-Listed own ys zs true p q = p
choose-Listed own ys zs false p q = q

-- The events that a state handles and the states that handle an event are the machine's, none twice;
-- the matrices name events and states of the machine.
pub record Handled (m : Machine) (p : Population) : Type 0 where
  pub events_handled : (s : ℕ) → Listed m.event_list (p.states s).pevents_handled
  pub handling_states : (e : ℕ) → Listed m.state_list (p.events e).phandling_states
  pub matrix_states : (a s : ℕ) → contains (p.matrices a).matrix_states s ≡ true → IsState m s
  pub matrix_events : (a e : ℕ) → contains (p.matrices a).matrix_events e ≡ true → IsEvent m e

module _ (m : Machine) where
  Stepped-Handled :
      (pai e s : ℕ) (p q : Population)
      → IsEvent m e
      → IsState m s
      → Stepped m pai e s p q
      → Handled m p
      → Handled m q
  Stepped-Handled pai e s p q ev st k h = record {
    events_handled = λ x. rw (k.handled x) (
        choose-Listed m.event_list _ _ (x == s)
          (add_unique-Listed m.event_list (p.states s).pevents_handled e ev (h.events_handled s))
          (h.events_handled x));
    handling_states = λ x. rw (k.handling x) (
        choose-Listed m.state_list _ _ (x == e)
          (add_unique-Listed m.state_list (p.events e).phandling_states s st (h.handling_states e))
          (h.handling_states x));
    matrix_states = λ a x i. h.matrix_states a x (rw (← k.matrices a) i);
    matrix_events = λ a x i. h.matrix_events a x (rw (← k.matrices a) i);
  }

  add_to_action_array-Handled :
      (pai e s : ℕ) (p : Population)
      → IsEvent m e
      → IsState m s
      → Handled m p
      → Handled m (add_to_action_array m pai e s p).1
  add_to_action_array-Handled pai e s p ev st h =
      elim (Bool-cases (is_some (p.action_array (m.order e) (m.order s)))) [
        | inl taken ↦ rw (add_to_action_array_taken m pai e s p taken) (record {
          events_handled = h.events_handled;
          handling_states = h.handling_states;
          matrix_states = h.matrix_states;
          matrix_events = h.matrix_events;
        })
        | inr free ↦
            let (k, same) = add_to_action_array_free m pai e s p free in
            Stepped-Handled pai e s p (add_to_action_array m pai e s p).1 ev st k h
      ]

  -- An event whose other fields change.
  set_at-Handled :
      (p : Population) (e : ℕ) (d : EventData)
      → d.phandling_states ≡ (p.events e).phandling_states
      → Handled m p
      → (x : ℕ) → Listed m.state_list (set_at p.events e d x).phandling_states
  set_at-Handled p e d same h x = elim (Bool-cases (x == e)) [
    | inl y ↦ rw (y, same) (h.handling_states e)
    | inr n ↦ rw n (h.handling_states x)
  ]

  start_event-Handled :
      (pai e : ℕ) (p : Population) → Handled m p → Handled m (start_event m pai e p)
  unfolding start_event
  start_event-Handled pai e p h = record {
    events_handled = h.events_handled;
    handling_states = set_at-Handled p e _ refl h;
    matrix_states = h.matrix_states;
    matrix_events = h.matrix_events;
  }

  finish_event-Handled : (e : ℕ) (p : Population) → Handled m p → Handled m (finish_event m e p)
  unfolding finish_event
  finish_event-Handled e p h =
      elim (Bool-cases ((p.events e).single_pai_state_count == u32 (length m.state_list))) [
        | inl y ↦ rw y (record {
          events_handled = h.events_handled;
          handling_states = set_at-Handled p e _ refl h;
          matrix_states = h.matrix_states;
          matrix_events = h.matrix_events;
        })
        | inr n ↦ rw n h
      ]

  expanded-Handled :
      (pai : ℕ) (p : Population)
      → Handled m p
      → Handled m (record p { matrices = set_at p.matrices pai (expand m (p.matrices pai)) })
  expanded-Handled pai p h = record {
    events_handled = h.events_handled;
    handling_states = h.handling_states;
    matrix_states = λ a s.
        set_at-cases m (λ x. contains x.matrix_states s ≡ true → IsState m s) p.matrices pai _ a
          (expand_states m (p.matrices pai) s (h.matrix_states pai s)) (h.matrix_states a s);
    matrix_events = λ a e.
        set_at-cases m (λ x. contains x.matrix_events e ≡ true → IsEvent m e) p.matrices pai _ a
          (expand_events m (p.matrices pai) e (h.matrix_events pai e)) (h.matrix_events a e);
  }

  Handled-Preserved : Preserved m (IsEvent m) (IsState m) (Handled m)
  Handled-Preserved = record {
    states_of = λ pai s p h i. h.matrix_states pai s i;
    events_of = λ pai e p h i. expand_events m (p.matrices pai) e (h.matrix_events pai e) i;
    step = λ pai e s p ev st h. add_to_action_array-Handled pai e s p ev st h;
    start = start_event-Handled;
    finish = finish_event-Handled;
    expanded = expanded-Handled;
    begun = λ p h. record {
      events_handled = h.events_handled;
      handling_states = h.handling_states;
      matrix_states = h.matrix_states;
      matrix_events = h.matrix_events;
    };
  }

  -- `populate_action_array`, whether it reports an error or not, keeps the lists of events that a
  -- state handles and of states that handle an event without repetition and within the machine's
  -- own lists, and the matrices within them too.
  pub populate-Handled : (p : Population) → Handled m p → Handled m (populate_action_array m p)
  populate-Handled =
      populate_action_array_inv m (IsEvent m) (IsState m) (Handled m) Handled-Preserved
