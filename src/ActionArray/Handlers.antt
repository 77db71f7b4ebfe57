-- ===== src/ActionArray/Handlers.antt =====
-- The handler lists and the action array of src/fsm_utils.c.
use fsm_lang.Base.{ℕ, ◌<◌, ◌≡◌, true, arith, length, contains, Bool-cases, inl, inr}
use fsm_lang.Sequence.{set_at, contains-add_unique}
use fsm_lang.ActionArray.{
  Machine, Population, is_some, expand, add_to_action_array, start_event, finish_event,
  populate_action_array,
}
use fsm_lang.ActionArray.Expand.{IsEvent, IsState, expand_states, expand_events, set_at-cases}
use fsm_lang.ActionArray.Induction.{Preserved, populate_action_array_inv}
use fsm_lang.ActionArray.Frame.{Stepped, add_to_action_array_taken, add_to_action_array_free}

-- What `enumerate_pid_list` gives the events and the states: distinct orders within range.
pub record Enumerated (m : Machine) : Type 0 where
  pub event_orders : (a b : ℕ) → IsEvent m a → IsEvent m b → m.order a ≡ m.order b → a ≡ b
  pub state_orders : (a b : ℕ) → IsState m a → IsState m b → m.order a ≡ m.order b → a ≡ b
  pub event_bound : (e : ℕ) → IsEvent m e → m.order e < length m.event_list
  pub state_bound : (s : ℕ) → IsState m s → m.order s < length m.state_list

-- The slot of an event and a state is filled exactly when the state is among the event's handling
-- states, and exactly when the event is among those the state handles; no slot outside the array is
-- written; the matrices name events and states of the machine.
pub record Agrees (m : Machine) (p : Population) : Type 0 where
  pub handling :
      (e s : ℕ) → contains (p.events e).phandling_states s ≡ contains (p.states s).pevents_handled e
  pub filled :
      (e s : ℕ)
      → IsEvent m e
      → IsState m s
      → is_some (p.action_array (m.order e) (m.order s)) ≡ contains (p.states s).pevents_handled e
  pub inside :
      (i j : ℕ)
      → is_some (p.action_array i j) ≡ true
      → (i < length m.event_list) × (j < length m.state_list)
  pub matrix_states : (a s : ℕ) → contains (p.matrices a).matrix_states s ≡ true → IsState m s
  pub matrix_events : (a e : ℕ) → contains (p.matrices a).matrix_events e ≡ true → IsEvent m e

module _ (m : Machine) (enumerated : Enumerated m) where
  Stepped-Agrees :
      (pai e s : ℕ) (p q : Population)
      → IsEvent m e
      → IsState m s
      → Stepped m pai e s p q
      → Agrees m p
      → Agrees m q
  Stepped-Agrees pai e s p q ev st k h = record {
    handling = λ x y. ground (
      arith,
      h.handling x y,
      k.handling x,
      k.handled y,
      contains-add_unique (p.events e).phandling_states s y,
      contains-add_unique (p.states s).pevents_handled e x,
    );
    filled = λ x y xe ys. ground (
      arith,
      h.filled x y xe ys,
      k.action_array (m.order x) (m.order y),
      k.handled y,
      contains-add_unique (p.states s).pevents_handled e x,
      enumerated.event_orders x e xe ev,
      enumerated.state_orders y s ys st,
    );
    inside = λ i j. ground (
      arith,
      h.inside i j,
      k.action_array i j,
      enumerated.event_bound e ev,
      enumerated.state_bound s st,
    );
    matrix_states = λ a x i. h.matrix_states a x (rw (← k.matrices a) i);
    matrix_events = λ a x i. h.matrix_events a x (rw (← k.matrices a) i);
  }

  add_to_action_array-Agrees :
      (pai e s : ℕ) (p : Population)
      → IsEvent m e
      → IsState m s
      → Agrees m p
      → Agrees m (add_to_action_array m pai e s p).1
  add_to_action_array-Agrees pai e s p ev st h =
      elim (Bool-cases (is_some (p.action_array (m.order e) (m.order s)))) [
        | inl taken ↦ rw (add_to_action_array_taken m pai e s p taken) (record {
          handling = h.handling;
          filled = h.filled;
          inside = h.inside;
          matrix_states = h.matrix_states;
          matrix_events = h.matrix_events;
        })
        | inr free ↦
            let (k, same) = add_to_action_array_free m pai e s p free in
            Stepped-Agrees pai e s p (add_to_action_array m pai e s p).1 ev st k h
      ]

  start_event-Agrees : (pai e : ℕ) (p : Population) → Agrees m p → Agrees m (start_event m pai e p)
  unfolding start_event
  start_event-Agrees pai e p h = record {
    handling = λ x y. ground (arith, h.handling x y);
    filled = h.filled;
    inside = h.inside;
    matrix_states = h.matrix_states;
    matrix_events = h.matrix_events;
  }

  finish_event-Agrees : (e : ℕ) (p : Population) → Agrees m p → Agrees m (finish_event m e p)
  unfolding finish_event
  finish_event-Agrees e p h = record {
    handling = λ x y. ground (arith, h.handling x y);
    filled = λ x y xe ys. ground (arith, h.filled x y xe ys);
    inside = λ i j. ground (arith, h.inside i j);
    matrix_states = λ a s. ground (arith, h.matrix_states a s);
    matrix_events = λ a e. ground (arith, h.matrix_events a e);
  }

  expanded-Agrees :
      (pai : ℕ) (p : Population)
      → Agrees m p
      → Agrees m (record p { matrices = set_at p.matrices pai (expand m (p.matrices pai)) })
  expanded-Agrees pai p h = record {
    handling = h.handling;
    filled = h.filled;
    inside = h.inside;
    matrix_states = λ a s.
        set_at-cases m (λ x. contains x.matrix_states s ≡ true → IsState m s) p.matrices pai _ a
          (expand_states m (p.matrices pai) s (h.matrix_states pai s)) (h.matrix_states a s);
    matrix_events = λ a e.
        set_at-cases m (λ x. contains x.matrix_events e ≡ true → IsEvent m e) p.matrices pai _ a
          (expand_events m (p.matrices pai) e (h.matrix_events pai e)) (h.matrix_events a e);
  }

  Agrees-Preserved : Preserved m (IsEvent m) (IsState m) (Agrees m)
  Agrees-Preserved = record {
    states_of = λ pai s p h i. h.matrix_states pai s i;
    events_of = λ pai e p h i. expand_events m (p.matrices pai) e (h.matrix_events pai e) i;
    step = λ pai e s p ev st h. add_to_action_array-Agrees pai e s p ev st h;
    start = start_event-Agrees;
    finish = finish_event-Agrees;
    expanded = expanded-Agrees;
    begun = λ p h. record {
      handling = h.handling;
      filled = h.filled;
      inside = h.inside;
      matrix_states = h.matrix_states;
      matrix_events = h.matrix_events;
    };
  }

  -- For a machine whose events and whose states have distinct orders below the lengths of their
  -- lists, `populate_action_array`, whether it reports an error or not, preserves this: a state is
  -- among the handling states of an event exactly when the event is among those the state handles,
  -- exactly when the array's slot of the two is filled; no slot outside the array is written; and
  -- the matrices name events and states of the machine.
  pub populate-Agrees : (p : Population) → Agrees m p → Agrees m (populate_action_array m p)
  populate-Agrees = populate_action_array_inv m (IsEvent m) (IsState m) (Agrees m) Agrees-Preserved
