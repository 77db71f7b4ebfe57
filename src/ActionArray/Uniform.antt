-- ===== src/ActionArray/Uniform.antt =====
-- The flag `single_pai_for_all_states` of src/fsm_utils.c and the slots of its event.
use fsm_lang.Base.{
  ℕ, ◌<◌, ◌≡◌, refl, ◌∙◌, sym, ap, true, ◌==◌, u32, length, contains, Bool-cases, inl, inr,
}
use fsm_lang.ActionArray.{
  Machine, Population, is_some, add_to_action_array, start_event, finish_event,
  populate_action_array,
}
use fsm_lang.ActionArray.Expand.{IsEvent, IsState, expand_states, expand_events, set_at-cases}
use fsm_lang.ActionArray.Frame.{add_to_action_array_taken, add_to_action_array_free}
use fsm_lang.ActionArray.Induction.{Preserved, populate_action_array_inv}
use fsm_lang.ActionArray.Single.{Fields, fields, add_to_action_array-fields}
use fsm_lang.ActionArray.Backed.{
  Uniform, Backed, equal, counted-flag, same_flag, kept, step-Backed, none-Backed, flag-Backed,
  full-Uniform,
}

pub record Sound (m : Machine) (p : Population) : Type 0 where
  pub backed : (e : ℕ) → Backed m p.action_array e (fields (p.events e))
  pub uniform : (e : ℕ) → (fields (p.events e)).flag ≡ true → Uniform m p.action_array e
  pub matrix_states : (a s : ℕ) → contains (p.matrices a).matrix_states s ≡ true → IsState m s
  pub matrix_events : (a e : ℕ) → contains (p.matrices a).matrix_events e ≡ true → IsEvent m e

module _ (m : Machine) where
  add_to_action_array-Sound :
      (pai e s : ℕ) (p : Population)
      → IsState m s
      → Sound m p
      → Sound m (add_to_action_array m pai e s p).1
  add_to_action_array-Sound pai e s p st h =
      elim (Bool-cases (is_some (p.action_array (m.order e) (m.order s)))) [
        | inl taken ↦ rw (add_to_action_array_taken m pai e s p taken) (record {
          backed = h.backed;
          uniform = h.uniform;
          matrix_states = h.matrix_states;
          matrix_events = h.matrix_events;
        })
        | inr free ↦
            let q = (add_to_action_array m pai e s p).1 in
            let k = (add_to_action_array_free m pai e s p free).0 in
            let now = λ (x : ℕ). add_to_action_array-fields m pai e s p x free in
            record {
              backed = λ x. rw (now x) (step-Backed m pai e s p q x st k free (h.backed x));
              uniform = λ x on.
                  let was : (fields (p.events x)).flag ≡ true =
                    sym (same_flag (λ y. fields (p.events y)) x e)
                    ∙ sym (counted-flag pai (fields (p.events e)) (fields (p.events x)) (x == e))
                    ∙ sym (ap (λ (f : Fields). f.flag) (now x))
                    ∙ on in
                  let (y, all) = h.uniform x was in
                  (y, λ a i. kept m pai e s p q (m.order x) (m.order a) y k free (all a i));
              matrix_states = λ a x i. h.matrix_states a x (rw (← k.matrices a) i);
              matrix_events = λ a x i. h.matrix_events a x (rw (← k.matrices a) i);
            }
      ]

  start_event-Sound : (pai e : ℕ) (p : Population) → Sound m p → Sound m (start_event m pai e p)
  unfolding start_event fields
  start_event-Sound pai e p h = record {
    backed = λ x. elim (Bool-cases (x == e)) [
      | inl y ↦ rw y (none-Backed m p.action_array x _ refl)
      | inr n ↦ rw n (h.backed x)
    ];
    uniform = λ x. elim (Bool-cases (x == e)) [
      | inl y ↦ rw (y, equal x e y) (h.uniform e)
      | inr n ↦ rw n (h.uniform x)
    ];
    matrix_states = h.matrix_states;
    matrix_events = h.matrix_events;
  }

  module _ (few : length m.state_list < 4294967296) where
    finish_event-Sound : (e : ℕ) (p : Population) → Sound m p → Sound m (finish_event m e p)
    unfolding finish_event fields
    finish_event-Sound e p h =
        elim (Bool-cases ((p.events e).single_pai_state_count == u32 (length m.state_list))) [
          | inr n ↦ rw n h
          | inl y ↦ rw y (record {
            backed = λ x. elim (Bool-cases (x == e)) [
              | inl same ↦
                  rw (same, equal x e same)
                    (flag-Backed m p.action_array e e (fields (p.events e)) (h.backed e))
              | inr other ↦ rw other (h.backed x)
            ];
            uniform = λ x. elim (Bool-cases (x == e)) [
              | inl same ↦
                  rw (same, equal x e same)
                    (λ on. full-Uniform m p.action_array e _ few y (h.backed e))
              | inr other ↦ rw other (h.uniform x)
            ];
            matrix_states = h.matrix_states;
            matrix_events = h.matrix_events;
          })
        ]

    Sound-Preserved : Preserved m (IsEvent m) (IsState m) (Sound m)
    Sound-Preserved = record {
      states_of = λ pai s p h i. h.matrix_states pai s i;
      events_of = λ pai e p h i. expand_events m (p.matrices pai) e (h.matrix_events pai e) i;
      step = λ pai e s p ev st h. add_to_action_array-Sound pai e s p st h;
      start = start_event-Sound;
      finish = finish_event-Sound;
      expanded = λ pai p h. record {
        backed = h.backed;
        uniform = h.uniform;
        matrix_states = λ a s.
            set_at-cases m (λ x. contains x.matrix_states s ≡ true → IsState m s) p.matrices pai _ a
              (expand_states m (p.matrices pai) s (h.matrix_states pai s)) (h.matrix_states a s);
        matrix_events = λ a e.
            set_at-cases m (λ x. contains x.matrix_events e ≡ true → IsEvent m e) p.matrices pai _ a
              (expand_events m (p.matrices pai) e (h.matrix_events pai e)) (h.matrix_events a e);
      };
      begun = λ p h. record {
        backed = h.backed;
        uniform = h.uniform;
        matrix_states = h.matrix_states;
        matrix_events = h.matrix_events;
      };
    }

    populate-Sound : (p : Population) → Sound m p → Sound m (populate_action_array m p)
    populate-Sound = populate_action_array_inv m (IsEvent m) (IsState m) (Sound m) Sound-Preserved

    -- After `populate_action_array`, whether it reports an error or not, when an event has
    -- `single_pai_for_all_states` set, one action info is in the slots of the event and every state
    -- of the machine. The machine has fewer than 2 ^ 32 states; before, the same holds, and each
    -- event's `single_pai_state_count` is at most the number of states whose slots hold its
    -- `psingle_pai`, which is known if the count is not 0.
    pub populate-Uniform :
        (p : Population) (e : ℕ)
        → Sound m p
        → ((populate_action_array m p).events e).single_pai_for_all_states ≡ true
        → Uniform m (populate_action_array m p).action_array e
    unfolding fields
    populate-Uniform p e h on = (populate-Sound p h).uniform e on
