-- ===== src/ActionArray/Frame.antt =====
-- What one call of `add_to_action_array` of src/fsm_utils.c writes, and what it leaves.
use fsm_lang.Base.{
  ℕ, ◌≡◌, refl, true, false, ◌&&◌, Option, none, some, List, [], ◌∷◌, arith, ◌==◌, ◌∙◌,
  if◌then◌else◌, Bool-cases, inl, inr,
}
use fsm_lang.Sequence.{add_unique, iterate, set_at}
use fsm_lang.ActionArray.{
  Machine, Population, is_some, add_inbound, add_inbound_state_wrapper, set_slot, note_action,
  count_single, note_handler, note_transition, add_to_action_array,
}

-- `q` differs from `p` at most in the transition and action lists and in the counters.
pub record Quiet (p q : Population) : Type 0 where
  pub action_array : (i j : ℕ) → q.action_array i j ≡ p.action_array i j
  pub handled : (s : ℕ) → (q.states s).pevents_handled ≡ (p.states s).pevents_handled
  pub handling : (e : ℕ) → (q.events e).phandling_states ≡ (p.events e).phandling_states
  pub matrices : (a : ℕ) → q.matrices a ≡ p.matrices a
  pub error : q.error ≡ p.error

Quiet-refl : (p : Population) → Quiet p p
Quiet-refl p = record {
  action_array = λ i j. refl;
  handled = λ s. refl;
  handling = λ e. refl;
  matrices = λ a. refl;
  error = refl;
}

pub Quiet-trans : (p q r : Population) → Quiet p q → Quiet q r → Quiet p r
Quiet-trans p q r a b = record {
  action_array = λ i j. b.action_array i j ∙ a.action_array i j;
  handled = λ s. b.handled s ∙ a.handled s;
  handling = λ e. b.handling e ∙ a.handling e;
  matrices = λ x. b.matrices x ∙ a.matrices x;
  error = b.error ∙ a.error;
}

add_inbound-Quiet : (from to : ℕ) (p : Population) → Quiet p (add_inbound from to p)
add_inbound-Quiet from to p = record {
  action_array = λ i j. refl;
  handled = λ s. ground arith;
  handling = λ e. refl;
  matrices = λ a. refl;
  error = refl;
}

inbound-Quiet :
    (s : ℕ) (rs : List ℕ) (p : Population) → Quiet p (iterate (add_inbound_state_wrapper s) rs p)
unfolding iterate add_inbound_state_wrapper
inbound-Quiet s [] p = Quiet-refl p
inbound-Quiet s (r ∷ rs) p = elim (Bool-cases (s == r)) [
  | inl e ↦ rw e (inbound-Quiet s rs p)
  | inr e ↦ rw e (
      Quiet-trans p (add_inbound s r p) _ (add_inbound-Quiet s r p)
        (inbound-Quiet s rs (add_inbound s r p)))
]

module _ (m : Machine) where
  outbound-Quiet :
      (s : ℕ) (out : List ℕ) (p : Population)
      → Quiet p (record p {
        states = set_at p.states s (record (p.states s) { poutbound_transitions = out });
      })
  outbound-Quiet s out p = record {
    action_array = λ i j. refl;
    handled = λ x. ground arith;
    handling = λ e. refl;
    matrices = λ a. refl;
    error = refl;
  }

  pub note_transition-Quiet :
      (o : Option ℕ) (s : ℕ) (p : Population) → Quiet p (note_transition m o s p)
  unfolding note_transition
  note_transition-Quiet none s p = Quiet-refl p
  note_transition-Quiet (some t) s p = elim (Bool-cases (m.is_state t)) [
    | inr fn ↦ rw fn (
        Quiet-trans p _ _ (outbound-Quiet s _ p)
          (inbound-Quiet s (m.transition_fn_returns_decl t) _))
    | inl state ↦ elim (Bool-cases (t == s)) [
      | inl same ↦ rw (state, same) (Quiet-refl p)
      | inr other ↦
          rw (state, other)
            (Quiet-trans p (add_inbound s t p) _ (add_inbound-Quiet s t p)
              (outbound-Quiet s _ (add_inbound s t p)))
    ]
  ]

  pub note_action-Quiet :
      (o : Option ℕ) (e s : ℕ) (p : Population) → Quiet p (note_action m o e s p)
  unfolding note_action
  note_action-Quiet none e s p = Quiet-refl p
  note_action-Quiet (some a) e s p = record {
    action_array = λ i j. ground arith;
    handled = λ x. ground arith;
    handling = λ x. ground arith;
    matrices = λ x. ground arith;
    error = ground arith;
  }

  pub count_single-Quiet : (pai e : ℕ) (p : Population) → Quiet p (count_single m pai e p)
  unfolding count_single
  count_single-Quiet pai e p = record {
    action_array = λ i j. ground arith;
    handled = λ x. ground arith;
    handling = λ x. ground arith;
    matrices = λ x. ground arith;
    error = ground arith;
  }

-- `q` is what a step at an empty slot makes of `p`.
pub record Stepped (m : Machine) (pai e s : ℕ) (p q : Population) : Type 0 where
  pub action_array :
      (i j : ℕ)
      → q.action_array i j
        ≡ (if i == m.order e && j == m.order s then some pai else p.action_array i j)
  pub handled :
      (x : ℕ)
      → (q.states x).pevents_handled ≡ (
          if x == s
          then add_unique (p.states s).pevents_handled e
          else (p.states x).pevents_handled)
  pub handling :
      (x : ℕ)
      → (q.events x).phandling_states ≡ (
          if x == e
          then add_unique (p.events e).phandling_states s
          else (p.events x).phandling_states)
  pub matrices : (a : ℕ) → q.matrices a ≡ p.matrices a
  pub error : q.error ≡ p.error

module _ (m : Machine) (pai e s : ℕ) (p : Population) where
  note_handler-Stepped :
      (q : Population) → Quiet (set_slot m pai e s p) q → Stepped m pai e s p (note_handler m e s q)
  unfolding note_handler set_slot
  note_handler-Stepped q k = record {
    action_array = λ i j. k.action_array i j;
    handled = λ x. ground (arith, k.handled x, k.handled s);
    handling = λ x. ground (arith, k.handling x, k.handling e);
    matrices = λ a. k.matrices a;
    error = k.error;
  }

  Stepped-Quiet : (q r : Population) → Stepped m pai e s p q → Quiet q r → Stepped m pai e s p r
  Stepped-Quiet q r a k = record {
    action_array = λ i j. k.action_array i j ∙ a.action_array i j;
    handled = λ x. k.handled x ∙ a.handled x;
    handling = λ x. k.handling x ∙ a.handling x;
    matrices = λ x. k.matrices x ∙ a.matrices x;
    error = k.error ∙ a.error;
  }

  -- At an occupied slot a step notes the error and writes nothing else.
  pub add_to_action_array_taken :
      is_some (p.action_array (m.order e) (m.order s)) ≡ true
      → add_to_action_array m pai e s p ≡ (true, record p { error = true })
  unfolding add_to_action_array
  add_to_action_array_taken h = rw h

  pub add_to_action_array_free :
      is_some (p.action_array (m.order e) (m.order s)) ≡ false
      → Stepped m pai e s p (add_to_action_array m pai e s p).1
        × ((add_to_action_array m pai e s p).0 ≡ p.error)
  unfolding add_to_action_array
  add_to_action_array_free h =
      let p₁ = set_slot m pai e s p in
      let p₂ = note_action m (m.action pai) e s p₁ in
      let p₃ = count_single m pai e p₂ in
      let p₄ = note_handler m e s p₃ in
      let quiet =
        Quiet-trans p₁ p₂ p₃ (note_action-Quiet m (m.action pai) e s p₁)
          (count_single-Quiet m pai e p₂) in
      let stepped =
        Stepped-Quiet p₄ (note_transition m (m.transition pai) s p₄) (note_handler-Stepped p₃ quiet)
          (note_transition-Quiet m (m.transition pai) s p₄) in
      rw h (stepped, stepped.error)
