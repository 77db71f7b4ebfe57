-- ===== src/Counts/Tally.antt =====
-- The counters of src/fsm_utils.c and the members that they are about.
use mathlib.Core.Path.{ap₂}
use fsm_lang.Base.{
  ℕ, suc, ◌+◌, ◌<◌, ◌≡◌, refl, Bool, true, false, not, ◌&&◌, List, [], ◌∷◌, arith, ◌==◌, ◌∙◌, ap,
  if◌then◌else◌, u32, length, Bool-cases, inl, inr,
}
use fsm_lang.Sequence.{iterate}
use fsm_lang.Counts.{
  Event, State, inhibits, has_entry_fn, has_exit_fn, has_translator, has_data_fields, with_ordinals,
  count_if, count_external, count_inhibitors, count_parent_event_refs, count_shared_evts,
  count_zero_event_states, count_one_event_states, count_zero_event_handlers,
  count_one_event_handlers, count_no_way_out_states, count_no_way_in_states, count_data_xlate,
  count_entry_and_exit_handlers, count_external_declarations, count_sub_machine_inhibitors,
  count_parent_event_referenced, count_shared_events, count_event_user_data_attributes,
  count_states_with_entry_exit_fns, count_states_with_zero_events, count_states_with_one_event,
  count_states_with_no_way_in, count_states_with_no_way_out, count_events_with_zero_handlers,
  count_events_with_one_handler,
}

-- How many members pass a test.
abbrev pub tally {ℓ} : {A : Type ℓ} → (A → Bool) → List A → ℕ
tally test [] = 0
tally test (x ∷ xs) = (if test x then 1 else 0) + tally test xs

iterate-count_if {ℓ} :
    {A : Type ℓ} (test : A → Bool) (xs : List A) (n : ℕ)
    → n < 4294967296
    → iterate (count_if test) xs n ≡ u32 (n + tally test xs)
unfolding iterate
iterate-count_if test [] n small = omega arith
iterate-count_if test (x ∷ xs) n small = elim (Bool-cases (test x)) [
  | inl e ↦ rw e (iterate-count_if test xs (u32 (n + 1)) (omega arith) ∙ omega arith)
  | inr e ↦ rw e (iterate-count_if test xs n small ∙ omega arith)
]

no_way_in_from :
    (xs : List State) (n : ℕ)
    → suc n + length xs < 4294967296
    → tally
        (λ (p : ℕ × State). not (p.0 == 0) && p.1.inbound_transitions_count == 0)
        (with_ordinals (suc n) xs)
      ≡ tally (λ (s : State). s.inbound_transitions_count == 0) xs
no_way_in_from [] n h = refl
no_way_in_from (x ∷ xs) n h =
    let later : (u32 (suc n) == 0) ≡ false = ground arith in
    rw (later, no_way_in_from xs (suc n) (omega arith))

-- The states behind the first.
abbrev pub rest {ℓ} : {A : Type ℓ} → List A → List A
rest [] = []
rest (x ∷ xs) = xs

no_way_in :
    (xs : List State)
    → length xs < 4294967296
    → tally
        (λ (p : ℕ × State). not (p.0 == 0) && p.1.inbound_transitions_count == 0)
        (with_ordinals 0 xs)
      ≡ tally (λ (s : State). s.inbound_transitions_count == 0) (rest xs)
no_way_in [] h = refl
no_way_in (x ∷ xs) h = omega arith ∙ no_way_in_from xs 0 (omega arith)

step-below : (b : Bool) (n : ℕ) → n < 4294967296 → (if b then u32 (n + 1) else n) < 4294967296
step-below true n p = omega arith
step-below false n p = p

step-sum :
    (b : Bool) (n t : ℕ)
    → n < 4294967296
    → u32 ((if b then u32 (n + 1) else n) + t) ≡ u32 (n + ((if b then 1 else 0) + t))
step-sum true n t p = omega arith
step-sum false n t p = omega arith

iterate-count_data_xlate :
    (xs : List Event) (n k : ℕ)
    → n < 4294967296
    → k < 4294967296
    → iterate count_data_xlate xs (n, k) ≡ (
      u32 (n + tally (λ (e : Event). has_translator e.puser_event_data) xs),
      u32 (k + tally (λ (e : Event). has_data_fields e.puser_event_data) xs),
    )
unfolding iterate count_data_xlate
iterate-count_data_xlate [] n k p q = ap₂ (λ (a b : ℕ). (a, b)) (omega arith) (omega arith)
iterate-count_data_xlate (x ∷ xs) n k p q =
    let t = has_translator x.puser_event_data in
    let f = has_data_fields x.puser_event_data in
    iterate-count_data_xlate xs (if t then u32 (n + 1) else n) (if f then u32 (k + 1) else k)
      (step-below t n p) (step-below f k q)
    ∙ ap₂ (λ (a b : ℕ). (a, b)) (step-sum t n _ p) (step-sum f k _ q)

iterate-count_entry_and_exit_handlers :
    (xs : List State) (n k : ℕ)
    → n < 4294967296
    → k < 4294967296
    → iterate count_entry_and_exit_handlers xs (n, k)
      ≡ (u32 (n + tally has_entry_fn xs), u32 (k + tally has_exit_fn xs))
unfolding iterate count_entry_and_exit_handlers
iterate-count_entry_and_exit_handlers [] n k p q =
    ap₂ (λ (a b : ℕ). (a, b)) (omega arith) (omega arith)
iterate-count_entry_and_exit_handlers (x ∷ xs) n k p q =
    let t = has_entry_fn x in
    let f = has_exit_fn x in
    iterate-count_entry_and_exit_handlers xs (if t then u32 (n + 1) else n)
      (if f then u32 (k + 1) else k) (step-below t n p) (step-below f k q)
    ∙ ap₂ (λ (a b : ℕ). (a, b)) (step-sum t n _ p) (step-sum f k _ q)

-- For `unsigned` counters, each counter of events is increased, modulo 2 ^ 32, by the number of
-- events that it is about: those with an external designation, those shared with sub-machines,
-- those shared with the parent, those that no state handles, those that exactly one state handles,
-- and, in a pair, those with a translator and those with data fields.
pub count_events-tally :
    (xs : List Event) (n k : ℕ)
    → n < 4294967296
    → k < 4294967296
    → (count_external_declarations xs n
        ≡ u32 (n + tally (λ (e : Event). e.external_designation) xs))
      × (count_parent_event_referenced xs n
          ≡ u32 (n + tally (λ (e : Event). e.psharing_sub_machines) xs))
      × (count_shared_events xs n ≡ u32 (n + tally (λ (e : Event). e.shared_with_parent) xs))
      × (count_events_with_zero_handlers xs n
          ≡ u32 (n + tally (λ (e : Event). e.handling_states_count == 0) xs))
      × (count_events_with_one_handler xs n
          ≡ u32 (n + tally (λ (e : Event). e.handling_states_count == 1) xs))
      × (count_event_user_data_attributes xs (n, k) ≡ (
        u32 (n + tally (λ (e : Event). has_translator e.puser_event_data) xs),
        u32 (k + tally (λ (e : Event). has_data_fields e.puser_event_data) xs),
      ))
unfolding count_external count_parent_event_refs count_shared_evts count_zero_event_handlers
    count_one_event_handlers count_external_declarations count_parent_event_referenced
    count_shared_events count_events_with_zero_handlers count_events_with_one_handler
    count_event_user_data_attributes
count_events-tally xs n k p q = (
  iterate-count_if _ xs n p,
  iterate-count_if _ xs n p,
  iterate-count_if _ xs n p,
  iterate-count_if _ xs n p,
  iterate-count_if _ xs n p,
  iterate-count_data_xlate xs n k p q,
)

-- For an `unsigned` counter and a list shorter than 2 ^ 32, each counter of states is increased,
-- modulo 2 ^ 32, by the number of states that it is about: those that inhibit sub-machines, those
-- that handle no event, those that handle exactly one, those with no transition out, and those
-- behind the first with no transition in. The entry and exit counters are set to the numbers of
-- states with an entry and with an exit function, whatever they were.
pub count_states-tally :
    (xs : List State) (n k : ℕ)
    → n < 4294967296
    → length xs < 4294967296
    → (count_sub_machine_inhibitors xs n ≡ u32 (n + tally inhibits xs))
      × (count_states_with_zero_events xs n
          ≡ u32 (n + tally (λ (s : State). s.events_handled_count == 0) xs))
      × (count_states_with_one_event xs n
          ≡ u32 (n + tally (λ (s : State). s.events_handled_count == 1) xs))
      × (count_states_with_no_way_out xs n
          ≡ u32 (n + tally (λ (s : State). s.outbound_transitions_count == 0) xs))
      × (count_states_with_no_way_in xs n
          ≡ u32 (n + tally (λ (s : State). s.inbound_transitions_count == 0) (rest xs)))
      × (count_states_with_entry_exit_fns xs (n, k)
          ≡ (u32 (tally has_entry_fn xs), u32 (tally has_exit_fn xs)))
unfolding count_inhibitors count_zero_event_states count_one_event_states count_no_way_out_states
    count_no_way_in_states count_sub_machine_inhibitors count_states_with_zero_events
    count_states_with_one_event count_states_with_no_way_out count_states_with_no_way_in
    count_states_with_entry_exit_fns
count_states-tally xs n k p small = (
  iterate-count_if _ xs n p,
  iterate-count_if _ xs n p,
  iterate-count_if _ xs n p,
  iterate-count_if _ xs n p,
  iterate-count_if _ (with_ordinals 0 xs) n p ∙ ap (λ (t : ℕ). u32 (n + t)) (no_way_in xs small),
  iterate-count_entry_and_exit_handlers xs 0 0 (omega arith) (omega arith)
      ∙ ap₂ (λ (a b : ℕ). (a, b)) (omega arith) (omega arith),
)
