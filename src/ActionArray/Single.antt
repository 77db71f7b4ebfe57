-- ===== src/ActionArray/Single.antt =====
-- What one step of the population does to `single_pai_state_count`, `psingle_pai` and
-- `single_pai_for_all_states`.
use mathlib.Core.Path.{ap₂}
use fsm_lang.Base.{
  ap, ℕ, ◌+◌, ◌≡◌, refl, ◌∙◌, Bool, true, false, Option, none, some, List, [], ◌∷◌, arith, ◌==◌,
  if◌then◌else◌, u32, Bool-cases, inl, inr,
}
use fsm_lang.Sequence.{set_at, iterate}
use fsm_lang.ActionArray.{
  EventData, Machine, Population, is_some, has_text, same_pai, add_inbound,
  add_inbound_state_wrapper, set_slot, note_action, count_single, note_handler, note_transition,
  add_to_action_array,
}

-- The three fields.
pub record Fields : Type 0 where
  pub count : ℕ
  pub single : Option ℕ
  pub flag : Bool

unfoldable pub fields : EventData → Fields
fields d = record {
  count = d.single_pai_state_count;
  single = d.psingle_pai;
  flag = d.single_pai_for_all_states;
}

abbrev pub counted : ℕ → Fields → Fields
counted pai f = if same_pai f.single pai then record f { count = u32 (f.count + 1) } else f

same_number : (x e : ℕ) → (x == e) ≡ true → x ≡ e
same_number x e y = ground arith

inbound-events :
    (s : ℕ) (rs : List ℕ) (p : Population)
    → (iterate (add_inbound_state_wrapper s) rs p).events ≡ p.events
unfolding iterate add_inbound_state_wrapper
inbound-events s [] p = refl
inbound-events s (r ∷ rs) p = elim (Bool-cases (s == r)) [
  | inl e ↦ rw e (inbound-events s rs p)
  | inr e ↦ rw e (inbound-events s rs (add_inbound s r p))
]

module _ (m : Machine) where
  note_transition-events :
      (t : Option ℕ) (s : ℕ) (p : Population) → (note_transition m t s p).events ≡ p.events
  unfolding note_transition
  note_transition-events none s p = refl
  note_transition-events (some t) s p = elim (Bool-cases (m.is_state t)) [
    | inr n ↦ rw n (inbound-events s (m.transition_fn_returns_decl t) _)
    | inl y ↦ elim (Bool-cases (t == s)) [ inl e ↦ rw (y, e) | inr e ↦ rw (y, e) ]
  ]

  set_at-fields :
      (f : ℕ → EventData) (e : ℕ) (d : EventData) (x : ℕ)
      → fields d ≡ fields (f e)
      → fields (set_at f e d x) ≡ fields (f x)
  set_at-fields f e d x same = elim (Bool-cases (x == e)) [
    | inl y ↦ rw y (rw (same_number x e y) same)
    | inr n ↦ rw n
  ]

  note_action-fields :
      (a : Option ℕ) (e s : ℕ) (p : Population) (x : ℕ)
      → fields ((note_action m a e s p).events x) ≡ fields (p.events x)
  unfolding note_action fields
  note_action-fields none e s p x = refl
  note_action-fields (some a) e s p x = elim (Bool-cases (has_text (m.name a))) [
    | inl y ↦ rw y (set_at-fields p.events e _ x refl)
    | inr n ↦ rw n
  ]

  note_handler-fields :
      (e s : ℕ) (p : Population) (x : ℕ)
      → fields ((note_handler m e s p).events x) ≡ fields (p.events x)
  unfolding note_handler fields
  note_handler-fields e s p x = set_at-fields p.events e _ x refl

  count_single-fields :
      (pai e : ℕ) (p : Population) (x : ℕ)
      → fields ((count_single m pai e p).events x)
        ≡ (if x == e then counted pai (fields (p.events e)) else fields (p.events x))
  unfolding count_single fields
  count_single-fields pai e p x = elim (Bool-cases (same_pai (p.events e).psingle_pai pai)) [
    | inl y ↦ elim (Bool-cases (x == e)) [ inl e' ↦ rw (y, e') | inr e' ↦ rw (y, e') ]
    | inr n ↦ elim (Bool-cases (x == e)) [
      | inl e' ↦ rw (n, e') (ap (λ a. fields (p.events a)) (same_number x e e'))
      | inr e' ↦ rw (n, e')
    ]
  ]

  pub add_to_action_array-fields :
      (pai e s : ℕ) (p : Population) (x : ℕ)
      → is_some (p.action_array (m.order e) (m.order s)) ≡ false
      → fields ((add_to_action_array m pai e s p).1.events x)
        ≡ (if x == e then counted pai (fields (p.events e)) else fields (p.events x))
  unfolding add_to_action_array
  add_to_action_array-fields pai e s p x free =
      let p₁ = set_slot m pai e s p in
      let p₂ = note_action m (m.action pai) e s p₁ in
      let p₃ = note_handler m e s (count_single m pai e p₂) in
      let noted = note_action-fields (m.action pai) e s p₁ in
      rw free (
        ap (λ (f : ℕ → EventData). fields (f x)) (note_transition-events (m.transition pai) s p₃)
        ∙ note_handler-fields e s (count_single m pai e p₂) x
        ∙ count_single-fields pai e p₂ x
        ∙ ap₂ (λ (a b : Fields). if x == e then counted pai a else b) (noted e) (noted x))
