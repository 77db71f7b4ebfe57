-- ===== src/ActionArray/Expand.antt =====
-- What the lists of a matrix name, after an empty one is taken for the machine's own.
use fsm_lang.Base.{ℕ, ◌≡◌, true, List, [], ◌∷◌, ◌==◌, contains, Bool-cases, inl, inr}
use fsm_lang.Sequence.{set_at, absorb-append}
use fsm_lang.ActionArray.{Machine, Matrix, or_all, expand}

abbrev pub IsEvent : Machine → ℕ → Type 0
IsEvent m e = contains m.event_list e ≡ true

abbrev pub IsState : Machine → ℕ → Type 0
IsState m s = contains m.state_list s ≡ true

module _ (m : Machine) where
  -- The lists that `ALL` stands for are the machine's own.
  pub expand_states :
      (x : Matrix) (s : ℕ)
      → (contains x.matrix_states s ≡ true → IsState m s)
      → contains (expand m x).matrix_states s ≡ true
      → IsState m s
  unfolding expand
  expand_states x s own = all x.matrix_states own
    where
      all :
          (xs : List ℕ)
          → (contains xs s ≡ true → IsState m s)
          → contains (or_all m.state_list xs) s ≡ true
          → IsState m s
      all [] o i = rw (absorb-append [] m.state_list) at i
      all (a ∷ r) o i = o i

  pub expand_events :
      (x : Matrix) (e : ℕ)
      → (contains x.matrix_events e ≡ true → IsEvent m e)
      → contains (expand m x).matrix_events e ≡ true
      → IsEvent m e
  unfolding expand
  expand_events x e own = all x.matrix_events own
    where
      all :
          (xs : List ℕ)
          → (contains xs e ≡ true → IsEvent m e)
          → contains (or_all m.event_list xs) e ≡ true
          → IsEvent m e
      all [] o i = rw (absorb-append [] m.event_list) at i
      all (a ∷ r) o i = o i

  pub set_at-cases :
      (P : Matrix → Type 0) (f : ℕ → Matrix) (a : ℕ) (x : Matrix) (b : ℕ)
      → P x
      → P (f b)
      → P (set_at f a x b)
  set_at-cases P f a x b new old = elim (Bool-cases (b == a)) [
    | inl e ↦ rw e new
    | inr e ↦ rw e old
  ]
