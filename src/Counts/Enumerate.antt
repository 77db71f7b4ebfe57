-- ===== src/Counts/Enumerate.antt =====
-- What `enumerate_pid_list` of src/fsm_utils.c gives the members of a list.
use fsm_lang.Base.{
  ℕ, zero, suc, ◌+◌, ◌<◌, ◌≡◌, refl, true, false, some, List, [], ◌∷◌, arith, ◌==◌, ◌∙◌, ap, sym,
  u32, length, get_elem?, contains, Bool-cases, inl, inr,
}
use fsm_lang.Sequence.{iterate, set_at, Distinct}
use fsm_lang.Counts.{enumerate_pid, enumerate_pid_list}
use fsm_lang.ActionArray.{Machine}
use fsm_lang.ActionArray.Handlers.{Enumerated}

pub enumerate-frame :
    (xs : List ℕ) (order : ℕ → ℕ) (n b : ℕ)
    → contains xs b ≡ false
    → (iterate enumerate_pid xs (order, n)).0 b ≡ order b
unfolding iterate enumerate_pid
enumerate-frame [] order n b out = refl
enumerate-frame (x ∷ xs) order n b out =
    let other : (b == x) ≡ false = ground arith in
    enumerate-frame xs (set_at order x n) (u32 (n + 1)) b (ground arith) ∙ rw other

get_elem?-contains : (xs : List ℕ) (i a : ℕ) → get_elem? xs i ≡ some a → contains xs a ≡ true
get_elem?-contains [] i a e = ground arith
get_elem?-contains (x ∷ xs) zero a e = ground arith
get_elem?-contains (x ∷ xs) (suc i) a e = ground (arith, get_elem?-contains xs i a e)

hit : (a x : ℕ) → x ≡ a → (a == x) ≡ true
hit a x e = ground arith

enumerate-at :
    (xs : List ℕ) (order : ℕ → ℕ) (n i a : ℕ)
    → Distinct xs
    → n + length xs < 4294967296
    → get_elem? xs i ≡ some a
    → (iterate enumerate_pid xs (order, n)).0 a ≡ n + i
unfolding iterate enumerate_pid
enumerate-at [] order n i a d small e = ground arith
enumerate-at (x ∷ xs) order n zero a (out, d) small e =
    let same : x ≡ a = ground arith in
    enumerate-frame xs (set_at order x n) (u32 (n + 1)) a (rw same at out)
    ∙ rw (hit a x same) (omega arith)
enumerate-at (x ∷ xs) order n (suc i) a (out, d) small e =
    let on : u32 (n + 1) ≡ n + 1 = omega arith in
    rw on (enumerate-at xs (set_at order x n) (n + 1) i a d (omega arith) e ∙ omega arith)

some_inj : {a b : ℕ} → some a ≡ some b → a ≡ b
some_inj e = ground arith

record At (xs : List ℕ) (a : ℕ) : Type 0 where
  at : ℕ
  is_at : get_elem? xs at ≡ some a
  within : at < length xs

contains-At : (xs : List ℕ) (a : ℕ) → contains xs a ≡ true → At xs a
contains-At [] a e = ground arith
contains-At (x ∷ xs) a e = elim (Bool-cases (x == a)) [
  | inl y ↦ record { at = 0; is_at = ground arith; within = omega arith }
  | inr y ↦
      let k = contains-At xs a (ground arith) in
      record { at = suc k.at; is_at = k.is_at; within = omega (arith, k.within) }
]

-- `enumerate_pid_list` gives each member of a list without repetition its 0-based position as its
-- order, provided the list is shorter than 2 ^ 32, and keeps the order of every other `ID_INFO`.
pub enumerate_pid_list-get_elem? :
    (xs : List ℕ) (order : ℕ → ℕ)
    → Distinct xs
    → length xs < 4294967296
    → ((i a : ℕ) → get_elem? xs i ≡ some a → enumerate_pid_list xs order a ≡ i)
      × ((b : ℕ) → contains xs b ≡ false → enumerate_pid_list xs order b ≡ order b)
unfolding enumerate_pid_list
enumerate_pid_list-get_elem? xs order d small = (
  λ i a e. enumerate-at xs order 0 i a d (omega (arith, small)) e ∙ omega arith,
  enumerate-frame xs order 0,
)

enumerated-apart :
    (xs : List ℕ) (order : ℕ → ℕ) (a b : ℕ)
    → Distinct xs
    → length xs < 4294967296
    → contains xs a ≡ true
    → contains xs b ≡ true
    → enumerate_pid_list xs order a ≡ enumerate_pid_list xs order b
    → a ≡ b
enumerated-apart xs order a b d small p q same =
    let k = contains-At xs a p in
    let l = contains-At xs b q in
    let at_a = (enumerate_pid_list-get_elem? xs order d small).0 k.at a k.is_at in
    let at_b = (enumerate_pid_list-get_elem? xs order d small).0 l.at b l.is_at in
    let places : k.at ≡ l.at = omega (arith, at_a, at_b, same) in
    some_inj (sym k.is_at ∙ rw places l.is_at)

enumerated-bound :
    (xs : List ℕ) (order : ℕ → ℕ) (a : ℕ)
    → Distinct xs
    → length xs < 4294967296
    → contains xs a ≡ true
    → enumerate_pid_list xs order a < length xs
enumerated-bound xs order a d small p =
    let k = contains-At xs a p in
    omega (arith, (enumerate_pid_list-get_elem? xs order d small).0 k.at a k.is_at, k.within)

-- What the parser does before it populates the action array: it numbers the states, then the events.
abbrev pub numbered : List ℕ → List ℕ → (ℕ → ℕ) → ℕ → ℕ
numbered states events order = enumerate_pid_list events (enumerate_pid_list states order)

-- After the states and then the events of a machine are numbered, distinct events have distinct
-- orders, distinct states have distinct orders, and each order is below the length of its list.
-- Each list is without repetition and shorter than 2 ^ 32, and no `ID_INFO` is in both.
pub enumerate_pid_list-Enumerated :
    (m : Machine) (order : ℕ → ℕ)
    → m.order ≡ numbered m.state_list m.event_list order
    → Distinct m.state_list
    → Distinct m.event_list
    → ((a : ℕ) → contains m.state_list a ≡ true → contains m.event_list a ≡ false)
    → length m.state_list < 4294967296
    → length m.event_list < 4294967296
    → Enumerated m
enumerate_pid_list-Enumerated m order e ds de apart ss se = record {
  event_orders =
      λ a b p q same. enumerated-apart m.event_list first a b de se p q (sym (at a) ∙ same ∙ at b);
  state_orders = λ a b p q same.
      enumerated-apart m.state_list order a b ds ss p q (sym (kept a p) ∙ same ∙ kept b q);
  event_bound = λ a p. omega (arith, at a, enumerated-bound m.event_list first a de se p);
  state_bound = λ a p. omega (arith, kept a p, enumerated-bound m.state_list order a ds ss p);
}
  where
    first : ℕ → ℕ
    first = enumerate_pid_list m.state_list order

    at : (a : ℕ) → m.order a ≡ enumerate_pid_list m.event_list first a
    at a = ap (λ (f : ℕ → ℕ). f a) e

    kept :
        (a : ℕ)
        → contains m.state_list a ≡ true
        → m.order a ≡ enumerate_pid_list m.state_list order a
    kept a p = at a ∙ (enumerate_pid_list-get_elem? m.event_list first de se).1 a (apart a p)
