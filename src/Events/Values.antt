-- ===== src/Events/Values.antt =====
-- The values that C gives to the enumerators of an enumeration.
use fsm_lang.Base.{
  ℕ, suc, ◌≡◌, refl, ap, arith, Option, none, some, List, [], ◌∷◌, ◌++◌, if◌then◌else◌, Text,
  text_eq, text_eq_refl,
}
use fsm_lang.Events.Enumerators.{
  Initializer, Enumerator, enumerator, next_value, same_as, designated, constant,
}

-- The enumerators declared so far with their values, the latest first.
abbrev pub Values : Type 0
Values = List (Text × ℕ)

abbrev pub value_of : Text → Values → Option ℕ
value_of n [] = none
value_of n ((m, v) ∷ vs) = if text_eq n m then some v else value_of n vs

-- C's rule: an enumerator has the value it is set to, or one more than the enumerator before, or 0.
-- `external` is what the names of the external designations stand for.
abbrev pub initial : (Text → ℕ) → ℕ → Values → Initializer → Option ℕ
initial external next vs next_value = some next
initial external next vs (same_as n) = value_of n vs
initial external next vs (designated d) = some (external d)
initial external next vs (constant k) = some k

-- From the next value and what was declared before; `none` uses an undeclared name.
unfoldable pub declare : (Text → ℕ) → List Enumerator → ℕ → Values → Option (ℕ × Values)
declare external [] next vs = some (next, vs)
declare external (enumerator n i ∷ es) next vs = elim (initial external next vs i) [
  | none ↦ none
  | some v ↦ declare external es (suc v) ((n, v) ∷ vs)
]

pub declare-append :
    (external : Text → ℕ) (xs ys : List Enumerator) (next next' : ℕ) (vs vs' : Values)
    → declare external xs next vs ≡ some (next', vs')
    → declare external (xs ++ ys) next vs ≡ declare external ys next' vs'
unfolding declare
declare-append external [] ys next next' vs vs' h = ground arith
declare-append external (enumerator n i ∷ xs) ys next next' vs vs' h =
    step (initial external next vs i)
      (λ v. declare-append external xs ys (suc v) next' ((n, v) ∷ vs) vs') h
  where
    step :
        (o : Option ℕ)
        → ((v : ℕ)
            → declare external xs (suc v) ((n, v) ∷ vs) ≡ some (next', vs')
            → declare external (xs ++ ys) (suc v) ((n, v) ∷ vs) ≡ declare external ys next' vs')
        → elim o [ none ↦ none | some v ↦ declare external xs (suc v) ((n, v) ∷ vs) ]
          ≡ some (next', vs')
        → elim o [ none ↦ none | some v ↦ declare external (xs ++ ys) (suc v) ((n, v) ∷ vs) ]
          ≡ declare external ys next' vs'
    step none ih h = cc
    step (some v) ih h = ih v h

pub declare-same_as :
    (external : Text → ℕ) (n k : Text) (es : List Enumerator) (next v : ℕ) (vs : Values)
    → value_of k vs ≡ some v
    → declare external (enumerator n (same_as k) ∷ es) next vs
      ≡ declare external es (suc v) ((n, v) ∷ vs)
unfolding declare
declare-same_as external n k es next v vs h = rw (h, declare)

pub value_of_latest : (n : Text) (v : ℕ) (vs : Values) → value_of n ((n, v) ∷ vs) ≡ some v
value_of_latest n v vs = rw (text_eq_refl n)

pub declare-next :
    (external : Text → ℕ) (n : Text) (es : List Enumerator) (next : ℕ) (vs : Values)
    → declare external (enumerator n next_value ∷ es) next vs
      ≡ declare external es (suc next) ((n, next) ∷ vs)
unfolding declare
declare-next external n es next vs = refl

pub declared_end :
    (external : Text → ℕ) (next next' : ℕ) (vs : Values)
    → next ≡ next'
    → declare external [] next vs ≡ some (next', vs)
unfolding declare
declared_end external next next' vs h = ap (λ (k : ℕ). some (k, vs)) h
