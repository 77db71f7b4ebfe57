-- ===== src/Sequence.antt =====
-- The lists of src/list.c with the representation forgotten: a sequence of members, which the other
-- parts of the program are modelled over.
pub mod Subset
use mathlib.Core.Path.{subst}
use fsm_lang.Base.{
  ℕ, Bool, true, false, ◌≡◌, refl, ◌||◌, ◌∙◌, List, [], ◌∷◌, ◌++◌, append-nil, append_assoc, not,
  ◌&&◌, arith, ◌==◌, if◌then◌else◌, contains, Bool-cases, inl, inr, ==_self, sym,
}

-- Member by member, what taking a sequence in makes of another.
abbrev pub absorb : (List ℕ → ℕ → List ℕ) → List ℕ → List ℕ → List ℕ
absorb grow ys [] = ys
absorb grow ys (m ∷ ms) = absorb grow (grow ys m) ms

-- `add_to_list`, `add_unique_to_list` and the action of `copy_list_unique_with_exception`.
unfoldable pub append : List ℕ → ℕ → List ℕ
append ys m = ys ++ m ∷ []

unfoldable pub add_unique : List ℕ → ℕ → List ℕ
add_unique ys m = if contains ys m then ys else ys ++ m ∷ []

unfoldable pub add_unique_except : ℕ → List ℕ → ℕ → List ℕ
unfolding add_unique
add_unique_except x ys m = if m == x then ys else add_unique ys m

pub absorb-append : (ys ms : List ℕ) → absorb append ys ms ≡ ys ++ ms
unfolding append
absorb-append ys [] = rw append-nil
absorb-append ys (m ∷ ms) = absorb-append (ys ++ m ∷ []) ms ∙ append_assoc ys (m ∷ []) ms

pub contains-append :
    (xs ys : List ℕ) (a : ℕ) → contains (xs ++ ys) a ≡ (contains xs a || contains ys a)
contains-append [] ys a = refl
contains-append (x ∷ xs) ys a = ground (arith, contains-append xs ys a)

-- Membership after a unique addition.
pub contains-add_unique :
    (ys : List ℕ) (m a : ℕ) → contains (add_unique ys m) a ≡ (contains ys a || (m == a))
unfolding add_unique
contains-add_unique ys m a = ground (arith, contains-append ys (m ∷ []) a)

pub absorb-add_unique-contains :
    (ys ms : List ℕ) (a : ℕ)
    → contains (absorb add_unique ys ms) a ≡ (contains ys a || contains ms a)
absorb-add_unique-contains ys [] a = ground arith
absorb-add_unique-contains ys (m ∷ ms) a =
    ground (arith, absorb-add_unique-contains (add_unique ys m) ms a, contains-add_unique ys m a)

-- Membership after an addition that makes an exception.
pub absorb-add_unique_except-contains :
    (x : ℕ) (ys ms : List ℕ) (a : ℕ)
    → contains (absorb (add_unique_except x) ys ms) a
      ≡ (contains ys a || (contains ms a && not (a == x)))
unfolding add_unique_except
absorb-add_unique_except-contains x ys [] a = ground arith
absorb-add_unique_except-contains x ys (m ∷ ms) a = ground (
  arith,
  absorb-add_unique_except-contains x (if m == x then ys else add_unique ys m) ms a,
  contains-add_unique ys m a,
)

-- No member twice.
abbrev pub Distinct : List ℕ → Type 0
Distinct [] = Unit {0}
Distinct (x ∷ xs) = (contains xs x ≡ false) × Distinct xs

Distinct-snoc :
    (xs : List ℕ) (m : ℕ) → Distinct xs → contains xs m ≡ false → Distinct (xs ++ m ∷ [])
Distinct-snoc [] m d out = (refl, tt)
Distinct-snoc (x ∷ xs) m (p, d) out =
    (ground (arith, contains-append xs (m ∷ []) x), Distinct-snoc xs m d (ground arith))

pub add_unique-Distinct : (ys : List ℕ) (m : ℕ) → Distinct ys → Distinct (add_unique ys m)
unfolding add_unique
add_unique-Distinct ys m d = elim (Bool-cases (contains ys m)) [
  | inl e ↦ rw e d
  | inr e ↦ rw e (Distinct-snoc ys m d e)
]

-- `iterate_list` with an action that changes a state `S`: it stops at the first member for which the
-- action returns true. What it returns is not used by the callers modelled over it.
unfoldable pub iterate {ℓ κ} : {A : Type ℓ} {S : Type κ} → (A → S → Bool × S) → List A → S → S
iterate action [] s = s
iterate action (x ∷ xs) s =
    let r = action x s in elim r.0 [ true ↦ r.1 | false ↦ iterate action xs r.1 ]

-- A map from addresses, changed at one of them.
abbrev pub set_at {ℓ} : {A : Type ℓ} → (ℕ → A) → ℕ → A → ℕ → A
set_at f a v b = if b == a then v else f b

pub iterate-stop {ℓ κ} :
    {A : Type ℓ} {S : Type κ} (action : A → S → Bool × S) (x : A) (xs : List A) (s : S)
    → (action x s).0 ≡ true
    → iterate action (x ∷ xs) s ≡ (action x s).1
unfolding iterate
iterate-stop action x xs s e = rw (e, iterate)

pub iterate-on {ℓ κ} :
    {A : Type ℓ} {S : Type κ} (action : A → S → Bool × S) (x : A) (xs : List A) (s : S)
    → (action x s).0 ≡ false
    → iterate action (x ∷ xs) s ≡ iterate action xs (action x s).1
unfolding iterate
iterate-on action x xs s e = rw (e, iterate)

-- What every action that the iteration takes preserves, the iteration preserves.
pub iterate_inv {ℓ κ} :
    {S : Type ℓ} (P : S → Type κ) (action : ℕ → S → Bool × S) (xs : List ℕ)
    → ((x : ℕ) (s : S) → contains xs x ≡ true → P s → P (action x s).1)
    → (s : S) → P s
    → P (iterate action xs s)
unfolding iterate
iterate_inv P action [] keep s h = h
iterate_inv P action (x ∷ xs) keep s h = elim (Bool-cases (action x s).0) [
  | inl stop ↦ subst P (sym (iterate-stop action x xs s stop)) (keep x s here h)
  | inr on ↦
      subst P (sym (iterate-on action x xs s on))
        (iterate_inv P action xs (λ y t i. keep y t (later y i)) (action x s).1 (keep x s here h))
]
  where
    here : contains (x ∷ xs) x ≡ true
    here = rw (==_self x)

    later : (y : ℕ) → contains xs y ≡ true → contains (x ∷ xs) y ≡ true
    later y i = ground arith
