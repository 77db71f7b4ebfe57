-- ===== src/Sequence/Subset.antt =====
-- A sequence without repetition is no longer than one that has all its members.
use fsm_lang.Base.{
  ℕ, suc, ◌≤◌, ◌≡◌, true, false, List, [], ◌∷◌, arith, ◌==◌, if◌then◌else◌, length, contains,
  Bool-cases, inl, inr, ==_self,
}
use fsm_lang.Sequence.{Distinct}

-- The first occurrence of a member is left out.
remove : ℕ → List ℕ → List ℕ
remove a [] = []
remove a (x ∷ xs) = if x == a then xs else x ∷ remove a xs

length-remove :
    (a : ℕ) (xs : List ℕ) → contains xs a ≡ true → suc (length (remove a xs)) ≡ length xs
unfolding remove
length-remove a [] h = ground arith
length-remove a (x ∷ xs) h = elim (Bool-cases (x == a)) [
  | inl e ↦ rw e
  | inr e ↦ rw e (omega (arith, length-remove a xs (rw e at h)))
]

contains-remove :
    (a b : ℕ) (xs : List ℕ)
    → (a == b) ≡ false
    → contains xs b ≡ true
    → contains (remove a xs) b ≡ true
unfolding remove
contains-remove a b [] ne h = h
contains-remove a b (x ∷ xs) ne h = ground (arith, contains-remove a b xs ne)

pub Distinct-length :
    (xs ys : List ℕ)
    → Distinct xs
    → ((a : ℕ) → contains xs a ≡ true → contains ys a ≡ true)
    → length xs ≤ length ys
Distinct-length [] ys d sub = omega arith
Distinct-length (x ∷ xs) ys (out, d) sub =
    let here = sub x (rw (==_self x)) in
    let rest =
      Distinct-length xs (remove x ys) d
        (λ a i. contains-remove x a ys (apart x a xs out i) (sub a (later x a xs i))) in
    omega (arith, length-remove x ys here, rest)
  where
    apart :
        (x a : ℕ) (xs : List ℕ) → contains xs x ≡ false → contains xs a ≡ true → (x == a) ≡ false
    apart x a xs out i = ground arith

    later : (x a : ℕ) (xs : List ℕ) → contains xs a ≡ true → contains (x ∷ xs) a ≡ true
    later x a xs i = ground arith

-- If it is no shorter either, it has every member.
pub Distinct-covers :
    (xs ys : List ℕ) (a : ℕ)
    → Distinct xs
    → ((b : ℕ) → contains xs b ≡ true → contains ys b ≡ true)
    → length ys ≤ length xs
    → contains ys a ≡ true
    → contains xs a ≡ true
Distinct-covers xs ys a d sub le i = elim (Bool-cases (contains xs a)) [
  | inl y ↦ y
  | inr n ↦ absurd (omega (arith, Distinct-length (a ∷ xs) ys (n, d) (λ b j. more b j), le))
]
  where
    more : (b : ℕ) → contains (a ∷ xs) b ≡ true → contains ys b ≡ true
    more b j = ground (arith, sub b)
