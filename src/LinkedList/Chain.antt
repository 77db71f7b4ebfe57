-- ===== src/LinkedList/Chain.antt =====
-- What a `LIST` of src/list.c stands for: the addresses and members of its elements, in order.
use fsm_lang.Base.{
  ℕ, zero, suc, ◌≤◌, ◌<◌, ◌≡◌, refl, ◌≢◌, Bool, true, false, ◌||◌, Option, some, List, [], ◌∷◌,
  ◌++◌, arith, ◌==◌, if◌then◌else◌, u32, Bool-cases, inl, inr, length,
}
use fsm_lang.Memory.{Ptr, null, Element, element, list_record, Heap}

abbrev pub Cells : Type 0
Cells = List (Ptr × ℕ)

abbrev pub first : Cells → Ptr
first [] = null
first ((a, m) ∷ xs) = a

abbrev pub final_from : Ptr → Cells → Ptr
final_from a [] = a
final_from a ((b, m) ∷ xs) = final_from b xs

abbrev pub final : Cells → Ptr
final [] = null
final ((a, m) ∷ xs) = final_from a xs

abbrev pub members : Cells → List ℕ
members [] = []
members ((a, m) ∷ xs) = m ∷ members xs

abbrev pub has : Ptr → Cells → Bool
has a [] = false
has a ((b, m) ∷ xs) = (a == b) || has a xs

abbrev pub Below : ℕ → Cells → Type 0
Below n [] = Unit {0}
Below n ((a, m) ∷ xs) = (a ≤ n) × Below n xs

-- From the first cell the `next` pointers lead through distinct addresses to NULL, and the
-- ordinals count up from `n`.
abbrev pub Chain : (Ptr → Option Element) → ℕ → Cells → Type 0
Chain f n [] = Unit {0}
Chain f n ((a, m) ∷ xs) =
    (a ≢ null)
    × (f a ≡ some (element m (first xs) (u32 n)))
    × (has a xs ≡ false)
    × Chain f (suc n) xs

pub record IsList (h : Heap) (l : Ptr) (xs : Cells) : Type 0 where
  pub ne_null : l ≢ null
  pub old : l ≤ h.allocated
  pub found : h.lists l ≡ some (list_record (u32 (length xs)) (first xs) (final xs))
  pub chain : Chain h.elements 0 xs
  pub below : Below h.allocated xs

abbrev pub Disjoint : Cells → Cells → Type 0
Disjoint xs ys = (a : Ptr) → has a xs ≡ true → has a ys ≡ false

-- A chain survives any change that spares its own addresses.
pub Chain-frame :
    (f g : Ptr → Option Element) (n : ℕ) (xs : Cells)
    → Chain f n xs
    → ((a : Ptr) → has a xs ≡ true → g a ≡ f a)
    → Chain g n xs
Chain-frame f g n [] c same = tt
Chain-frame f g n ((a, m) ∷ xs) (p, e, out, c) same =
    (p, ground (arith, same a), out, Chain-frame f g (suc n) xs c λ b i. same b (ground arith))

pub has-head : (a : Ptr) (m : ℕ) (xs : Cells) → has a ((a, m) ∷ xs) ≡ true
has-head a m xs = ground arith

pub has-tail : (x a : Ptr) (m : ℕ) (xs : Cells) → has x xs ≡ true → has x ((a, m) ∷ xs) ≡ true
has-tail x a m xs h = ground arith

pub not-has-tail : (x a : Ptr) (m : ℕ) (xs : Cells) → has x ((a, m) ∷ xs) ≡ false → has x xs ≡ false
not-has-tail x a m xs h = ground arith

pub ne_of_has : (a b : Ptr) (xs : Cells) → has a xs ≡ false → has b xs ≡ true → a ≢ b
ne_of_has a b xs p q e = cc

pub ne-head : (x a : Ptr) (m : ℕ) (xs : Cells) → has x ((a, m) ∷ xs) ≡ false → x ≢ a
ne-head x a m xs h = ne_of_has x a ((a, m) ∷ xs) h (has-head a m xs)

pub has-final : (a : Ptr) (m : ℕ) (xs : Cells) → has (final ((a, m) ∷ xs)) ((a, m) ∷ xs) ≡ true
has-final a m [] = has-head a m []
has-final a m ((b, k) ∷ xs) = has-tail (final ((b, k) ∷ xs)) a m ((b, k) ∷ xs) (has-final b k xs)

pub Below-mono : (n m : ℕ) (xs : Cells) → n ≤ m → Below n xs → Below m xs
Below-mono n m [] le b = tt
Below-mono n m ((a, _) ∷ xs) le (p, b) = (omega arith, Below-mono n m xs le b)

pub le_of_has : (n : ℕ) (a : Ptr) (xs : Cells) → Below n xs → has a xs ≡ true → a ≤ n
le_of_has n a [] b h = cc
le_of_has n a ((c, m) ∷ xs) (p, b) h = ground (arith, le_of_has n a xs b)

pub not-has-new : (a b : Ptr) (m : ℕ) → a < b → has a ((b, m) ∷ []) ≡ false
not-has-new a b m lt = ground arith

pub not-has-above : (n : ℕ) (a : Ptr) (xs : Cells) → n < a → Below n xs → has a xs ≡ false
not-has-above n a [] lt b = refl
not-has-above n a ((c, _) ∷ xs) lt (p, b) = ground (arith, not-has-above n a xs lt b)

pub has-append : (a : Ptr) (xs ys : Cells) → has a (xs ++ ys) ≡ (has a xs || has a ys)
has-append a [] ys = refl
has-append a ((b, _) ∷ xs) ys = ground (arith, has-append a xs ys)

pub Below-append : (n : ℕ) (xs ys : Cells) → Below n xs → Below n ys → Below n (xs ++ ys)
Below-append n [] ys b c = c
Below-append n (x ∷ xs) ys (p, b) c = (p, Below-append n xs ys b c)

-- The cells other than the one at an address.
without : Ptr → Cells → Cells
without a [] = []
without a ((b, m) ∷ xs) = if b == a then xs else (b, m) ∷ without a xs

length-without : (a : Ptr) (xs : Cells) → length xs ≤ suc (length (without a xs))
unfolding without
length-without a [] = omega arith
length-without a (x ∷ xs) = ground (arith, length-without a xs)

has-without : (a b : Ptr) (xs : Cells) → has b xs ≡ false → has b (without a xs) ≡ false
unfolding without
has-without a b [] h = refl
has-without a b (x ∷ xs) h = ground (arith, has-without a b xs)

abbrev Distinct : Cells → Type 0
Distinct [] = Unit {0}
Distinct ((a, m) ∷ xs) = (a ≢ null) × (has a xs ≡ false) × Distinct xs

Chain-Distinct : (f : Ptr → Option Element) (n : ℕ) (xs : Cells) → Chain f n xs → Distinct xs
Chain-Distinct f n [] c = tt
Chain-Distinct f n (x ∷ xs) (p, e, out, c) = (p, out, Chain-Distinct f (suc n) xs c)

Distinct-without : (a : Ptr) (xs : Cells) → Distinct xs → Distinct (without a xs)
unfolding without
Distinct-without a [] d = tt
Distinct-without a ((b, m) ∷ xs) (p, out, d) = elim (Bool-cases (b == a)) [
  | inl e ↦ rw e d
  | inr e ↦ rw e (p, has-without a b xs out, Distinct-without a xs d)
]

Below-pred : (n : ℕ) (xs : Cells) → Below (suc n) xs → has (suc n) xs ≡ false → Below n xs
Below-pred n [] b out = tt
Below-pred n ((a, m) ∷ xs) (p, b) out = (ground arith, Below-pred n xs b (ground arith))

Below-without : (a n : ℕ) (xs : Cells) → Below n xs → Below n (without a xs)
unfolding without
Below-without a n [] b = tt
Below-without a n ((c, m) ∷ xs) (p, b) = elim (Bool-cases (c == a)) [
  | inl e ↦ rw e b
  | inr e ↦ rw e (p, Below-without a n xs b)
]

not-has-without : (a : Ptr) (xs : Cells) → Distinct xs → has a (without a xs) ≡ false
unfolding without
not-has-without a [] d = refl
not-has-without a ((b, m) ∷ xs) (p, out, d) = ground (arith, not-has-without a xs d)

length-le_of_Distinct : (n : ℕ) (xs : Cells) → Distinct xs → Below n xs → length xs ≤ n
length-le_of_Distinct zero [] d b = omega arith
length-le_of_Distinct zero ((a, m) ∷ xs) (p, out, d) (q, b) = absurd (omega arith)
length-le_of_Distinct (suc n) xs d b =
    let smaller : Below n (without (suc n) xs) =
      Below-pred n (without (suc n) xs) (Below-without (suc n) (suc n) xs b)
        (not-has-without (suc n) xs d) in
    omega (
      arith,
      length-without (suc n) xs,
      length-le_of_Distinct n (without (suc n) xs) (Distinct-without (suc n) xs d) smaller,
    )

-- An acyclic list is no longer than the number of blocks handed out.
pub length-le_allocated :
    (h : Heap) (l : Ptr) (xs : Cells) → IsList h l xs → length xs ≤ h.allocated
length-le_allocated h l xs is =
    length-le_of_Distinct h.allocated xs (Chain-Distinct h.elements 0 xs is.chain) is.below
