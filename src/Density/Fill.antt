-- ===== src/Density/Fill.antt =====
-- What the two iterators of the density computation make of a list.
use native.Mathlib.Nat.{div-le_of_le-mul}
use fsm_lang.Base.{
  ℕ, ◌+◌, ◌*◌, ◌/◌, ◌≤◌, ◌<◌, ◌≡◌, refl, ◌∙◌, ap, arith, Bool, true, false, Option, none, some,
  List, [], ◌∷◌, ◌==◌, u32, length, contains, ==_self, Bool-cases, inl, inr,
}
use fsm_lang.Sequence.{iterate, set_at, iterate-on}
use fsm_lang.Density.{Density, quotient, accumulate}

-- The percentage that `count` is of `total`, rounded down, for each member, and their sum.
abbrev pub percent : ℕ → ℕ → ℕ
percent total count = 100 * count / total

abbrev pub total_percent : ℕ → (ℕ → ℕ) → List ℕ → ℕ
total_percent total count [] = 0
total_percent total count (x ∷ xs) = percent total (count x) + total_percent total count xs

pub percent-bound : (total count : ℕ) → count ≤ total → percent total count ≤ 100
percent-bound total count h = div-le_of_le-mul total (omega arith)

-- One iterator, for either list.
abbrev pub step : ℕ → (ℕ → ℕ) → ℕ → Option Density → Bool × Option Density
step total count x none = (true, none)
step total count x (some d) = accumulate x d (quotient (u32 (100 * count x)) (u32 total))

abbrev pub Few : ℕ → (ℕ → ℕ) → List ℕ → Type 0
Few total count xs = (x : ℕ) → contains xs x ≡ true → count x ≤ total

-- What the iteration makes of a start.
pub record Filled (total : ℕ) (count : ℕ → ℕ) (xs : List ℕ) (d : Density) (o : Option Density)
    : Type 0 where
  pub density : Density
  pub is : o ≡ some density
  pub pct : (x : ℕ) → contains xs x ≡ true → density.density_pct x ≡ percent total (count x)
  pub kept : (x : ℕ) → contains xs x ≡ false → density.density_pct x ≡ d.density_pct x
  pub sum : density.average ≡ d.average + total_percent total count xs

pub total_percent-bound :
    (total : ℕ) (count : ℕ → ℕ) (xs : List ℕ)
    → Few total count xs
    → total_percent total count xs ≤ 100 * length xs
total_percent-bound total count [] few = omega arith
total_percent-bound total count (x ∷ xs) few = omega (
  arith,
  percent-bound total (count x) (few x (rw (==_self x))),
  total_percent-bound total count xs (λ y i. few y (ground arith)),
)

quotient-percent :
    (total count : ℕ)
    → 0 < total
    → total < 42949673
    → count ≤ total
    → quotient (u32 (100 * count)) (u32 total) ≡ some (percent total count)
unfolding quotient
quotient-percent total count pos small few =
    let whole : u32 (100 * count) ≡ 100 * count = omega arith in
    let all : u32 total ≡ total = omega arith in
    let ne : (total == 0) ≡ false = ground arith in rw (whole, all, ne)

contains-later : (x : ℕ) (xs : List ℕ) (y : ℕ) → contains xs y ≡ true → contains (x ∷ xs) y ≡ true
contains-later x xs y i = ground arith

outside :
    (x : ℕ) (xs : List ℕ) (y : ℕ)
    → contains (x ∷ xs) y ≡ false
    → (contains xs y ≡ false) × ((y == x) ≡ false)
outside x xs y i = (ground arith, ground arith)

set_here :
    (f : ℕ → ℕ) (total : ℕ) (count : ℕ → ℕ) (x : ℕ) (xs : List ℕ) (y : ℕ)
    → contains (x ∷ xs) y ≡ true
    → contains xs y ≡ false
    → set_at f x (percent total (count x)) y ≡ percent total (count y)
set_here f total count x xs y i out = let same : y ≡ x = ground arith in rw (same, ==_self x)

pub iterate-Filled :
    (total : ℕ) (count : ℕ → ℕ) (xs : List ℕ) (d : Density)
    → 0 < total
    → total < 42949673
    → Few total count xs
    → d.average + 100 * length xs < 4294967296
    → Filled total count xs d (iterate (step total count) xs (some d))
unfolding iterate
iterate-Filled total count [] d pos small few room = record {
  density = d;
  is = refl;
  pct = λ x i. ground arith;
  kept = λ x i. refl;
  sum = omega arith;
}
iterate-Filled total count (x ∷ xs) d pos small few room =
    let here = few x (rw (==_self x)) in
    let p = percent total (count x) in
    let next : Density = record {
      density_pct = set_at d.density_pct x p;
      average = u32 (d.average + p);
    } in
    let e : step total count x (some d) ≡ (false, some next) =
      rw (quotient-percent total (count x) pos small here) in
    let go : iterate (step total count) (x ∷ xs) (some d)
        ≡ iterate (step total count) xs (some next) =
      iterate-on (step total count) x xs (some d) (ap (λ (q : Bool × Option Density). q.0) e)
      ∙ ap (λ (q : Bool × Option Density). iterate (step total count) xs q.1) e in
    let bound = percent-bound total (count x) here in
    let later = λ (y : ℕ) (i : contains xs y ≡ true). few y (contains-later x xs y i) in
    let rest = iterate-Filled total count xs next pos small later (omega (arith, bound)) in
    record {
      density = rest.density;
      is = go ∙ rest.is;
      pct = λ y i. elim (Bool-cases (contains xs y)) [
        | inl in_rest ↦ rest.pct y in_rest
        | inr out ↦ rest.kept y out ∙ set_here d.density_pct total count x xs y i out
      ];
      kept = λ y i. rest.kept y (outside x xs y i).0 ∙ rw (outside x xs y i).1;
      sum = rest.sum ∙ omega (arith, bound);
    }
