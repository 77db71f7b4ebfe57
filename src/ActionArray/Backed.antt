-- ===== src/ActionArray/Backed.antt =====
-- The count `single_pai_state_count` of src/fsm_utils.c and the slots that stand behind it.
use fsm_lang.Base.{
  ℕ, ◌+◌, ◌≤◌, ◌<◌, ◌≡◌, refl, ◌∙◌, sym, ap, Bool, true, false, Option, none, some, List, [], ◌∷◌,
  arith, ◌==◌, if◌then◌else◌, u32, length, contains, Bool-cases, Option-cases, inl, inr, ==_self,
}
use fsm_lang.Sequence.{Distinct}
use fsm_lang.Sequence.Subset.{Distinct-covers}
use fsm_lang.ActionArray.{Machine, Population, is_some, same_pai}
use fsm_lang.ActionArray.Expand.{IsState}
use fsm_lang.ActionArray.Frame.{Stepped}
use fsm_lang.ActionArray.Single.{Fields, fields, counted}

abbrev pub Slots : Type 0
Slots = ℕ → ℕ → Option ℕ

-- One action info is in every slot of the event.
abbrev pub Uniform : Machine → Slots → ℕ → Type 0
Uniform m slots e = (x : ℕ) × ((s : ℕ) → IsState m s → slots (m.order e) (m.order s) ≡ some x)

-- The count of an event is backed by as many states whose slots hold its single action info.
pub record Backed (m : Machine) (slots : Slots) (e : ℕ) (f : Fields) : Type 0 where
  pub filled : List ℕ
  pub distinct : Distinct filled
  pub states : (a : ℕ) → contains filled a ≡ true → IsState m a
  pub holds :
      (x a : ℕ)
      → f.single ≡ some x
      → contains filled a ≡ true
      → slots (m.order e) (m.order a) ≡ some x
  pub bound : f.count ≤ length filled
  pub known : 0 < f.count → is_some f.single ≡ true

same_pai-some : (o : Option ℕ) (pai : ℕ) → same_pai o pai ≡ true → o ≡ some pai
same_pai-some none pai h = cc
same_pai-some (some x) pai h = ground arith

pub equal : (s a : ℕ) → (s == a) ≡ true → s ≡ a
equal s a y = ground arith

in_rest :
    (s a : ℕ) (xs : List ℕ) → contains (s ∷ xs) a ≡ true → (s == a) ≡ false → contains xs a ≡ true
in_rest s a xs i n = ground arith

clash : (o : Option ℕ) (x : ℕ) → is_some o ≡ false → o ≡ some x → ⊥
clash none x p q = cc
clash (some y) x p q = cc

pub counted-flag :
    (pai : ℕ) (f g : Fields) (b : Bool)
    → (if b then counted pai f else g).flag ≡ (if b then f.flag else g.flag)
counted-flag pai f g true = elim (Bool-cases (same_pai f.single pai)) [
  | inl y ↦ rw y
  | inr n ↦ rw n
]
counted-flag pai f g false = refl

pub same_flag :
    (f : ℕ → Fields) (x e : ℕ) → (if x == e then (f e).flag else (f x).flag) ≡ (f x).flag
same_flag f x e = elim (Bool-cases (x == e)) [ inl y ↦ rw (y, equal x e y) | inr n ↦ rw n ]

pub no_member : (xs : List ℕ) (a : ℕ) → length xs ≡ 0 → contains xs a ≡ true → ⊥
no_member [] a n i = cc
no_member (x ∷ xs) a n i = absurd (omega (arith, n))

module _ (m : Machine) where
  pub kept :
      (pai e s : ℕ) (p q : Population) (i j y : ℕ)
      → Stepped m pai e s p q
      → is_some (p.action_array (m.order e) (m.order s)) ≡ false
      → p.action_array i j ≡ some y
      → q.action_array i j ≡ some y
  kept pai e s p q i j y k free at = ground (arith, k.action_array i j)

  -- An event whose count does not change.
  kept-Backed :
      (pai e s : ℕ) (p q : Population) (x : ℕ) (f : Fields)
      → Stepped m pai e s p q
      → is_some (p.action_array (m.order e) (m.order s)) ≡ false
      → Backed m p.action_array x f
      → Backed m q.action_array x f
  kept-Backed pai e s p q x f k free b = record {
    filled = b.filled;
    distinct = b.distinct;
    states = b.states;
    holds = λ y a one i. kept pai e s p q (m.order x) (m.order a) y k free (b.holds y a one i);
    bound = b.bound;
    known = b.known;
  }

  -- The event whose count goes up: the state was not counted before, since its slot was free.
  counted-Backed :
      (pai e s : ℕ) (p q : Population) (f : Fields)
      → IsState m s
      → Stepped m pai e s p q
      → is_some (p.action_array (m.order e) (m.order s)) ≡ false
      → f.single ≡ some pai
      → Backed m p.action_array e f
      → Backed m q.action_array e (record f { count = u32 (f.count + 1) })
  counted-Backed pai e s p q f st k free single b = record {
    filled = s ∷ b.filled;
    distinct = (fresh, b.distinct);
    states = λ a i. ground (arith, b.states a);
    holds = λ x a one i. elim (Bool-cases (s == a)) [
      | inl y ↦
          ap (q.action_array (m.order e)) (ap m.order (sym (equal s a y))) ∙ set ∙ sym single ∙ one
      | inr n ↦
          kept pai e s p q (m.order e) (m.order a) x k free
            (b.holds x a one (in_rest s a b.filled i n))
    ];
    bound = omega (arith, b.bound);
    known = λ pos. rw single;
  }
    where
      fresh : contains b.filled s ≡ false
      fresh = elim (Bool-cases (contains b.filled s)) [
        | inl y ↦ absurd (clash _ pai free (b.holds pai s single y))
        | inr n ↦ n
      ]

      set : q.action_array (m.order e) (m.order s) ≡ some pai
      set = k.action_array (m.order e) (m.order s) ∙ rw (==_self (m.order e), ==_self (m.order s))

  pub step-Backed :
      (pai e s : ℕ) (p q : Population) (x : ℕ)
      → IsState m s
      → Stepped m pai e s p q
      → is_some (p.action_array (m.order e) (m.order s)) ≡ false
      → Backed m p.action_array x (fields (p.events x))
      → Backed m q.action_array x
          (if x == e then counted pai (fields (p.events e)) else fields (p.events x))
  step-Backed pai e s p q x st k free b = elim (Bool-cases (x == e)) [
    | inr n ↦ rw n (kept-Backed pai e s p q x (fields (p.events x)) k free b)
    | inl y ↦ elim (Bool-cases (same_pai (fields (p.events e)).single pai)) [
      | inl one ↦
          rw (y, one, equal x e y)
            (counted-Backed pai e s p q (fields (p.events e)) st k free
              (same_pai-some (fields (p.events e)).single pai one) (rw (equal x e y) at b))
      | inr other ↦
          rw (y, other, equal x e y)
            (kept-Backed pai e s p q e (fields (p.events e)) k free (rw (equal x e y) at b))
    ]
  ]

  -- No count yet.
  pub none-Backed : (slots : Slots) (e : ℕ) (f : Fields) → f.count ≡ 0 → Backed m slots e f
  none-Backed slots e f zero_count = record {
    filled = [];
    distinct = tt;
    states = λ a i. absurd (no_member [] a refl i);
    holds = λ x a one i. absurd (no_member [] a refl i);
    bound = omega (arith, zero_count);
    known = λ pos. absurd (omega (arith, zero_count, pos));
  }

  -- A full count makes the event uniform.
  pub full-Uniform :
      (slots : Slots) (e : ℕ) (f : Fields)
      → length m.state_list < 4294967296
      → (f.count == u32 (length m.state_list)) ≡ true
      → Backed m slots e f
      → Uniform m slots e
  full-Uniform slots e f few full b = elim (Option-cases f.single) [
    | inl nothing ↦ (0, λ s i. absurd (no_member m.state_list s (empty nothing) i))
    | inr (x, one) ↦ (
      x,
      λ s i. b.holds x s one (Distinct-covers b.filled m.state_list s b.distinct b.states all i),
    )
  ]
    where
      whole : f.count ≡ length m.state_list
      whole = equal f.count (u32 (length m.state_list)) full ∙ omega (arith, few)

      all : length m.state_list ≤ length b.filled
      all = omega (arith, whole, b.bound)

      empty : f.single ≡ none → length m.state_list ≡ 0
      empty nothing = ground (arith, whole, b.known)

  pub flag-Backed :
      (slots : Slots) (e x : ℕ) (f : Fields)
      → Backed m slots x f
      → Backed m slots x (record f { flag = true })
  flag-Backed slots e x f b = record {
    filled = b.filled;
    distinct = b.distinct;
    states = b.states;
    holds = b.holds;
    bound = b.bound;
    known = b.known;
  }
