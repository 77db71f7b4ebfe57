-- ===== src/LinkedList/Extend.antt =====
-- What one list's growth leaves alone.
use fsm_lang.Base.{ℕ, ◌+◌, ◌≤◌, ◌≡◌, refl, ◌≢◌, false, [], ◌∷◌, ◌++◌, arith, ◌∙◌}
use fsm_lang.Memory.{Ptr, Heap}
use fsm_lang.LinkedList.Chain.{
  Cells, members, has, Disjoint, IsList, Chain-frame, not-has-new, has-append, le_of_has,
  Below-mono,
}
use fsm_lang.LinkedList.Add.{Added}

-- From `h` to `h'` the list at `l` grew from `xs` to `ys`, and at most `n` blocks were taken.
pub record Extends (l : Ptr) (n : ℕ) (h : Heap) (xs : Cells) (h' : Heap) (ys : Cells) : Type 0 where
  pub is : IsList h' l ys
  pub allocated : h.allocated ≤ h'.allocated
  pub available : h.available ≤ h'.available + n
  pub elements : (a : Ptr) → a ≤ h.allocated → has a xs ≡ false → h'.elements a ≡ h.elements a
  pub apart : (a : Ptr) → a ≤ h.allocated → has a xs ≡ false → has a ys ≡ false
  pub lists : (a : Ptr) → a ≢ l → h'.lists a ≡ h.lists a

pub Extends-refl : (l : Ptr) (n : ℕ) (h : Heap) (xs : Cells) → IsList h l xs → Extends l n h xs h xs
Extends-refl l n h xs is = record {
  is = is;
  allocated = omega arith;
  available = omega arith;
  elements = λ a le out. refl;
  apart = λ a le out. out;
  lists = λ a ne. refl;
}

pub Extends-trans :
    (l : Ptr) (n m k : ℕ) (h h' h'' : Heap) (xs ys zs : Cells)
    → Extends l n h xs h' ys
    → Extends l m h' ys h'' zs
    → n + m ≡ k
    → Extends l k h xs h'' zs
Extends-trans l n m k h h' h'' xs ys zs p q e = record {
  is = q.is;
  allocated = omega (arith, p.allocated, q.allocated);
  available = omega (arith, p.available, q.available);
  elements = λ a le out.
      q.elements a (omega (arith, p.allocated)) (p.apart a le out) ∙ p.elements a le out;
  apart = λ a le out. q.apart a (omega (arith, p.allocated)) (p.apart a le out);
  lists = λ a ne. q.lists a ne ∙ p.lists a ne;
}

snoc_apart :
    (a e : Ptr) (m : ℕ) (xs : Cells)
    → has a xs ≡ false
    → has a ((e, m) ∷ []) ≡ false
    → has a (xs ++ (e, m) ∷ []) ≡ false
snoc_apart a e m xs p q = rw (has-append a xs ((e, m) ∷ []), p) q

pub Added-Extends :
    (l : Ptr) (h h' : Heap) (xs : Cells) (m : ℕ) (e : Ptr)
    → Added h l xs m e h'
    → Extends l 1 h xs h' (xs ++ (e, m) ∷ [])
Added-Extends l h h' xs m e d = record {
  is = d.is;
  allocated = omega (arith, d.allocated);
  available = omega (arith, d.available);
  elements = d.elements;
  apart = λ a le out. snoc_apart a e m xs out (not-has-new a e m (omega (arith, d.address)));
  lists = d.lists;
}

-- A list that shares no element with the one that grew stays what it was.
pub Extends-frame :
    (l k : Ptr) (n : ℕ) (h h' : Heap) (xs ys zs : Cells)
    → Extends l n h xs h' ys
    → k ≢ l
    → IsList h k zs
    → Disjoint zs xs
    → IsList h' k zs
Extends-frame l k n h h' xs ys zs p ne is apart = record {
  ne_null = is.ne_null;
  old = omega (arith, is.old, p.allocated);
  found = p.lists k ne ∙ is.found;
  chain =
      Chain-frame h.elements h'.elements 0 zs is.chain
        λ a i. p.elements a (le_of_has h.allocated a zs is.below i) (apart a i);
  below = Below-mono h.allocated h'.allocated zs p.allocated is.below;
}

pub members-snoc :
    (xs : Cells) (e : Ptr) (m : ℕ) → members (xs ++ (e, m) ∷ []) ≡ members xs ++ m ∷ []
members-snoc [] e m = refl
members-snoc (x ∷ xs) e m = rw (members-snoc xs e m)
