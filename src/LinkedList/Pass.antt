-- ===== src/LinkedList/Pass.antt =====
-- A pass of `iterate_list` over one list that takes its members into another.
use fsm_lang.Base.{
  ℕ, zero, suc, ◌+◌, ◌≤◌, ◌<◌, ◌≡◌, refl, ◌≢◌, true, false, some, List, [], ◌∷◌, arith, ◌∙◌, ap,
  u32, length,
}
use fsm_lang.Sequence.{absorb}
use fsm_lang.Memory.{Ptr, null, Element, element, Heap, Run}
use fsm_lang.Memory.Access.{not_null, load-ok, load_list-ok}
use fsm_lang.Memory.Returns.{Returns, returns}
use fsm_lang.LinkedList.{Iterator, iterate_loop, iterate_list}
use fsm_lang.LinkedList.Chain.{
  Cells, first, members, Chain, Below, Disjoint, IsList, Chain-frame, has, has-head, has-tail,
  Below-mono, le_of_has, length-le_allocated,
}
use fsm_lang.LinkedList.Extend.{Extends, Extends-refl, Extends-trans, Extends-frame}

-- The list at `l` holds the members `ms` in the cells `ys`, having grown from `xs`.
pub record Grown (l : Ptr) (n : ℕ) (h : Heap) (xs : Cells) (ms : List ℕ) (h' : Heap) : Type 0 where
  pub cells : Cells
  pub extends : Extends l n h xs h' cells
  pub holds : members cells ≡ ms

-- The action takes the element's member into the destination and goes on.
abbrev pub Absorbs : Iterator → Ptr → (List ℕ → ℕ → List ℕ) → Type 0
Absorbs action l grow =
    (h : Heap) (xs : Cells) (a : Ptr) (e : Element)
    → IsList h l xs
    → 0 < h.available
    → a ≢ null
    → h.elements a ≡ some e
    → Returns (λ b h'. (b ≡ false) × Grown l 1 h xs (grow (members xs) e.mbr) h') (action a h)

module _ (action : Iterator) (l : Ptr) (grow : List ℕ → ℕ → List ℕ)
    (step : Absorbs action l grow) where
  -- What is known of the rest of a pass.
  abbrev Rest : ℕ → ℕ → Type 0
  Rest k n =
      (h : Heap) (xs zs : Cells)
      → IsList h l xs
      → Chain h.elements n zs
      → Below h.allocated zs
      → Disjoint zs xs
      → length zs ≤ h.available
      → length zs < k
      → Returns
          (λ p h'. (p ≡ null) × Grown l (length zs) h xs (absorb grow (members xs) (members zs)) h')
          (iterate_loop k action (first zs) h)

  widen :
      (h h₁ : Heap) (xs : Cells) (m n : ℕ) (ms : List ℕ)
      (g : Grown l 1 h xs (grow (members xs) m) h₁) (r : Run Ptr)
      → Returns (λ p h₂. (p ≡ null) × Grown l n h₁ g.cells (absorb grow (members g.cells) ms) h₂) r
      → Returns
          (λ p h₂. (p ≡ null) × Grown l (suc n) h xs (absorb grow (grow (members xs) m) ms) h₂)
          r
  widen h h₁ xs m n ms g r (returns p h₂ run (e, g')) = returns p h₂ run (
    e,
    record {
      cells = g'.cells;
      extends =
          Extends-trans l 1 n (suc n) h h₁ h₂ xs g.cells g'.cells g.extends g'.extends
            (omega arith);
      holds = g'.holds ∙ ap (λ ys. absorb grow ys ms) g.holds;
    },
  )

  pass : (k n : ℕ) → Rest k n
  unfolding iterate_loop
  pass zero n h xs zs is c b apart room fuel = absurd (omega arith)
  pass (suc k) n h xs [] is c b apart room fuel =
      returns null h refl
        (refl, record { cells = xs; extends = Extends-refl l 0 h xs is; holds = refl })
  pass (suc k) n h xs ((a, m) ∷ zs) is (p, q, out, c) (le, b') apart room fuel =
      go (pass k (suc n)) (step h xs a (element m (first zs) (u32 n)) is (omega arith) p q)
    where
      go :
          Rest k (suc n)
          → Returns (λ s h'. (s ≡ false) × Grown l 1 h xs (grow (members xs) m) h') (action a h)
          → Returns
              (λ p h'.
                (p ≡ null)
                × Grown l
                    (suc (length zs))
                    h
                    xs
                    (absorb grow (grow (members xs) m) (members zs))
                    h')
              (iterate_loop (suc k) action a h)
      go rec (returns s h₁ run (on, g)) =
          let grown = g.extends in
          let spared : (b : Ptr) → has b ((a, m) ∷ zs) ≡ true → h₁.elements b ≡ h.elements b =
            λ b i.
              grown.elements b (le_of_has h.allocated b ((a, m) ∷ zs) (le, b') i) (apart b i) in
          rw (not_null a p, run, on, load-ok a h₁ p _ (spared a (has-head a m zs) ∙ q))
            (widen h h₁ xs m (length zs) (members zs) g (iterate_loop k action (first zs) h₁) (
              rec h₁ g.cells zs grown.is
                (Chain-frame h.elements h₁.elements (suc n) zs c
                  (λ b i. spared b (has-tail b a m zs i)))
                (Below-mono h.allocated h₁.allocated zs grown.allocated b')
                (λ b i.
                  grown.apart b (le_of_has h.allocated b zs b' i) (apart b (has-tail b a m zs i)))
                (omega (arith, grown.available)) (omega arith)))

  -- Over a list with its own elements the pass takes in every member, and leaves that list alone.
  pub iterate_list-absorb :
      (h : Heap) (xs zs : Cells) (src : Ptr)
      → IsList h l xs
      → IsList h src zs
      → src ≢ l
      → Disjoint zs xs
      → length zs ≤ h.available
      → Returns
          (λ p h'.
            Grown l (length zs) h xs (absorb grow (members xs) (members zs)) h' × IsList h' src zs)
          (iterate_list src action h)
  unfolding iterate_list
  iterate_list-absorb h xs zs src is from ne apart room =
      let short = length-le_allocated h src zs from in
      rw (not_null src from.ne_null, load_list-ok src h from.ne_null _ from.found)
        (keep (
          pass (suc (h.allocated + h.available)) 0 h xs zs is from.chain from.below apart room
            (omega arith)))
    where
      keep :
          {r : Run Ptr}
          → Returns
              (λ p h'.
                (p ≡ null) × Grown l (length zs) h xs (absorb grow (members xs) (members zs)) h')
              r
          → Returns
              (λ p h'.
                Grown l (length zs) h xs (absorb grow (members xs) (members zs)) h'
                × IsList h' src zs)
              r
      keep (returns p h' run (e, g)) =
          returns p h' run
            (g, Extends-frame l src (length zs) h h' xs g.cells zs g.extends ne from apart)
