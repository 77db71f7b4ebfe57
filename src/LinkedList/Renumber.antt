-- ===== src/LinkedList/Renumber.antt =====
-- The first pass of `move_list`, which moves the ordinals of the source on.
use fsm_lang.Base.{
  ℕ, zero, suc, ◌+◌, ◌<◌, ◌≡◌, refl, false, Option, some, [], ◌∷◌, arith, ◌∙◌, ap, sym, length, u32,
}
use fsm_lang.Memory.{Ptr, null, Element, element, Heap, ok, put_element}
use fsm_lang.Memory.Access.{not_null, load-ok, store-ok, update_self, update-ne}
use fsm_lang.LinkedList.{update_ordinal, iterate_loop}
use fsm_lang.LinkedList.Chain.{
  Cells, first, has, Chain, Chain-frame, not-has-tail, ne-head, ne_of_has,
}

-- The pass that adds `j` to the ordinals.
pub record Renumbered (h : Heap) (k : ℕ) (zs : Cells) (g : Ptr → Option Element) : Type 0 where
  pub chain : Chain g k zs
  pub same : (a : Ptr) → has a zs ≡ false → g a ≡ h.elements a

ordinal_sum :
    (n j k : ℕ) (m : ℕ) (q : Ptr)
    → j + n ≡ k
    → ◌≡◌ {A = Option Element}
        (some (element m q (u32 (u32 n + u32 j))))
        (some (element m q (u32 k)))
ordinal_sum n j k m q e = ap (λ o. some (element m q o)) (omega arith)

pub renumber :
    (fuel n j k : ℕ) (h : Heap) (zs : Cells)
    → Chain h.elements n zs
    → j + n ≡ k
    → length zs < fuel
    → (g : Ptr → Option Element) × (iterate_loop fuel (update_ordinal (u32 j)) (first zs) h
        ≡ ok null (record h { elements = g }))
      × Renumbered h k zs g
unfolding iterate_loop update_ordinal
renumber zero n j k h zs c e lt = absurd (omega arith)
renumber (suc fuel) n j k h [] c e lt =
    (h.elements, refl, record { chain = tt; same = λ a out. refl })
renumber (suc fuel) n j k h ((a, m) ∷ zs) (p, q, out, c) e lt =
    let old = element m (first zs) (u32 n) in
    let new = element m (first zs) (u32 (u32 n + u32 j)) in
    let h₁ = put_element a (some new) h in
    let rest =
      Chain-frame h.elements h₁.elements (suc n) zs c
        λ b i. update-ne h.elements a (some new) b (λ e. ne_of_has a b zs out i (sym e)) in
    let (g, run, numbered) =
      renumber fuel (suc n) j (suc k) h₁ zs rest (omega arith) (omega arith) in
    (
      g,
      rw
          (
            not_null a p,
            load-ok a h p old q,
            store-ok a h p old new q,
            load-ok a h₁ p new (update_self h.elements a (some new)),
          )
          run,
      record {
        chain = (
          p,
          numbered.same a out
              ∙ update_self h.elements a (some new)
              ∙ ordinal_sum n j k m (first zs) e,
          out,
          numbered.chain,
        );
        same = λ b apart.
            numbered.same b (not-has-tail b a m zs apart)
            ∙ update-ne h.elements a (some new) b (ne-head b a m zs apart);
      },
    )
