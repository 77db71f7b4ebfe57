-- ===== src/LinkedList/Tail.antt =====
-- `move_list` of src/list.c with an empty source.
use fsm_lang.Base.{
  ℕ, suc, ◌+◌, ◌<◌, ◌≡◌, refl, ◌≢◌, some, [], ◌∷◌, arith, ◌∙◌, ap, sym, length, u32,
}
use fsm_lang.Memory.{Ptr, null, element, list_record, Heap, fault, load, put_element, put_list}
use fsm_lang.Memory.Access.{
  with_element, calloc_element-ok, not_null, load-ok, store-ok, load_list-ok, store_list-ok,
  update_self, update-ne,
}
use fsm_lang.Memory.Returns.{Returns, returns}
use fsm_lang.LinkedList.{iterate_loop, iterate_list, move_list, add_to_list}
use fsm_lang.LinkedList.Chain.{Cells, final, IsList}
use fsm_lang.LinkedList.Add.{Chain-final}

-- A list with a head and no tail cannot be added to.
add_to_list-fault :
    (h : Heap) (l : Ptr) (x n : ℕ) (a : Ptr)
    → l ≢ null
    → a ≢ null
    → h.lists l ≡ some (list_record n a null)
    → 0 < h.available
    → add_to_list l x h ≡ fault
unfolding add_to_list load
add_to_list-fault h l x n a l-ne a-ne found room =
    let e = suc h.allocated in
    let h₁ = with_element h (element 0 null 0) in
    let e-ne : e ≢ null = omega arith in
    rw (
      not_null l l-ne,
      calloc_element-ok h room,
      not_null e e-ne,
      load_list-ok l h₁ l-ne _ found,
      store-ok e h₁ e-ne _ (element x null n) (update_self h.elements e _),
      not_null a a-ne,
    )

module _ (h : Heap) (dest src : Ptr) (ne : dest ≢ src) where
  -- When the source is empty and the destination is not, both well formed, `move_list` sets the
  -- tail of the destination to NULL. The next `add_to_list` on it, with memory for an element,
  -- dereferences that NULL.
  pub move_list_loses_tail :
      (a : Ptr) (m : ℕ) (xs : Cells) (x : ℕ)
      → IsList h dest ((a, m) ∷ xs)
      → IsList h src []
      → 0 < h.available
      → Returns
          (λ p h'.
            (p ≡ dest)
            × (h'.lists dest ≡ some (list_record (u32 (suc (length xs))) a null))
            × (add_to_list dest x h' ≡ fault))
          (move_list dest src h)
  unfolding move_list iterate_list iterate_loop
  move_list_loses_tail a m xs x is from room =
      let ds : Cells = (a, m) ∷ xs in
      let t = final ds in
      let (last, at, t-ne, old) = Chain-final h.elements h.allocated 0 a m xs is.chain is.below in
      let linked = record last { next = null } in
      let h₁ = put_element t (some linked) h in
      let r = list_record (u32 (u32 (suc (length xs)) + 0)) a null in
      let zero = list_record 0 null null in
      let h₂ = put_list dest (some r) h₁ in
      let h₃ = put_list src (some zero) h₂ in
      let still : h₂.lists src ≡ some zero =
        update-ne h.lists dest (some r) src (λ e. ne (sym e)) ∙ from.found in
      let lost : h₃.lists dest ≡ some r =
        update-ne h₂.lists src (some zero) dest ne ∙ update_self h.lists dest (some r) in
      returns dest h₃
        (rw (
          not_null dest is.ne_null,
          load_list-ok dest h is.ne_null _ is.found,
          not_null t t-ne,
          not_null src from.ne_null,
          load_list-ok src h from.ne_null _ from.found,
          load-ok t h t-ne last at,
          load_list-ok src h from.ne_null _ from.found,
          store-ok t h t-ne last linked at,
          load_list-ok src h₁ from.ne_null _ from.found,
          load_list-ok dest h₁ is.ne_null _ is.found,
          store_list-ok dest h₁ is.ne_null _ r is.found,
          store_list-ok src h₂ from.ne_null _ zero still,
        ))
        (
          refl,
          lost ∙ ap (λ n. some (list_record n a null)) (omega arith),
          add_to_list-fault h₃ dest x _ a is.ne_null is.chain.0 lost room,
        )
