-- ===== src/LinkedList/Move.antt =====
-- `move_list` of src/list.c.
use fsm_lang.Base.{
  ℕ, suc, ◌+◌, ◌≤◌, ◌≡◌, refl, ◌≢◌, Bool, true, false, Option, some, [], ◌∷◌, ◌++◌, arith, ◌∙◌, ap,
  sym, length, length-append, u32, Bool-cases, inl, inr,
}
use fsm_lang.Memory.{
  Ptr, null, ListRecord, list_record, Heap, Cmd, pure, ◌>>=◌, ◌>>◌, load_list, store_list,
  put_element, put_list,
}
use fsm_lang.Memory.Access.{
  not_null, load-ok, store-ok, load_list-ok, store_list-ok, update_self, update-ne,
}
use fsm_lang.Memory.Returns.{Returns, returns}
use fsm_lang.LinkedList.{iterate_list, move_list}
use fsm_lang.LinkedList.Chain.{
  Cells, first, final, final_from, has, Chain, Below, Disjoint, IsList, Chain-frame, Below-append,
  has-final, ne_of_has, length-le_allocated,
}
use fsm_lang.LinkedList.Add.{Chain-append, update-Relinked, Chain-final}
use fsm_lang.LinkedList.Renumber.{renumber}

not-both : (x : Ptr) (ss ds : Cells) → Disjoint ss ds → has x ds ≡ true → has x ss ≡ false
not-both x ss ds apart i = elim (Bool-cases (has x ss)) [
  | inl e ↦ absurd (clash (apart x e) i)
  | inr e ↦ e
]
  where
    clash : {b : Bool} → b ≡ false → b ≡ true → ⊥
    clash p q = cc

-- The destination is returned with all the cells, and the source is empty and can be used again.
abbrev pub Moved : Ptr → Ptr → Cells → Ptr → Heap → Type 0
Moved dest src xs p h' = (p ≡ dest) × IsList h' dest xs × IsList h' src []

final_from-append :
    (a : Ptr) (xs : Cells) (b : Ptr) (m : ℕ) (zs : Cells)
    → final_from a (xs ++ (b, m) ∷ zs) ≡ final_from b zs
final_from-append a [] b m zs = refl
final_from-append a ((c, k) ∷ xs) b m zs = final_from-append c xs b m zs

module _ (h : Heap) (dest src : Ptr) (ne : dest ≢ src) where
  -- The last writes of `move_list`: the tail and the count, and the `memset`.
  settle : Cmd Ptr
  settle = do
    s ← load_list src
    d ← load_list dest
    store_list dest (record d { tail = s.tail; count = u32 (d.count + s.count) })
    store_list src (list_record 0 null null)
    pure dest

  settle-Moved :
      (ys : Cells) (n c : ℕ) (q f : Ptr)
      → dest ≢ null
      → src ≢ null
      → dest ≤ h.allocated
      → src ≤ h.allocated
      → h.lists dest ≡ some (list_record n (first ys) q)
      → h.lists src ≡ some (list_record c f (final ys))
      → u32 (n + c) ≡ u32 (length ys)
      → Chain h.elements 0 ys
      → Below h.allocated ys
      → Returns (Moved dest src ys) (settle h)
  unfolding settle
  settle-Moved ys n c q f d-ne s-ne d-old s-old d-is s-is total chain below =
      let r = list_record (u32 (n + c)) (first ys) (final ys) in
      let zero = list_record 0 null null in
      let h₁ = put_list dest (some r) h in
      let still : h₁.lists src ≡ some (list_record c f (final ys)) =
        update-ne h.lists dest (some r) src (λ e. ne (sym e)) ∙ s-is in
      let named : ◌≡◌ {A = Option ListRecord} (some r)
          (some (list_record (u32 (length ys)) (first ys) (final ys))) =
        ap (λ k. some (list_record k (first ys) (final ys))) total in
      returns dest (put_list src (some zero) h₁)
        (rw (
          load_list-ok src h s-ne _ s-is,
          load_list-ok dest h d-ne _ d-is,
          store_list-ok dest h d-ne _ r d-is,
          store_list-ok src h₁ s-ne _ zero still,
        ))
        (
          refl,
          record {
            ne_null = d-ne;
            old = d-old;
            found =
                update-ne h₁.lists src (some zero) dest ne
                ∙ update_self h.lists dest (some r)
                ∙ named;
            chain = chain;
            below = below;
          },
          record {
            ne_null = s-ne;
            old = s-old;
            found = update_self h₁.lists src (some zero);
            chain = tt;
            below = tt;
          },
        )

module _ (h : Heap) (dest src : Ptr) (ne : dest ≢ src) where
  move_list-empty :
      (zs : Cells)
      → IsList h dest []
      → IsList h src zs
      → Returns (Moved dest src zs) (move_list dest src h)
  unfolding move_list settle
  move_list-empty zs is from =
      let d = list_record 0 (first zs) null in
      let h₁ = put_list dest (some d) h in
      let still : h₁.lists src ≡ some (list_record (u32 (length zs)) (first zs) (final zs)) =
        update-ne h.lists dest (some d) src (λ e. ne (sym e)) ∙ from.found in
      rw
        (
          not_null dest is.ne_null,
          load_list-ok dest h is.ne_null _ is.found,
          load_list-ok src h from.ne_null _ from.found,
          store_list-ok dest h is.ne_null _ d is.found,
        )
        (settle-Moved h₁ dest src ne zs 0 (u32 (length zs)) null (first zs) is.ne_null from.ne_null
          is.old from.old (update_self h.lists dest (some d)) still (omega arith) from.chain
          from.below)

  move_list-nonempty :
      (a : Ptr) (m : ℕ) (xs : Cells) (b : Ptr) (k : ℕ) (zs : Cells)
      → IsList h dest ((a, m) ∷ xs)
      → IsList h src ((b, k) ∷ zs)
      → Disjoint ((b, k) ∷ zs) ((a, m) ∷ xs)
      → Returns (Moved dest src (((a, m) ∷ xs) ++ (b, k) ∷ zs)) (move_list dest src h)
  unfolding move_list settle iterate_list
  move_list-nonempty a m xs b k zs is from apart =
      let ds : Cells = (a, m) ∷ xs in
      let ss : Cells = (b, k) ∷ zs in
      let t = final ds in
      let (last, at, t-ne, old) = Chain-final h.elements h.allocated 0 a m xs is.chain is.below in
      let short = length-le_allocated h src ss from in
      let (g, run, numbered) =
        renumber (suc (h.allocated + h.available)) 0 (length ds) (length ds) h ss from.chain
          (omega arith) (omega arith) in
      let away : (x : Ptr) → has x ds ≡ true → has x ss ≡ false = λ x i. not-both x ss ds apart i in
      let h₁ = record h { elements = g } in
      let at₁ : g t ≡ some last = numbered.same t (away t (has-final a m xs)) ∙ at in
      let linked = record last { next = b } in
      let h₂ = put_element t (some linked) h₁ in
      rw
        (
          not_null dest is.ne_null,
          load_list-ok dest h is.ne_null _ is.found,
          not_null t t-ne,
          not_null src from.ne_null,
          load_list-ok src h from.ne_null _ from.found,
          run,
          load-ok t h₁ t-ne last at₁,
          load_list-ok src h₁ from.ne_null _ from.found,
          store-ok t h₁ t-ne last linked at₁,
        )
        (settle-Moved h₂ dest src ne (ds ++ ss) (u32 (length ds)) (u32 (length ss)) t b is.ne_null
          from.ne_null is.old from.old is.found (rw (final_from-append a xs b k zs) from.found)
          (omega (arith, length-append xs ss))
          (Chain-append h.elements h₂.elements 0 (length ds) ds ss is.chain
            (update-Relinked h.elements g b ds last at λ x i. numbered.same x (away x i))
            (omega arith)
            (Chain-frame g h₂.elements (length ds) ss numbered.chain λ x i.
              update-ne g t (some linked) x
                λ e. ne_of_has t x ss (away t (has-final a m xs)) i (sym e))
            away)
          (Below-append h.allocated ds ss is.below from.below))

  -- For two well-formed lists that share no element, of which the source is not empty, `move_list`
  -- returns the destination, whose cells are its own and then those of the source, well formed with
  -- the ordinals running on; the source is an empty list. The destination may be empty.
  pub move_list-append :
      (xs : Cells) (b : Ptr) (k : ℕ) (zs : Cells)
      → IsList h dest xs
      → IsList h src ((b, k) ∷ zs)
      → Disjoint ((b, k) ∷ zs) xs
      → Returns (Moved dest src (xs ++ (b, k) ∷ zs)) (move_list dest src h)
  move_list-append [] b k zs is from apart = move_list-empty ((b, k) ∷ zs) is from
  move_list-append ((a, m) ∷ xs) b k zs is from apart =
      move_list-nonempty a m xs b k zs is from apart
