-- ===== src/LinkedList/Free.antt =====
-- `free_list` of src/list.c.
use fsm_lang.Base.{
  ℕ, zero, suc, ◌+◌, ◌<◌, ◌≡◌, refl, ◌≢◌, none, some, [], ◌∷◌, arith, ◌∙◌, sym, if◌then◌else◌,
  length, ◌==◌, Bool-cases, inl, inr, Option,
}
use fsm_lang.Memory.{
  Ptr, null, ListRecord, Element, ◌>>◌, list_record, Heap, Run, put_element, put_list, update,
  free_list_record,
}
use fsm_lang.Memory.Access.{
  not_null, load-ok, load_list-ok, store_list-ok, free-ok, free_list_record-ok, update_self,
  update-ne,
}
use fsm_lang.Memory.Returns.{Returns, returns}
use fsm_lang.LinkedList.{free_loop, free_list}
use fsm_lang.LinkedList.Chain.{
  Cells, first, has, Chain, IsList, Chain-frame, ne_of_has, length-le_allocated,
}

-- `h'` is `h` less the elements of `xs` and the list record at `l`; nothing is allocated.
pub record Freed (l : Ptr) (xs : Cells) (h h' : Heap) : Type 0 where
  pub elements : (a : Ptr) → h'.elements a ≡ (if has a xs then none else h.elements a)
  pub lists : (a : Ptr) → h'.lists a ≡ (if a == l then none else h.lists a)
  pub allocated : h'.allocated ≡ h.allocated

-- The outcome of the loop, before the list record is given back.
record Emptied (l : Ptr) (xs : Cells) (h h' : Heap) : Type 0 where
  elements : (a : Ptr) → h'.elements a ≡ (if has a xs then none else h.elements a)
  lists : (a : Ptr) → a ≢ l → h'.lists a ≡ h.lists a
  allocated : h'.allocated ≡ h.allocated
  left : (r : ListRecord) × (h'.lists l ≡ some r)

empty_rest :
    (f : Ptr → Option Element) (g : Ptr → Option Element) (a : Ptr) (m : ℕ) (xs : Cells) (b : Ptr)
    → g b ≡ (if has b xs then none else update f a none b)
    → g b ≡ (if has b ((a, m) ∷ xs) then none else f b)
empty_rest f g a m xs b e = ground arith

freed_lists :
    (f g : Ptr → Option ListRecord) (l a : Ptr)
    → (a ≢ l → f a ≡ g a)
    → update f l none a ≡ (if a == l then none else g a)
freed_lists f g l a same = elim (Bool-cases (a == l)) [
  | inl e ↦ rw e
  | inr e ↦ rw e (same λ p. ground arith)
]

free_loop-Emptied :
    (fuel n : ℕ) (h : Heap) (l : Ptr) (c : ℕ) (q : Ptr) (xs : Cells)
    → l ≢ null
    → h.lists l ≡ some (list_record c (first xs) q)
    → Chain h.elements n xs
    → length xs < fuel
    → Returns (λ _. Emptied l xs h) (free_loop fuel l h)
unfolding free_loop
free_loop-Emptied zero n h l c q xs ne found chain lt = absurd (omega arith)
free_loop-Emptied (suc fuel) n h l c q [] ne found chain lt =
    returns tt h (rw (load_list-ok l h ne _ found))
      (record { elements = λ a. refl; lists = λ a o. refl; allocated = refl; left = (_, found) })
free_loop-Emptied (suc fuel) n h l c q ((a, m) ∷ xs) ne found (p, e, out, chain) lt =
    let h₁ = put_element a none h in
    let r = list_record c (first xs) q in
    let h₂ = put_list l (some r) h₁ in
    let spared =
      Chain-frame h.elements h₁.elements (suc n) xs chain
        λ b i. update-ne h.elements a none b (λ e. ne_of_has a b xs out i (sym e)) in
    rw
      (
        load_list-ok l h ne _ found,
        not_null a p,
        load-ok a h p _ e,
        free-ok a h p _ e,
        store_list-ok l h₁ ne _ r found,
      )
      (widen (
        free_loop-Emptied fuel (suc n) h₂ l c q xs ne (update_self h.lists l (some r)) spared
          (omega arith)))
  where
    widen :
        {s : Run (Unit {0})}
        → Returns
            (λ _.
              Emptied l xs (put_list l (some (list_record c (first xs) q)) (put_element a none h)))
            s
        → Returns (λ _. Emptied l ((a, m) ∷ xs) h) s
    widen (returns u h' run d) = returns u h' run (record {
      elements = λ b. empty_rest h.elements h'.elements a m xs b (d.elements b);
      lists = λ b o. d.lists b o ∙ update-ne h.lists l _ b o;
      allocated = d.allocated;
      left = d.left;
    })

-- `free_list` frees the elements of a well-formed list and its record, each once, and nothing else.
pub free_list-Freed :
    (h : Heap) (l : Ptr) (xs : Cells) → IsList h l xs → Returns (λ _. Freed l xs h) (free_list l h)
unfolding free_list
free_list-Freed h l xs is =
    let short = length-le_allocated h l xs is in
    rw (not_null l is.ne_null) (
      go (
        free_loop-Emptied (suc (h.allocated + h.available)) 0 h l _ _ xs is.ne_null is.found
          is.chain (omega arith)))
  where
    go :
        Returns (λ _. Emptied l xs h) (free_loop (suc (h.allocated + h.available)) l h)
        → Returns
            (λ _. Freed l xs h)
            (((λ k. free_loop (suc (k.allocated + k.available)) l k) >> free_list_record l) h)
    go (returns u h' run d) =
        rw (run, free_list_record-ok l h' is.ne_null _ d.left.1)
          (returns tt (put_list l none h') refl (record {
            elements = d.elements;
            lists = λ a. freed_lists h'.lists h.lists l a (d.lists a);
            allocated = d.allocated;
          }))
