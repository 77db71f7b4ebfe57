-- ===== src/LinkedList/Add.antt =====
-- `add_to_list` of src/list.c.
use fsm_lang.Base.{
  ℕ, suc, ◌+◌, ◌-◌, ◌≤◌, ◌<◌, ◌≡◌, refl, ◌≢◌, true, false, Option, none, some, [], ◌∷◌, ◌++◌, arith,
  ◌==◌, if◌then◌else◌, u32, length, Bool-cases, inl, inr, ==_iff, ==_ne, ==_self, sym, ap,
  length-append, ◌∙◌,
}
use fsm_lang.Memory.{
  Ptr, null, ListRecord, Element, element, list_record, Heap, update, put_element, put_list,
}
use fsm_lang.Memory.Access.{
  update_self, update-ne, not_null, load-ok, store-ok, load_list-ok, store_list-ok,
  calloc_element-ok, with_element,
}
use fsm_lang.Memory.Returns.{Returns, returns}
use fsm_lang.LinkedList.{add_to_list}
use fsm_lang.LinkedList.Chain.{
  Cells, first, final, has, Chain, Below, IsList, Below-mono, Below-append, has-head, has-tail,
  has-final, ne_of_has, final_from, le_of_has, has-append, not-has-new,
}

abbrev relink : Ptr → Option Element → Option Element
relink b none = none
relink b (some e) = some (record e { next = b })

-- `g` is `f` with the last cell of a chain linked to the address `b`.
abbrev Relinked : (f g : Ptr → Option Element) → Ptr → Cells → Type 0
Relinked f g b xs =
    (a : Ptr) → has a xs ≡ true → g a ≡ (if a == final xs then relink b (f a) else f a)

has-append_false :
    (a : Ptr) (xs ys : Cells) → has a xs ≡ false → has a ys ≡ false → has a (xs ++ ys) ≡ false
has-append_false a xs ys p q = rw (has-append a xs ys, p) q

-- A chain whose last cell is linked to the first of another is their concatenation.
pub Chain-append :
    (f g : Ptr → Option Element) (n k : ℕ) (xs ys : Cells)
    → Chain f n xs
    → Relinked f g (first ys) xs
    → n + length xs ≡ k
    → Chain g k ys
    → ((a : Ptr) → has a xs ≡ true → has a ys ≡ false)
    → Chain g n (xs ++ ys)
Chain-append f g n k [] ys c same e d apart = let e' : n ≡ k = omega arith in rw e' d
Chain-append f g n k ((a, m) ∷ []) ys (p, q, out, c) same e d apart =
    let e' : suc n ≡ k = omega arith in
    (p, same a (has-head a m []) ∙ rw (==_self a, q), apart a (has-head a m []), rw e' d)
Chain-append f g n k ((a, m) ∷ (b, m') ∷ xs) ys (p, q, out, c) same e d apart =
    let tail : Cells = (b, m') ∷ xs in
    let inner : (a == final tail) ≡ false =
      ==_ne a (final tail) (ne_of_has a (final tail) tail out (has-final b m' xs)) in
    (
      p,
      same a (has-head a m tail) ∙ rw inner q,
      has-append_false a tail ys out (apart a (has-head a m tail)),
      Chain-append f g (suc n) k ((b, m') ∷ xs) ys c (λ x i. same x (has-tail x a m tail i))
          (omega arith) d (λ x i. apart x (has-tail x a m tail i)),
    )

pub update-Relinked :
    (f g : Ptr → Option Element) (b : Ptr) (xs : Cells) (last : Element)
    → f (final xs) ≡ some last
    → ((a : Ptr) → has a xs ≡ true → g a ≡ f a)
    → Relinked f (update g (final xs) (some (record last { next = b }))) b xs
update-Relinked f g b xs last at same a i = elim (Bool-cases (a == final xs)) [
  | inl e ↦
      let e' : a ≡ final xs = (==_iff a (final xs)).0 e in rw e (sym (ap (relink b) (ap f e' ∙ at)))
  | inr e ↦ rw e (same a i)
]

final_from-snoc : (a : Ptr) (xs : Cells) (e : Ptr) (m : ℕ) → final_from a (xs ++ (e, m) ∷ []) ≡ e
final_from-snoc a [] e m = refl
final_from-snoc a ((b, k) ∷ xs) e m = final_from-snoc b xs e m

-- The last cell holds an element, and its address was handed out.
pub Chain-final :
    (f : Ptr → Option Element) (top n : ℕ) (a : Ptr) (m : ℕ) (xs : Cells)
    → Chain f n ((a, m) ∷ xs)
    → Below top ((a, m) ∷ xs)
    → let t = final ((a, m) ∷ xs) in (e : Element) × (f t ≡ some e) × (t ≢ null) × (t ≤ top)
Chain-final f top n a m [] (p, q, out, c) (le, b) = (_, q, p, le)
Chain-final f top n a m ((x, k) ∷ xs) (p, q, out, c) (le, b) = Chain-final f top (suc n) x k xs c b

-- The outcome of adding a member: `h'` is `h` but for the new element, the last one and the list.
pub record Added (h : Heap) (l : Ptr) (xs : Cells) (m : ℕ) (e : Ptr) (h' : Heap) : Type 0 where
  pub address : e ≡ suc h.allocated
  pub is : IsList h' l (xs ++ (e, m) ∷ [])
  pub allocated : h'.allocated ≡ suc h.allocated
  pub available : h'.available ≡ h.available - 1
  pub elements : (a : Ptr) → a ≤ h.allocated → has a xs ≡ false → h'.elements a ≡ h.elements a
  pub lists : (a : Ptr) → a ≢ l → h'.lists a ≡ h.lists a

-- On a well-formed list, and with memory for one more element, `add_to_list` returns a new element
-- that ends the list with the member; the list is well formed again, the count and the ordinals
-- included, and nothing else in memory changes.
pub add_to_list-append :
    (h : Heap) (l : Ptr) (xs : Cells) (m : ℕ)
    → IsList h l xs
    → 0 < h.available
    → Returns (Added h l xs m) (add_to_list l m h)
unfolding add_to_list
add_to_list-append h l [] m is pos =
    let e = suc h.allocated in
    let h₁ = with_element h (element 0 null 0) in
    let h₂ = put_element e (some (element m null 0)) h₁ in
    let n : e ≢ null = omega arith in
    returns e (put_list l (some (list_record 1 e e)) h₂)
      (rw (
        not_null l is.ne_null,
        calloc_element-ok h pos,
        not_null e n,
        load_list-ok l h₁ is.ne_null _ is.found,
        store-ok e h₁ n _ (element m null 0) (update_self h.elements e _),
        store_list-ok l h₂ is.ne_null _ (list_record 1 e e) is.found,
      ))
      (record {
        address = refl;
        is = record {
          ne_null = is.ne_null;
          old = omega arith;
          found = update_self h.lists l _;
          chain = (n, update_self h₁.elements e _, refl, tt);
          below = (omega arith, tt);
        };
        allocated = refl;
        available = refl;
        elements = λ x le out.
            update-ne h₁.elements e _ x (omega arith) ∙ update-ne h.elements e _ x (omega arith);
        lists = λ x ne. update-ne h.lists l _ x ne;
      })
add_to_list-append h l ((a, k) ∷ xs) m is pos =
    let e = suc h.allocated in
    let ys : Cells = (a, k) ∷ xs in
    let t = final ys in
    let (last, at, t-ne, old) = Chain-final h.elements h.allocated 0 a k xs is.chain is.below in
    let h₁ = with_element h (element 0 null 0) in
    let h₂ = put_element e (some (element m null (u32 (length ys)))) h₁ in
    let h₃ = put_element t (some (record last { next = e })) h₂ in
    let r = list_record (u32 (u32 (length ys) + 1)) a e in
    let n : e ≢ null = omega arith in
    let apart : t ≢ e = omega arith in
    let at' : h₂.elements t ≡ some last =
      update-ne h₁.elements e _ t apart ∙ update-ne h.elements e _ t apart ∙ at in
    let same : (x : Ptr) → x ≤ h.allocated → h₂.elements x ≡ h.elements x = λ x le.
      update-ne h₁.elements e _ x (omega arith) ∙ update-ne h.elements e _ x (omega arith) in
    let new : h₃.elements e ≡ some (element m null (u32 (length ys))) =
      update-ne h₂.elements t _ e (omega arith) ∙ update_self h₁.elements e _ in
    let renamed : ◌≡◌ {A = Option ListRecord} (some r)
        (some (list_record (u32 (length (ys ++ (e, m) ∷ []))) a (final (ys ++ (e, m) ∷ [])))) =
      rw (final_from-snoc a xs e m, length-append xs ((e, m) ∷ []))
        (ap (λ c. some (list_record c a e)) (omega arith)) in
    returns e (put_list l (some r) h₃)
      (rw (
        not_null l is.ne_null,
        calloc_element-ok h pos,
        not_null e n,
        load_list-ok l h₁ is.ne_null _ is.found,
        store-ok e h₁ n _ (element m null (u32 (length ys))) (update_self h.elements e _),
        not_null a is.chain.0,
        load-ok t h₂ t-ne last at',
        store-ok t h₂ t-ne last (record last { next = e }) at',
        store_list-ok l h₃ is.ne_null _ r is.found,
      ))
      (record {
        address = refl;
        is = record {
          ne_null = is.ne_null;
          old = omega arith;
          found = update_self h.lists l _ ∙ renamed;
          chain =
              Chain-append h.elements h₃.elements 0 (length ys) ys ((e, m) ∷ []) is.chain
                (update-Relinked h.elements h₂.elements e ys last at
                  λ x i. same x (le_of_has h.allocated x ys is.below i))
                (omega arith) (n, new, refl, tt)
                (λ x i. not-has-new x e m (omega (arith, le_of_has h.allocated x ys is.below i)));
          below =
              Below-append e ys ((e, m) ∷ []) (Below-mono h.allocated e ys (omega arith) is.below)
                (omega arith, tt);
        };
        allocated = refl;
        available = refl;
        elements = λ x le out.
            update-ne h₂.elements t _ x (ne_of_has x t ys out (has-final a k xs)) ∙ same x le;
        lists = λ x ne. update-ne h.lists l _ x ne;
      })
