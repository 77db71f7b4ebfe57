-- ===== src/LinkedList/Find.antt =====
-- `iterate_list` with an action that only looks: `find_nth_list_member`, and the search of
-- `add_unique_to_list`.
use fsm_lang.Base.{
  ℕ, zero, suc, ◌+◌, ◌<◌, ◌≡◌, refl, ◌≢◌, Bool, true, false, Option, none, some, [], ◌∷◌, arith,
  ◌==◌, if◌then◌else◌, u32, length, get_elem?, contains,
}
use fsm_lang.Memory.{Ptr, null, Element, element, Heap, ok, load, load_list}
use fsm_lang.LinkedList.{
  Iterator, nth_record, match_member, iterate_loop, iterate_list, find_nth_list_member,
}
use fsm_lang.LinkedList.Chain.{Cells, first, members, Chain, IsList, length-le_allocated}

-- The address of the first cell whose member and ordinal pass a test, or NULL.
pub search_cells : (ℕ → ℕ → Bool) → ℕ → Cells → Ptr
search_cells t n [] = null
search_cells t n ((a, m) ∷ xs) = if t m (u32 n) then a else search_cells t (suc n) xs

-- The action reads the element, says whether it passes the test, and writes nothing.
abbrev pub Tests : (ℕ → ℕ → Bool) → Iterator → Heap → Type 0
Tests t action h =
    (a : Ptr) (e : Element)
    → a ≢ null
    → h.elements a ≡ some e
    → action a h ≡ ok (t e.mbr e.ordinal) h

module _ (t : ℕ → ℕ → Bool) (action : Iterator) (h : Heap) (looks : Tests t action h) where
  iterate_loop-search :
      (k n : ℕ) (xs : Cells)
      → Chain h.elements n xs
      → length xs < k
      → iterate_loop k action (first xs) h ≡ ok (search_cells t n xs) h
  unfolding iterate_loop search_cells load
  iterate_loop-search zero n xs c fuel = absurd (omega arith)
  iterate_loop-search (suc k) n [] c fuel = refl
  iterate_loop-search (suc k) n ((a, m) ∷ xs) (p, e, out, c) fuel = ground (
    arith,
    looks a (element m (first xs) (u32 n)) p e,
    iterate_loop-search k (suc n) xs c (omega arith),
  )

  pub iterate_list-search :
      (l : Ptr) (xs : Cells) → IsList h l xs → iterate_list l action h ≡ ok (search_cells t 0 xs) h
  unfolding iterate_list load_list
  iterate_list-search l xs is =
      let enough = length-le_allocated h l xs is in
      ground (
        arith,
        is.ne_null,
        is.found,
        iterate_loop-search (suc (h.allocated + h.available)) 0 xs is.chain (omega arith),
      )

nth_record-Tests : (target : ℕ) (h : Heap) → Tests (λ m o. o == target) (nth_record target) h
unfolding nth_record load
nth_record-Tests target h a e p q = ground arith

pub match_member-Tests : (x : ℕ) (h : Heap) → Tests (λ m o. m == x) (match_member x) h
unfolding match_member load
match_member-Tests x h a e p q = ground arith

-- What looking for an ordinal comes to: nothing there, or an element with the member.
data Found (f : Ptr → Option Element) (p : Ptr) (r : Option ℕ) : Type 0 where
  nothing : p ≡ null → r ≡ none → Found f p r
  there : (e : Element) → p ≢ null → f p ≡ some e → r ≡ some e.mbr → Found f p r

search_cells-nth :
    (f : Ptr → Option Element) (target n i : ℕ) (xs : Cells)
    → Chain f n xs
    → n + i ≡ target
    → target < 4294967296
    → Found f (search_cells (λ m o. o == target) n xs) (get_elem? (members xs) i)
unfolding search_cells
search_cells-nth f target n i [] c e small = nothing refl refl
search_cells-nth f target n zero ((a, m) ∷ xs) (p, q, out, c) e small =
    let hit : (u32 n == target) ≡ true = ground arith in rw hit (there _ p q refl)
search_cells-nth f target n (suc i) ((a, m) ∷ xs) (p, q, out, c) e small =
    let miss : (u32 n == target) ≡ false = ground arith in
    rw miss (search_cells-nth f target (suc n) i xs c (omega arith) small)

abbrev pub or_null : Option ℕ → ℕ
or_null none = null
or_null (some m) = m

-- `find_nth_list_member` returns the member at a 0-based position of a well-formed list, or NULL
-- past its end, and changes nothing. The position is an `unsigned`; the list may have any length.
pub find_nth_list_member-get_elem? :
    (h : Heap) (l : Ptr) (xs : Cells) (target : ℕ)
    → IsList h l xs
    → target < 4294967296
    → find_nth_list_member l target h ≡ ok (or_null (get_elem? (members xs) target)) h
unfolding find_nth_list_member load
find_nth_list_member-get_elem? h l xs target is small =
    rw (iterate_list-search _ _ h (nth_record-Tests target h) l xs is)
      (elim (search_cells-nth h.elements target 0 target xs is.chain (omega arith) small) [
        | nothing p r ↦ rw (p, r)
        | there e p q r ↦ ground arith
      ])

-- Whether a member is in the list is what the search for it tells.
pub search_cells-contains :
    (f : Ptr → Option Element) (x n : ℕ) (xs : Cells)
    → Chain f n xs
    → (search_cells (λ m o. m == x) n xs == null)
      ≡ (if contains (members xs) x then false else true)
unfolding search_cells
search_cells-contains f x n [] c = refl
search_cells-contains f x n ((a, m) ∷ xs) (p, q, out, c) =
    ground (arith, search_cells-contains f x (suc n) xs c)
