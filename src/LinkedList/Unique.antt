-- ===== src/LinkedList/Unique.antt =====
-- `add_unique_to_list`, and the failures of `add_to_list`.
use fsm_lang.Base.{ℕ, ◌<◌, ◌≡◌, refl, true, false, arith, ◌==◌, contains}
use fsm_lang.Memory.{Ptr, null, Heap, ok, calloc_element}
use fsm_lang.Memory.Returns.{Returns}
use fsm_lang.LinkedList.{add_to_list, add_unique_to_list}
use fsm_lang.LinkedList.Chain.{Cells, members, IsList}
use fsm_lang.LinkedList.Find.{
  search_cells, iterate_list-search, match_member-Tests, search_cells-contains,
}
use fsm_lang.LinkedList.Add.{Added, add_to_list-append}

-- Without memory for an element, and on a NULL list, `add_to_list` returns NULL and writes nothing.
pub add_to_list-null :
    (h : Heap) (l : Ptr) (m : ℕ)
    → h.available ≡ 0
    → (add_to_list l m h ≡ ok null h) × (add_to_list null m h ≡ ok null h)
unfolding add_to_list calloc_element
add_to_list-null h l m none_left = (ground arith, refl)

-- The address of the first cell with the member, or NULL.
abbrev pub find_member : ℕ → Cells → Ptr
find_member m = search_cells (λ k o. k == m) 0

-- On a well-formed list that has the member, `add_unique_to_list` returns the first element that
-- holds it and writes nothing.
pub add_unique_to_list-find_member :
    (h : Heap) (l : Ptr) (xs : Cells) (m : ℕ)
    → IsList h l xs
    → contains (members xs) m ≡ true
    → add_unique_to_list l m h ≡ ok (find_member m xs) h
unfolding add_unique_to_list
add_unique_to_list-find_member h l xs m is c = rw (
  iterate_list-search _ _ h (match_member-Tests m h) l xs is,
  search_cells-contains h.elements m 0 xs is.chain,
  c,
)

-- On a well-formed list that does not have the member, and with memory for one more element,
-- `add_unique_to_list` appends the member as `add_to_list` does.
pub add_unique_to_list-append :
    (h : Heap) (l : Ptr) (xs : Cells) (m : ℕ)
    → IsList h l xs
    → contains (members xs) m ≡ false
    → 0 < h.available
    → Returns (Added h l xs m) (add_unique_to_list l m h)
unfolding add_unique_to_list
add_unique_to_list-append h l xs m is c pos =
    rw
      (
        iterate_list-search _ _ h (match_member-Tests m h) l xs is,
        search_cells-contains h.elements m 0 xs is.chain,
        c,
      )
      (add_to_list-append h l xs m is pos)
