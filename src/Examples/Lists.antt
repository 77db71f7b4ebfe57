-- ===== src/Examples/Lists.antt =====
-- Lists of src/list.c in a concrete memory.
use fsm_lang.Base.{◌≡◌, refl, Option, none, some, [], ◌∷◌, ◌++◌, arith, ◌==◌, if◌then◌else◌, u32}
use fsm_lang.Sequence.{absorb, add_unique}
use fsm_lang.Memory.{Ptr, null, Element, element, ListRecord, list_record, Heap, fault}
use fsm_lang.Memory.Returns.{Returns}
use fsm_lang.LinkedList.{add_to_list, move_list, copy_list_unique, free_list}
use fsm_lang.LinkedList.Chain.{Cells, Disjoint, IsList}
use fsm_lang.LinkedList.Add.{Added, add_to_list-append}
use fsm_lang.LinkedList.Copy.{Copied, copy_list_unique-add_unique}
use fsm_lang.LinkedList.Move.{Moved, move_list-append}
use fsm_lang.LinkedList.Tail.{move_list_loses_tail}
use fsm_lang.LinkedList.Free.{Freed, free_list-Freed}

-- The list at 1 has the members 10 and 20, the one at 4 has 20 and 30, and the one at 7 is empty.
abbrev pub lists : Ptr → Option ListRecord
lists a =
    if a == 1
    then some (list_record 2 2 3)
    else if a == 4
    then some (list_record 2 5 6)
    else if a == 7
    then some (list_record 0 null null)
    else none

abbrev pub elements : Ptr → Option Element
elements a =
    if a == 2
    then some (element 10 3 0)
    else if a == 3
    then some (element 20 null 1)
    else if a == 5
    then some (element 20 6 0)
    else if a == 6
    then some (element 30 null 1)
    else none

abbrev pub three_lists : Heap
three_lists = record { allocated = 7; available = 9; lists = lists; elements = elements }

abbrev pub first_cells : Cells
first_cells = (2, 10) ∷ (3, 20) ∷ []

abbrev pub second_cells : Cells
second_cells = (5, 20) ∷ (6, 30) ∷ []

pub first-IsList : IsList three_lists 1 first_cells
first-IsList = record {
  ne_null = ground arith;
  old = omega arith;
  found = refl;
  chain = (ground arith, refl, refl, (ground arith, refl, refl, tt));
  below = (omega arith, (omega arith, tt));
}

pub second-IsList : IsList three_lists 4 second_cells
second-IsList = record {
  ne_null = ground arith;
  old = omega arith;
  found = refl;
  chain = (ground arith, refl, refl, (ground arith, refl, refl, tt));
  below = (omega arith, (omega arith, tt));
}

pub empty-IsList : IsList three_lists 7 []
empty-IsList = record {
  ne_null = ground arith;
  old = omega arith;
  found = refl;
  chain = tt;
  below = tt;
}

apart : Disjoint second_cells first_cells
apart a h = ground arith

add_to_list-append_example :
    Returns (Added three_lists 1 first_cells 99) (add_to_list 1 99 three_lists)
add_to_list-append_example =
    add_to_list-append three_lists 1 first_cells 99 first-IsList (omega arith)

abbrev no_memory : Heap
no_memory = record three_lists { available = 0 }

copy_list_unique-add_unique_example :
    Returns
      (Copied 1 4 three_lists first_cells second_cells
        (absorb add_unique (10 ∷ 20 ∷ []) (20 ∷ 30 ∷ [])))
      (copy_list_unique 1 4 three_lists)
copy_list_unique-add_unique_example =
    copy_list_unique-add_unique three_lists 1 4 first_cells second_cells first-IsList second-IsList
      (ground arith) apart (omega arith)

move_list-append_example :
    Returns (Moved 1 4 (first_cells ++ second_cells)) (move_list 1 4 three_lists)
move_list-append_example =
    move_list-append three_lists 1 4 (ground arith) first_cells 5 20 ((6, 30) ∷ []) first-IsList
      second-IsList apart

move_list_loses_tail_example :
    Returns
      (λ p h'.
        (p ≡ 1) × (h'.lists 1 ≡ some (list_record (u32 2) 2 null)) × (add_to_list 1 99 h' ≡ fault))
      (move_list 1 7 three_lists)
move_list_loses_tail_example =
    move_list_loses_tail three_lists 1 7 (ground arith) 2 10 ((3, 20) ∷ []) 99 first-IsList
      empty-IsList (omega arith)

free_list-Freed_example : Returns (λ _. Freed 1 first_cells three_lists) (free_list 1 three_lists)
free_list-Freed_example = free_list-Freed three_lists 1 first_cells first-IsList
