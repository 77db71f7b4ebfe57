-- ===== src/LinkedList.antt =====
-- src/list.c, statement by statement, over `Memory`.
pub mod Chain
pub mod Unique
pub mod Extend
pub mod Pass
pub mod Copy
pub mod Renumber
pub mod Move
pub mod Tail
pub mod Free
pub mod Find
pub mod Add
use fsm_lang.Base.{ℕ, zero, suc, ◌+◌, Bool, false, ◌==◌, if◌then◌else◌, u32}
use fsm_lang.Memory.{
  Ptr, null, element, list_record, Heap, out_of_fuel, Cmd, pure, ◌>>=◌, ◌>>◌, load, load_list,
  store, store_list, calloc_element, calloc_list, free, free_list_record,
}

-- `LIST_ITERATOR_FN` with its `data`: the action on one element; true means stop.
abbrev pub Iterator : Type 0
Iterator = Ptr → Cmd Bool

unfoldable pub nth_record : ℕ → Iterator
nth_record target p = do e ← load p; pure (e.ordinal == target)

unfoldable pub match_member : ℕ → Iterator
match_member m p = do e ← load p; pure (e.mbr == m)

unfoldable pub update_ordinal : ℕ → Iterator
update_ordinal start p = do
  e ← load p
  store p (record e { ordinal = u32 (e.ordinal + start) })
  pure false

unfoldable pub init_list : Cmd Ptr
init_list = calloc_list

-- The `for` of `iterate_list`: `next` is read after the action ran.
unfoldable pub iterate_loop : ℕ → Iterator → Ptr → Cmd Ptr
iterate_loop zero action p = λ _. out_of_fuel
iterate_loop (suc k) action p =
    if p == null
    then pure null
    else do stop ← action p; if stop then pure p else do e ← load p; iterate_loop k action e.next

-- An acyclic list has at most as many elements as blocks were allocated, also after the action
-- allocated more.
abbrev pub enough : Heap → ℕ
enough h = suc (h.allocated + h.available)

unfoldable pub iterate_list : Ptr → Iterator → Cmd Ptr
iterate_list l action =
    if l == null
    then pure null
    else do r ← load_list l; (λ h. iterate_loop (enough h) action r.head h)

unfoldable pub add_to_list : Ptr → ℕ → Cmd Ptr
add_to_list l m = if l == null then pure null else do
  e ← calloc_element
  if e == null then pure null else do
    r ← load_list l
    store e (element m null r.count)
    if r.head == null then (do store_list l (list_record 1 e e); pure e) else (do
      t ← load r.tail
      store r.tail (record t { next = e })
      store_list l (record r { tail = e; count = u32 (r.count + 1) })
      pure e)

unfoldable pub add_unique_to_list : Ptr → ℕ → Cmd Ptr
add_unique_to_list l m = do
  found ← iterate_list l (match_member m)
  if found == null then add_to_list l m else pure found

unfoldable pub find_nth_list_member : Ptr → ℕ → Cmd ℕ
find_nth_list_member l target = do
  found ← iterate_list l (nth_record target)
  if found == null then pure null else (do e ← load found; pure e.mbr)

-- `memset(src, 0, sizeof(LIST))` is the last write.
unfoldable pub move_list : Ptr → Ptr → Cmd Ptr
move_list dest src = if dest == null then pure src else do
  d ← load_list dest
  (if d.tail == null
      then (do s ← load_list src; store_list dest (record d { head = s.head }))
      else (do
        iterate_list src (update_ordinal d.count)
        t ← load d.tail
        s ← load_list src
        store d.tail (record t { next = s.head })))
  s ← load_list src
  d' ← load_list dest
  store_list dest (record d' { tail = s.tail; count = u32 (d'.count + s.count) })
  store_list src (list_record 0 null null)
  pure dest

unfoldable pub unique_list_mover : Ptr → Iterator
unique_list_mover dest p = do e ← load p; add_unique_to_list dest e.mbr; pure false

unfoldable pub move_list_unique : Ptr → Ptr → Cmd Ptr
move_list_unique dest src =
    if dest == null then pure src else (do iterate_list src (unique_list_mover dest); pure dest)

unfoldable pub list_copier : Ptr → Iterator
list_copier dest p = do e ← load p; add_to_list dest e.mbr; pure false

unfoldable pub list_copier_unique : Ptr → Iterator
list_copier_unique dest p = do e ← load p; add_unique_to_list dest e.mbr; pure false

unfoldable pub list_copier_unique_with_exception : Ptr → ℕ → Iterator
list_copier_unique_with_exception dest exception p = do
  e ← load p
  if e.mbr == exception then pure false else (do add_unique_to_list dest e.mbr; pure false)

-- The three copies differ in the action alone.
copy_by : Iterator → Ptr → Ptr → Cmd Ptr
copy_by copier dest src =
    if dest == null
    then pure src
    else if src == null
    then pure dest
    else (do iterate_list src copier; pure dest)

unfoldable pub copy_list : Ptr → Ptr → Cmd Ptr
unfolding copy_by
copy_list dest src = copy_by (list_copier dest) dest src

unfoldable pub copy_list_unique : Ptr → Ptr → Cmd Ptr
unfolding copy_by
copy_list_unique dest src = copy_by (list_copier_unique dest) dest src

unfoldable pub copy_list_unique_with_exception : Ptr → Ptr → ℕ → Cmd Ptr
unfolding copy_by
copy_list_unique_with_exception dest src exception =
    copy_by (list_copier_unique_with_exception dest exception) dest src

-- The `while` of `free_list`.
unfoldable pub free_loop : ℕ → Ptr → Cmd (Unit {0})
free_loop zero l = λ _. out_of_fuel
free_loop (suc k) l = do
  r ← load_list l
  if r.head == null
      then pure tt
      else do e ← load r.head; free r.head; store_list l (record r { head = e.next }); free_loop k l

unfoldable pub free_list : Ptr → Cmd (Unit {0})
free_list l =
    if l == null then pure tt else (do (λ h. free_loop (enough h) l h); free_list_record l)
