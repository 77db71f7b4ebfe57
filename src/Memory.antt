-- ===== src/Memory.antt =====
-- The memory that src/list.h and src/list.c work on: `LIST` records and `LIST_ELEMENT` records at
-- addresses, `calloc` and `free`, and commands that fault on a null or dangling pointer.
pub mod Returns
pub mod Access
use fsm_lang.Base.{ℕ, suc, ◌-◌, Option, none, some, ◌==◌, if◌then◌else◌}

abbrev pub Ptr : Type 0
Ptr = ℕ

abbrev pub null : Ptr
null = 0

-- `struct _list_`
pub record ListRecord : Type 0 where
  pub count : ℕ
  pub head : Ptr
  pub tail : Ptr

-- `struct _list_element_`; `mbr` is the address that the `void *` holds.
pub record Element : Type 0 where
  pub mbr : ℕ
  pub next : Ptr
  pub ordinal : ℕ

abbrev pub element : ℕ → Ptr → ℕ → Element
element m q n = record { mbr = m; next = q; ordinal = n }

abbrev pub list_record : ℕ → Ptr → Ptr → ListRecord
list_record n p q = record { count = n; head = p; tail = q }

-- `allocated` blocks were handed out so far, at the addresses 1, 2, …; an address is not handed out
-- twice. `available` more can be had before the allocator returns NULL.
pub record Heap : Type 0 where
  pub allocated : ℕ
  pub available : ℕ
  pub lists : Ptr → Option ListRecord
  pub elements : Ptr → Option Element

abbrev pub update : {A : Type 0} → (Ptr → Option A) → Ptr → Option A → Ptr → Option A
update f p v a = if a == p then v else f a

-- How a command ends: a dereference of NULL or of a block that is not allocated, too little fuel for
-- a loop, or a value and the heap that is left.
pub data Run (A : Type 0) : Type 0 where
  fault out_of_fuel : Run A
  ok : A → Heap → Run A

-- A command works on the heap that it is given.
abbrev pub Cmd : Type 0 → Type 0
Cmd Value = Heap → Run Value

-- What follows a run starts from the heap that the run left, unless the run failed.
abbrev pub and_then : {A B : Type 0} → Run A → (A → Cmd B) → Run B
and_then out_of_fuel next = out_of_fuel
and_then fault next = fault
and_then (ok value left) next = next value left

infixl 5 ◌>>=◌ ◌>>◌
abbrev pub ◌>>◌ : {A B : Type 0} → Cmd A → Cmd B → Cmd B
first >> second = λ h. and_then (first h) (λ _. second)

abbrev pub ◌>>=◌ : {A B : Type 0} → Cmd A → (A → Cmd B) → Cmd B
first >>= next = λ h. and_then (first h) next

-- The command that leaves the heap as it is.
abbrev pub pure : {A : Type 0} → A → Cmd A
pure value h = ok value h

-- `*p` for an element and for a list.
unfoldable pub load : Ptr → Cmd Element
load p h = if p == null then fault else elim (h.elements p) [ none ↦ fault | some e ↦ ok e h ]

unfoldable pub load_list : Ptr → Cmd ListRecord
load_list l h = if l == null then fault else elim (h.lists l) [ none ↦ fault | some r ↦ ok r h ]

abbrev pub put_element : Ptr → Option Element → Heap → Heap
put_element p e h = record h { elements = update h.elements p e }

abbrev pub put_list : Ptr → Option ListRecord → Heap → Heap
put_list l r h = record h { lists = update h.lists l r }

-- A write through a pointer faults where a read would.
unfoldable pub store : Ptr → Element → Cmd (Unit {0})
store p e = do load p; (λ h. ok tt (put_element p (some e) h))

unfoldable pub store_list : Ptr → ListRecord → Cmd (Unit {0})
store_list l r = do load_list l; (λ h. ok tt (put_list l (some r) h))

-- `calloc(1, sizeof(LIST_ELEMENT))` and `calloc(1, sizeof(LIST))`: zeroed memory, or NULL.
unfoldable pub calloc_element : Cmd Ptr
calloc_element h =
    if h.available == 0
    then ok null h
    else let p = suc h.allocated in
      ok p (
        put_element p (some (element 0 null 0))
          (record h { allocated = p; available = h.available - 1 }))

unfoldable pub calloc_list : Cmd Ptr
calloc_list h =
    if h.available == 0
    then ok null h
    else let p = suc h.allocated in
      ok p (
        put_list p (some (list_record 0 null null))
          (record h { allocated = p; available = h.available - 1 }))

-- `free`, which must be given a block that is still allocated.
unfoldable pub free : Ptr → Cmd (Unit {0})
free p = do load p; (λ h. ok tt (put_element p none h))

unfoldable pub free_list_record : Ptr → Cmd (Unit {0})
free_list_record l = do load_list l; (λ h. ok tt (put_list l none h))
