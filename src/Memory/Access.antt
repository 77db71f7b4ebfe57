-- ===== src/Memory/Access.antt =====
-- What reads, writes and allocations come to where they do not fault.
use fsm_lang.Base.{suc, ◌-◌, ◌<◌, ◌≡◌, ◌≢◌, false, Option, some, none, arith, ◌==◌}
use fsm_lang.Memory.{
  Ptr, null, ListRecord, Element, element, list_record, Heap, ok, update, load, load_list, store,
  store_list, put_element, put_list, calloc_element, calloc_list, free, free_list_record,
}

pub update_self : {A : Type 0} (f : Ptr → Option A) (p : Ptr) (v : Option A) → update f p v p ≡ v
update_self f p v = ground arith

pub update-ne :
    {A : Type 0} (f : Ptr → Option A) (p : Ptr) (v : Option A) (a : Ptr)
    → a ≢ p
    → update f p v a ≡ f a
update-ne f p v a n = ground arith

pub not_null : (p : Ptr) → p ≢ null → (p == null) ≡ false
not_null p n = ground arith

module _ (p : Ptr) (h : Heap) (n : p ≢ null) where
  pub load-ok : (e : Element) → h.elements p ≡ some e → load p h ≡ ok e h
  unfolding load
  load-ok e q = rw (not_null p n, q)

  pub store-ok :
      (e e' : Element) → h.elements p ≡ some e → store p e' h ≡ ok tt (put_element p (some e') h)
  unfolding store
  store-ok e e' q = rw (load-ok e q)

  pub free-ok : (e : Element) → h.elements p ≡ some e → free p h ≡ ok tt (put_element p none h)
  unfolding free
  free-ok e q = rw (load-ok e q)

  pub load_list-ok : (r : ListRecord) → h.lists p ≡ some r → load_list p h ≡ ok r h
  unfolding load_list
  load_list-ok r q = rw (not_null p n, q)

  pub store_list-ok :
      (r r' : ListRecord) → h.lists p ≡ some r → store_list p r' h ≡ ok tt (put_list p (some r') h)
  unfolding store_list
  store_list-ok r r' q = rw (load_list-ok r q)

  pub free_list_record-ok :
      (r : ListRecord) → h.lists p ≡ some r → free_list_record p h ≡ ok tt (put_list p none h)
  unfolding free_list_record
  free_list_record-ok r q = rw (load_list-ok r q)

-- The heap after one allocation, and what stands at the new address.
abbrev pub with_element : Heap → Element → Heap
with_element h e =
    put_element (suc h.allocated) (some e)
      (record h { allocated = suc h.allocated; available = h.available - 1 })

abbrev pub with_list : Heap → ListRecord → Heap
with_list h r =
    put_list (suc h.allocated) (some r)
      (record h { allocated = suc h.allocated; available = h.available - 1 })

pub calloc_element-ok :
    (h : Heap)
    → 0 < h.available
    → calloc_element h ≡ ok (suc h.allocated) (with_element h (element 0 null 0))
unfolding calloc_element
calloc_element-ok h pos = let more : (h.available == 0) ≡ false = ground arith in rw more

pub calloc_list-ok :
    (h : Heap)
    → 0 < h.available
    → calloc_list h ≡ ok (suc h.allocated) (with_list h (list_record 0 null null))
unfolding calloc_list
calloc_list-ok h pos = let more : (h.available == 0) ≡ false = ground arith in rw more
