-- ===== src/IdTable/Unique.antt =====
-- `add_unique_id` of src/fsm_utils.c.
use fsm_lang.Base.{
  Bool, Option, refl, ℕ, ◌≡◌, ◌≢◌, true, none, some, List, Text, Option-cases, ==_ne, inl, inr,
}
use fsm_lang.IdTable.{
  Outcome, IdInfo, null, lookup, find_first, outcome, Memory, append_id, add_unique_id,
}
use fsm_lang.IdTable.Lookup.{HasTypes, find_first-HasTypes, lookup_id-some, lookup_id-none}

-- What a caller gets for the entry that is found, and for none.
abbrev pub reported : Memory → List IdInfo → ℕ → Text → Option IdInfo → Outcome Bool
reported memory ids type k none = outcome true memory.id_info (append_id memory ids type k)
reported memory ids type k (some q) = outcome true q.address ids

-- Given memory for the `ID_INFO`, on a list whose entries have types other than LOOKUP,
-- `add_unique_id` returns true for every name: for a name that is in the list already it changes
-- nothing and hands out the old entry, for a new one it appends. So its result never tells that the
-- identifier was not unique.
pub add_unique_id-true :
    (memory : Memory) (ids : List IdInfo) (type : ℕ) (k : Text) (out : ℕ)
    → memory.id_info ≢ null
    → HasTypes ids
    → (add_unique_id memory ids type k out ≡ reported memory ids type k (find_first k ids))
      × ((add_unique_id memory ids type k out).value ≡ true)
unfolding add_unique_id
add_unique_id-true memory ids type k out m-ne typed = elim (Option-cases (find_first k ids)) [
  | inl new ↦ rw (lookup_id-none ids k out new, ==_ne memory.id_info null m-ne, new) (refl, refl)
  | inr (q, old) ↦
      rw
        (
          lookup_id-some ids k out q old,
          ==_ne q.type lookup (find_first-HasTypes k ids q typed old),
          old,
        )
        (refl, refl)
]
