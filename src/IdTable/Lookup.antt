-- ===== src/IdTable/Lookup.antt =====
-- `add_id` and `lookup_id` of src/fsm_utils.c.
use fsm_lang.Base.{
  ℕ, ◌≡◌, ◌≢◌, refl, true, false, Option, none, some, List, [], ◌∷◌, ◌++◌, arith, if◌then◌else◌,
  Text, text_eq, text_eq_refl, Bool-cases, Option-cases, ==_ne, inl, inr,
}
use fsm_lang.IdTable.{
  IdInfo, null, lookup, find_id_by_name, find_first, outcome, lookup_id, Memory, append_id, add_id,
}

find_first-snoc :
    (k : Text) (ids : List IdInfo) (pid : IdInfo)
    → find_first k (ids ++ pid ∷ []) ≡ elim (find_first k ids) [
      | some q ↦ some q
      | none ↦ if text_eq pid.name k then some pid else none
    ]
unfolding find_first find_id_by_name
find_first-snoc k [] pid = ground arith
find_first-snoc k (q ∷ ids) pid = ground (arith, find_first-snoc k ids pid)

-- Every entry has one of the parser's types, none of which is LOOKUP.
abbrev pub HasTypes : List IdInfo → Type 0
HasTypes [] = Unit {0}
HasTypes (pid ∷ ids) = (pid.type ≢ lookup) × HasTypes ids

pub find_first-HasTypes :
    (k : Text) (ids : List IdInfo) (q : IdInfo)
    → HasTypes ids
    → find_first k ids ≡ some q
    → q.type ≢ lookup
unfolding find_first
find_first-HasTypes k [] q h e = cc
find_first-HasTypes k (pid ∷ ids) q (p, h) e = elim (Bool-cases (find_id_by_name k pid)) [
  | inl hit ↦ ground arith
  | inr miss ↦ find_first-HasTypes k ids q h (rw miss at e)
]

append_id-other :
    (memory : Memory) (ids : List IdInfo) (type : ℕ) (k j : Text)
    → text_eq k j ≡ false
    → find_first j (append_id memory ids type k) ≡ find_first j ids
unfolding append_id
append_id-other memory ids type k j ne = elim (Bool-cases memory.element) [
  | inr none_left ↦ rw none_left
  | inl room ↦
      rw (room, find_first-snoc j ids (record { address = memory.id_info; name = k; type = type }))
        (same (find_first j ids))
]
  where
    same :
        (o : Option IdInfo)
        → elim o [
          | some q ↦ some q
          | none ↦
              if text_eq k j
              then some (record { address = memory.id_info; name = k; type = type })
              else none
        ]
          ≡ o
    same none = rw ne
    same (some q) = refl

pub lookup_id-some :
    (ids : List IdInfo) (k : Text) (o : ℕ) (q : IdInfo)
    → find_first k ids ≡ some q
    → lookup_id ids k o ≡ outcome q.type q.address ids
unfolding lookup_id
lookup_id-some ids k o q e = rw e

pub lookup_id-none :
    (ids : List IdInfo) (k : Text) (o : ℕ)
    → find_first k ids ≡ none
    → lookup_id ids k o ≡ outcome lookup o ids
unfolding lookup_id
lookup_id-none ids k o e = rw e

add_id-old :
    (memory : Memory) (ids : List IdInfo) (type : ℕ) (k : Text) (out : ℕ) (q : IdInfo)
    → find_first k ids ≡ some q
    → q.type ≢ lookup
    → add_id memory ids type k out ≡ outcome q.type q.address ids
unfolding add_id
add_id-old memory ids type k out q e ne = rw (lookup_id-some ids k out q e, ==_ne q.type lookup ne)

add_id-new :
    (memory : Memory) (ids : List IdInfo) (type : ℕ) (k : Text) (out : ℕ)
    → find_first k ids ≡ none
    → memory.id_info ≢ null
    → add_id memory ids type k out ≡ outcome type memory.id_info (append_id memory ids type k)
unfolding add_id
add_id-new memory ids type k out e ne =
    rw (lookup_id-none ids k out e, ==_ne memory.id_info null ne)

append_id_self :
    (memory : Memory) (ids : List IdInfo) (type : ℕ) (k : Text)
    → memory.element ≡ true
    → find_first k ids ≡ none
    → find_first k (append_id memory ids type k)
      ≡ some (record { address = memory.id_info; name = k; type = type })
unfolding append_id
append_id_self memory ids type k room e = rw (
  room,
  find_first-snoc k ids (record { address = memory.id_info; name = k; type = type }),
  e,
  text_eq_refl k,
)

-- On a list whose entries have types other than LOOKUP, after `add_id` with such a type and with
-- memory for the entry, looking the name up gives what `add_id` gave, whether the name was new or
-- not, and a different name is found as before.
pub add_id-lookup_id :
    (memory : Memory) (ids : List IdInfo) (type : ℕ) (k : Text) (out o : ℕ) (j : Text)
    → memory.id_info ≢ null
    → memory.element ≡ true
    → type ≢ lookup
    → HasTypes ids
    → text_eq k j ≡ false
    → let r = add_id memory ids type k out in
      (lookup_id r.ids k o ≡ outcome r.value r.ppid_info r.ids)
      × (find_first j r.ids ≡ find_first j ids)
add_id-lookup_id memory ids type k out o j m-ne room t-ne typed ne =
    elim (Option-cases (find_first k ids)) [
      | inl new ↦ rw (add_id-new memory ids type k out new m-ne) (
        lookup_id-some (append_id memory ids type k) k o _
            (append_id_self memory ids type k room new),
        append_id-other memory ids type k j ne,
      )
      | inr (q, old) ↦
          rw (add_id-old memory ids type k out q old (find_first-HasTypes k ids q typed old))
            (lookup_id-some ids k o q old, refl)
    ]
