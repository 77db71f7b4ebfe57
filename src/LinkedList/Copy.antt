-- ===== src/LinkedList/Copy.antt =====
-- `copy_list`, `copy_list_unique`, `copy_list_unique_with_exception` and `move_list_unique`.
use fsm_lang.Base.{
  ℕ, ◌≤◌, ◌<◌, ◌≡◌, refl, ◌≢◌, true, false, List, [], ◌∷◌, ◌++◌, ◌==◌, length, contains, Bool-cases,
  inl, inr,
}
use fsm_lang.Sequence.{absorb, append, add_unique, add_unique_except, absorb-append}
use fsm_lang.Memory.{Ptr, Heap, Run, ok, pure, ◌>>◌}
use fsm_lang.Memory.Access.{not_null, load-ok}
use fsm_lang.Memory.Returns.{Returns, returns}
use fsm_lang.LinkedList.{
  Iterator, list_copier, add_to_list, add_unique_to_list, list_copier_unique,
  list_copier_unique_with_exception, unique_list_mover, iterate_list, copy_list, copy_list_unique,
  copy_list_unique_with_exception, move_list_unique,
}
use fsm_lang.LinkedList.Chain.{Cells, members, Disjoint, IsList}
use fsm_lang.LinkedList.Add.{Added, add_to_list-append}
use fsm_lang.LinkedList.Unique.{
  find_member, add_unique_to_list-find_member, add_unique_to_list-append,
}
use fsm_lang.LinkedList.Extend.{Extends-refl, Added-Extends, members-snoc}
use fsm_lang.LinkedList.Pass.{Grown, Absorbs, iterate_list-absorb}

Added-Grown :
    (l : Ptr) (h h' : Heap) (xs : Cells) (m : ℕ) (e : Ptr)
    → Added h l xs m e h'
    → Grown l 1 h xs (members xs ++ m ∷ []) h'
Added-Grown l h h' xs m e d = record {
  cells = xs ++ (e, m) ∷ [];
  extends = Added-Extends l h h' xs m e d;
  holds = members-snoc xs e m;
}

Same-Grown : (l : Ptr) (h : Heap) (xs : Cells) → IsList h l xs → Grown l 1 h xs (members xs) h
Same-Grown l h xs is = record { cells = xs; extends = Extends-refl l 1 h xs is; holds = refl }

list_copier-Absorbs : (l : Ptr) → Absorbs (list_copier l) l append
unfolding list_copier append
list_copier-Absorbs l h xs a e is pos p q = go (add_to_list-append h l xs e.mbr is pos)
  where
    go :
        Returns (Added h l xs e.mbr) (add_to_list l e.mbr h)
        → Returns
            (λ b h'. (b ≡ false) × Grown l 1 h xs (members xs ++ e.mbr ∷ []) h')
            (list_copier l a h)
    go (returns p' h' run d) =
        rw (load-ok a h p e q, run) (returns false h' refl (refl, Added-Grown l h h' xs e.mbr p' d))

-- The outcome of taking one member in, whether the list had it or not.
add_unique-Grown :
    (l : Ptr) (h : Heap) (xs : Cells) (m : ℕ)
    → IsList h l xs
    → 0 < h.available
    → Returns (λ _ h'. Grown l 1 h xs (add_unique (members xs) m) h') (add_unique_to_list l m h)
unfolding add_unique
add_unique-Grown l h xs m is pos = elim (Bool-cases (contains (members xs) m)) [
  | inl old ↦ rw old (returns _ h (cases.0 old) (Same-Grown l h xs is))
  | inr new ↦ rw new (appended (cases.1 new pos))
]
  where
    cases :
        (contains (members xs) m ≡ true → add_unique_to_list l m h ≡ ok (find_member m xs) h)
        × (contains (members xs) m ≡ false
            → 0 < h.available
            → Returns (Added h l xs m) (add_unique_to_list l m h))
    cases = (add_unique_to_list-find_member h l xs m is, add_unique_to_list-append h l xs m is)

    appended :
        {r : Run Ptr}
        → Returns (Added h l xs m) r
        → Returns (λ _ h'. Grown l 1 h xs (members xs ++ m ∷ []) h') r
    appended (returns e h' run d) = returns e h' run (Added-Grown l h h' xs m e d)

list_copier_unique-Absorbs : (l : Ptr) → Absorbs (list_copier_unique l) l add_unique
unfolding list_copier_unique
list_copier_unique-Absorbs l h xs a e is pos p q = go (add_unique-Grown l h xs e.mbr is pos)
  where
    go :
        Returns
          (λ _ h'. Grown l 1 h xs (add_unique (members xs) e.mbr) h')
          (add_unique_to_list l e.mbr h)
        → Returns
            (λ b h'. (b ≡ false) × Grown l 1 h xs (add_unique (members xs) e.mbr) h')
            (list_copier_unique l a h)
    go (returns p' h' run g) = rw (load-ok a h p e q, run) (returns false h' refl (refl, g))

unique_list_mover-Absorbs : (l : Ptr) → Absorbs (unique_list_mover l) l add_unique
unfolding list_copier_unique unique_list_mover
unique_list_mover-Absorbs l = list_copier_unique-Absorbs l

list_copier_unique_with_exception-Absorbs :
    (l : Ptr) (x : ℕ) → Absorbs (list_copier_unique_with_exception l x) l (add_unique_except x)
unfolding list_copier_unique_with_exception add_unique_except
list_copier_unique_with_exception-Absorbs l x h xs a e is pos p q = elim (Bool-cases (e.mbr == x)) [
  | inl same ↦ rw (load-ok a h p e q, same) (returns false h refl (refl, Same-Grown l h xs is))
  | inr other ↦ rw (load-ok a h p e q, other) (go (add_unique-Grown l h xs e.mbr is pos))
]
  where
    go :
        Returns
          (λ _ h'. Grown l 1 h xs (add_unique (members xs) e.mbr) h')
          (add_unique_to_list l e.mbr h)
        → Returns
            (λ b h'. (b ≡ false) × Grown l 1 h xs (add_unique (members xs) e.mbr) h')
            ((add_unique_to_list l e.mbr >> pure false) h)
    go (returns p' h' run g) = rw run (returns false h' refl (refl, g))

-- The destination is returned and holds the members `ms`; the source is what it was.
abbrev pub Copied : Ptr → Ptr → Heap → Cells → Cells → List ℕ → Ptr → Heap → Type 0
Copied dest src h xs zs ms p h' = (p ≡ dest) × Grown dest (length zs) h xs ms h' × IsList h' src zs

module _ (h : Heap) (dest src : Ptr) (xs zs : Cells) (is : IsList h dest xs)
    (from : IsList h src zs) (ne : src ≢ dest) (apart : Disjoint zs xs)
    (room : length zs ≤ h.available) where
  copies :
      (action : Iterator) (grow : List ℕ → ℕ → List ℕ)
      → Absorbs action dest grow
      → Returns
          (Copied dest src h xs zs (absorb grow (members xs) (members zs)))
          ((iterate_list src action >> pure dest) h)
  copies action grow step =
      go (iterate_list-absorb action dest grow step h xs zs src is from ne apart room)
    where
      go :
          Returns
            (λ p h'.
              Grown dest (length zs) h xs (absorb grow (members xs) (members zs)) h'
              × IsList h' src zs)
            (iterate_list src action h)
          → Returns
              (Copied dest src h xs zs (absorb grow (members xs) (members zs)))
              ((iterate_list src action >> pure dest) h)
      go (returns p h' run (g, kept)) = rw run (returns dest h' refl (refl, g, kept))

  -- For two well-formed lists at different addresses that share no element, with memory for as many
  -- elements as the source has, `copy_list` appends the members of the source to the destination
  -- and keeps the source.
  pub copy_list-append :
      Returns (Copied dest src h xs zs (members xs ++ members zs)) (copy_list dest src h)
  unfolding copy_list
  copy_list-append =
      rw
        (
          not_null dest is.ne_null,
          not_null src from.ne_null,
          ← absorb-append (members xs) (members zs),
        )
        (copies (list_copier dest) append (list_copier-Absorbs dest))

  -- For two well-formed lists at different addresses that share no element, with memory for as many
  -- elements as the source has, `copy_list_unique` takes into the destination, in order, each
  -- member of the source that the destination does not have yet, and keeps the source.
  pub copy_list_unique-add_unique :
      Returns
        (Copied dest src h xs zs (absorb add_unique (members xs) (members zs)))
        (copy_list_unique dest src h)
  unfolding copy_list_unique
  copy_list_unique-add_unique =
      rw (not_null dest is.ne_null, not_null src from.ne_null)
        (copies (list_copier_unique dest) add_unique (list_copier_unique-Absorbs dest))

  -- For two well-formed lists at different addresses that share no element, with memory for as many
  -- elements as the source has, `copy_list_unique_with_exception` takes into the destination, in
  -- order, each member of the source that is not the exception and that the destination does not
  -- have yet, and keeps the source.
  pub copy_list_unique_with_exception-add_unique_except :
      (x : ℕ)
      → Returns
          (Copied dest src h xs zs (absorb (add_unique_except x) (members xs) (members zs)))
          (copy_list_unique_with_exception dest src x h)
  unfolding copy_list_unique_with_exception
  copy_list_unique_with_exception-add_unique_except x =
      rw (not_null dest is.ne_null, not_null src from.ne_null)
        (copies (list_copier_unique_with_exception dest x) (add_unique_except x)
          (list_copier_unique_with_exception-Absorbs dest x))

  -- For two well-formed lists at different addresses that share no element, with memory for as many
  -- elements as the source has, `move_list_unique` leaves in the destination what
  -- `copy_list_unique` would, and the source keeps its members.
  pub move_list_unique-add_unique :
      Returns
        (Copied dest src h xs zs (absorb add_unique (members xs) (members zs)))
        (move_list_unique dest src h)
  unfolding move_list_unique
  move_list_unique-add_unique =
      rw (not_null dest is.ne_null)
        (copies (unique_list_mover dest) add_unique (unique_list_mover-Absorbs dest))
