-- ===== src/ByIndex.antt =====
-- The lookups of src/fsm_utils.c that take a signed index: `eventNameByIndex`, `eventPidByIndex`,
-- `stateNameByIndex`, `statePidByIndex` and `transitionPidByIndex`, on the lists in memory.
use fsm_lang.Base.{
  ℕ, zero, suc, ◌≤◌, ◌<◌, ◌≡◌, refl, false, Option, none, some, List, [], ◌∷◌, arith, ◌==◌, ap,
  if◌then◌else◌, u32, ltb, length, get_elem?, Bool-cases, inl, inr,
}
use fsm_lang.Memory.{Ptr, null, Heap, ok, Cmd, pure, ◌>>=◌, load_list}
use fsm_lang.Memory.Access.{load_list-ok}
use fsm_lang.LinkedList.{find_nth_list_member}
use fsm_lang.LinkedList.Chain.{Cells, IsList, members}
use fsm_lang.LinkedList.Find.{find_nth_list_member-get_elem?, or_null}

-- `int`; `negsuc n` is -(n + 1).
pub data ℤ : Type 0 where
  pos : ℕ → ℤ
  negsuc : ℕ → ℤ

-- The lists of `struct _machine_info_` that the lookups read.
pub record Lists : Type 0 where
  pub event_list : Ptr
  pub state_list : Ptr
  pub transition_list : Ptr

-- `pidi->name`, where `pidi` is not NULL. What an `ID_INFO` holds is a parameter.
abbrev pub name_of : (Ptr → Ptr) → Ptr → Ptr
name_of name pidi = if pidi == null then null else name pidi

unfoldable pub event_name_by_index : (Ptr → Ptr) → Option Lists → ℤ → Cmd Ptr
event_name_by_index name none index = pure null
event_name_by_index name (some pmi) (negsuc n) = pure null
event_name_by_index name (some pmi) (pos index) = do
  r ← load_list pmi.event_list
  if ltb index r.count
      then (do pidi ← find_nth_list_member pmi.event_list index; pure (name_of name pidi))
      else pure null

unfoldable pub event_pid_by_index : Option Lists → ℤ → Cmd Ptr
event_pid_by_index none index = pure null
event_pid_by_index (some pmi) (negsuc n) = pure null
event_pid_by_index (some pmi) (pos index) = find_nth_list_member pmi.event_list index

unfoldable pub state_name_by_index : (Ptr → Ptr) → Option Lists → ℤ → Cmd Ptr
state_name_by_index name none index = pure null
state_name_by_index name (some pmi) (negsuc n) = pure null
state_name_by_index name (some pmi) (pos index) = do
  pidi ← find_nth_list_member pmi.state_list index
  pure (name_of name pidi)

unfoldable pub state_pid_by_index : Option Lists → ℤ → Cmd Ptr
state_pid_by_index none index = pure null
state_pid_by_index (some pmi) (negsuc n) = pure null
state_pid_by_index (some pmi) (pos index) = find_nth_list_member pmi.state_list index

unfoldable pub transition_pid_by_index : Option Lists → ℤ → Cmd Ptr
transition_pid_by_index none index = pure null
transition_pid_by_index (some pmi) (negsuc n) = pure null
transition_pid_by_index (some pmi) (pos index) = do
  r ← load_list pmi.transition_list
  if ltb index r.count then find_nth_list_member pmi.transition_list index else pure null

-- The member at a signed position, or NULL.
abbrev pub at_index : List ℕ → ℤ → Ptr
at_index xs (negsuc n) = null
at_index xs (pos i) = or_null (get_elem? xs i)

get_elem?-past {ℓ} : {A : Type ℓ} (xs : List A) (i : ℕ) → length xs ≤ i → get_elem? xs i ≡ none
get_elem?-past [] i p = refl
get_elem?-past (x ∷ xs) zero p = ground arith
get_elem?-past (x ∷ xs) (suc i) p = get_elem?-past xs i (omega (arith, p))

length-members : (xs : Cells) → length (members xs) ≡ length xs
length-members [] = refl
length-members ((a, m) ∷ xs) = ap suc (length-members xs)

module _ (h : Heap) (l : Ptr) (xs : Cells) (i : ℕ) (is : IsList h l xs)
    (small : i < 4294967296) where
  find_lem : find_nth_list_member l i h ≡ ok (at_index (members xs) (pos i)) h
  find_lem = find_nth_list_member-get_elem? h l xs i is small

  name_lem :
      (name : Ptr → Ptr)
      → (do pidi ← find_nth_list_member l i; pure (name_of name pidi)) h
        ≡ ok (name_of name (at_index (members xs) (pos i))) h
  name_lem name = rw find_lem

  past_count : (n k : ℕ) → ltb i (u32 n) ≡ false → n < 4294967296 → k ≡ n → k ≤ i
  past_count n k e few same =
      let whole : u32 n ≡ n = omega (arith, few) in
      let at_n : ltb i n ≡ false = rw whole at e in ground arith

  -- What a lookup does behind its test of the index against the count.
  guarded_lem :
      (f : Ptr → Ptr) (found : Cmd Ptr)
      → f null ≡ null
      → found h ≡ ok (f (at_index (members xs) (pos i))) h
      → length xs < 4294967296
      → (do r ← load_list l; if ltb i r.count then found else pure null) h
        ≡ ok (f (at_index (members xs) (pos i))) h
  guarded_lem f found none_null e few =
      rw (load_list-ok l h is.ne_null _ is.found) (elim (Bool-cases (ltb i (u32 (length xs)))) [
        | inl y ↦ rw (y, e)
        | inr n ↦
            let past : get_elem? (members xs) i ≡ none =
              get_elem?-past (members xs) i
                (past_count (length xs) (length (members xs)) n few (length-members xs)) in
            rw (n, past, none_null)
      ])

-- An `int` is below 2 ^ 31.
abbrev pub IsInt : ℤ → Type 0
IsInt (pos n) = n < 2147483648
IsInt (negsuc n) = n < 2147483648

-- On a machine with its three lists well formed in memory, of which those of events and of
-- transitions are shorter than 2 ^ 32, the five lookups return what stands at an `int` index, and
-- NULL where the index is negative or past the end of the list, whether or not they test it against
-- the count first; the two that look up a name return the name of what they find. None of them
-- changes the memory.
pub by_index-get_elem? :
    (name : Ptr → Ptr) (pmi : Lists) (index : ℤ) (h : Heap) (events states transitions : Cells)
    → IsList h pmi.event_list events
    → IsList h pmi.state_list states
    → IsList h pmi.transition_list transitions
    → length events < 4294967296
    → length transitions < 4294967296
    → IsInt index
    → (event_pid_by_index (some pmi) index h ≡ ok (at_index (members events) index) h)
      × (state_pid_by_index (some pmi) index h ≡ ok (at_index (members states) index) h)
      × (transition_pid_by_index (some pmi) index h ≡ ok (at_index (members transitions) index) h)
      × (event_name_by_index name (some pmi) index h
          ≡ ok (name_of name (at_index (members events) index)) h)
      × (state_name_by_index name (some pmi) index h
          ≡ ok (name_of name (at_index (members states) index)) h)
unfolding event_pid_by_index state_pid_by_index transition_pid_by_index event_name_by_index
    state_name_by_index
by_index-get_elem? name pmi (negsuc n) h es ss ts e s t es_small ts_small small =
    (refl, refl, refl, refl, refl)
by_index-get_elem? name pmi (pos i) h es ss ts e s t es_small ts_small small = (
  find_lem h pmi.event_list es i e (omega arith),
  find_lem h pmi.state_list ss i s (omega arith),
  guarded_lem h pmi.transition_list ts i t (omega arith) (λ p. p)
      (find_nth_list_member pmi.transition_list i) refl
      (find_lem h pmi.transition_list ts i t (omega arith)) ts_small,
  guarded_lem h pmi.event_list es i e (omega arith) (name_of name)
      (do pidi ← find_nth_list_member pmi.event_list i; pure (name_of name pidi)) refl
      (name_lem h pmi.event_list es i e (omega arith) name) es_small,
  name_lem h pmi.state_list ss i s (omega arith) name,
)
