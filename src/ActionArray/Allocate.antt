-- ===== src/ActionArray/Allocate.antt =====
-- `allocateActionArray` of src/fsm_utils.c: one block for the events and one for the states of each.
use fsm_lang.Base.{
  ℕ, zero, suc, ◌+◌, ◌-◌, ◌≤◌, ◌<◌, ◌≡◌, refl, ◌∙◌, arith, Bool, true, false, ◌||◌, Option, none,
  some, ◌==◌, if◌then◌else◌, Bool-cases, inl, inr,
}
use fsm_lang.Sequence.{set_at}

-- A row that is NULL is `none`; a slot that is NULL is `none`.
abbrev pub Rows : Type 0
Rows = ℕ → Option (ℕ → Option ℕ)

-- What is returned, how many blocks can still be had, and `pmi->actionArray`.
pub record Allocation : Type 0 where
  pub value : ℕ
  pub available : ℕ
  pub action_array : Option Rows

abbrev pub allocation : ℕ → ℕ → Option Rows → Allocation
allocation v n rows = record { value = v; available = n; action_array = rows }

-- `calloc` gives a row of slots that are NULL.
abbrev pub blank_row : Option (ℕ → Option ℕ)
blank_row = some (λ j. none)

-- The loop, with the number of rows that are left.
unfoldable pub allocate_rows : ℕ → ℕ → ℕ → Rows → Allocation
allocate_rows zero i available rows = allocation 0 available (some rows)
allocate_rows (suc left) i available rows =
    let rest = allocate_rows left (suc i) (available - 1) (set_at rows i blank_row) in
    if available == 0 then allocation 1 available (some rows) else rest

-- `before` is the pointer that the machine has before the call; `has_machine` says that `pmi` is not
-- NULL.
unfoldable pub allocate_action_array : Bool → ℕ → ℕ → ℕ → Option Rows → Allocation
unfolding allocate_rows
allocate_action_array has_machine event_count state_count available before =
    if has_machine
    then (if (state_count == 0) || (event_count == 0)
        then allocation 1 available before
        else if available == 0
        then allocation 1 available none
        else allocate_rows event_count 0 (available - 1) (λ i. none))
    else allocation 1 available before

-- Every row is there and blank, and as many blocks were taken as there are rows.
pub record Allocated (event_count available : ℕ) (a : Allocation) : Type 0 where
  pub rows : Rows
  pub is : a ≡ allocation 0 available (some rows)
  pub blank : (i : ℕ) → i < event_count → rows i ≡ blank_row

record Filled (left i available : ℕ) (rows : Rows) (a : Allocation) : Type 0 where
  after : Rows
  is : a ≡ allocation 0 available (some after)
  new : (k : ℕ) → i ≤ k → k < i + left → after k ≡ blank_row
  old : (k : ℕ) → k < i → after k ≡ rows k

allocate_rows-Filled :
    (left i available others : ℕ) (rows : Rows)
    → left + others ≡ available
    → Filled left i others rows (allocate_rows left i available rows)
unfolding allocate_rows
allocate_rows-Filled zero i available others rows enough =
    let all : others ≡ available = omega (arith, enough) in
    record {
      after = rows;
      is = rw all;
      new = λ k le lt. absurd (omega (arith, le, lt));
      old = λ k lt. refl;
    }
allocate_rows-Filled (suc left) i available others rows enough =
    let more : (available == 0) ≡ false = ground arith in
    let rest =
      allocate_rows-Filled left (suc i) (available - 1) others (set_at rows i blank_row)
        (omega (arith, enough)) in
    record {
      after = rest.after;
      is = rw more rest.is;
      new = λ k le lt. elim (Bool-cases (k == i)) [
        | inl y ↦ rest.old k (ground arith) ∙ rw y
        | inr n ↦ rest.new k (ground arith) (omega (arith, lt))
      ];
      old = λ k lt.
          let other : (k == i) ≡ false = ground arith in rest.old k (omega (arith, lt)) ∙ rw other;
    }

-- For a machine with events and states, and with memory for one block and one for each event,
-- `allocateActionArray` returns 0, takes that many blocks, and the row of each event is there with
-- every slot NULL.
pub allocate_action_array-Allocated :
    (event_count state_count available others : ℕ) (before : Option Rows)
    → 0 < event_count
    → 0 < state_count
    → suc event_count + others ≡ available
    → Allocated event_count others
        (allocate_action_array true event_count state_count available before)
unfolding allocate_action_array
allocate_action_array-Allocated event_count state_count available others before e s enough =
    let no_states : (state_count == 0) ≡ false = ground arith in
    let no_events : (event_count == 0) ≡ false = ground arith in
    let more : (available == 0) ≡ false = ground arith in
    let f =
      allocate_rows-Filled event_count 0 (available - 1) others (λ i. none)
        (omega (arith, enough)) in
    record {
      rows = f.after;
      is = rw (no_states, no_events, more) f.is;
      blank = λ i lt. f.new i (omega arith) (omega (arith, lt));
    }

allocate_rows_short :
    (left i available : ℕ) (rows : Rows)
    → available < left
    → (allocate_rows left i available rows).value ≡ 1
unfolding allocate_rows
allocate_rows_short zero i available rows short = absurd (omega (arith, short))
allocate_rows_short (suc left) i available rows short = elim (Bool-cases (available == 0)) [
  | inl y ↦ rw y
  | inr n ↦
      rw n
        (allocate_rows_short left (suc i) (available - 1) (set_at rows i blank_row) (ground arith))
]

-- With memory for no more blocks than there are events, `allocateActionArray` returns 1.
pub allocate_action_array_short :
    (has_machine : Bool) (event_count state_count available : ℕ) (before : Option Rows)
    → available ≤ event_count
    → (allocate_action_array has_machine event_count state_count available before).value ≡ 1
unfolding allocate_action_array
allocate_action_array_short false event_count state_count available before short = refl
allocate_action_array_short true event_count state_count available before short =
    elim (Bool-cases ((state_count == 0) || (event_count == 0))) [
      | inl y ↦ rw y
      | inr n ↦ elim (Bool-cases (available == 0)) [
        | inl y ↦ rw (n, y)
        | inr more ↦
            rw (n, more)
              (allocate_rows_short event_count 0 (available - 1) (λ i. none) (ground arith))
      ]
    ]
