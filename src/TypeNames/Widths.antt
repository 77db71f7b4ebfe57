-- ===== src/TypeNames/Widths.antt =====
-- The columns in which the generators print the type names.
use fsm_lang.Base.{
  true, false, ℕ, ◌+◌, ◌≤◌, ◌≡◌, refl, arith, Bool, Option, none, some, List, [], ◌∷◌, Text, length,
  if◌then◌else◌, Bool-cases, inl, inr,
}
use fsm_lang.TypeNames.{Memory, CMachineData, u64, widen, once, create_string_from_file}
use fsm_lang.TypeNames.Types.{
  action_return_type, fsm_type, action_fn_type, action_trans_type, transition_fn_type,
  fsm_data_type, fsm_fn_type, event_type, fsm_fn_event_type, sub_fsm_if_type, state_type,
  state_fn_type, sub_machine_fn_type, data_translation_fn_type, shared_event_str_type,
}
use fsm_lang.TypeNames.Index.{
  TypeName, make, cache, Width, widths, sub_fsm_if_width, shared_event_str_width,
  sub_machine_struct_width, c_machine_struct_width, action_return, fsm, action_fn, action_trans,
  transition_fn, fsm_data, fsm_fn, event, fsm_fn_event, sub_fsm_if, state, state_fn, sub_machine_fn,
  data_translation_fn, shared_event_str,
}

grow_lem : (width n : ℕ) → width ≤ widen width n
unfolding widen
grow_lem width n = ground arith

cover_lem : (width n : ℕ) → u64 (n + 2) ≤ widen width n
unfolding widen
cover_lem width n = ground arith

same_lem : (width : ℕ) → width ≤ width
same_lem width = omega arith

-- No column becomes narrower.
abbrev pub Grows : CMachineData → CMachineData → Type 0
Grows p q =
    (sub_fsm_if_width p ≤ sub_fsm_if_width q)
    × (shared_event_str_width p ≤ shared_event_str_width q)
    × (sub_machine_struct_width p ≤ sub_machine_struct_width q)
    × (c_machine_struct_width p ≤ c_machine_struct_width q)

-- A name that was made fits in a column of a width, with two characters to spare.
abbrev pub Covers : Option Text → ℕ → Type 0
Covers none width = Unit {0}
Covers (some s) width = u64 (length s + 2) ≤ width

abbrev pub All : List Width → (Width → Type 0) → Type 0
All [] P = Unit {0}
All (w ∷ ws) P = P w × All ws P

-- A type name fits each of its columns.
abbrev pub Fits : TypeName → CMachineData → Type 0
Fits t p = All (widths t) (λ width. Covers (cache t p) (width p))

module _ (get : CMachineData → Option Text) (contents : Text)
    (keep : Option Text → ℕ → CMachineData) (kept : (o : Option Text) (n : ℕ) → get (keep o n) ≡ o)
    (memory : Memory) (p : CMachineData) where
  once-Grows :
      (c : Option Text)
      → Grows p (keep (if memory.malloc then some contents else none) (length contents))
      → Grows p (once c contents keep memory p).1
  unfolding create_string_from_file
  once-Grows (some s) g = (same_lem _, same_lem _, same_lem _, same_lem _)
  once-Grows none g = elim (Bool-cases memory.tmpfile) [
    | inl y ↦ rw y g
    | inr n ↦ rw n (same_lem _, same_lem _, same_lem _, same_lem _)
  ]

  made-Covers :
      (b : Bool) (width : ℕ)
      → u64 (length contents + 2) ≤ width
      → Covers (if b then some contents else none) width
  made-Covers true width h = h
  made-Covers false width h = tt

  once-Covers :
      (c : Option Text) (width : Width)
      → ((o : Option Text) → u64 (length contents + 2) ≤ width (keep o (length contents)))
      → Covers (get p) (width p)
      → Covers (get (once c contents keep memory p).1) (width (once c contents keep memory p).1)
  unfolding create_string_from_file
  once-Covers (some t) width covers fits = fits
  once-Covers none width covers fits = elim (Bool-cases memory.tmpfile) [
    | inl y ↦ rw (y, kept) (made-Covers memory.malloc (width (keep _ _)) (covers _))
    | inr n ↦ rw n fits
  ]

  once-All :
      (c : Option Text) (widths : List Width)
      → All widths (λ width.
        (o : Option Text) → u64 (length contents + 2) ≤ width (keep o (length contents)))
      → All widths (λ width. Covers (get p) (width p))
      → All widths (λ width.
        Covers (get (once c contents keep memory p).1) (width (once c contents keep memory p).1))
  once-All c [] covers fits = tt
  once-All c (w ∷ ws) (cover, covers) (fit, fits) =
      (once-Covers c w cover fit, once-All c ws covers fits)

-- Each of the fifteen functions that make the type names keeps or widens every column, and keeps
-- its own name, once it is made, within each of the columns that it widens, with two characters to
-- spare (modulo 2 ^ 64), if it finds it so before the call.
pub make-Fits :
    (t : TypeName) (memory : Memory) (p : CMachineData)
    → Fits t p
    → Grows p (make t memory p).1 × Fits t (make t memory p).1
unfolding create_string_from_file action_return_type fsm_type action_fn_type action_trans_type
    transition_fn_type fsm_data_type fsm_fn_type event_type fsm_fn_event_type sub_fsm_if_type
    state_type state_fn_type sub_machine_fn_type data_translation_fn_type shared_event_str_type
make-Fits action_return memory p fits = (
  once-Grows (cache action_return) _ _ (λ o n. refl) memory p p.action_return_type
      (same_lem _, same_lem _, same_lem _, same_lem _),
  tt,
)
make-Fits fsm memory p fits = (
  once-Grows (cache fsm) _ _ (λ o n. refl) memory p p.fsm_type
      (same_lem _, same_lem _, same_lem _, same_lem _),
  tt,
)
make-Fits action_fn memory p fits = (
  once-Grows (cache action_fn) _ _ (λ o n. refl) memory p p.action_fn_type
      (same_lem _, same_lem _, same_lem _, grow_lem _ _),
  once-All (cache action_fn) _ _ (λ o n. refl) memory p p.action_fn_type (widths action_fn)
      (λ o. cover_lem _ _, tt) fits,
)
make-Fits action_trans memory p fits = (
  once-Grows (cache action_trans) _ _ (λ o n. refl) memory p p.action_trans_type
      (same_lem _, same_lem _, same_lem _, grow_lem _ _),
  once-All (cache action_trans) _ _ (λ o n. refl) memory p p.action_trans_type (widths action_trans)
      (λ o. cover_lem _ _, tt) fits,
)
make-Fits transition_fn memory p fits = (
  once-Grows (cache transition_fn) _ _ (λ o n. refl) memory p p.transition_fn_type
      (same_lem _, same_lem _, same_lem _, grow_lem _ _),
  once-All (cache transition_fn) _ _ (λ o n. refl) memory p p.transition_fn_type
      (widths transition_fn) (λ o. cover_lem _ _, tt) fits,
)
make-Fits fsm_data memory p fits = (
  once-Grows (cache fsm_data) _ _ (λ o n. refl) memory p p.fsm_data_type
      (same_lem _, same_lem _, grow_lem _ _, grow_lem _ _),
  once-All (cache fsm_data) _ _ (λ o n. refl) memory p p.fsm_data_type (widths fsm_data)
      (λ o. cover_lem _ _, (λ o. cover_lem _ _, tt)) fits,
)
make-Fits fsm_fn memory p fits = (
  once-Grows (cache fsm_fn) _ _ (λ o n. refl) memory p p.fsm_fn_type
      (same_lem _, same_lem _, grow_lem _ _, grow_lem _ _),
  once-All (cache fsm_fn) _ _ (λ o n. refl) memory p p.fsm_fn_type (widths fsm_fn)
      (λ o. cover_lem _ _, (λ o. cover_lem _ _, tt)) fits,
)
make-Fits event memory p fits = (
  once-Grows (cache event) _ _ (λ o n. refl) memory p p.event_type
      (grow_lem _ _, grow_lem _ _, grow_lem _ _, grow_lem _ _),
  once-All (cache event) _ _ (λ o n. refl) memory p p.event_type (widths event)
      (λ o. cover_lem _ _, (λ o. cover_lem _ _, (λ o. cover_lem _ _, (λ o. cover_lem _ _, tt))))
      fits,
)
make-Fits fsm_fn_event memory p fits = (
  once-Grows (cache fsm_fn_event) _ _ (λ o n. refl) memory p p.fsm_fn_event_type
      (grow_lem _ _, same_lem _, same_lem _, same_lem _),
  once-All (cache fsm_fn_event) _ _ (λ o n. refl) memory p p.fsm_fn_event_type (widths fsm_fn_event)
      (λ o. cover_lem _ _, tt) fits,
)
make-Fits sub_fsm_if memory p fits = (
  once-Grows (cache sub_fsm_if) _ _ (λ o n. refl) memory p p.sub_fsm_if_type
      (same_lem _, same_lem _, grow_lem _ _, grow_lem _ _),
  once-All (cache sub_fsm_if) _ _ (λ o n. refl) memory p p.sub_fsm_if_type (widths sub_fsm_if)
      (λ o. cover_lem _ _, (λ o. cover_lem _ _, tt)) fits,
)
make-Fits state memory p fits = (
  once-Grows (cache state) _ _ (λ o n. refl) memory p p.state_type
      (same_lem _, same_lem _, grow_lem _ _, grow_lem _ _),
  once-All (cache state) _ _ (λ o n. refl) memory p p.state_type (widths state)
      (λ o. cover_lem _ _, (λ o. cover_lem _ _, tt)) fits,
)
make-Fits state_fn memory p fits = (
  once-Grows (cache state_fn) _ _ (λ o n. refl) memory p p.state_fn_type
      (same_lem _, same_lem _, grow_lem _ _, same_lem _),
  once-All (cache state_fn) _ _ (λ o n. refl) memory p p.state_fn_type (widths state_fn)
      (λ o. cover_lem _ _, tt) fits,
)
make-Fits sub_machine_fn memory p fits = (
  once-Grows (cache sub_machine_fn) _ _ (λ o n. refl) memory p p.sub_machine_fn_type
      (grow_lem _ _, same_lem _, same_lem _, same_lem _),
  once-All (cache sub_machine_fn) _ _ (λ o n. refl) memory p p.sub_machine_fn_type
      (widths sub_machine_fn) (λ o. cover_lem _ _, tt) fits,
)
make-Fits data_translation_fn memory p fits = (
  once-Grows (cache data_translation_fn) _ _ (λ o n. refl) memory p p.data_translation_fn_type
      (same_lem _, grow_lem _ _, same_lem _, same_lem _),
  once-All (cache data_translation_fn) _ _ (λ o n. refl) memory p p.data_translation_fn_type
      (widths data_translation_fn) (λ o. cover_lem _ _, tt) fits,
)
make-Fits shared_event_str memory p fits = (
  once-Grows (cache shared_event_str) _ _ (λ o n. refl) memory p p.shared_event_str_type
      (same_lem _, grow_lem _ _, same_lem _, same_lem _),
  once-All (cache shared_event_str) _ _ (λ o n. refl) memory p p.shared_event_str_type
      (widths shared_event_str) (λ o. cover_lem _ _, tt) fits,
)
