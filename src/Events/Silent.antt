-- ===== src/Events/Silent.antt =====
-- By how much the indices of the comment's cross reference miss the enumerators' values.
use fsm_lang.Base.{
  ℕ, suc, ◌+◌, ◌<◌, ◌≡◌, refl, ◌∙◌, ap, arith, Bool, true, false, some, List, [], ◌∷◌, ◌++◌,
  append_assoc, if◌then◌else◌, length, length-append, Text, codes, Bool-cases, inl, inr,
}
use fsm_lang.Ancestry.{Machine}
use fsm_lang.Ancestry.Join.{nonempty}
use fsm_lang.Events.{
  Own, MachineInfo, MachineList, machine_info, no_machines, machine, as_top, as_sub, full_name,
  returns_events,
}
use fsm_lang.Events.Comment.{add_event_cross_reference}
use fsm_lang.Events.Commented.{
  comment_line, unchanged, commented_names, each_commented, top_commented, comment_start,
  comment_end, commented,
}
use fsm_lang.Events.Walk.{numbered_lines}
use fsm_lang.Events.Enumerators.{event_enum}
use fsm_lang.Events.Values.{Values, declare}
use fsm_lang.Events.Blocks.{event_names, size, size_list, EachLastLeaf}
use fsm_lang.Events.Names.{number, Declared, length-event_names}
use fsm_lang.Events.Top.{cap_names, all_names, length-all_names}
use fsm_lang.Events.Numbered.{event_enum_declared, enum_values}

-- The sub-machines, nested ones included, whose actions return no events.
abbrev mutual
  pub silent : MachineInfo → ℕ
  silent (machine_info o subs) = (if returns_events o then 0 else 1) + each_silent subs

  pub each_silent : MachineList → ℕ
  each_silent no_machines = 0
  each_silent (machine m rest) = silent m + each_silent rest

mutual
  length-commented_names :
      (m : MachineInfo) (parent : Machine) → length (commented_names m parent) + silent m ≡ size m
  length-commented_names (machine_info o subs) parent =
      let pmi : Machine = as_sub parent o in
      let names : List Text = event_names pmi o.event_list in
      elim (Bool-cases (returns_events o)) [
        | inl b ↦ rw b (
            omega (
              arith,
              length-append names (full_name pmi (codes "noEvent") ∷ each_commented subs pmi),
              length-event_names pmi o.event_list,
              length-each_commented subs pmi,
            ))
        | inr b ↦ rw b (
            omega (
              arith,
              length-append names (each_commented subs pmi),
              length-event_names pmi o.event_list,
              length-each_commented subs pmi,
            ))
      ]

  pub length-each_commented :
      (subs : MachineList) (pmi : Machine)
      → length (each_commented subs pmi) + each_silent subs ≡ size_list subs
  length-each_commented no_machines pmi = refl
  length-each_commented (machine m rest) pmi = omega (
    arith,
    length-append (commented_names m pmi) (each_commented rest pmi),
    length-commented_names m pmi,
    length-each_commented rest pmi,
  )

numbered_lines-snoc :
    (ns : List Text) (n : Text) (c : ℕ) (out : Text)
    → numbered_lines comment_line unchanged true out (number c (ns ++ n ∷ []))
      ≡ numbered_lines comment_line unchanged true out (number c ns)
        ++ comment_line true (c + length ns) n
numbered_lines-snoc [] n c out = ap (λ (k : ℕ). out ++ comment_line true k n) (omega arith)
numbered_lines-snoc (x ∷ ns) n c out =
    numbered_lines-snoc ns n (suc c) (out ++ comment_line true c x)
    ∙ ap
        (λ (k : ℕ).
          numbered_lines comment_line unchanged true (out ++ comment_line true c x)
            (number (suc c) ns)
          ++ comment_line true k n)
        (omega arith)

-- The names of the comment before `numAllEvents`.
abbrev pub before_last : Own → MachineList → List Text
before_last o subs =
    event_names (as_top o) o.event_list
    ++ (cap_names o ++ (full_name (as_top o) (codes "numEvents") ∷ each_commented subs (as_top o)))

top_commented-snoc :
    (o : Own) (m : MachineInfo) (rest : MachineList)
    → top_commented o (machine m rest)
      ≡ before_last o (machine m rest) ++ full_name (as_top o) (codes "numAllEvents") ∷ []
top_commented-snoc o m rest = simp append_assoc

length-before_last :
    (o : Own) (subs : MachineList)
    → length (before_last o subs) + each_silent subs
      ≡ suc (length o.event_list + length (cap_names o)) + size_list subs
length-before_last o subs = omega (
  arith,
  length-append (event_names (as_top o) o.event_list)
      (cap_names o ++ (full_name (as_top o) (codes "numEvents") ∷ each_commented subs (as_top o))),
  length-append (cap_names o)
      (full_name (as_top o) (codes "numEvents") ∷ each_commented subs (as_top o)),
  length-event_names (as_top o) o.event_list,
  length-each_commented subs (as_top o),
)

-- The comment with the event cross reference leaves out the `noEvent` of each sub-machine whose
-- actions return states or nothing, though the enumeration has it: the index of `numAllEvents` is
-- smaller than its value by the number of such sub-machines. The machine has an event and
-- sub-machines, no event has an external designation, there are fewer than 2 ^ 32 names, and no
-- last sub-machine of a sub-machine has sub-machines itself.
pub add_event_cross_reference-silent :
    (external : Text → ℕ) (compact : Bool) (o : Own) (m : MachineInfo) (rest : MachineList)
    → nonempty o.event_list ≡ true
    → o.external_event_designation_count ≡ 0
    → EachLastLeaf (machine m rest)
    → length (all_names o (machine m rest)) < 4294967296
    → (index : ℕ) × (next : ℕ) × (vs : Values) × (add_event_cross_reference compact
          (machine_info o (machine m rest))
        ≡ (
          false,
          numbered_lines comment_line unchanged true comment_start
                (number 0 (before_last o (machine m rest)))
              ++ comment_line true index (full_name (as_top o) (codes "numAllEvents"))
              ++ comment_end,
        ))
      × (declare external (event_enum compact (machine_info o (machine m rest))) 0 []
          ≡ some (next, vs))
      × Declared
          (full_name (as_top o) (codes "numAllEvents"), index + each_silent (machine m rest))
          vs
add_event_cross_reference-silent external compact o m rest some_event none_designated leaf short =
    let subs : MachineList = machine m rest in
    let n : ℕ = length o.event_list + length (cap_names o) in
    let last : Text = full_name (as_top o) (codes "numAllEvents") in
    let index : ℕ = length (before_last o subs) in
    let counted : length (before_last o subs) + each_silent subs ≡ suc n + size_list subs =
      length-before_last o subs in
    (
      index,
      suc (suc n + size_list subs),
      enum_values external compact o subs,
      commented compact o subs (rw none_designated refl) (
            omega (
              arith,
              ap (length {A = Text}) (top_commented-snoc o m rest),
              length-append (before_last o subs) (last ∷ []),
              length-all_names o subs,
            ))
          ∙ ap
              (λ (ns : List Text). (
                false,
                numbered_lines comment_line unchanged true comment_start (number 0 ns)
                    ++ comment_end,
              ))
              (top_commented-snoc o m rest)
          ∙ ap (λ (t : Text). (false, t ++ comment_end))
              (numbered_lines-snoc (before_last o subs) last 0 comment_start
                ∙ ap
                    (λ (k : ℕ).
                      numbered_lines comment_line unchanged true comment_start
                        (number 0 (before_last o subs))
                      ++ comment_line true k last)
                    (omega arith)),
      event_enum_declared external compact o subs leaf,
      inl (ap (λ (k : ℕ). (last, k)) counted),
    )
