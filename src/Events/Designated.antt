-- ===== src/Events/Designated.antt =====
-- The comment's cross reference of a machine with external designations.
use fsm_lang.Base.{
  ℕ, suc, ◌+◌, ◌<◌, ◌≡◌, refl, arith, Bool, true, false, not, ◌&&◌, some, [], ◌∷◌, ◌++◌, ltb,
  lt→ltb, if◌then◌else◌, length, length-append, Text, codes, Bool-cases, inl, inr,
}
use fsm_lang.Events.{
  Own, MachineList, machine_info, as_top, full_name, assign_external_event_values,
}
use fsm_lang.Events.Comment.{add_event_cross_reference}
use fsm_lang.Events.Commented.{
  comment_line, unchanged, each_commented, top_commented, comment_start, comment_end, commented,
}
use fsm_lang.Events.Walk.{numbered_lines}
use fsm_lang.Events.Enumerators.{event_enum}
use fsm_lang.Events.Values.{Values, declare}
use fsm_lang.Events.Blocks.{event_names, EachLastLeaf}
use fsm_lang.Events.Names.{number, AllDeclared, length-event_names}
use fsm_lang.Events.Top.{cap_names, last_names, all_names, length-all_names, all_value, own_values}
use fsm_lang.Events.Numbered.{event_enum_declared, enum_values, own_declared}
use fsm_lang.Events.Silent.{each_silent, length-each_commented}

length-top_commented :
    (o : Own) (subs : MachineList)
    → length (top_commented o subs) + each_silent subs ≡ length (all_names o subs)
length-top_commented o subs = omega (
  arith,
  length-append (event_names (as_top o) o.event_list) (
      cap_names o
      ++ (full_name (as_top o) (codes "numEvents")
          ∷ (each_commented subs (as_top o) ++ last_names o subs))),
  length-append (cap_names o) (
      full_name (as_top o) (codes "numEvents")
      ∷ (each_commented subs (as_top o) ++ last_names o subs)),
  length-append (each_commented subs (as_top o)) (last_names o subs),
  length-event_names (as_top o) o.event_list,
  length-each_commented subs (as_top o),
  length-all_names o subs,
)

warned :
    (compact : Bool) (o : Own) (subs : MachineList)
    → (ltb 0 o.external_event_designation_count && not (assign_external_event_values compact o))
      ≡ true
    → add_event_cross_reference compact (machine_info o subs) ≡ (true, [])
unfolding add_event_cross_reference
warned compact o subs h = rw h

-- For a machine with external designations, the comment with the event cross reference numbers the
-- events from 0 where the enumeration gives them the values of their designations, and is refused
-- with a warning where the enumeration does not use the designations. There are fewer than 2 ^ 32
-- names, and no last sub-machine of a sub-machine has sub-machines itself.
pub add_event_cross_reference-designated :
    (external : Text → ℕ) (compact : Bool) (o : Own) (subs : MachineList)
    → 0 < o.external_event_designation_count
    → EachLastLeaf subs
    → length (all_names o subs) < 4294967296
    → (next : ℕ) × (vs : Values) × (add_event_cross_reference compact (machine_info o subs) ≡ (
        if assign_external_event_values compact o
        then (
          false,
          numbered_lines comment_line unchanged true comment_start (number 0 (top_commented o subs))
              ++ comment_end,
        )
        else (true, [])))
      × (declare external (event_enum compact (machine_info o subs)) 0 [] ≡ some (next, vs))
      × AllDeclared (own_values external compact o) vs
add_event_cross_reference-designated external compact o subs some_designation leaf short = (
  suc (all_value subs (length o.event_list + length (cap_names o))),
  enum_values external compact o subs,
  elim (Bool-cases (assign_external_event_values compact o)) [
    | inl used ↦ rw used (
        commented compact o subs (rw (used, designated) refl)
          (omega (arith, length-top_commented o subs, length-all_names o subs)))
    | inr unused ↦ rw unused (warned compact o subs (rw (unused, designated) refl))
  ],
  event_enum_declared external compact o subs leaf,
  own_declared external compact o subs,
)
  where
    designated : ltb 0 o.external_event_designation_count ≡ true
    designated = lt→ltb 0 o.external_event_designation_count some_designation
