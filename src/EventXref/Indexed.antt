-- ===== src/EventXref/Indexed.antt =====
-- The indices of the cross reference are the values of the enumerators.
use fsm_lang.Base.{ℕ, ◌<◌, ◌≡◌, ◌∙◌, ap, arith, Bool, false, some, [], ◌++◌, length, Text}
use fsm_lang.Events.{Own, MachineList, machine_info, assign_external_event_values}
use fsm_lang.Events.Enumerators.{event_enum}
use fsm_lang.Events.Walk.{numbered_lines, walk-numbered_lines}
use fsm_lang.Events.Values.{Values, declare}
use fsm_lang.Events.Blocks.{EachLastLeaf}
use fsm_lang.Events.Names.{number, AllDeclared}
use fsm_lang.Events.Top.{all_names}
use fsm_lang.Events.Numbered.{all_names_declared}
use fsm_lang.EventXref.{Format, write_c_event_xref, opening, closing, starts_first}
use fsm_lang.EventXref.Entries.{entry, behind, write_c_event_xref-entries}

-- The entries of names with their indices.
abbrev pub entry_lines : Format → Text → Values → Text
entry_lines f = numbered_lines (entry f) (behind f) (starts_first f)

-- In each of the four formats the file of the event cross reference has one entry for each of the
-- names, with the indices 0, 1, 2 and so on, and each index is the value that the event enumeration
-- of the header gives to the name, by C's rule. External designations are not used, there are fewer
-- than 2 ^ 32 names, and no last sub-machine of a sub-machine has sub-machines itself.
pub write_c_event_xref-numbered :
    (f : Format) (external : Text → ℕ) (compact : Bool) (o : Own) (subs : MachineList)
    → assign_external_event_values compact o ≡ false
    → EachLastLeaf subs
    → length (all_names o subs) < 4294967296
    → (write_c_event_xref f (machine_info o subs)
        ≡ entry_lines f (opening f o) (number 0 (all_names o subs)) ++ closing f)
      × (next : ℕ) × (vs : Values) × (declare external
            (event_enum compact (machine_info o subs))
            0
            []
          ≡ some (next, vs))
      × AllDeclared (number 0 (all_names o subs)) vs
write_c_event_xref-numbered f external compact o subs unused leaf short =
    let (next, vs, declared, all) = all_names_declared external compact o subs unused leaf in
    (
      write_c_event_xref-entries f o subs
          ∙ ap (λ (t : Text). t ++ closing f)
              (walk-numbered_lines (entry f) (behind f) (all_names o subs) (opening f o)
                (starts_first f) 0 (omega arith)),
      next,
      vs,
      declared,
      all,
    )
