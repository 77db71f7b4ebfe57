-- ===== src/Events/Returning.antt =====
-- Where the indices of the comment's cross reference are the enumerators' values: where the actions of
-- each sub-machine return events.
use mathlib.Core.Path.{ap₂}
use fsm_lang.Base.{
  ℕ, ◌<◌, ◌≡◌, refl, ◌∙◌, ap, arith, Bool, true, false, some, List, [], ◌∷◌, ◌++◌, ◌==◌, length,
  Text, codes,
}
use fsm_lang.Ancestry.{Machine}
use fsm_lang.Ancestry.Join.{nonempty}
use fsm_lang.Events.{
  EventInfo, Own, MachineInfo, MachineList, machine_info, no_machines, machine, as_top, as_sub,
  full_name, returns_events, assign_external_event_values,
}
use fsm_lang.Events.Comment.{add_event_cross_reference}
use fsm_lang.Events.Commented.{
  comment_line, unchanged, commented_names, each_commented, top_commented, comment_start,
  comment_end, commented,
}
use fsm_lang.Events.Walk.{numbered_lines}
use fsm_lang.Events.Enumerators.{event_enum}
use fsm_lang.Events.Values.{Values, declare}
use fsm_lang.Events.Blocks.{event_names, EachLastLeaf}
use fsm_lang.Events.Names.{sub_names, each_sub_names, number, AllDeclared}
use fsm_lang.Events.Top.{all_names}
use fsm_lang.Events.Numbered.{all_names_declared}

-- The actions of each sub-machine return events.
abbrev mutual
  pub ReturnsEvents : MachineInfo → Type 0
  ReturnsEvents (machine_info o subs) = (returns_events o ≡ true) × EachReturnsEvents subs

  pub EachReturnsEvents : MachineList → Type 0
  EachReturnsEvents no_machines = Unit {0}
  EachReturnsEvents (machine m rest) = ReturnsEvents m × EachReturnsEvents rest

mutual
  commented_names-sub_names :
      (m : MachineInfo) (parent : Machine)
      → ReturnsEvents m
      → commented_names m parent ≡ sub_names m parent
  commented_names-sub_names (machine_info o subs) parent (h, hs) = rw h (
      ap
        (λ (ns : List Text).
          event_names (as_sub parent o) o.event_list
          ++ (full_name (as_sub parent o) (codes "noEvent") ∷ ns))
        (each_commented-each_sub_names subs (as_sub parent o) hs))

  each_commented-each_sub_names :
      (subs : MachineList) (pmi : Machine)
      → EachReturnsEvents subs
      → each_commented subs pmi ≡ each_sub_names subs pmi
  each_commented-each_sub_names no_machines pmi h = refl
  each_commented-each_sub_names (machine m rest) pmi (h, hs) =
      ap₂ (λ (xs ys : List Text). xs ++ ys) (commented_names-sub_names m pmi h)
        (each_commented-each_sub_names rest pmi hs)

top_commented-all_names :
    (o : Own) (subs : MachineList)
    → EachReturnsEvents subs
    → top_commented o subs ≡ all_names o subs
top_commented-all_names o subs h = rw (each_commented-each_sub_names subs (as_top o) h)

some_length : (es : List EventInfo) → nonempty es ≡ true → (length es == 0) ≡ false
some_length [] h = cc
some_length (e ∷ es) h = ground arith

pub no_designations :
    (compact : Bool) (o : Own)
    → nonempty o.event_list ≡ true
    → o.external_event_designation_count ≡ 0
    → assign_external_event_values compact o ≡ false
unfolding assign_external_event_values
no_designations compact o some_event none_designated =
    ground (arith, some_length o.event_list some_event)

-- The comment with the event cross reference lists each name of the machine and of its
-- sub-machines, numbered from 0, under the value that the event enumeration gives to it by C's
-- rule. The machine has an event, no event has an external designation, the actions of each
-- sub-machine return events, there are fewer than 2 ^ 32 names, and no last sub-machine of a
-- sub-machine has sub-machines itself.
pub add_event_cross_reference-numbered :
    (external : Text → ℕ) (compact : Bool) (o : Own) (subs : MachineList)
    → nonempty o.event_list ≡ true
    → o.external_event_designation_count ≡ 0
    → EachReturnsEvents subs
    → EachLastLeaf subs
    → length (all_names o subs) < 4294967296
    → (next : ℕ) × (vs : Values) × (add_event_cross_reference compact (machine_info o subs) ≡ (
      false,
      numbered_lines comment_line unchanged true comment_start (number 0 (all_names o subs))
          ++ comment_end,
    ))
      × (declare external (event_enum compact (machine_info o subs)) 0 [] ≡ some (next, vs))
      × AllDeclared (number 0 (all_names o subs)) vs
add_event_cross_reference-numbered external compact o subs some_event none_designated returns leaf
      short =
    let (next, vs, declared, all) =
      all_names_declared external compact o subs
        (no_designations compact o some_event none_designated) leaf in
    let same : top_commented o subs ≡ all_names o subs = top_commented-all_names o subs returns in
    (
      next,
      vs,
      commented compact o subs (rw none_designated refl) (rw same short)
          ∙ ap
              (λ (ns : List Text). (
                false,
                numbered_lines comment_line unchanged true comment_start (number 0 ns)
                    ++ comment_end,
              ))
              same,
      declared,
      all,
    )
