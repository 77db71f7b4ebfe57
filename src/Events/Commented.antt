-- ===== src/Events/Commented.antt =====
-- What the comment of `addEventCrossReference` says, and where its indices are the values of the
-- enumerators.
use fsm_lang.Base.{
  ℕ, ◌+◌, ◌<◌, ◌≡◌, refl, ◌∙◌, ap, sym, arith, Bool, true, false, not, ◌&&◌, List, [], ◌∷◌, ◌++◌,
  append_assoc, ltb, if◌then◌else◌, u32, length, Text, codes, decimal, pad_left, Bool-cases, inl,
  inr,
}
use fsm_lang.Ancestry.{Machine, print_name_with_ancestry, stream_str_case_aware}
use fsm_lang.Sequence.{iterate}
use fsm_lang.Events.{
  EventInfo, Own, MachineInfo, MachineList, machine_info, no_machines, machine, as_top, as_sub, own,
  full_name, returns_events, assign_external_event_values, Helper, write,
}
use fsm_lang.Events.Comment.{
  print_event_cross_reference_entry, print_event_cross_reference, cap_cross_reference,
  print_sub_machine_event_cross_reference, each_cross_reference, sub_machines_cross_reference,
  add_event_cross_reference,
}
use fsm_lang.Events.Walk.{
  Progress, at, step, walk, walk-append, numbered_lines, walk-numbered_lines,
}
use fsm_lang.Events.Blocks.{event_names}
use fsm_lang.Events.Names.{number}
use fsm_lang.Events.Top.{cap_names, last_names}

-- A line of the comment; `first` stays as it was.
abbrev pub comment_line : Bool → ℕ → Text → Text
comment_line first c n = codes "\t" ++ pad_left 5 (decimal c) ++ codes "  " ++ n ++ codes "\n"

abbrev pub unchanged : Bool → Bool
unchanged first = first

abbrev comment : Progress → List Text → Progress
comment = walk comment_line unchanged

-- The names of the comment: a sub-machine has its `noEvent` only if its actions return events.
abbrev mutual
  pub commented_names : MachineInfo → Machine → List Text
  commented_names (machine_info o subs) parent =
      event_names (as_sub parent o) o.event_list
      ++ ((if returns_events o then full_name (as_sub parent o) (codes "noEvent") ∷ [] else [])
          ++ each_commented subs (as_sub parent o))

  pub each_commented : MachineList → Machine → List Text
  each_commented no_machines pmi = []
  each_commented (machine m rest) pmi = commented_names m pmi ++ each_commented rest pmi

abbrev pub top_commented : Own → MachineList → List Text
top_commented o subs =
    event_names (as_top o) o.event_list
    ++ (cap_names o
        ++ (full_name (as_top o) (codes "numEvents")
            ∷ (each_commented subs (as_top o) ++ last_names o subs)))

entry-step :
    (n : Text) (pmi : Machine) (p : Progress)
    → print_event_cross_reference_entry n (at pmi p)
      ≡ at pmi (step comment_line unchanged p (full_name pmi n))
unfolding print_event_cross_reference_entry print_name_with_ancestry stream_str_case_aware
entry-step n pmi (out, first, c) =
    ap (λ (t : Text). at pmi (t, first, u32 (c + 1))) (simp append_assoc)

events_commented :
    (es : List EventInfo) (pmi : Machine) (p : Progress)
    → iterate print_event_cross_reference es (at pmi p) ≡ at pmi (comment p (event_names pmi es))
unfolding iterate print_event_cross_reference
events_commented [] pmi p = refl
events_commented (e ∷ es) pmi p =
    ap (iterate print_event_cross_reference es) (entry-step e.name pmi p)
    ∙ events_commented es pmi (step comment_line unchanged p (full_name pmi e.name))

abbrev cap_of : Machine → Own → List Text
cap_of pmi o = if returns_events o then full_name pmi (codes "noEvent") ∷ [] else []

cap_commented :
    (o : Own) (pmi : Machine) (p : Progress)
    → cap_cross_reference o (at pmi p) ≡ at pmi (comment p (cap_of pmi o))
unfolding cap_cross_reference
cap_commented o pmi p = elim (Bool-cases (returns_events o)) [
  | inl b ↦ rw b (entry-step (codes "noEvent") pmi p)
  | inr b ↦ rw b
]

-- Where `pmi` stands after a list of sub-machines.
abbrev last_at : MachineList → Machine → Machine → Machine
last_at no_machines pmi here = here
last_at (machine m rest) pmi here = last_at rest pmi (as_sub pmi (own m))

mutual
  unfolding print_sub_machine_event_cross_reference

  sub_commented :
      (m : MachineInfo) (parent pmi : Machine) (p : Progress)
      → print_sub_machine_event_cross_reference m parent (at pmi p)
        ≡ at (as_sub parent (own m)) (comment p (commented_names m parent))
  sub_commented (machine_info o subs) parent pmi p =
      let self : Machine = as_sub parent o in
      let names : List Text = event_names self o.event_list in
      let restored : Helper → Helper = λ q. record q { pmi = self } in
      ap (λ (q : Helper). restored (each_cross_reference subs self (cap_cross_reference o q)))
        (events_commented o.event_list self p)
      ∙ ap (λ (q : Helper). restored (each_cross_reference subs self q))
          (cap_commented o self (comment p names))
      ∙ ap restored (each_cross-lines subs self self (comment (comment p names) (cap_of self o)))
      ∙ ap (at self) (
          sym (
            walk-append comment_line unchanged names (cap_of self o ++ each_commented subs self) p
            ∙ walk-append comment_line unchanged (cap_of self o) (each_commented subs self)
                (comment p names)))

  each_cross-lines :
      (subs : MachineList) (pmi here : Machine) (p : Progress)
      → each_cross_reference subs pmi (at here p)
        ≡ at (last_at subs pmi here) (comment p (each_commented subs pmi))
  each_cross-lines no_machines pmi here p = refl
  each_cross-lines (machine m rest) pmi here p =
      ap (each_cross_reference rest pmi) (sub_commented m pmi here p)
      ∙ each_cross-lines rest pmi (as_sub pmi (own m)) (comment p (commented_names m pmi))
      ∙ ap (at (last_at rest pmi (as_sub pmi (own m)))) (
          sym (
            walk-append comment_line unchanged (commented_names m pmi) (each_commented rest pmi) p))

sub_machines_commented :
    (o : Own) (subs : MachineList) (p : Progress)
    → sub_machines_cross_reference subs (as_top o) (at (as_top o) p)
      ≡ at (as_top o) (comment p (each_commented subs (as_top o) ++ last_names o subs))
unfolding sub_machines_cross_reference
sub_machines_commented o no_machines p = refl
sub_machines_commented o (machine m rest) p =
    let names : List Text = each_commented (machine m rest) (as_top o) in
    ap
      (λ (q : Helper).
        print_event_cross_reference_entry (codes "numAllEvents") (record q { pmi = as_top o }))
      (each_cross-lines (machine m rest) (as_top o) (as_top o) p)
    ∙ entry-step (codes "numAllEvents") (as_top o) (comment p names)
    ∙ ap (at (as_top o))
        (sym (walk-append comment_line unchanged names (last_names o (machine m rest)) p))

abbrev pub comment_start : Text
comment_start = codes "/*\n\tEvent Cross Reference:\n\n"

abbrev pub comment_end : Text
comment_end = codes "\n*/\n"

-- The whole comment, where no warning is given instead.
pub commented :
    (compact : Bool) (o : Own) (subs : MachineList)
    → (ltb 0 o.external_event_designation_count && not (assign_external_event_values compact o))
      ≡ false
    → length (top_commented o subs) < 4294967296
    → add_event_cross_reference compact (machine_info o subs) ≡ (
      false,
      numbered_lines comment_line unchanged true comment_start (number 0 (top_commented o subs))
          ++ comment_end,
    )
unfolding add_event_cross_reference
commented compact o subs no_warning short = rw no_warning (ap (λ (t : Text). (false, t)) text)
  where
    top : Machine
    top = as_top o

    start : Progress
    start = (comment_start, true, 0)

    names : List Text
    names = event_names top o.event_list

    num : List Text
    num = full_name top (codes "numEvents") ∷ []

    nested : List Text
    nested = each_commented subs top ++ last_names o subs

    close : Helper → Text
    close q = (write comment_end q).fout

    text :
        close (
          sub_machines_cross_reference subs top (
            print_event_cross_reference_entry (codes "numEvents") (
              cap_cross_reference o
                (iterate print_event_cross_reference o.event_list (at top start)))))
        ≡ numbered_lines comment_line unchanged true comment_start (number 0 (top_commented o subs))
          ++ comment_end
    text =
        ap
          (λ (q : Helper). close (
            sub_machines_cross_reference subs top
              (print_event_cross_reference_entry (codes "numEvents") (cap_cross_reference o q))))
          (events_commented o.event_list top start)
        ∙ ap
            (λ (q : Helper). close (
              sub_machines_cross_reference subs top
                (print_event_cross_reference_entry (codes "numEvents") q)))
            (cap_commented o top (comment start names))
        ∙ ap (λ (q : Helper). close (sub_machines_cross_reference subs top q))
            (entry-step (codes "numEvents") top (comment (comment start names) (cap_names o)))
        ∙ ap close (
            sub_machines_commented o subs
              (comment (comment (comment start names) (cap_names o)) num))
        ∙ ap (λ (p : Progress). p.0 ++ comment_end)
            (sym (
              walk-append comment_line unchanged names (cap_names o ++ (num ++ nested)) start
              ∙ walk-append comment_line unchanged (cap_names o) (num ++ nested)
                  (comment start names)))
        ∙ ap (λ (t : Text). t ++ comment_end)
            (walk-numbered_lines comment_line unchanged (top_commented o subs) comment_start true 0
              (omega arith))
