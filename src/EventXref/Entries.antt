-- ===== src/EventXref/Entries.antt =====
-- What the cross reference writes: one entry for each name, numbered from 0.
use fsm_lang.Base.{
  ℕ, ◌+◌, ◌≡◌, refl, ◌∙◌, ap, sym, Bool, false, List, [], ◌∷◌, ◌++◌, append_assoc, if◌then◌else◌,
  u32, Text, codes, decimal, Bool-cases, inl, inr,
}
use fsm_lang.Ancestry.{Machine}
use fsm_lang.Sequence.{iterate}
use fsm_lang.Events.{
  EventInfo, Own, MachineInfo, MachineList, machine_info, no_machines, machine, as_top, as_sub,
  full_name, returns_events, Helper, write,
}
use fsm_lang.Events.Written.{helper}
use fsm_lang.Events.Walk.{Progress, at, step, walk, walk-append}
use fsm_lang.Events.Blocks.{event_names}
use fsm_lang.Events.Names.{sub_names, each_sub_names}
use fsm_lang.Events.Top.{cap_names, last_names, names_behind, all_names}
use fsm_lang.EventXref.{
  Format, json, csv, tab, xml, entry_writer, print_event_xref, iterate_sub_machines,
  each_sub_machine, complete_top_level, process_any_sub_machines, write_c_event_xref, opening,
  closing, starts_first,
}

-- An entry, and `first` behind it.
abbrev pub entry : Format → Bool → ℕ → Text → Text
entry json first c n =
    (if first then codes "  " else codes ", ")
    ++ codes "{ \"index\": \""
    ++ decimal c
    ++ codes "\", \"name\": \""
    ++ n
    ++ codes "\" }\n"
entry csv first c n = decimal c ++ codes "," ++ n ++ codes "\n"
entry tab first c n = decimal c ++ codes "\t" ++ n ++ codes "\n"
entry xml first c n =
    codes "<event_xref index='" ++ decimal c ++ codes "' name='" ++ n ++ codes "'/>\n"

abbrev pub behind : Format → Bool → Bool
behind json first = false
behind csv first = first
behind tab first = first
behind xml first = first

entry_writer-step :
    (f : Format) (n : Text) (pmi : Machine) (p : Progress)
    → entry_writer f n (at pmi p) ≡ at pmi (step (entry f) (behind f) p (full_name pmi n))
unfolding entry_writer
entry_writer-step json n pmi (out, first, c) =
    ap (λ (t : Text). helper t pmi false (u32 (c + 1))) (simp append_assoc)
entry_writer-step csv n pmi (out, first, c) =
    ap (λ (t : Text). helper t pmi first (u32 (c + 1))) (simp append_assoc)
entry_writer-step tab n pmi (out, first, c) =
    ap (λ (t : Text). helper t pmi first (u32 (c + 1))) (simp append_assoc)
entry_writer-step xml n pmi (out, first, c) =
    ap (λ (t : Text). helper t pmi first (u32 (c + 1))) (simp append_assoc)

module _ (f : Format) where
  abbrev entries : Progress → List Text → Progress
  entries = walk (entry f) (behind f)

  events_entered :
      (es : List EventInfo) (pmi : Machine) (p : Progress)
      → iterate (print_event_xref f) es (at pmi p) ≡ at pmi (entries p (event_names pmi es))
  unfolding iterate print_event_xref
  events_entered [] pmi p = refl
  events_entered (e ∷ es) pmi p =
      ap (iterate (print_event_xref f) es) (entry_writer-step f e.name pmi p)
      ∙ events_entered es pmi (step (entry f) (behind f) p (full_name pmi e.name))

  mutual
    unfolding iterate_sub_machines

    sub_machine_entered :
        (m : MachineInfo) (parent pmi : Machine) (p : Progress)
        → iterate_sub_machines f m parent (at pmi p) ≡ at pmi (entries p (sub_names m parent))
    sub_machine_entered (machine_info o subs) parent pmi p =
        let self : Machine = as_sub parent o in
        let own : List Text = event_names self o.event_list in
        let cap : Text = full_name self (codes "noEvent") in
        let restored : Helper → Helper = λ q. record q { pmi = pmi } in
        ap
          (λ (q : Helper).
            restored (each_sub_machine f subs self (entry_writer f (codes "noEvent") q)))
          (events_entered o.event_list self p)
        ∙ ap (λ (q : Helper). restored (each_sub_machine f subs self q))
            (entry_writer-step f (codes "noEvent") self (entries p own))
        ∙ ap restored (each_entered subs self self (step (entry f) (behind f) (entries p own) cap))
        ∙ ap (at pmi)
            (sym (walk-append (entry f) (behind f) own (cap ∷ each_sub_names subs self) p))

    each_entered :
        (subs : MachineList) (parent pmi : Machine) (p : Progress)
        → each_sub_machine f subs parent (at pmi p)
          ≡ at pmi (entries p (each_sub_names subs parent))
    each_entered no_machines parent pmi p = refl
    each_entered (machine m rest) parent pmi p =
        ap (each_sub_machine f rest parent) (sub_machine_entered m parent pmi p)
        ∙ each_entered rest parent pmi (entries p (sub_names m parent))
        ∙ ap (at pmi) (
            sym (
              walk-append (entry f) (behind f) (sub_names m parent) (each_sub_names rest parent) p))

  top_level_entered :
      (o : Own) (p : Progress)
      → complete_top_level f o (at (as_top o) p)
        ≡ at (as_top o) (entries p (cap_names o ++ (full_name (as_top o) (codes "numEvents") ∷ [])))
  unfolding complete_top_level
  top_level_entered o p = elim (Bool-cases (returns_events o)) [
    | inl b ↦ rw b (
        ap (entry_writer f (codes "numEvents")) (entry_writer-step f (codes "noEvent") (as_top o) p)
        ∙ entry_writer-step f (codes "numEvents") (as_top o)
            (step (entry f) (behind f) p (full_name (as_top o) (codes "noEvent"))))
    | inr b ↦ rw b (entry_writer-step f (codes "numEvents") (as_top o) p)
  ]

  any_sub_machines_entered :
      (o : Own) (subs : MachineList) (p : Progress)
      → process_any_sub_machines f subs (as_top o) (at (as_top o) p)
        ≡ at (as_top o) (entries p (each_sub_names subs (as_top o) ++ last_names o subs))
  unfolding process_any_sub_machines
  any_sub_machines_entered o no_machines p = refl
  any_sub_machines_entered o (machine m rest) p =
      let ns : List Text = each_sub_names (machine m rest) (as_top o) in
      ap (entry_writer f (codes "numAllEvents"))
        (each_entered (machine m rest) (as_top o) (as_top o) p)
      ∙ entry_writer-step f (codes "numAllEvents") (as_top o) (entries p ns)
      ∙ ap (at (as_top o))
          (sym (walk-append (entry f) (behind f) ns (last_names o (machine m rest)) p))

pub write_c_event_xref-entries :
    (f : Format) (o : Own) (subs : MachineList)
    → write_c_event_xref f (machine_info o subs)
      ≡ (walk (entry f) (behind f) (opening f o, starts_first f, 0) (all_names o subs)).0
        ++ closing f
unfolding write_c_event_xref
write_c_event_xref-entries f o subs =
    let top : Machine = as_top o in
    let start : Progress = (opening f o, starts_first f, 0) in
    let own : List Text = event_names top o.event_list in
    let num : List Text = full_name top (codes "numEvents") ∷ [] in
    let nested : List Text = each_sub_names subs top ++ last_names o subs in
    let walked : Progress → List Text → Progress = walk (entry f) (behind f) in
    let close : Helper → Text = λ q. (write (closing f) q).fout in
    ap (λ (q : Helper). close (process_any_sub_machines f subs top (complete_top_level f o q)))
      (events_entered f o.event_list top start)
    ∙ ap (λ (q : Helper). close (process_any_sub_machines f subs top q))
        (top_level_entered f o (walked start own))
    ∙ ap close (any_sub_machines_entered f o subs (walked (walked start own) (cap_names o ++ num)))
    ∙ ap (λ (p : Progress). p.0 ++ closing f)
        (sym (
          walk-append (entry f) (behind f) own (names_behind o subs) start
          ∙ walk-append (entry f) (behind f) (cap_names o) (num ++ nested) (walked start own)
          ∙ sym (
              ap (λ (p : Progress). walked p nested)
                (walk-append (entry f) (behind f) (cap_names o) num (walked start own)))))
