-- ===== src/DebugNames/Arrays.antt =====
-- The whole text of the debug names.
use mathlib.Core.Path.{ap₂}
use fsm_lang.Base.{
  ℕ, ◌≡◌, refl, ◌∙◌, ap, sym, Bool, true, false, List, [], ◌∷◌, ◌++◌, map, append_assoc, append-nil,
  if◌then◌else◌, Text, codes, Bool-cases, inl, inr,
}
use fsm_lang.Ancestry.{Machine}
use fsm_lang.Sequence.{iterate}
use fsm_lang.Events.{Own, MachineList, machine_info, as_top, full_name, returns_events, Helper}
use fsm_lang.Events.Written.{helper}
use fsm_lang.Events.Header.{top_name}
use fsm_lang.DebugNames.{
  MachineNames, each_event_names, print_quoted_pid_name_as_list_element,
  print_quoted_pid_name_with_ancestry_as_list_element, names_of, cap_event_names_short,
  cap_event_names_long, cap_state_names_short, cap_state_names_long, state_names_start, debug_end,
  debug_start, write_debug_info_short, write_debug_info_long, write_debug_info,
}
use fsm_lang.DebugNames.Quoted.{
  Entry, entry_text, of, each_entries, quoted_lines, quoted_lines-append, own_lines, first_left,
  own_short, own_long, each_nested,
}

-- Behind a machine's own events.
abbrev pub cap_entries : Own → List Entry
cap_entries o =
    (if returns_events o then (as_top o, codes "noEvent") ∷ [] else [])
    ++ ((as_top o, codes "numEvents") ∷ [])

abbrev pub other_entries : Own → MachineList → List Entry
other_entries o subs = cap_entries o ++ each_entries subs (as_top o)

-- The entries of the array of event names, in order.
abbrev pub all_entries : Own → MachineList → List Entry
all_entries o subs = of (as_top o) o.event_list ++ other_entries o subs

cap_short :
    (o : Own) (out : Text) (pmi : Machine) (first : Bool) (c : ℕ)
    → cap_event_names_short o (helper out pmi first c)
      ≡ helper (quoted_lines true out (cap_entries o)) pmi first c
unfolding cap_event_names_short
cap_short o out pmi first c = elim (Bool-cases (returns_events o)) [
  | inl b ↦ rw b refl
  | inr b ↦ rw b refl
]

cap_long :
    (o : Own) (out : Text) (pmi : Machine) (first : Bool) (c : ℕ)
    → cap_event_names_long o (helper out pmi first c)
      ≡ helper (quoted_lines false out (cap_entries o)) pmi first c
unfolding cap_event_names_long
cap_long o out pmi first c =
    let num : codes "\t, \"" ++ o.name ++ codes "_numEvents\"\n"
        ≡ codes "\t, \"" ++ full_name (as_top o) (codes "numEvents") ++ codes "\"\n" =
      rw top_name (simp append_assoc) in
    let cap : codes "\t, \"" ++ o.name ++ codes "_noEvent\"\n"
        ≡ codes "\t, \"" ++ full_name (as_top o) (codes "noEvent") ++ codes "\"\n" =
      rw top_name (simp append_assoc) in
    elim (Bool-cases (returns_events o)) [
      | inl b ↦
          rw b
            (ap (λ (t : Text). helper t pmi first c) (ap₂ (λ (s t : Text). out ++ s ++ t) cap num))
      | inr b ↦ rw b (ap (λ (t : Text). helper (out ++ t) pmi first c) num)
    ]

-- What the arrays hold of a machine whose `ufMachineName` is its own name.
abbrev pub own_texts : Bool → Own → List Text → List Text
own_texts short o ns = map (λ n. entry_text short (as_top o, n)) ns

abbrev pub event_array : Bool → MachineNames → Own → MachineList → Text
event_array short names o subs =
    quoted_lines short
      (own_lines true
        (debug_start (if short then names.uc_machine_name else names.ucfq_machine_name) names
          (as_top o)).fout
        (own_texts short o (names_of o.event_list)))
      (other_entries o subs)

abbrev pub state_cap : Bool → MachineNames → Own → Text
state_cap short names o =
    if o.actions_return_states
    then (if short
        then codes "\t,\"noTransition\"\n"
        else codes "\t, \"" ++ names.fq_machine_name ++ codes "_noTransition\"\n")
    else []

abbrev pub debug_text : Bool → MachineNames → Own → MachineList → Text
debug_text short names o subs =
    own_lines true
      (event_array short names o subs
        ++ codes "};\n\n"
        ++ (codes "char *" ++ names.uc_machine_name ++ codes "_STATE_NAMES[] = {\n"))
      (own_texts short o o.state_list)
    ++ state_cap short names o
    ++ codes "};\n\n"
    ++ codes "#endif\n"

-- Iterations over equal lists.
map_long :
    (names : MachineNames) (o : Own) (ns : List Text)
    → names.uf_machine_name ≡ o.name
    → map (λ n. names.uf_machine_name ++ codes "_" ++ n) ns ≡ own_texts false o ns
map_long names o [] h = refl
map_long names o (n ∷ ns) h =
    ap₂ (λ (x : Text) (xs : List Text). x ∷ xs)
      (ap (λ (t : Text). t ++ codes "_" ++ n) h ∙ sym (top_name o n)) (map_long names o ns h)

map_short : (o : Own) (ns : List Text) → ns ≡ own_texts true o ns
map_short o [] = refl
map_short o (n ∷ ns) = ap (λ (xs : List Text). n ∷ xs) (map_short o ns)

state_capped_short :
    (names : MachineNames) (o : Own) (pih : Helper)
    → debug_end (cap_state_names_short o pih)
      ≡ pih.fout ++ state_cap true names o ++ codes "};\n\n" ++ codes "#endif\n"
unfolding cap_state_names_short
state_capped_short names o pih = elim (Bool-cases o.actions_return_states) [
  | inl b ↦ rw b refl
  | inr b ↦
      rw b (ap (λ (t : Text). t ++ codes "};\n\n" ++ codes "#endif\n") (sym (append-nil pih.fout)))
]

state_capped_long :
    (names : MachineNames) (o : Own) (pih : Helper)
    → debug_end (cap_state_names_long names o pih)
      ≡ pih.fout ++ state_cap false names o ++ codes "};\n\n" ++ codes "#endif\n"
unfolding cap_state_names_long
state_capped_long names o pih = elim (Bool-cases o.actions_return_states) [
  | inl b ↦ rw b refl
  | inr b ↦
      rw b (ap (λ (t : Text). t ++ codes "};\n\n" ++ codes "#endif\n") (sym (append-nil pih.fout)))
]

-- The events' part and the states' part, for either way of writing the names.
module _ (short : Bool) (names : MachineNames) (o : Own) (subs : MachineList)
    (each : Text → Helper → Bool × Helper) (cap_events cap_states : Helper → Helper)
    (texts : List Text → List Text)
    (own_written : (ns : List Text) (out : Text) (pmi : Machine) (first : Bool) (c : ℕ)
      → iterate each ns (helper out pmi first c)
        ≡ helper (own_lines first out (texts ns)) pmi (first_left first ns) c)
    (same : (ns : List Text) → texts ns ≡ own_texts short o ns)
    (capped : (out : Text) (pmi : Machine) (first : Bool) (c : ℕ)
      → cap_events (helper out pmi first c)
        ≡ helper (quoted_lines short out (cap_entries o)) pmi first c)
    (ended : (pih : Helper)
      → debug_end (cap_states pih)
        ≡ pih.fout ++ state_cap short names o ++ codes "};\n\n" ++ codes "#endif\n") where
  start : Helper
  start =
      debug_start (if short then names.uc_machine_name else names.ucfq_machine_name) names
        (as_top o)

  own_events : Text
  own_events = own_lines true start.fout (own_texts short o (names_of o.event_list))

  event_array-text :
      (each_event_names short subs
        (as_top o)
        (cap_events (iterate each (names_of o.event_list) start))).fout
      ≡ event_array short names o subs
  unfolding start own_events
  event_array-text =
      let top : Machine = as_top o in
      let left : Bool = first_left true (names_of o.event_list) in
      let finish : Helper → Text = λ q. (each_event_names short subs top (cap_events q)).fout in
      ap finish (own_written (names_of o.event_list) start.fout top true 0)
      ∙ ap (λ (ts : List Text). finish (helper (own_lines true start.fout ts) top left 0))
          (same (names_of o.event_list))
      ∙ ap (λ (q : Helper). (each_event_names short subs top q).fout) (capped own_events top left 0)
      ∙ each_nested short subs top
          (helper (quoted_lines short own_events (cap_entries o)) top left 0)
      ∙ sym (quoted_lines-append short own_events (cap_entries o) (each_entries subs top))

  debug_info-text :
      debug_end (
        cap_states (
          iterate each o.state_list (
            state_names_start names (
              each_event_names short subs
                (as_top o)
                (cap_events (iterate each (names_of o.event_list) start))))))
      ≡ debug_text short names o subs
  unfolding start
  debug_info-text =
      let h : Helper =
        each_event_names short subs (as_top o)
          (cap_events (iterate each (names_of o.event_list) start)) in
      let between : Text → Text = λ t.
        t
        ++ codes "};\n\n"
        ++ (codes "char *" ++ names.uc_machine_name ++ codes "_STATE_NAMES[] = {\n") in
      let tail : Text → Text =
        λ t. t ++ state_cap short names o ++ codes "};\n\n" ++ codes "#endif\n" in
      ended (iterate each o.state_list (state_names_start names h))
      ∙ ap (λ (q : Helper). tail q.fout)
          (own_written o.state_list (between h.fout) h.pmi true h.counter0)
      ∙ ap (λ (ts : List Text). tail (own_lines true (between h.fout) ts)) (same o.state_list)
      ∙ ap (λ (t : Text). tail (own_lines true (between t) (own_texts short o o.state_list)))
          event_array-text

pub write_debug_info-text :
    (short : Bool) (names : MachineNames) (o : Own) (subs : MachineList)
    → names.uf_machine_name ≡ o.name
    → write_debug_info short names (machine_info o subs) (as_top o) ≡ debug_text short names o subs
unfolding write_debug_info write_debug_info_short write_debug_info_long start
write_debug_info-text true names o subs uf =
    debug_info-text true names o subs print_quoted_pid_name_as_list_element
      (cap_event_names_short o) (cap_state_names_short o) (λ ns. ns) own_short (map_short o)
      (cap_short o) (state_capped_short names o)
write_debug_info-text false names o subs uf =
    debug_info-text false names o subs (print_quoted_pid_name_with_ancestry_as_list_element names)
      (cap_event_names_long o) (cap_state_names_long names o)
      (map (λ n. names.uf_machine_name ++ codes "_" ++ n)) (own_long names)
      (λ ns. map_long names o ns uf) (cap_long o) (state_capped_long names o)
