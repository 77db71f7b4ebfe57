-- ===== src/DebugNames/Quoted.antt =====
-- What the arrays of names hold: the names of the enumerators, in the order of their values.
use fsm_lang.Base.{
  ℕ, ◌≡◌, refl, ◌∙◌, ap, sym, Bool, true, false, List, [], ◌∷◌, ◌++◌, map, append_assoc,
  if◌then◌else◌, Text, codes,
}
use fsm_lang.Ancestry.{Machine, print_name_with_ancestry, stream_str_case_aware}
use fsm_lang.Sequence.{iterate}
use fsm_lang.Events.{
  EventInfo, MachineInfo, MachineList, machine_info, no_machines, machine, as_sub, full_name,
  Helper,
}
use fsm_lang.Events.Written.{helper}
use fsm_lang.DebugNames.{
  MachineNames, print_sub_machine_component_name, cap_names_of, print_sub_machine_event_names,
  each_event_names, print_quoted_pid_name_as_list_element,
  print_quoted_pid_name_with_ancestry_as_list_element,
}

-- A name and the machine that it belongs to; its text in the arrays.
abbrev pub Entry : Type 0
Entry = Machine × Text

abbrev pub entry_text : Bool → Entry → Text
entry_text short (pmi, n) = if short then n else full_name pmi n

abbrev pub of : Machine → List EventInfo → List Entry
of pmi = map (λ e. (pmi, e.name))

abbrev mutual
  pub sub_entries : MachineInfo → Machine → List Entry
  sub_entries (machine_info o subs) parent =
      of (as_sub parent o) o.event_list
      ++ ((as_sub parent o, codes "noEvent") ∷ each_entries subs (as_sub parent o))

  pub each_entries : MachineList → Machine → List Entry
  each_entries no_machines pmi = []
  each_entries (machine m rest) pmi = sub_entries m pmi ++ each_entries rest pmi

-- The lines of the array behind the machine's own events.
abbrev pub quoted_lines : Bool → Text → List Entry → Text
quoted_lines short out [] = out
quoted_lines short out (x ∷ xs) =
    quoted_lines short (out ++ (codes "\t, \"" ++ entry_text short x ++ codes "\"\n")) xs

pub quoted_lines-append :
    (short : Bool) (out : Text) (xs ys : List Entry)
    → quoted_lines short out (xs ++ ys) ≡ quoted_lines short (quoted_lines short out xs) ys
quoted_lines-append short out [] ys = refl
quoted_lines-append short out (x ∷ xs) ys =
    quoted_lines-append short (out ++ (codes "\t, \"" ++ entry_text short x ++ codes "\"\n")) xs ys

-- The lines of a machine's own events or states.
abbrev pub own_lines : Bool → Text → List Text → Text
own_lines first out [] = out
own_lines first out (x ∷ xs) =
    own_lines false
      (out ++ ((if first then codes "\t " else codes "\t,") ++ codes "\"" ++ x ++ codes "\"\n")) xs

abbrev pub first_left : Bool → List Text → Bool
first_left first [] = first
first_left first (x ∷ xs) = false

into : (out a b : Text) → out ++ a ++ b ≡ out ++ (a ++ b)
into out a b = append_assoc out a b

component :
    (short : Bool) (e : EventInfo) (out : Text) (pmi : Machine) (first : Bool) (c : ℕ)
    → (print_sub_machine_component_name short e (helper out pmi first c)).1
      ≡ helper (quoted_lines short out ((pmi, e.name) ∷ [])) pmi first c
unfolding print_sub_machine_component_name print_name_with_ancestry stream_str_case_aware
component true e out pmi first c = refl
component false e out pmi first c = ap (λ (t : Text). helper t pmi first c) (simp append_assoc)

cap_component :
    (short : Bool) (out : Text) (pmi : Machine) (first : Bool) (c : ℕ)
    → cap_names_of short (helper out pmi first c)
      ≡ helper (quoted_lines short out ((pmi, codes "noEvent") ∷ [])) pmi first c
unfolding cap_names_of print_name_with_ancestry stream_str_case_aware
cap_component true out pmi first c = refl
cap_component false out pmi first c = ap (λ (t : Text). helper t pmi first c) (simp append_assoc)

components :
    (short : Bool) (es : List EventInfo) (out : Text) (pmi : Machine) (first : Bool) (c : ℕ)
    → iterate (print_sub_machine_component_name short) es (helper out pmi first c)
      ≡ helper (quoted_lines short out (of pmi es)) pmi first c
unfolding iterate print_sub_machine_component_name
components short [] out pmi first c = refl
components short (e ∷ es) out pmi first c =
    ap (iterate (print_sub_machine_component_name short) es) (component short e out pmi first c)
    ∙ components short es (quoted_lines short out ((pmi, e.name) ∷ [])) pmi first c

mutual
  unfolding print_sub_machine_event_names each_event_names

  -- `pmi` and `first` are read by nobody behind the sub-machines.
  nested_names :
      (short : Bool) (m : MachineInfo) (parent : Machine) (pih : Helper)
      → (print_sub_machine_event_names short m parent pih).fout
        ≡ quoted_lines short pih.fout (sub_entries m parent)
  nested_names short (machine_info o subs) parent pih =
      let self : Machine = as_sub parent o in
      let names : List Entry = of self o.event_list in
      let before : Text = quoted_lines short pih.fout names in
      ap (λ (q : Helper). (each_event_names short subs self (cap_names_of short q)).fout)
        (components short o.event_list pih.fout self false pih.counter0)
      ∙ ap (λ (q : Helper). (each_event_names short subs self q).fout)
          (cap_component short before self false pih.counter0)
      ∙ each_nested short subs self (
          helper (quoted_lines short before ((self, codes "noEvent") ∷ [])) self false pih.counter0)
      ∙ sym (
          quoted_lines-append short pih.fout names
            ((self, codes "noEvent") ∷ each_entries subs self))

  pub each_nested :
      (short : Bool) (subs : MachineList) (pmi : Machine) (pih : Helper)
      → (each_event_names short subs pmi pih).fout
        ≡ quoted_lines short pih.fout (each_entries subs pmi)
  each_nested short no_machines pmi pih = refl
  each_nested short (machine m rest) pmi pih =
      each_nested short rest pmi (print_sub_machine_event_names short m pmi pih)
      ∙ ap (λ (t : Text). quoted_lines short t (each_entries rest pmi))
          (nested_names short m pmi pih)
      ∙ sym (quoted_lines-append short pih.fout (sub_entries m pmi) (each_entries rest pmi))

pub own_long :
    (names : MachineNames) (ns : List Text) (out : Text) (pmi : Machine) (first : Bool) (c : ℕ)
    → iterate
        (print_quoted_pid_name_with_ancestry_as_list_element names)
        ns
        (helper out pmi first c)
      ≡ helper
          (own_lines first out (map (λ n. names.uf_machine_name ++ codes "_" ++ n) ns))
          pmi
          (first_left first ns)
          c
unfolding iterate print_quoted_pid_name_with_ancestry_as_list_element
own_long names [] out pmi first c = refl
own_long names (n ∷ ns) out pmi first c =
    let start : Text = if first then codes "\t " else codes "\t," in
    let full : Text = names.uf_machine_name ++ codes "_" ++ n in
    ap
      (λ (t : Text).
        iterate (print_quoted_pid_name_with_ancestry_as_list_element names) ns
          (helper t pmi false c))
      (into out start (codes "\"" ++ names.uf_machine_name ++ codes "_" ++ n ++ codes "\"\n")
        ∙ ap (λ (t : Text). out ++ t) (simp append_assoc))
    ∙ own_long names ns (out ++ (start ++ codes "\"" ++ full ++ codes "\"\n")) pmi false c
    ∙ ap
        (λ (b : Bool).
          helper (own_lines first out (map (λ x. names.uf_machine_name ++ codes "_" ++ x) (n ∷ ns)))
            pmi b c)
        (left ns)
  where
    left : (xs : List Text) → first_left false xs ≡ false
    left [] = refl
    left (x ∷ xs) = refl

pub own_short :
    (ns : List Text) (out : Text) (pmi : Machine) (first : Bool) (c : ℕ)
    → iterate print_quoted_pid_name_as_list_element ns (helper out pmi first c)
      ≡ helper (own_lines first out ns) pmi (first_left first ns) c
unfolding iterate print_quoted_pid_name_as_list_element
own_short [] out pmi first c = refl
own_short (n ∷ ns) out pmi first c =
    let start : Text = if first then codes "\t " else codes "\t," in
    ap (λ (t : Text). iterate print_quoted_pid_name_as_list_element ns (helper t pmi false c))
      (into out start (codes "\"" ++ n ++ codes "\"\n")
        ∙ ap (λ (t : Text). out ++ t) (simp append_assoc))
    ∙ own_short ns (out ++ (start ++ codes "\"" ++ n ++ codes "\"\n")) pmi false c
    ∙ ap (λ (b : Bool). helper (own_lines first out (n ∷ ns)) pmi b c) (left ns)
  where
    left : (xs : List Text) → first_left false xs ≡ false
    left [] = refl
    left (x ∷ xs) = refl
