-- ===== src/DebugNames/Order.antt =====
-- The order of the debug names of the events: that of their enumerators' values.
use mathlib.Core.Option
use mathlib.Core.Path.{subst, ap₂}
use fsm_lang.Base.{
  ℕ, zero, suc, Option, ◌≡◌, refl, ◌∙◌, ap, sym, arith, Bool, false, some, List, [], ◌∷◌, ◌++◌, map,
  append_assoc, get_elem?, Text, codes, Bool-cases, inl, inr,
}
use fsm_lang.Ancestry.{Machine}
use fsm_lang.Events.{
  EventInfo, Own, MachineInfo, MachineList, machine_info, no_machines, machine, as_top, as_sub,
  full_name, returns_events, assign_external_event_values,
}
use fsm_lang.Events.Enumerators.{event_enum}
use fsm_lang.Events.Values.{Values, declare}
use fsm_lang.Events.Blocks.{event_names, EachLastLeaf}
use fsm_lang.Events.Names.{sub_names, each_sub_names, number, Declared, AllDeclared}
use fsm_lang.Events.Top.{cap_names, last_names, all_names}
use fsm_lang.Events.Numbered.{all_names_declared}
use fsm_lang.Events.Finder.{number-get_elem?}
use fsm_lang.DebugNames.{MachineNames, write_debug_info}
use fsm_lang.DebugNames.Quoted.{Entry, entry_text, of, sub_entries, each_entries}
use fsm_lang.DebugNames.Arrays.{
  cap_entries, other_entries, all_entries, debug_text, write_debug_info-text,
}

-- The full names of the entries.
abbrev pub full_names : List Entry → List Text
full_names = map (entry_text false)

full_names-append : (xs ys : List Entry) → full_names (xs ++ ys) ≡ full_names xs ++ full_names ys
full_names-append [] ys = refl
full_names-append (x ∷ xs) ys =
    ap (λ (ns : List Text). entry_text false x ∷ ns) (full_names-append xs ys)

full_names-of : (pmi : Machine) (es : List EventInfo) → full_names (of pmi es) ≡ event_names pmi es
full_names-of pmi [] = refl
full_names-of pmi (e ∷ es) =
    ap (λ (ns : List Text). full_name pmi e.name ∷ ns) (full_names-of pmi es)

mutual
  full_names-sub :
      (m : MachineInfo) (parent : Machine) → full_names (sub_entries m parent) ≡ sub_names m parent
  full_names-sub (machine_info o subs) parent =
      full_names-append (of (as_sub parent o) o.event_list)
        ((as_sub parent o, codes "noEvent") ∷ each_entries subs (as_sub parent o))
      ∙ ap₂ (λ (xs ys : List Text). xs ++ (full_name (as_sub parent o) (codes "noEvent") ∷ ys))
          (full_names-of (as_sub parent o) o.event_list) (full_names-each subs (as_sub parent o))

  full_names-each :
      (subs : MachineList) (pmi : Machine)
      → full_names (each_entries subs pmi) ≡ each_sub_names subs pmi
  full_names-each no_machines pmi = refl
  full_names-each (machine m rest) pmi =
      full_names-append (sub_entries m pmi) (each_entries rest pmi)
      ∙ ap₂ (λ (xs ys : List Text). xs ++ ys) (full_names-sub m pmi) (full_names-each rest pmi)

full_names-cap :
    (o : Own)
    → full_names (cap_entries o) ≡ cap_names o ++ (full_name (as_top o) (codes "numEvents") ∷ [])
full_names-cap o = elim (Bool-cases (returns_events o)) [ inl b ↦ rw b refl | inr b ↦ rw b refl ]

regroup : (a b c d e : List Text) → (a ++ (b ++ c ++ d)) ++ e ≡ a ++ (b ++ (c ++ (d ++ e)))
regroup a b c d e = simp append_assoc

-- All names but `numAllEvents`.
full_names-all :
    (o : Own) (subs : MachineList)
    → full_names (all_entries o subs) ++ last_names o subs ≡ all_names o subs
full_names-all o subs =
    let own : List Text = event_names (as_top o) o.event_list in
    let num : List Text = full_name (as_top o) (codes "numEvents") ∷ [] in
    let nested : List Text = each_sub_names subs (as_top o) in
    ap (λ (ns : List Text). ns ++ last_names o subs)
      (full_names-append (of (as_top o) o.event_list) (other_entries o subs)
        ∙ ap₂ (λ (xs ys : List Text). xs ++ ys) (full_names-of (as_top o) o.event_list)
            (full_names-append (cap_entries o) (each_entries subs (as_top o))
              ∙ ap₂ (λ (xs ys : List Text). xs ++ ys) (full_names-cap o)
                  (full_names-each subs (as_top o))))
    ∙ regroup own (cap_names o) num nested (last_names o subs)

AllDeclared-prefix :
    (xs ys : List Text) (n : ℕ) (vs : Values)
    → AllDeclared (number n (xs ++ ys)) vs
    → AllDeclared (number n xs) vs
AllDeclared-prefix [] ys n vs h = tt
AllDeclared-prefix (x ∷ xs) ys n vs (h, hs) = (h, AllDeclared-prefix xs ys (suc n) vs hs)

get_elem?-full_names :
    (xs : List Entry) (i : ℕ) (x : Entry)
    → get_elem? xs i ≡ some x
    → get_elem? (full_names xs) i ≡ some (entry_text false x)
get_elem?-full_names [] i x h = cc
get_elem?-full_names (y ∷ xs) zero x h =
    ap (λ (o : Option Entry). Option.map (entry_text false) o) h
get_elem?-full_names (y ∷ xs) (suc i) x h = get_elem?-full_names xs i x h

-- `writeDebugInfo` writes, in the short form and in the long one, the array of names in which the
-- string at each position is that of the event whose enumerator has the position for its value, by
-- C's rule. External designations are not used, the unqualified name of the top-level machine is
-- its name, and no last sub-machine of a sub-machine has sub-machines itself.
pub write_debug_info-values :
    (short : Bool) (names : MachineNames) (external : Text → ℕ) (compact : Bool) (o : Own)
    (subs : MachineList) (i : ℕ) (pmi : Machine) (n : Text)
    → names.uf_machine_name ≡ o.name
    → assign_external_event_values compact o ≡ false
    → EachLastLeaf subs
    → get_elem? (all_entries o subs) i ≡ some (pmi, n)
    → (next : ℕ) × (vs : Values) × (write_debug_info short names (machine_info o subs) (as_top o)
        ≡ debug_text short names o subs)
      × (declare external (event_enum compact (machine_info o subs)) 0 [] ≡ some (next, vs))
      × Declared (full_name pmi n, i) vs
write_debug_info-values short names external compact o subs i pmi n uf unused leaf h =
    let (next, vs, declared, all) = all_names_declared external compact o subs unused leaf in
    let listed : AllDeclared (number 0 (full_names (all_entries o subs))) vs =
      AllDeclared-prefix (full_names (all_entries o subs)) (last_names o subs) 0 vs (
        subst (λ (ns : List Text). AllDeclared (number 0 ns) vs) (sym (full_names-all o subs))
          all) in
    (
      next,
      vs,
      write_debug_info-text short names o subs uf,
      declared,
      subst (λ (k : ℕ). Declared (full_name pmi n, k) vs) (omega arith)
          (number-get_elem? (full_names (all_entries o subs)) i 0 (full_name pmi n) vs
            (get_elem?-full_names (all_entries o subs) i (pmi, n) h) listed),
    )
