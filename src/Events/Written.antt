-- ===== src/Events/Written.antt =====
-- What `print_sub_machine_events` writes, as the lines of enumerators.
use fsm_lang.Base.{
  ℕ, suc, ◌+◌, ◌<◌, ◌≡◌, refl, ◌∙◌, ap, sym, arith, Bool, false, List, [], ◌∷◌, ◌++◌, map,
  append_assoc, ◌==◌, u32, length, Text, codes,
}
use fsm_lang.Ancestry.{Machine}
use fsm_lang.Sequence.{iterate}
use fsm_lang.Counts.{with_ordinals}
use fsm_lang.Events.{
  EventInfo, MachineInfo, MachineList, machine_info, no_machines, machine, own, as_sub, last_member,
  Helper, write, write_name, full_name, print_sub_machine_event, print_sub_machine_events,
  nested_events, each_sub_machine_events,
}
use fsm_lang.Events.Enumerators.{
  Enumerator, enumerator, next_value, same_as, lines, line, lines-append, plain, event_enumerators,
  sub_enumerators, nested_enumerators, each_sub_enumerators,
}

-- A helper with everything known.
abbrev pub helper : Text → Machine → Bool → ℕ → Helper
helper out pmi first counter0 = record { fout = out; pmi = pmi; first = first; counter0 = counter0 }

-- The pieces of a line, written one after another.
pub three : (out a b c : Text) → out ++ a ++ b ++ c ≡ out ++ (a ++ b ++ c)
three out a b c = ap (λ (t : Text). t ++ c) (append_assoc out a b) ∙ append_assoc out (a ++ b) c

plain_line :
    (out n : Text)
    → out ++ codes "\t, " ++ n ++ codes "\n" ≡ out ++ line (codes "\t, ") (enumerator n next_value)
plain_line out n = simp append_assoc

same_line :
    (out n k : Text)
    → out ++ codes "\t, " ++ n ++ codes " = " ++ k ++ codes "\n"
      ≡ out ++ line (codes "\t, ") (enumerator n (same_as k))
same_line out n k = simp append_assoc

-- The two lines that the first event of a sub-machine gives.
first_lines :
    (out f e : Text)
    → out ++ codes "\t, " ++ f ++ codes "\n\t, " ++ e ++ codes " = " ++ f ++ codes "\n"
      ≡ lines out (enumerator f next_value ∷ enumerator e (same_as f) ∷ [])
first_lines out f e = simp append_assoc

ordinal_ne_zero : (n : ℕ) → suc n < 4294967296 → (u32 (suc n) == 0) ≡ false
ordinal_ne_zero n h = ground arith

other_events :
    (n : ℕ) (es : List EventInfo) (out : Text) (pmi : Machine) (first : Bool) (c : ℕ)
    → n + length es < 4294967296
    → iterate print_sub_machine_event (with_ordinals (suc n) es) (helper out pmi first c)
      ≡ helper (lines out (map (plain pmi) es)) pmi first c
unfolding iterate print_sub_machine_event
other_events n [] out pmi first c h = refl
other_events n (e ∷ es) out pmi first c h = rw (ordinal_ne_zero n (omega arith)) (
    other_events (suc n) es (out ++ codes "\t, " ++ full_name pmi e.name ++ codes "\n") pmi first c
      (omega arith)
    ∙ ap (λ (t : Text). helper (lines t (map (plain pmi) es)) pmi first c)
        (plain_line out (full_name pmi e.name)))

events_written :
    (es : List EventInfo) (out : Text) (pmi : Machine) (first : Bool) (c : ℕ)
    → length es < 4294967296
    → iterate print_sub_machine_event (with_ordinals 0 es) (helper out pmi first c)
      ≡ helper (lines out (event_enumerators pmi es)) pmi first c
unfolding iterate print_sub_machine_event
events_written [] out pmi first c h = refl
events_written (e ∷ es) out pmi first c h =
    other_events 0 es
      (out
        ++ codes "\t, "
        ++ full_name pmi (codes "firstEvent")
        ++ codes "\n\t, "
        ++ full_name pmi e.name
        ++ codes " = "
        ++ full_name pmi (codes "firstEvent")
        ++ codes "\n")
      pmi first c (omega arith)
    ∙ ap (λ (t : Text). helper (lines t (map (plain pmi) es)) pmi first c)
        (first_lines out (full_name pmi (codes "firstEvent")) (full_name pmi e.name))

-- No machine has so many events that the ordinals wrap.
abbrev mutual
  pub Counted : MachineInfo → Type 0
  Counted (machine_info o subs) = (length o.event_list < 4294967296) × EachCounted subs

  pub EachCounted : MachineList → Type 0
  EachCounted no_machines = Unit {0}
  EachCounted (machine m rest) = Counted m × EachCounted rest

-- Where `pmi` stands after a list of sub-machines.
abbrev pub last_at : MachineList → Machine → Machine → Machine
last_at no_machines pmi at = at
last_at (machine m rest) pmi at = last_at rest pmi (as_sub pmi (own m))

abbrev no_event : Helper → Helper
no_event q = write (codes "\n") (write_name (codes "noEvent") (write (codes "\t, ") q))

mutual
  unfolding print_sub_machine_events

  -- What is left in `pmi` depends on the machine; every reader of it sets it first.
  pub print_sub_machine_events-lines :
      (m : MachineInfo) (parent : Machine) (out : Text) (pmi : Machine) (first : Bool) (c : ℕ)
      → Counted m
      → print_sub_machine_events m parent (helper out pmi first c)
        ≡ helper (lines out (sub_enumerators m parent)) (as_sub parent (own m)) false c
  print_sub_machine_events-lines (machine_info o subs) parent out pmi first c (h, hs) =
      let pmi' : Machine = as_sub parent o in
      let before : Text = lines out (event_enumerators pmi' o.event_list) in
      ap (λ (q : Helper). nested_events subs pmi' (no_event q))
        (events_written o.event_list out pmi' false c h)
      ∙ nested_events-lines subs pmi'
          (before ++ codes "\t, " ++ full_name pmi' (codes "noEvent") ++ codes "\n") c hs
      ∙ ap (λ (t : Text). helper (lines t (nested_enumerators subs pmi')) pmi' false c)
          (plain_line before (full_name pmi' (codes "noEvent")))
      ∙ ap (λ (t : Text). helper t pmi' false c)
          (sym (
            lines-append out (event_enumerators pmi' o.event_list) (
              enumerator (full_name pmi' (codes "noEvent")) next_value
              ∷ nested_enumerators subs pmi')))

  nested_events-lines :
      (subs : MachineList) (pmi : Machine) (out : Text) (c : ℕ)
      → EachCounted subs
      → nested_events subs pmi (helper out pmi false c)
        ≡ helper (lines out (nested_enumerators subs pmi)) pmi false c
  nested_events-lines no_machines pmi out c h = refl
  nested_events-lines (machine m rest) pmi out c (h, hs) =
      let last : Text = full_name (as_sub pmi (own (last_member m rest))) (codes "noEvent") in
      let mine : Text = full_name pmi (codes "lastEvent") in
      let inner : List Enumerator = sub_enumerators m pmi ++ each_sub_enumerators rest pmi in
      rw
        (
          print_sub_machine_events-lines m pmi out pmi false c h,
          each_sub_machine_events-lines rest pmi (lines out (sub_enumerators m pmi))
              (as_sub pmi (own m)) c hs,
        )
        (ap (λ (t : Text). helper t pmi false c)
          (ap (λ (t : Text). t ++ codes "\t, " ++ mine ++ codes " = " ++ last ++ codes "\n")
              (sym (lines-append out (sub_enumerators m pmi) (each_sub_enumerators rest pmi)))
            ∙ same_line (lines out inner) mine last
            ∙ sym (lines-append out inner (enumerator mine (same_as last) ∷ []))))

  pub each_sub_machine_events-lines :
      (subs : MachineList) (pmi : Machine) (out : Text) (at : Machine) (c : ℕ)
      → EachCounted subs
      → each_sub_machine_events subs pmi (helper out at false c)
        ≡ helper (lines out (each_sub_enumerators subs pmi)) (last_at subs pmi at) false c
  each_sub_machine_events-lines no_machines pmi out at c h = refl
  each_sub_machine_events-lines (machine m rest) pmi out at c (h, hs) =
      rw (print_sub_machine_events-lines m pmi out at false c h) (
        each_sub_machine_events-lines rest pmi (lines out (sub_enumerators m pmi))
          (as_sub pmi (own m)) c hs
        ∙ ap (λ (t : Text). helper t (last_at rest pmi (as_sub pmi (own m))) false c)
            (sym (lines-append out (sub_enumerators m pmi) (each_sub_enumerators rest pmi))))
