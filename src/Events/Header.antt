-- ===== src/Events/Header.antt =====
-- The event enumeration that `commonHeaderStart` writes, as the lines of its enumerators.
use fsm_lang.Base.{
  ℕ, ◌≡◌, refl, ◌∙◌, ap, sym, Bool, true, false, List, [], ◌∷◌, ◌++◌, map, append_assoc,
  if◌then◌else◌, Text, codes, Bool-cases, inl, inr,
}
use fsm_lang.Ancestry.{Machine, print_ancestry, print_name_with_ancestry, stream_str_case_aware}
use fsm_lang.Ancestry.Join.{nonempty}
use fsm_lang.Sequence.{iterate}
use fsm_lang.Events.{
  EventInfo, Own, MachineList, machine_info, no_machines, machine, as_top, Helper, write, full_name,
  returns_events, assign_external_event_values, print_event_enum_member, write_event_enum,
  cap_events, number_events, number_all_events, each_sub_machine_events,
}
use fsm_lang.Events.Enumerators.{
  Enumerator, lines, line, lines-append, enum_lines, member, no_event, num_events, num_all_events,
  event_enum, each_sub_enumerators,
}
use fsm_lang.Events.Written.{helper, EachCounted, each_sub_machine_events-lines, last_at}

pub top_name : (o : Own) (n : Text) → full_name (as_top o) n ≡ o.name ++ codes "_" ++ n
unfolding print_name_with_ancestry print_ancestry stream_str_case_aware
top_name o n = refl

-- One event behind what was written.
member-line :
    (compact : Bool) (o : Own) (e : EventInfo) (out : Text) (first : Bool) (c : ℕ)
    → (print_event_enum_member compact o e (helper out (as_top o) first c)).1
      ≡ helper
          (out ++ line (if first then codes "\t " else codes "\t, ") (member compact o e))
          (as_top o)
          false
          c
unfolding print_event_enum_member
member-line compact o e out first c =
    rw top_name (elim (Bool-cases (assign_external_event_values compact o)) [
      | inl used ↦ rw used (ap (λ (t : Text). helper t (as_top o) false c) (simp append_assoc))
      | inr unused ↦ rw unused (ap (λ (t : Text). helper t (as_top o) false c) (simp append_assoc))
    ])

module _ (compact : Bool) (o : Own) where
  other_members :
      (es : List EventInfo) (out : Text) (c : ℕ)
      → iterate (print_event_enum_member compact o) es (helper out (as_top o) false c)
        ≡ helper (lines out (map (member compact o) es)) (as_top o) false c
  unfolding iterate print_event_enum_member
  other_members [] out c = refl
  other_members (e ∷ es) out c =
      ap (iterate (print_event_enum_member compact o) es) (member-line compact o e out false c)
      ∙ other_members es (out ++ line (codes "\t, ") (member compact o e)) c

  members_written :
      (es : List EventInfo) (out : Text) (c : ℕ)
      → nonempty es ≡ true
      → iterate (print_event_enum_member compact o) es (helper out (as_top o) true c)
        ≡ helper (enum_lines out (map (member compact o) es)) (as_top o) false c
  unfolding iterate print_event_enum_member
  members_written [] out c h = cc
  members_written (e ∷ es) out c h =
      ap (iterate (print_event_enum_member compact o) es) (member-line compact o e out true c)
      ∙ other_members es (out ++ line (codes "\t ") (member compact o e)) c

  cap_events-lines :
      (out : Text) (pmi : Machine) (first : Bool) (c : ℕ)
      → cap_events o (helper out pmi first c) ≡ helper (lines out (no_event o)) pmi first c
  unfolding cap_events
  cap_events-lines out pmi first c = rw top_name (elim (Bool-cases (returns_events o)) [
    | inl b ↦ rw b (ap (λ (t : Text). helper t pmi first c) (simp append_assoc))
    | inr b ↦ rw b
  ])

  number_events-lines :
      (out : Text) (pmi : Machine) (first : Bool) (c : ℕ)
      → number_events compact o (helper out pmi first c)
        ≡ helper (lines out (num_events compact o ∷ [])) pmi first c
  unfolding number_events
  number_events-lines out pmi first c =
      rw top_name (elim (Bool-cases (assign_external_event_values compact o)) [
        | inl b ↦ rw b (ap (λ (t : Text). helper t pmi first c) (simp append_assoc))
        | inr b ↦ rw b (ap (λ (t : Text). helper t pmi first c) (simp append_assoc))
      ])

  number_all_events-lines :
      (subs : MachineList) (out : Text) (pmi : Machine) (first : Bool) (c : ℕ)
      → number_all_events o subs (helper out pmi first c)
        ≡ helper (lines out (num_all_events o subs ∷ [])) pmi first c
  unfolding number_all_events
  number_all_events-lines no_machines out pmi first c =
      rw (top_name o (codes "numAllEvents"), top_name o (codes "numEvents"))
        (ap (λ (t : Text). helper t pmi first c) (simp append_assoc))
  number_all_events-lines (machine m rest) out pmi first c =
      rw top_name (ap (λ (t : Text). helper t pmi first c) (simp append_assoc))

enum_lines-append :
    (out : Text) (xs ys : List Enumerator)
    → nonempty xs ≡ true
    → enum_lines out (xs ++ ys) ≡ lines (enum_lines out xs) ys
enum_lines-append out [] ys h = cc
enum_lines-append out (x ∷ xs) ys h = lines-append (out ++ line (codes "\t ") x) xs ys

-- The lines of all parts.
all_lines :
    (out : Text) (ms cap : List Enumerator) (n : Enumerator) (subs rest : List Enumerator)
    → nonempty ms ≡ true
    → enum_lines out (ms ++ (cap ++ (n ∷ (subs ++ rest))))
      ≡ lines (lines (lines (lines (enum_lines out ms) cap) (n ∷ [])) subs) rest
all_lines out ms cap n subs rest h =
    enum_lines-append out ms (cap ++ (n ∷ (subs ++ rest))) h
    ∙ lines-append (enum_lines out ms) cap (n ∷ (subs ++ rest))
    ∙ lines-append (lines (lines (enum_lines out ms) cap) (n ∷ [])) subs rest

nonempty-map {ℓ κ} :
    {A : Type ℓ} {B : Type κ} (f : A → B) (xs : List A)
    → nonempty xs ≡ true
    → nonempty (map f xs) ≡ true
nonempty-map f [] h = cc
nonempty-map f (x ∷ xs) h = refl

abbrev pub enum_start : Text → Text
enum_start event_type = codes "typedef enum " ++ event_type ++ codes " {\n"

abbrev pub enum_end : Bool → Text → Text
enum_end compact event_type =
    codes "}"
    ++ (if compact then codes "__attribute__((__packed__)) " else codes " ")
    ++ codes " "
    ++ event_type
    ++ codes ";\n\n"

pub write_event_enum-lines :
    (compact : Bool) (o : Own) (subs : MachineList) (event_type : Text)
    → nonempty o.event_list ≡ true
    → EachCounted subs
    → write_event_enum compact (machine_info o subs) event_type
      ≡ enum_lines (enum_start event_type) (event_enum compact (machine_info o subs))
        ++ enum_end compact event_type
unfolding write_event_enum
write_event_enum-lines compact o subs event_type some_event counted =
    let ms : List Enumerator = map (member compact o) o.event_list in
    let after : Text = enum_lines (enum_start event_type) ms in
    let capped : Text = lines after (no_event o) in
    let numbered : Text = lines capped (num_events compact o ∷ []) in
    let nested : Text = lines numbered (each_sub_enumerators subs (as_top o)) in
    let close : Helper → Text = λ q. (write (enum_end compact event_type) q).fout in
    ap
      (λ (q : Helper). close (
        number_all_events o subs
          (each_sub_machine_events subs (as_top o) (number_events compact o (cap_events o q)))))
      (members_written compact o o.event_list (enum_start event_type) 0 some_event)
    ∙ ap
        (λ (q : Helper). close (
          number_all_events o subs
            (each_sub_machine_events subs (as_top o) (number_events compact o q))))
        (cap_events-lines compact o after (as_top o) false 0)
    ∙ ap
        (λ (q : Helper).
          close (number_all_events o subs (each_sub_machine_events subs (as_top o) q)))
        (number_events-lines compact o capped (as_top o) false 0)
    ∙ ap (λ (q : Helper). close (number_all_events o subs q))
        (each_sub_machine_events-lines subs (as_top o) numbered (as_top o) 0 counted)
    ∙ ap close
        (number_all_events-lines compact o subs nested (last_at subs (as_top o) (as_top o)) false 0)
    ∙ ap (λ (t : Text). t ++ enum_end compact event_type)
        (sym (
          all_lines (enum_start event_type) ms (no_event o) (num_events compact o)
            (each_sub_enumerators subs (as_top o)) (num_all_events o subs ∷ [])
            (nonempty-map (member compact o) o.event_list some_event)))
