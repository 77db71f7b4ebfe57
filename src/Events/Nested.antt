-- ===== src/Events/Nested.antt =====
-- What becomes of the event enumeration where the last sub-machine of a sub-machine has sub-machines
-- itself.
use fsm_lang.Base.{
  ℕ, suc, ◌+◌, ◌≡◌, refl, ◌∙◌, ap, true, inl, inr, some, List, [], ◌∷◌, ◌++◌, append-nil,
  append_assoc, sym, length, Text, codes,
}
use fsm_lang.Ancestry.{Machine}
use fsm_lang.Ancestry.Join.{nonempty}
use fsm_lang.Events.{
  Own, MachineInfo, MachineList, machine_info, no_machines, machine, own, as_sub, last_member,
  full_name, Helper, print_sub_machine_events,
}
use fsm_lang.Events.Enumerators.{
  Enumerator, enumerator, next_value, same_as, lines, event_enumerators, sub_enumerators,
  nested_enumerators, each_sub_enumerators,
}
use fsm_lang.Events.Written.{Counted, print_sub_machine_events-lines}
use fsm_lang.Events.Values.{
  Values, value_of, declare, declare-append, declare-same_as, declare-next, declared_end,
}
use fsm_lang.Events.Blocks.{
  event_block, size, size_list, block, nested_block, each_block, NestedLastLeaf, EachLastLeaf,
  events_declared, nested_declared, each_declared,
}
use fsm_lang.Events.Names.{Declared, each_block-Extends}
use fsm_lang.Events.Finder.{first_event_of_sub}

-- A list of machines with one more at its end.
abbrev pub with_last : MachineList → MachineInfo → MachineList
with_last no_machines last = machine last no_machines
with_last (machine m rest) last = machine m (with_last rest last)

last_member-with_last :
    (m : MachineInfo) (front : MachineList) (last : MachineInfo)
    → last_member m (with_last front last) ≡ last
last_member-with_last m no_machines last = refl
last_member-with_last m (machine m' rest) last = last_member-with_last m' rest last

each-with_last :
    (front : MachineList) (last : MachineInfo) (pmi : Machine)
    → each_sub_enumerators (with_last front last) pmi
      ≡ each_sub_enumerators front pmi ++ sub_enumerators last pmi
each-with_last no_machines last pmi = append-nil (sub_enumerators last pmi)
each-with_last (machine m rest) last pmi =
    ap (λ (es : List Enumerator). sub_enumerators m pmi ++ es) (each-with_last rest last pmi)
    ∙ sym (
        append_assoc (sub_enumerators m pmi) (each_sub_enumerators rest pmi)
          (sub_enumerators last pmi))

-- `lastEvent` stands behind the machines, set to the `noEvent` of the last one.
abbrev pub last_event : MachineInfo → Machine → Enumerator
last_event last pmi =
    enumerator (full_name pmi (codes "lastEvent"))
      (same_as (full_name (as_sub pmi (own last)) (codes "noEvent")))

nested-with_last :
    (front : MachineList) (last : MachineInfo) (pmi : Machine)
    → nested_enumerators (with_last front last) pmi
      ≡ each_sub_enumerators front pmi ++ (sub_enumerators last pmi ++ (last_event last pmi ∷ []))
nested-with_last front last pmi =
    behind front
    ∙ ap (λ (es : List Enumerator). es ++ (last_event last pmi ∷ []))
        (each-with_last front last pmi)
    ∙ append_assoc (each_sub_enumerators front pmi) (sub_enumerators last pmi)
        (last_event last pmi ∷ [])
  where
    behind :
        (xs : MachineList)
        → nested_enumerators (with_last xs last) pmi
          ≡ each_sub_enumerators (with_last xs last) pmi ++ (last_event last pmi ∷ [])
    behind no_machines = refl
    behind (machine m rest) =
        ap
          (λ (l : MachineInfo).
            each_sub_enumerators (with_last (machine m rest) last) pmi ++ (last_event l pmi ∷ []))
          (last_member-with_last m rest last)

-- A machine `a` whose last sub-machine is `b`, of which `c` is the first; those of `a` before `b`
-- are `front`.
module _ (a b c : Own) (front inside others : MachineList) (parent : Machine) (n : ℕ)
    (vs : Values) where
  abbrev pub inner : MachineInfo
  inner = machine_info b (machine (machine_info c inside) others)

  abbrev pub outer : MachineInfo
  outer = machine_info a (with_last front inner)

  abbrev pub a_names : Machine
  a_names = as_sub parent a

  abbrev pub b_names : Machine
  b_names = as_sub a_names b

  abbrev pub c_names : Machine
  c_names = as_sub b_names c

  -- What is declared before the sub-machines of `a`, and before `b`, whose first value is `b_start`.
  abbrev pub a_values : Values
  a_values =
      (full_name a_names (codes "noEvent"), n + length a.event_list)
      ∷ event_block a_names a.event_list n vs

  abbrev pub front_values : Values
  front_values = each_block front a_names (suc (n + length a.event_list)) a_values

  abbrev pub b_start : ℕ
  b_start = suc (n + length a.event_list) + size_list front

  -- The value of the `noEvent` of `b`, and what is declared before the sub-machines of `b`.
  abbrev pub b_no_event : ℕ
  b_no_event = b_start + length b.event_list

  abbrev pub b_values : Values
  b_values =
      (full_name b_names (codes "noEvent"), b_no_event)
      ∷ event_block b_names b.event_list b_start front_values

  -- What is declared behind them.
  abbrev pub inner_values : Values
  inner_values =
      nested_block (machine (machine_info c inside) others) b_names (suc b_no_event) b_values

  b_declared :
      (external : Text → ℕ)
      → NestedLastLeaf (machine (machine_info c inside) others)
      → declare external (sub_enumerators inner a_names) b_start front_values
        ≡ some (suc b_no_event + size_list (machine (machine_info c inside) others), inner_values)
  b_declared external leaf =
      let f : Text = full_name b_names (codes "noEvent") in
      let subs : MachineList = machine (machine_info c inside) others in
      declare-append external (event_enumerators b_names b.event_list)
        (enumerator f next_value ∷ nested_enumerators subs b_names) b_start b_no_event front_values
        (event_block b_names b.event_list b_start front_values)
        (events_declared external b.event_list b_names b_start front_values)
      ∙ declare-next external f (nested_enumerators subs b_names) b_no_event
          (event_block b_names b.event_list b_start front_values)
      ∙ nested_declared external subs b_names (suc b_no_event) b_values leaf

  -- The sub-machines of `a` and its `lastEvent`.
  nested_collision :
      (external : Text → ℕ)
      → EachLastLeaf front
      → NestedLastLeaf (machine (machine_info c inside) others)
      → value_of (full_name b_names (codes "noEvent")) inner_values ≡ some b_no_event
      → declare external
          (nested_enumerators (with_last front inner) a_names)
          (suc (n + length a.event_list))
          a_values
        ≡ some (suc b_no_event, (full_name a_names (codes "lastEvent"), b_no_event) ∷ inner_values)
  nested_collision external flat leaf fresh =
      let l : Text = full_name a_names (codes "lastEvent") in
      let start : ℕ = suc (n + length a.event_list) in
      let end : ℕ = suc b_no_event + size_list (machine (machine_info c inside) others) in
      let last : Enumerator = last_event inner a_names in
      ap (λ (es : List Enumerator). declare external es start a_values)
        (nested-with_last front inner a_names)
      ∙ declare-append external (each_sub_enumerators front a_names)
          (sub_enumerators inner a_names ++ (last ∷ [])) start b_start a_values front_values
          (each_declared external front a_names start a_values flat)
      ∙ declare-append external (sub_enumerators inner a_names) (last ∷ []) b_start end front_values
          inner_values (b_declared external leaf)
      ∙ declare-same_as external l (full_name b_names (codes "noEvent")) [] end b_no_event
          inner_values fresh
      ∙ declared_end external (suc b_no_event) (suc b_no_event) ((l, b_no_event) ∷ inner_values)
          refl

  -- Where the last sub-machine of a sub-machine, whatever sub-machines stand before it, has
  -- sub-machines itself, `lastEvent` of the outer one is set to the `noEvent` of that last
  -- sub-machine, and the enumerator written next gets the value that the first event of the nested
  -- sub-machine has already. The name of that `noEvent` was given no other value behind it, the
  -- first nested sub-machine has an event, no other last sub-machine of a sub-machine has
  -- sub-machines, and no machine has 2 ^ 32 events.
  pub print_sub_machine_events-collision :
      (external : Text → ℕ)
      → EachLastLeaf front
      → NestedLastLeaf (machine (machine_info c inside) others)
      → nonempty c.event_list ≡ true
      → value_of (full_name b_names (codes "noEvent")) inner_values ≡ some b_no_event
      → Counted outer
      → (pih : Helper)
      → (vs' : Values) × ((print_sub_machine_events outer parent pih).fout
          ≡ lines pih.fout (sub_enumerators outer parent))
        × (declare external (sub_enumerators outer parent) n vs ≡ some (suc b_no_event, vs'))
        × Declared (full_name a_names (codes "lastEvent"), b_no_event) vs'
        × Declared (full_name c_names (codes "firstEvent"), suc b_no_event) vs'
  print_sub_machine_events-collision external flat leaf some_event fresh counted pih =
      let f : Text = full_name a_names (codes "noEvent") in
      let k : ℕ = n + length a.event_list in
      let before : Values = event_block a_names a.event_list n vs in
      let nested : List Enumerator = nested_enumerators (with_last front inner) a_names in
      (
        (full_name a_names (codes "lastEvent"), b_no_event) ∷ inner_values,
        ap (λ (q : Helper). q.fout)
            (print_sub_machine_events-lines outer parent pih.fout pih.pmi pih.first pih.counter0
              counted),
        declare-append external (event_enumerators a_names a.event_list)
              (enumerator f next_value ∷ nested) n k vs before
              (events_declared external a.event_list a_names n vs)
            ∙ declare-next external f nested k before
            ∙ nested_collision external flat leaf fresh,
        inl refl,
        inr (
            inr (
              each_block-Extends others b_names (suc b_no_event + size (machine_info c inside))
                (block (machine_info c inside) b_names (suc b_no_event) b_values)
                (full_name c_names (codes "firstEvent"), suc b_no_event)
                (first_event_of_sub (machine_info c inside) b_names (suc b_no_event) b_values
                  some_event))),
      )
