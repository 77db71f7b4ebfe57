-- ===== src/Events/Numbered.antt =====
-- The values of the whole event enumeration that `commonHeaderStart` writes.
use fsm_lang.Base.{
  ℕ, suc, ◌+◌, ◌≡◌, refl, ◌∙◌, ap, arith, Bool, true, false, inl, inr, Option, some, List, [], ◌∷◌,
  ◌++◌, map, if◌then◌else◌, length, Text, codes, Bool-cases,
}
use fsm_lang.Ancestry.Join.{nonempty}
use fsm_lang.Events.{
  Own, MachineList, machine_info, as_top, returns_events, assign_external_event_values,
  write_event_enum,
}
use fsm_lang.Events.Enumerators.{
  Enumerator, next_value, constant, enum_lines, member, no_event, num_events, num_all_events,
  event_enum, each_sub_enumerators,
}
use fsm_lang.Events.Written.{EachCounted}
use fsm_lang.Events.Header.{enum_start, enum_end, write_event_enum-lines}
use fsm_lang.Events.Values.{Values, initial, declare, declare-append}
use fsm_lang.Events.Blocks.{push, event_names, EachLastLeaf, plain_declared}
use fsm_lang.Events.Names.{
  number, Declared, AllDeclared, AllDeclared-extend, renumber, number-append, length-event_names,
  push-AllDeclared, push-Extends, each_block-Extends,
}
use fsm_lang.Events.Top.{
  own_name, all_value, after_events, cap_names, names_behind, own_values, push_designated,
  ends_declared, behind_AllDeclared, members_plain, push_designated-AllDeclared,
  designated_declared,
}

module _ (external : Text → ℕ) (compact : Bool) (o : Own) where
  cap_declared :
      (next : ℕ) (vs : Values)
      → declare external (no_event o) next vs
        ≡ some (next + length (cap_names o), push next (cap_names o) vs)
  unfolding declare
  cap_declared next vs = elim (Bool-cases (returns_events o)) [
    | inl b ↦
        rw b (ap (λ (k : ℕ). some (k, (own_name o (codes "noEvent"), next) ∷ vs)) (omega arith))
    | inr b ↦ rw b (ap (λ (k : ℕ). some (k, vs)) (omega arith))
  ]

  num_declared :
      (es : List Enumerator) (next n : ℕ) (vs : Values)
      → initial external next vs (
          if assign_external_event_values compact o
          then constant (length o.event_list)
          else next_value)
        ≡ some n
      → declare external (num_events compact o ∷ es) next vs
        ≡ declare external es (suc n) ((own_name o (codes "numEvents"), n) ∷ vs)
  unfolding declare
  num_declared es next n vs h = rw (h, declare)

  total_declared :
      (subs : MachineList) (next next' n : ℕ) (vs vs' : Values)
      → declare external (map (member compact o) o.event_list) 0 [] ≡ some (next, vs)
      → declare external (no_event o) next vs ≡ some (next', vs')
      → initial external next' vs' (
          if assign_external_event_values compact o
          then constant (length o.event_list)
          else next_value)
        ≡ some n
      → EachLastLeaf subs
      → declare external (event_enum compact (machine_info o subs)) 0 []
        ≡ some (suc (all_value subs n), after_events o subs n vs')
  total_declared subs next next' n vs vs' events cap num leaf =
      let rest : List Enumerator =
        each_sub_enumerators subs (as_top o) ++ (num_all_events o subs ∷ []) in
      declare-append external (map (member compact o) o.event_list)
        (no_event o ++ (num_events compact o ∷ rest)) 0 next [] vs events
      ∙ declare-append external (no_event o) (num_events compact o ∷ rest) next next' vs vs' cap
      ∙ num_declared rest next' n vs' num
      ∙ ends_declared external o subs n vs' leaf

  -- Where the designations are used there is no `noEvent`.
  designated_returns_events :
      assign_external_event_values compact o ≡ true → returns_events o ≡ false
  unfolding assign_external_event_values
  designated_returns_events h = ground arith

  -- The values in either case.
  abbrev pub events_vs : Values
  events_vs =
      if assign_external_event_values compact o
      then push_designated external o o.event_list []
      else push 0 (event_names (as_top o) o.event_list) []

  abbrev pub enum_values : MachineList → Values
  enum_values subs =
      let k : ℕ = length o.event_list in
      after_events o subs (k + length (cap_names o)) (push k (cap_names o) events_vs)

  pub event_enum_declared :
      (subs : MachineList)
      → EachLastLeaf subs
      → declare external (event_enum compact (machine_info o subs)) 0 []
        ≡ some (suc (all_value subs (length o.event_list + length (cap_names o))), enum_values subs)
  event_enum_declared subs leaf = elim (Bool-cases (assign_external_event_values compact o)) [
    | inl used ↦
        let vs : Values = push_designated external o o.event_list [] in
        let (next, events) = designated_declared external compact o o.event_list 0 [] used in
        total_declared subs next (next + c) (k + c) vs (push k (cap_names o) vs) events
          (cap_declared next vs
            ∙ ap (λ (v : Values). some (next + c, v)) (rw (designated_returns_events used) refl))
          (rw (used, designated_returns_events used) (ap some (omega arith))) leaf
        ∙ ap (λ (v : Values). result (push k (cap_names o) v)) (rw used refl)
    | inr unused ↦
        let vs : Values = push 0 (event_names (as_top o) o.event_list) [] in
        total_declared subs k (k + c) (k + c) vs (push k (cap_names o) vs)
          (rw (members_plain compact o o.event_list unused) (
            plain_declared external o.event_list (as_top o) 0 []
            ∙ ap (λ (j : ℕ). some (j, vs)) (omega arith)))
          (cap_declared k vs) (rw unused refl) leaf
        ∙ ap (λ (v : Values). result (push k (cap_names o) v)) (rw unused refl)
  ]
    where
      k : ℕ
      k = length o.event_list

      c : ℕ
      c = length (cap_names o)

      result : Values → Option (ℕ × Values)
      result vs = some (suc (all_value subs (k + c)), after_events o subs (k + c) vs)

  own_values_declared : AllDeclared (own_values external compact o) events_vs
  own_values_declared = elim (Bool-cases (assign_external_event_values compact o)) [
    | inl used ↦ rw used (push_designated-AllDeclared external o o.event_list [])
    | inr unused ↦ rw unused (push-AllDeclared (event_names (as_top o) o.event_list) 0 [])
  ]

pub own_declared :
    (external : Text → ℕ) (compact : Bool) (o : Own) (subs : MachineList)
    → AllDeclared (own_values external compact o) (enum_values external compact o subs)
own_declared external compact o subs =
    let k : ℕ = length o.event_list in
    let n : ℕ = k + length (cap_names o) in
    let vs : Values = events_vs external compact o in
    let capped : Values = push k (cap_names o) vs in
    AllDeclared-extend (own_values external compact o) vs (after_events o subs n capped)
      (λ x h. inr (
        each_block-Extends subs (as_top o) (suc n) ((own_name o (codes "numEvents"), n) ∷ capped) x
          (inr (push-Extends (cap_names o) k vs x h))))
      (own_values_declared external compact o)

-- The enumeration of events that is written to the events header, read by C's rule for the values
-- of enumerators, which finds each name that it refers to declared before, has these values: the
-- machine's own events count from 0, or have the values of their external designations where these
-- are used; behind them, from the number of the events on, `noEvent` if the actions return events,
-- `numEvents`, and for each sub-machine, in order and with all of its own sub-machines behind it,
-- its events and its `noEvent` have consecutive values; `numAllEvents` has the value behind the
-- last one. The machine has an event, no sub-machine has 2 ^ 32 of them, and no last sub-machine of
-- a sub-machine has sub-machines itself.
pub event_enum-numbered :
    (external : Text → ℕ) (compact : Bool) (o : Own) (subs : MachineList) (event_type : Text)
    → nonempty o.event_list ≡ true
    → EachCounted subs
    → EachLastLeaf subs
    → (next : ℕ) × (vs : Values) × (write_event_enum compact (machine_info o subs) event_type
        ≡ enum_lines (enum_start event_type) (event_enum compact (machine_info o subs))
          ++ enum_end compact event_type)
      × (declare external (event_enum compact (machine_info o subs)) 0 [] ≡ some (next, vs))
      × AllDeclared (own_values external compact o) vs
      × AllDeclared (number (length o.event_list) (names_behind o subs)) vs
      × Declared
          (
            own_name o (codes "numAllEvents"),
            all_value subs (length o.event_list + length (cap_names o)),
          )
          vs
event_enum-numbered external compact o subs event_type some_event counted leaf =
    let k : ℕ = length o.event_list in
    let c : ℕ = length (cap_names o) in
    let vs : Values = events_vs external compact o in
    (
      suc (all_value subs (k + c)),
      enum_values external compact o subs,
      write_event_enum-lines compact o subs event_type some_event counted,
      event_enum_declared external compact o subs leaf,
      own_declared external compact o subs,
      behind_AllDeclared o subs k vs,
      inl refl,
    )

-- Without designations the whole sequence of names is numbered from 0.
pub all_names_declared :
    (external : Text → ℕ) (compact : Bool) (o : Own) (subs : MachineList)
    → assign_external_event_values compact o ≡ false
    → EachLastLeaf subs
    → (next : ℕ) × (vs : Values) × (declare external (event_enum compact (machine_info o subs)) 0 []
        ≡ some (next, vs))
      × AllDeclared (number 0 (event_names (as_top o) o.event_list ++ names_behind o subs)) vs
all_names_declared external compact o subs unused leaf =
    let k : ℕ = length o.event_list in
    let c : ℕ = length (cap_names o) in
    let names : List Text = event_names (as_top o) o.event_list in
    let vs : Values = events_vs external compact o in
    let capped : Values = push k (cap_names o) vs in
    let all : Values = after_events o subs (k + c) capped in
    (
      suc (all_value subs (k + c)),
      all,
      event_enum_declared external compact o subs leaf,
      number-append names (names_behind o subs) 0 all
          (AllDeclared-extend (number 0 names) vs all
            (λ x h. inr (
              each_block-Extends subs (as_top o) (suc (k + c))
                ((own_name o (codes "numEvents"), k + c) ∷ capped) x
                (inr (push-Extends (cap_names o) k vs x h))))
            (rw unused (push-AllDeclared names 0 [])))
          (renumber (names_behind o subs) all k (0 + length names)
            (omega (arith, length-event_names (as_top o) o.event_list))
            (behind_AllDeclared o subs k vs)),
    )
