-- ===== src/Events/Blocks.antt =====
-- The values of the enumerators of a sub-machine, and how many it takes.
use fsm_lang.Base.{
  ℕ, suc, ◌+◌, ◌-◌, ◌≡◌, ◌∙◌, ap, arith, some, List, [], ◌∷◌, ◌++◌, map, length, Text, codes,
}
use fsm_lang.Ancestry.{Machine}
use fsm_lang.Events.{
  EventInfo, MachineInfo, MachineList, machine_info, no_machines, machine, own, as_sub, last_member,
  full_name,
}
use fsm_lang.Events.Enumerators.{
  enumerator, next_value, same_as, plain, event_enumerators, sub_enumerators, nested_enumerators,
  each_sub_enumerators,
}
use fsm_lang.Events.Values.{
  Values, value_of, declare, declare-append, declare-same_as, declare-next, declared_end,
  value_of_latest,
}

-- Names with consecutive values.
abbrev pub push : ℕ → List Text → Values → Values
push n [] vs = vs
push n (x ∷ xs) vs = push (suc n) xs ((x, n) ∷ vs)

abbrev pub event_names : Machine → List EventInfo → List Text
event_names pmi = map λ e. full_name pmi e.name

abbrev pub event_block : Machine → List EventInfo → ℕ → Values → Values
event_block pmi [] n vs = vs
event_block pmi (e ∷ es) n vs =
    push (suc n) (event_names pmi es)
      ((full_name pmi e.name, n) ∷ (full_name pmi (codes "firstEvent"), n) ∷ vs)

-- How many values a machine and its sub-machines take.
abbrev mutual
  pub size : MachineInfo → ℕ
  size (machine_info o subs) = suc (length o.event_list + size_list subs)

  pub size_list : MachineList → ℕ
  size_list no_machines = 0
  size_list (machine m rest) = size m + size_list rest

-- The values of a sub-machine whose first is `n`: its events, its `noEvent`, its sub-machines.
abbrev mutual
  pub block : MachineInfo → Machine → ℕ → Values → Values
  block (machine_info o subs) parent n vs =
      nested_block subs (as_sub parent o) (suc (n + length o.event_list)) (
        (full_name (as_sub parent o) (codes "noEvent"), n + length o.event_list)
        ∷ event_block (as_sub parent o) o.event_list n vs)

  pub nested_block : MachineList → Machine → ℕ → Values → Values
  nested_block no_machines pmi n vs = vs
  nested_block (machine m rest) pmi n vs =
      (full_name pmi (codes "lastEvent"), n + (size m + size_list rest) - 1)
      ∷ each_block rest pmi (n + size m) (block m pmi n vs)

  pub each_block : MachineList → Machine → ℕ → Values → Values
  each_block no_machines pmi n vs = vs
  each_block (machine m rest) pmi n vs = each_block rest pmi (n + size m) (block m pmi n vs)

size_pos_sum :
    (n : ℕ) (m : MachineInfo) (rest : MachineList)
    → suc (n + (size m + size_list rest) - 1) ≡ n + (size m + size_list rest)
size_pos_sum n (machine_info o subs) rest = omega arith

-- No machine that is the last sub-machine of a sub-machine has sub-machines.
abbrev pub Childless : MachineInfo → Type 0
Childless (machine_info o no_machines) = Unit {0}
Childless (machine_info o (machine m rest)) = ⊥

abbrev mutual
  pub LastLeaf : MachineInfo → Type 0
  LastLeaf (machine_info o subs) = NestedLastLeaf subs

  pub NestedLastLeaf : MachineList → Type 0
  NestedLastLeaf no_machines = Unit {0}
  NestedLastLeaf (machine m rest) = Childless (last_member m rest) × LastLeaf m × EachLastLeaf rest

  pub EachLastLeaf : MachineList → Type 0
  EachLastLeaf no_machines = Unit {0}
  EachLastLeaf (machine m rest) = LastLeaf m × EachLastLeaf rest

module _ (external : Text → ℕ) where
  pub plain_declared :
      (es : List EventInfo) (pmi : Machine) (n : ℕ) (vs : Values)
      → declare external (map (plain pmi) es) n vs
        ≡ some (n + length es, push n (event_names pmi es) vs)
  unfolding declare
  plain_declared [] pmi n vs = ap (λ (k : ℕ). some (k, vs)) (omega arith)
  plain_declared (e ∷ es) pmi n vs =
      plain_declared es pmi (suc n) ((full_name pmi e.name, n) ∷ vs)
      ∙ ap (λ (k : ℕ). some (k, push (suc n) (event_names pmi es) ((full_name pmi e.name, n) ∷ vs)))
          (omega arith)

  pub events_declared :
      (es : List EventInfo) (pmi : Machine) (n : ℕ) (vs : Values)
      → declare external (event_enumerators pmi es) n vs
        ≡ some (n + length es, event_block pmi es n vs)
  unfolding declare
  events_declared [] pmi n vs = ap (λ (k : ℕ). some (k, vs)) (omega arith)
  events_declared (e ∷ es) pmi n vs =
      let f : Text = full_name pmi (codes "firstEvent") in
      declare-same_as external (full_name pmi e.name) f (map (plain pmi) es) (suc n) n ((f, n) ∷ vs)
        (value_of_latest f n vs)
      ∙ plain_declared es pmi (suc n) ((full_name pmi e.name, n) ∷ (f, n) ∷ vs)
      ∙ ap
          (λ (k : ℕ).
            some (k, push (suc n) (event_names pmi es) ((full_name pmi e.name, n) ∷ (f, n) ∷ vs)))
          (omega arith)

-- The `noEvent` of the last sub-machine is the latest of the enumerators before `lastEvent`.
last_value :
    (m : MachineInfo) (rest : MachineList) (pmi : Machine) (n : ℕ) (vs : Values)
    → Childless (last_member m rest)
    → value_of
        (full_name (as_sub pmi (own (last_member m rest))) (codes "noEvent"))
        (each_block rest pmi (n + size m) (block m pmi n vs))
      ≡ some (n + (size m + size_list rest) - 1)
last_value (machine_info o no_machines) no_machines pmi n vs h =
    value_of_latest (full_name (as_sub pmi o) (codes "noEvent")) (n + length o.event_list)
      (event_block (as_sub pmi o) o.event_list n vs)
    ∙ ap some (omega arith)
last_value (machine_info o (machine m' rest')) no_machines pmi n vs h = absurd h
last_value m (machine m' rest) pmi n vs h =
    last_value m' rest pmi (n + size m) (block m pmi n vs) h ∙ ap some (omega arith)

module _ (external : Text → ℕ) where
  mutual
    pub sub_declared :
        (m : MachineInfo) (parent : Machine) (n : ℕ) (vs : Values)
        → LastLeaf m
        → declare external (sub_enumerators m parent) n vs ≡ some (n + size m, block m parent n vs)
    sub_declared (machine_info o subs) parent n vs flat =
        let pmi : Machine = as_sub parent o in
        let f : Text = full_name pmi (codes "noEvent") in
        let k : ℕ = length o.event_list in
        declare-append external (event_enumerators pmi o.event_list)
          (enumerator f next_value ∷ nested_enumerators subs pmi) n (n + k) vs
          (event_block pmi o.event_list n vs) (events_declared external o.event_list pmi n vs)
        ∙ declare-next external f (nested_enumerators subs pmi) (n + k)
            (event_block pmi o.event_list n vs)
        ∙ nested_declared subs pmi (suc (n + k)) ((f, n + k) ∷ event_block pmi o.event_list n vs)
            flat
        ∙ ap
            (λ (j : ℕ). some (
              j,
              nested_block subs pmi (suc (n + k)) ((f, n + k) ∷ event_block pmi o.event_list n vs),
            ))
            (omega arith)

    pub nested_declared :
        (subs : MachineList) (pmi : Machine) (n : ℕ) (vs : Values)
        → NestedLastLeaf subs
        → declare external (nested_enumerators subs pmi) n vs
          ≡ some (n + size_list subs, nested_block subs pmi n vs)
    nested_declared no_machines pmi n vs h = declared_end external n (n + 0) vs (omega arith)
    nested_declared (machine m rest) pmi n vs (leaf, h, hs) =
        let f : Text = full_name pmi (codes "lastEvent") in
        let l : Text = full_name (as_sub pmi (own (last_member m rest))) (codes "noEvent") in
        let inner : Values = each_block rest pmi (n + size m) (block m pmi n vs) in
        let v : ℕ = n + (size m + size_list rest) - 1 in
        declare-append external (sub_enumerators m pmi ++ each_sub_enumerators rest pmi)
          (enumerator f (same_as l) ∷ []) n (n + size m + size_list rest) vs inner
          (declare-append external (sub_enumerators m pmi) (each_sub_enumerators rest pmi) n
              (n + size m) vs (block m pmi n vs) (sub_declared m pmi n vs h)
            ∙ each_declared rest pmi (n + size m) (block m pmi n vs) hs)
        ∙ declare-same_as external f l [] (n + size m + size_list rest) v inner
            (last_value m rest pmi n vs leaf)
        ∙ declared_end external (suc v) (n + (size m + size_list rest)) ((f, v) ∷ inner)
            (size_pos_sum n m rest)

    pub each_declared :
        (subs : MachineList) (pmi : Machine) (n : ℕ) (vs : Values)
        → EachLastLeaf subs
        → declare external (each_sub_enumerators subs pmi) n vs
          ≡ some (n + size_list subs, each_block subs pmi n vs)
    each_declared no_machines pmi n vs h = declared_end external n (n + 0) vs (omega arith)
    each_declared (machine m rest) pmi n vs (h, hs) =
        declare-append external (sub_enumerators m pmi) (each_sub_enumerators rest pmi) n
          (n + size m) vs (block m pmi n vs) (sub_declared m pmi n vs h)
        ∙ each_declared rest pmi (n + size m) (block m pmi n vs) hs
        ∙ ap (λ (j : ℕ). some (j, each_block rest pmi (n + size m) (block m pmi n vs)))
            (omega arith)
