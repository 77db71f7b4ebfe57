-- ===== src/Events/Names.antt =====
-- The names of the events of a machine and of all its sub-machines in one sequence, and the event
-- enumeration as its numbering.
use mathlib.Core.Path.{subst}
use fsm_lang.Base.{
  ℕ, suc, ◌+◌, ◌≡◌, refl, arith, ◌⊎◌, inl, inr, List, [], ◌∷◌, ◌++◌, length, length-append, Text,
  codes, length-map,
}
use fsm_lang.Ancestry.{Machine}
use fsm_lang.Events.{
  EventInfo, MachineInfo, MachineList, machine_info, no_machines, machine, as_sub, full_name,
}
use fsm_lang.Events.Values.{Values}
use fsm_lang.Events.Blocks.{
  push, event_names, event_block, size, size_list, block, nested_block, each_block,
}

-- A machine's events, its `noEvent`, and the names of its sub-machines.
abbrev mutual
  pub sub_names : MachineInfo → Machine → List Text
  sub_names (machine_info o subs) parent =
      event_names (as_sub parent o) o.event_list
      ++ (full_name (as_sub parent o) (codes "noEvent") ∷ each_sub_names subs (as_sub parent o))

  pub each_sub_names : MachineList → Machine → List Text
  each_sub_names no_machines pmi = []
  each_sub_names (machine m rest) pmi = sub_names m pmi ++ each_sub_names rest pmi

abbrev pub number : ℕ → List Text → Values
number n [] = []
number n (x ∷ xs) = (x, n) ∷ number (suc n) xs

-- An enumerator has been declared with its value.
abbrev pub Declared : Text × ℕ → Values → Type 0
Declared x [] = ⊥
Declared x (y ∷ vs) = (x ≡ y) ⊎ Declared x vs

abbrev pub AllDeclared : Values → Values → Type 0
AllDeclared [] vs = Unit {0}
AllDeclared (x ∷ xs) vs = Declared x vs × AllDeclared xs vs

abbrev pub Extends : Values → Values → Type 0
Extends vs vs' = (x : Text × ℕ) → Declared x vs → Declared x vs'

pub AllDeclared-extend :
    (xs vs vs' : Values) → Extends vs vs' → AllDeclared xs vs → AllDeclared xs vs'
AllDeclared-extend [] vs vs' e h = tt
AllDeclared-extend (x ∷ xs) vs vs' e (h, hs) = (e x h, AllDeclared-extend xs vs vs' e hs)

pub renumber :
    (xs : List Text) (vs : Values) (i j : ℕ)
    → i ≡ j
    → AllDeclared (number i xs) vs
    → AllDeclared (number j xs) vs
renumber xs vs i j e h = subst (λ (k : ℕ). AllDeclared (number k xs) vs) e h

pub number-append :
    (xs ys : List Text) (n : ℕ) (vs : Values)
    → AllDeclared (number n xs) vs
    → AllDeclared (number (n + length xs) ys) vs
    → AllDeclared (number n (xs ++ ys)) vs
number-append [] ys n vs h h' = renumber ys vs (n + 0) n (omega arith) h'
number-append (x ∷ xs) ys n vs (h, hs) h' = (
  h,
  number-append xs ys (suc n) vs hs
      (renumber ys vs (n + suc (length xs)) (suc n + length xs) (omega arith) h'),
)

pub push-Extends : (xs : List Text) (n : ℕ) (vs : Values) → Extends vs (push n xs vs)
push-Extends [] n vs x h = h
push-Extends (y ∷ xs) n vs x h = push-Extends xs (suc n) ((y, n) ∷ vs) x (inr h)

pub push-AllDeclared :
    (xs : List Text) (n : ℕ) (vs : Values) → AllDeclared (number n xs) (push n xs vs)
push-AllDeclared [] n vs = tt
push-AllDeclared (x ∷ xs) n vs = (
  push-Extends xs (suc n) ((x, n) ∷ vs) (x, n) (inl refl),
  push-AllDeclared xs (suc n) ((x, n) ∷ vs),
)

event_block-Extends :
    (es : List EventInfo) (pmi : Machine) (n : ℕ) (vs : Values)
    → Extends vs (event_block pmi es n vs)
event_block-Extends [] pmi n vs x h = h
event_block-Extends (e ∷ es) pmi n vs x h =
    push-Extends (event_names pmi es) (suc n)
      ((full_name pmi e.name, n) ∷ (full_name pmi (codes "firstEvent"), n) ∷ vs) x (inr (inr h))

event_block-AllDeclared :
    (es : List EventInfo) (pmi : Machine) (n : ℕ) (vs : Values)
    → AllDeclared (number n (event_names pmi es)) (event_block pmi es n vs)
event_block-AllDeclared [] pmi n vs = tt
event_block-AllDeclared (e ∷ es) pmi n vs = (
  push-Extends (event_names pmi es) (suc n)
      ((full_name pmi e.name, n) ∷ (full_name pmi (codes "firstEvent"), n) ∷ vs)
      (full_name pmi e.name, n) (inl refl),
  push-AllDeclared (event_names pmi es) (suc n)
      ((full_name pmi e.name, n) ∷ (full_name pmi (codes "firstEvent"), n) ∷ vs),
)

mutual
  pub block-Extends :
      (m : MachineInfo) (parent : Machine) (n : ℕ) (vs : Values) → Extends vs (block m parent n vs)
  block-Extends (machine_info o subs) parent n vs x h =
      nested_block-Extends subs (as_sub parent o) (suc (n + length o.event_list))
        ((full_name (as_sub parent o) (codes "noEvent"), n + length o.event_list)
          ∷ event_block (as_sub parent o) o.event_list n vs)
        x (inr (event_block-Extends o.event_list (as_sub parent o) n vs x h))

  pub nested_block-Extends :
      (subs : MachineList) (pmi : Machine) (n : ℕ) (vs : Values)
      → Extends vs (nested_block subs pmi n vs)
  nested_block-Extends no_machines pmi n vs x h = h
  nested_block-Extends (machine m rest) pmi n vs x h =
      inr (
        each_block-Extends rest pmi (n + size m) (block m pmi n vs) x
          (block-Extends m pmi n vs x h))

  pub each_block-Extends :
      (subs : MachineList) (pmi : Machine) (n : ℕ) (vs : Values)
      → Extends vs (each_block subs pmi n vs)
  each_block-Extends no_machines pmi n vs x h = h
  each_block-Extends (machine m rest) pmi n vs x h =
      each_block-Extends rest pmi (n + size m) (block m pmi n vs) x (block-Extends m pmi n vs x h)

mutual
  pub length-sub_names : (m : MachineInfo) (parent : Machine) → length (sub_names m parent) ≡ size m
  length-sub_names (machine_info o subs) parent = omega (
    arith,
    length-append (event_names (as_sub parent o) o.event_list)
        (full_name (as_sub parent o) (codes "noEvent") ∷ each_sub_names subs (as_sub parent o)),
    length-map (λ (e : EventInfo). full_name (as_sub parent o) e.name) o.event_list,
    length-each_sub_names subs (as_sub parent o),
  )

  pub length-each_sub_names :
      (subs : MachineList) (pmi : Machine) → length (each_sub_names subs pmi) ≡ size_list subs
  length-each_sub_names no_machines pmi = refl
  length-each_sub_names (machine m rest) pmi = omega (
    arith,
    length-append (sub_names m pmi) (each_sub_names rest pmi),
    length-sub_names m pmi,
    length-each_sub_names rest pmi,
  )

pub length-event_names :
    (pmi : Machine) (es : List EventInfo) → length (event_names pmi es) ≡ length es
length-event_names pmi es = length-map (λ (e : EventInfo). full_name pmi e.name) es

-- A sub-machine and those behind it.
then_rest :
    (m : MachineInfo) (rest : MachineList) (pmi : Machine) (n : ℕ) (vs : Values)
    → AllDeclared (number n (sub_names m pmi)) (block m pmi n vs)
    → AllDeclared
        (number (n + size m) (each_sub_names rest pmi))
        (each_block rest pmi (n + size m) (block m pmi n vs))
    → AllDeclared
        (number n (each_sub_names (machine m rest) pmi))
        (each_block (machine m rest) pmi n vs)
then_rest m rest pmi n vs first others =
    let inner : Values = each_block rest pmi (n + size m) (block m pmi n vs) in
    number-append (sub_names m pmi) (each_sub_names rest pmi) n inner
      (AllDeclared-extend (number n (sub_names m pmi)) (block m pmi n vs) inner
        (each_block-Extends rest pmi (n + size m) (block m pmi n vs)) first)
      (renumber (each_sub_names rest pmi) inner (n + size m) (n + length (sub_names m pmi))
        (omega (arith, length-sub_names m pmi)) others)

mutual
  pub block-AllDeclared :
      (m : MachineInfo) (parent : Machine) (n : ℕ) (vs : Values)
      → AllDeclared (number n (sub_names m parent)) (block m parent n vs)
  block-AllDeclared (machine_info o subs) parent n vs =
      let pmi : Machine = as_sub parent o in
      let k : ℕ = n + length o.event_list in
      let f : Text = full_name pmi (codes "noEvent") in
      let before : Values = event_block pmi o.event_list n vs in
      let all : Values = nested_block subs pmi (suc k) ((f, k) ∷ before) in
      number-append (event_names pmi o.event_list) (f ∷ each_sub_names subs pmi) n all
        (AllDeclared-extend (number n (event_names pmi o.event_list)) before all
          (λ x h. nested_block-Extends subs pmi (suc k) ((f, k) ∷ before) x (inr h))
          (event_block-AllDeclared o.event_list pmi n vs))
        (renumber (f ∷ each_sub_names subs pmi) all k (n + length (event_names pmi o.event_list))
          (omega (arith, length-event_names pmi o.event_list))
          (
            nested_block-Extends subs pmi (suc k) ((f, k) ∷ before) (f, k) (inl refl),
            nested_block-AllDeclared subs pmi (suc k) ((f, k) ∷ before),
          ))

  nested_block-AllDeclared :
      (subs : MachineList) (pmi : Machine) (n : ℕ) (vs : Values)
      → AllDeclared (number n (each_sub_names subs pmi)) (nested_block subs pmi n vs)
  nested_block-AllDeclared no_machines pmi n vs = tt
  nested_block-AllDeclared (machine m rest) pmi n vs =
      AllDeclared-extend (number n (each_sub_names (machine m rest) pmi))
        (each_block (machine m rest) pmi n vs) (nested_block (machine m rest) pmi n vs)
        (λ x h. inr h)
        (then_rest m rest pmi n vs (block-AllDeclared m pmi n vs)
          (each_block-AllDeclared rest pmi (n + size m) (block m pmi n vs)))

  pub each_block-AllDeclared :
      (subs : MachineList) (pmi : Machine) (n : ℕ) (vs : Values)
      → AllDeclared (number n (each_sub_names subs pmi)) (each_block subs pmi n vs)
  each_block-AllDeclared no_machines pmi n vs = tt
  each_block-AllDeclared (machine m rest) pmi n vs =
      then_rest m rest pmi n vs (block-AllDeclared m pmi n vs)
        (each_block-AllDeclared rest pmi (n + size m) (block m pmi n vs))
