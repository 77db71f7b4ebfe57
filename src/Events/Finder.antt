-- ===== src/Events/Finder.antt =====
-- How a generated machine finds the sub-machine of an event: the interfaces that `defineSubMachineIF`
-- of src/fsm_c_common.c writes, and the loop that `defineSubMachineFinder` writes.
use mathlib.Core.Path.{subst}
use fsm_lang.Base.{
  ℕ, zero, suc, ◌+◌, ◌-◌, ◌<◌, ◌≤◌, ◌≡◌, refl, ◌∙◌, ap, arith, Bool, true, ◌&&◌, inl, inr, Option,
  none, some, List, [], ◌∷◌, ◌++◌, ltb, leb, if◌then◌else◌, length, get_elem?, Text, codes,
}
use fsm_lang.Ancestry.{Machine}
use fsm_lang.Ancestry.Join.{nonempty}
use fsm_lang.Events.{
  EventInfo, Own, MachineInfo, MachineList, machine_info, no_machines, machine, own, as_top, as_sub,
  full_name, has_machines, write_event_enum,
}
use fsm_lang.Events.Enumerators.{enum_lines, event_enum}
use fsm_lang.Events.Written.{EachCounted}
use fsm_lang.Events.Header.{enum_start, enum_end, write_event_enum-lines}
use fsm_lang.Events.Values.{Values, declare}
use fsm_lang.Events.Blocks.{event_block, size, block, each_block, event_names, push, EachLastLeaf}
use fsm_lang.Events.Names.{
  sub_names, length-sub_names, number, Declared, AllDeclared, Extends, push-Extends,
  nested_block-Extends, each_block-Extends, block-AllDeclared,
}
use fsm_lang.Events.Top.{cap_names, all_value}
use fsm_lang.Events.Numbered.{event_enum_declared, enum_values, events_vs}

-- `.first_event` and `.last_event` of a sub-machine's interface, where `THIS` puts the fully qualified
-- machine name before a name.
unfoldable pub sub_fsm_if : MachineInfo → Machine → Text × Text
sub_fsm_if (machine_info o subs) parent = (
  full_name (as_sub parent o) (codes "firstEvent"),
  full_name (as_sub parent o) (if has_machines subs then codes "lastEvent" else codes "noEvent"),
)

-- The loop of `findAndRunSubMachine` over the interfaces' values: the position of the sub-machine that
-- is run, from `machineIterator` on, or none where the loop ends.
unfoldable pub find_and_run_sub_machine : ℕ → List (ℕ × ℕ) → ℕ → Option ℕ
find_and_run_sub_machine e [] machine_iterator = none
find_and_run_sub_machine e ((first_event, last_event) ∷ rest) machine_iterator =
    let next = find_and_run_sub_machine e rest (suc machine_iterator) in
    if leb first_event e && ltb e last_event then some machine_iterator else next

-- The interfaces' values, for sub-machines whose values start at `n`.
abbrev pub ranges : MachineList → ℕ → List (ℕ × ℕ)
ranges no_machines n = []
ranges (machine m rest) n = (n, n + size m - 1) ∷ ranges rest (n + size m)

abbrev pub machine_at : MachineList → ℕ → Option MachineInfo
machine_at no_machines i = none
machine_at (machine m rest) zero = some m
machine_at (machine m rest) (suc i) = machine_at rest i

-- The first value of the machine at a position.
abbrev pub start_of : MachineList → ℕ → ℕ → ℕ
start_of no_machines i n = n
start_of (machine m rest) zero n = n
start_of (machine m rest) (suc i) n = start_of rest i (n + size m)

size_pos : (m : MachineInfo) → 0 < size m
size_pos (machine_info o subs) = omega arith

start_of-ge : (subs : MachineList) (i n : ℕ) → n ≤ start_of subs i n
start_of-ge no_machines i n = omega arith
start_of-ge (machine m rest) zero n = omega arith
start_of-ge (machine m rest) (suc i) n = omega (arith, start_of-ge rest i (n + size m))

-- Below the first value no sub-machine is found.
find-below :
    (subs : MachineList) (v n it : ℕ) → v < n → find_and_run_sub_machine v (ranges subs n) it ≡ none
unfolding find_and_run_sub_machine
find-below no_machines v n it lt = refl
find-below (machine m rest) v n it lt =
    ground (arith, find-below rest v (n + size m) (suc it) (omega (arith, lt)))

pub find-owner :
    (subs : MachineList) (m : MachineInfo) (i k n it : ℕ)
    → machine_at subs i ≡ some m
    → k < size m
    → find_and_run_sub_machine (start_of subs i n + k) (ranges subs n) it
      ≡ (if ltb (suc k) (size m) then some (it + i) else none)
unfolding find_and_run_sub_machine
find-owner no_machines m i k n it at h = cc
find-owner (machine m' rest) m zero k n it at h =
    let same : m' ≡ m = cc in
    ground (
      arith,
      ap size same,
      find-below rest (n + k) (n + size m') (suc it) (omega (arith, h, ap size same)),
    )
find-owner (machine m' rest) m (suc i) k n it at h = ground (
  arith,
  size_pos m',
  start_of-ge rest i (n + size m'),
  find-owner rest m i k (n + size m') (suc it),
)

-- Each sub-machine of the list has an event.
abbrev pub EachSomeEvent : MachineList → Type 0
EachSomeEvent no_machines = Unit {0}
EachSomeEvent (machine m rest) = (nonempty (own m).event_list ≡ true) × EachSomeEvent rest

-- The ends of the ranges are the values of the names in the interfaces.
abbrev pub InterfacesDeclared : MachineList → Machine → List (ℕ × ℕ) → Values → Type 0
InterfacesDeclared no_machines pmi rs vs = Unit {0}
InterfacesDeclared (machine m rest) pmi [] vs = ⊥
InterfacesDeclared (machine m rest) pmi ((f, l) ∷ rs) vs =
    Declared ((sub_fsm_if m pmi).0, f) vs
    × Declared ((sub_fsm_if m pmi).1, l) vs
    × InterfacesDeclared rest pmi rs vs

first_event-Declared :
    (es : List EventInfo) (pmi : Machine) (n : ℕ) (vs : Values)
    → nonempty es ≡ true
    → Declared (full_name pmi (codes "firstEvent"), n) (event_block pmi es n vs)
first_event-Declared [] pmi n vs h = cc
first_event-Declared (e ∷ es) pmi n vs h =
    push-Extends (event_names pmi es) (suc n)
      ((full_name pmi e.name, n) ∷ (full_name pmi (codes "firstEvent"), n) ∷ vs)
      (full_name pmi (codes "firstEvent"), n) (inr (inl refl))

pub first_event_of_sub :
    (m : MachineInfo) (pmi : Machine) (n : ℕ) (vs : Values)
    → nonempty (own m).event_list ≡ true
    → Declared (full_name (as_sub pmi (own m)) (codes "firstEvent"), n) (block m pmi n vs)
first_event_of_sub (machine_info o subs) pmi n vs h =
    nested_block-Extends subs (as_sub pmi o) (suc (n + length o.event_list))
      ((full_name (as_sub pmi o) (codes "noEvent"), n + length o.event_list)
        ∷ event_block (as_sub pmi o) o.event_list n vs)
      (full_name (as_sub pmi o) (codes "firstEvent"), n)
      (inr (first_event-Declared o.event_list (as_sub pmi o) n vs h))

first-Declared :
    (m : MachineInfo) (pmi : Machine) (n : ℕ) (vs : Values)
    → nonempty (own m).event_list ≡ true
    → Declared ((sub_fsm_if m pmi).0, n) (block m pmi n vs)
unfolding sub_fsm_if
first-Declared (machine_info o subs) pmi n vs h =
    first_event_of_sub (machine_info o subs) pmi n vs h

last-Declared :
    (m : MachineInfo) (pmi : Machine) (n : ℕ) (vs : Values)
    → Declared ((sub_fsm_if m pmi).1, n + size m - 1) (block m pmi n vs)
unfolding sub_fsm_if
last-Declared (machine_info o no_machines) pmi n vs =
    inl (ap (λ (k : ℕ). (full_name (as_sub pmi o) (codes "noEvent"), k)) (omega arith))
last-Declared (machine_info o (machine m rest)) pmi n vs =
    inl (ap (λ (k : ℕ). (full_name (as_sub pmi o) (codes "lastEvent"), k)) (omega arith))

interfaces_declared :
    (subs : MachineList) (pmi : Machine) (n : ℕ) (vs : Values)
    → EachSomeEvent subs
    → InterfacesDeclared subs pmi (ranges subs n) (each_block subs pmi n vs)
interfaces_declared no_machines pmi n vs h = tt
interfaces_declared (machine m rest) pmi n vs (h, hs) =
    let grow : Extends (block m pmi n vs) (each_block (machine m rest) pmi n vs) =
      each_block-Extends rest pmi (n + size m) (block m pmi n vs) in
    (
      grow ((sub_fsm_if m pmi).0, n) (first-Declared m pmi n vs h),
      grow ((sub_fsm_if m pmi).1, n + size m - 1) (last-Declared m pmi n vs),
      interfaces_declared rest pmi (n + size m) (block m pmi n vs) hs,
    )

InterfacesDeclared-extend :
    (subs : MachineList) (pmi : Machine) (rs : List (ℕ × ℕ)) (vs vs' : Values)
    → Extends vs vs'
    → InterfacesDeclared subs pmi rs vs
    → InterfacesDeclared subs pmi rs vs'
InterfacesDeclared-extend no_machines pmi rs vs vs' grow h = tt
InterfacesDeclared-extend (machine m rest) pmi [] vs vs' grow h = h
InterfacesDeclared-extend (machine m rest) pmi ((f, l) ∷ rs) vs vs' grow (p, q, h) = (
  grow ((sub_fsm_if m pmi).0, f) p,
  grow ((sub_fsm_if m pmi).1, l) q,
  InterfacesDeclared-extend rest pmi rs vs vs' grow h,
)

-- One of the names of a sequence with its number.
pub number-get_elem? :
    (ns : List Text) (k n : ℕ) (x : Text) (vs : Values)
    → get_elem? ns k ≡ some x
    → AllDeclared (number n ns) vs
    → Declared (x, n + k) vs
number-get_elem? [] k n x vs h a = cc
number-get_elem? (y ∷ ns) zero n x vs h (a, as') =
    subst (λ (p : Text × ℕ). Declared p vs) (ground arith) a
number-get_elem? (y ∷ ns) (suc k) n x vs h (a, as') =
    subst (λ (j : ℕ). Declared (x, j) vs) (omega arith) (number-get_elem? ns k (suc n) x vs h as')

machine_at-Declared :
    (subs : MachineList) (m : MachineInfo) (pmi : Machine) (i k n : ℕ) (x : Text) (vs : Values)
    → machine_at subs i ≡ some m
    → get_elem? (sub_names m pmi) k ≡ some x
    → Declared (x, start_of subs i n + k) (each_block subs pmi n vs)
machine_at-Declared no_machines m pmi i k n x vs at h = cc
machine_at-Declared (machine m' rest) m pmi zero k n x vs at h =
    let same : m' ≡ m = cc in
    each_block-Extends rest pmi (n + size m') (block m' pmi n vs) (x, n + k)
      (number-get_elem? (sub_names m' pmi) k n x (block m' pmi n vs)
        (ap (λ (q : MachineInfo). get_elem? (sub_names q pmi) k) same ∙ h)
        (block-AllDeclared m' pmi n vs))
machine_at-Declared (machine m' rest) m pmi (suc i) k n x vs at h =
    machine_at-Declared rest m pmi i k (n + size m') x (block m' pmi n vs) at h

pub get_elem?-below {ℓ} :
    {A : Type ℓ} (xs : List A) (k : ℕ) (x : A) → get_elem? xs k ≡ some x → k < length xs
get_elem?-below [] k x h = cc
get_elem?-below (y ∷ xs) zero x h = omega arith
get_elem?-below (y ∷ xs) (suc k) x h = omega (arith, get_elem?-below xs k x h)

-- With the interfaces of the sub-machines evaluated by the written event enumeration, the loop of
-- the generated `findAndRunSubMachine` runs, for a name of a sub-machine or of one nested in it,
-- that sub-machine and no other; for the last of these names, the `noEvent` of the machine that
-- comes last in it, it runs none. The machine and each sub-machine have an event, no sub-machine
-- has 2 ^ 32 of them, and no last sub-machine of a sub-machine has sub-machines itself.
pub find_and_run_sub_machine-owner :
    (external : Text → ℕ) (compact : Bool) (o : Own) (subs : MachineList) (event_type : Text)
    (m : MachineInfo) (i k : ℕ) (x : Text)
    → nonempty o.event_list ≡ true
    → EachCounted subs
    → EachLastLeaf subs
    → EachSomeEvent subs
    → machine_at subs i ≡ some m
    → get_elem? (sub_names m (as_top o)) k ≡ some x
    → (next : ℕ) × (vs : Values) × (interfaces : List (ℕ × ℕ)) × (v : ℕ) × (write_event_enum compact
          (machine_info o subs)
          event_type
        ≡ enum_lines (enum_start event_type) (event_enum compact (machine_info o subs))
          ++ enum_end compact event_type)
      × (declare external (event_enum compact (machine_info o subs)) 0 [] ≡ some (next, vs))
      × InterfacesDeclared subs (as_top o) interfaces vs
      × Declared (x, v) vs
      × (find_and_run_sub_machine v interfaces 0
          ≡ (if ltb (suc k) (length (sub_names m (as_top o))) then some i else none))
find_and_run_sub_machine-owner external compact o subs event_type m i k x some_own counted leaf
      some_event at h =
    let n : ℕ = length o.event_list + length (cap_names o) in
    let here : Values =
      (full_name (as_top o) (codes "numEvents"), n)
      ∷ push (length o.event_list) (cap_names o) (events_vs external compact o) in
    let inner : Values = each_block subs (as_top o) (suc n) here in
    let all : Values = enum_values external compact o subs in
    let names : length (sub_names m (as_top o)) ≡ size m = length-sub_names m (as_top o) in
    let within : k < size m =
      omega (arith, names, get_elem?-below (sub_names m (as_top o)) k x h) in
    (
      suc (all_value subs n),
      all,
      ranges subs (suc n),
      start_of subs i (suc n) + k,
      write_event_enum-lines compact o subs event_type some_own counted,
      event_enum_declared external compact o subs leaf,
      InterfacesDeclared-extend subs (as_top o) (ranges subs (suc n)) inner all (λ y d. inr d)
          (interfaces_declared subs (as_top o) (suc n) here some_event),
      inr (machine_at-Declared subs m (as_top o) i k (suc n) x here at h),
      rw names (
          find-owner subs m i k (suc n) 0 at within
          ∙ ap (λ (j : ℕ). if ltb (suc k) (size m) then some j else none) (omega arith)),
    )
