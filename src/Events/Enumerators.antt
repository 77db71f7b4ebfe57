-- ===== src/Events/Enumerators.antt =====
-- The event enumeration as a list of enumerators with their initializers, and as lines of C.
use fsm_lang.Base.{
  ℕ, ◌≡◌, refl, Bool, List, [], ◌∷◌, ◌++◌, map, if◌then◌else◌, length, Text, codes, decimal,
}
use fsm_lang.Ancestry.{Machine}
use fsm_lang.Events.{
  EventInfo, Own, MachineInfo, MachineList, machine_info, no_machines, machine, own, as_sub,
  last_member, full_name, as_top, returns_events, has_machines, assign_external_event_values,
  designation_name,
}

-- What stands behind an enumerator's name: nothing, or a name, an external designation or a number
-- that it is set to.
pub data Initializer : Type 0 where
  next_value : Initializer
  same_as designated : Text → Initializer
  constant : ℕ → Initializer

pub data Enumerator : Type 0 where
  enumerator : Text → Initializer → Enumerator

abbrev pub initializer_text : Initializer → Text
initializer_text next_value = []
initializer_text (same_as n) = codes " = " ++ n
initializer_text (designated d) = codes " = " ++ d
initializer_text (constant k) = codes " = " ++ decimal k

abbrev pub line : Text → Enumerator → Text
line start (enumerator n i) = start ++ n ++ initializer_text i ++ codes "\n"

-- The lines of enumerators that are not the first, behind what was written before.
abbrev pub lines : Text → List Enumerator → Text
lines out [] = out
lines out (e ∷ es) = lines (out ++ line (codes "\t, ") e) es

pub lines-append :
    (out : Text) (xs ys : List Enumerator) → lines out (xs ++ ys) ≡ lines (lines out xs) ys
lines-append out [] ys = refl
lines-append out (x ∷ xs) ys = lines-append (out ++ line (codes "\t, ") x) xs ys

abbrev pub plain : Machine → EventInfo → Enumerator
plain pmi e = enumerator (full_name pmi e.name) next_value

-- The events of a sub-machine, the first of which gives `firstEvent` its value.
abbrev pub event_enumerators : Machine → List EventInfo → List Enumerator
event_enumerators pmi [] = []
event_enumerators pmi (e ∷ es) =
    enumerator (full_name pmi (codes "firstEvent")) next_value
    ∷ enumerator (full_name pmi e.name) (same_as (full_name pmi (codes "firstEvent")))
    ∷ map (plain pmi) es

abbrev mutual
  pub sub_enumerators : MachineInfo → Machine → List Enumerator
  sub_enumerators (machine_info o subs) parent =
      event_enumerators (as_sub parent o) o.event_list
      ++ (enumerator (full_name (as_sub parent o) (codes "noEvent")) next_value
          ∷ nested_enumerators subs (as_sub parent o))

  pub nested_enumerators : MachineList → Machine → List Enumerator
  nested_enumerators no_machines pmi = []
  nested_enumerators (machine m rest) pmi =
      (sub_enumerators m pmi ++ each_sub_enumerators rest pmi)
      ++ (enumerator (full_name pmi (codes "lastEvent"))
            (same_as (full_name (as_sub pmi (own (last_member m rest))) (codes "noEvent")))
          ∷ [])

  pub each_sub_enumerators : MachineList → Machine → List Enumerator
  each_sub_enumerators no_machines pmi = []
  each_sub_enumerators (machine m rest) pmi = sub_enumerators m pmi ++ each_sub_enumerators rest pmi

-- The first line has no comma.
abbrev pub enum_lines : Text → List Enumerator → Text
enum_lines out [] = out
enum_lines out (e ∷ es) = lines (out ++ line (codes "\t ") e) es

-- A top-level machine's events, with their designations where these are used.
abbrev pub member : Bool → Own → EventInfo → Enumerator
member compact_action_array o e = enumerator (full_name (as_top o) e.name) (
    if assign_external_event_values compact_action_array o
    then designated (designation_name e)
    else next_value)

abbrev pub no_event : Own → List Enumerator
no_event o =
    if returns_events o
    then enumerator (full_name (as_top o) (codes "noEvent")) next_value ∷ []
    else []

abbrev pub num_events : Bool → Own → Enumerator
num_events compact_action_array o = enumerator (full_name (as_top o) (codes "numEvents")) (
    if assign_external_event_values compact_action_array o
    then constant (length o.event_list)
    else next_value)

abbrev pub num_all_events : Own → MachineList → Enumerator
num_all_events o subs =
    enumerator (full_name (as_top o) (codes "numAllEvents"))
      (if has_machines subs then next_value else same_as (full_name (as_top o) (codes "numEvents")))

abbrev pub event_enum : Bool → MachineInfo → List Enumerator
event_enum compact_action_array (machine_info o subs) =
    map (member compact_action_array o) o.event_list
    ++ (no_event o
        ++ (num_events compact_action_array o
            ∷ (each_sub_enumerators subs (as_top o) ++ (num_all_events o subs ∷ []))))
