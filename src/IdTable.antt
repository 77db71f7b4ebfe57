-- ===== src/IdTable.antt =====
-- The identifier lists of src/fsm_utils.c: `lookup_id`, `add_id` and `add_unique_id`. The code that
-- is compiled under LEX_DEBUG and MEM_DEBUG only prints.
pub mod Lookup
pub mod Unique
use fsm_lang.Base.{
  ℕ, Bool, true, false, not, Option, none, some, List, [], ◌∷◌, ◌++◌, ◌==◌, if◌then◌else◌, Text,
  text_eq,
}

-- An `ID_INFO` at its address, as far as this code goes.
pub record IdInfo : Type 0 where
  pub address : ℕ
  pub name : Text
  pub type : ℕ

abbrev pub null : ℕ
null = 0

-- The return value when an identifier is not found.
abbrev pub lookup : ℕ
lookup = 0

-- `find_id_by_name`
unfoldable pub find_id_by_name : Text → IdInfo → Bool
find_id_by_name name pid = text_eq pid.name name

-- `iterate_list(id_list, find_id_by_name, name)`: the first element that matches.
unfoldable pub find_first : Text → List IdInfo → Option IdInfo
unfolding find_id_by_name
find_first name [] = none
find_first name (pid ∷ ids) = if find_id_by_name name pid then some pid else find_first name ids

-- What a call returns, what it stores at `ppid_info`, and the list afterwards.
pub record Outcome {ℓ} (A : Type ℓ) : Type ℓ where
  pub value : A
  pub ppid_info : ℕ
  pub ids : List IdInfo

abbrev pub outcome : {A : Type 0} → A → ℕ → List IdInfo → Outcome A
outcome v p ids = record { value = v; ppid_info = p; ids = ids }

lookup_found : Option IdInfo → ℕ → List IdInfo → Outcome ℕ
lookup_found (some pid) out ids = outcome pid.type pid.address ids
lookup_found none out ids = outcome lookup out ids

-- `out` is what `*ppid_info` holds before the call.
unfoldable pub lookup_id : List IdInfo → Text → ℕ → Outcome ℕ
unfolding find_first lookup_found
lookup_id ids name out = lookup_found (find_first name ids) out ids

-- What `malloc` returns for the new `ID_INFO`, NULL if memory is exhausted, and whether
-- `add_to_list` gets memory for its element.
pub record Memory : Type 0 where
  pub id_info : ℕ
  pub element : Bool

-- The new entry, and `add_to_list`.
unfoldable pub append_id : Memory → List IdInfo → ℕ → Text → List IdInfo
append_id memory ids type name =
    if memory.element
    then ids ++ record { address = memory.id_info; name = name; type = type } ∷ []
    else ids

unfoldable pub add_id : Memory → List IdInfo → ℕ → Text → ℕ → Outcome ℕ
unfolding lookup_id append_id
add_id memory ids type name out =
    let found = lookup_id ids name out in
    if found.value == lookup
    then (if memory.id_info == null
        then outcome 0 null ids
        else outcome type memory.id_info (append_id memory ids type name))
    else found

-- `ret_val` is a `bool`: an `int` that is not 0 becomes true when it is stored there.
unfoldable pub add_unique_id : Memory → List IdInfo → ℕ → Text → ℕ → Outcome Bool
unfolding lookup_id append_id
add_unique_id memory ids type name out =
    let found = lookup_id ids name out in
    let ret_val = not (found.value == lookup) in
    if not ret_val
    then (if memory.id_info == null
        then outcome false null ids
        else outcome true memory.id_info (append_id memory ids type name))
    else outcome ret_val found.ppid_info found.ids
