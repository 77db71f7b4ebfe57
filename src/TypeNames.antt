-- ===== src/TypeNames.antt =====
-- The names that src/ancestry.c makes for the types of a generated machine. Each is made once, kept in
-- `struct _c_machine_data_`, and widens the columns that the generators print it in.
pub mod Types
pub mod Names
pub mod Index
pub mod Once
pub mod Widths
pub mod Qualified
use fsm_lang.Base.{
  ℕ, ◌+◌, ◌%◌, Bool, true, false, not, ◌&&◌, Option, none, some, [], ◌∷◌, ◌++◌, ◌==◌, ltb,
  if◌then◌else◌, length, Text, codes,
}
use fsm_lang.Ancestry.{Machine}

-- Whether `tmpfile`, the `malloc` of `create_string_from_file` and that of `hungarianToUnderbarCaps`
-- or `strdup` succeed in one call.
pub record Memory : Type 0 where
  pub tmpfile : Bool
  pub malloc : Bool

-- `struct _c_machine_data_`, with what is read of its machine: `modFlags`, `data_block_count`, the
-- names. A pointer that is NULL is `none`.
pub record CMachineData : Type 0 where
  pub pmi : Machine
  pub actions_return_void : Bool
  pub actions_return_states : Bool
  pub data_block_count : ℕ
  pub action_return_type : Option Text
  pub fsm_type : Option Text
  pub action_fn_type : Option Text
  pub action_trans_type : Option Text
  pub transition_fn_type : Option Text
  pub fsm_data_type : Option Text
  pub fsm_fn_type : Option Text
  pub event_type : Option Text
  pub fsm_fn_event_type : Option Text
  pub sub_fsm_if_type : Option Text
  pub state_type : Option Text
  pub state_fn_type : Option Text
  pub sub_machine_fn_type : Option Text
  pub data_translation_fn_type : Option Text
  pub shared_event_str_type : Option Text
  pub fq_machine_name : Option Text
  pub uf_machine_name : Option Text
  pub ucfq_machine_name : Option Text
  pub uc_machine_name : Option Text
  pub nf_machine_name : Option Text
  pub uc_nf_machine_name : Option Text
  pub sub_fsm_if_format_width : ℕ
  pub shared_event_str_format_width : ℕ
  pub sub_machine_struct_format_width : ℕ
  pub c_machine_struct_format_width : ℕ

-- `unsigned long` is 64 bits wide.
abbrev pub u64 : ℕ → ℕ
u64 n = n % 18446744073709551616

-- `if (width < str_len + 2) width = str_len + 2`
unfoldable pub widen : ℕ → ℕ → ℕ
widen width str_len = if ltb width (u64 (str_len + 2)) then u64 (str_len + 2) else width

-- `create_string_from_file` of src/fsm_utils.c: the string, or NULL, and the length of the file.
unfoldable pub create_string_from_file : Memory → Text → Option Text × ℕ
create_string_from_file memory contents =
    (if memory.malloc then some contents else none, length contents)

-- `if (!cache) { if (tmp = tmpfile()) { … } } return cache`, where `contents` is what is written to
-- the temporary file and `keep` what is done with the string and its length.
abbrev pub once :
    Option Text
    → Text
    → (Option Text → ℕ → CMachineData)
    → Memory
    → CMachineData
    → Option Text × CMachineData
once (some s) contents keep memory pcmd = (some s, pcmd)
once none contents keep memory pcmd =
    let (s, str_len) = create_string_from_file memory contents in
    if memory.tmpfile then (s, keep s str_len) else (none, pcmd)
