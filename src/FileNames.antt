-- ===== src/FileNames.antt =====
-- The file names of src/fsm_utils.c (`createFileName`, `getFileNameNoDir`, `safe_strlen`) and the
-- `rindex` of src/rindex.c.
pub mod NoDir
pub mod Last
use fsm_lang.Base.{
  ℕ, zero, suc, ◌+◌, Bool, true, false, ◌||◌, Option, none, some, [], ◌∷◌, ◌++◌, ltb, ◌==◌,
  if◌then◌else◌, length, Text, u32, int_succ, int_to_size, ◌%◌,
}

-- The functions of <string.h>: `strpbrk(s, "\\/")`, as the rest of the string from there on.
abbrev pub separator : ℕ → Bool
separator c = (c == b'\\') || (c == b'/')

abbrev pub strpbrk : Text → Option Text
strpbrk [] = none
strpbrk (c ∷ s) = if separator c then some (c ∷ s) else strpbrk s

-- `++cp1`
abbrev pub next_char : Text → Text
next_char [] = []
next_char (c ∷ s) = s

-- NULL is `none`; the length is converted to `int`.
unfoldable pub safe_strlen : Option Text → ℕ
safe_strlen none = 0
safe_strlen (some s) = u32 (length s)

-- The `for` loop, on fuel; `none` is too little fuel.
unfoldable pub skip_directories : ℕ → Text → Option Text
skip_directories zero cp = none
skip_directories (suc fuel) cp = elim (strpbrk cp) [
  | none ↦ some cp
  | some cp1 ↦ skip_directories fuel (next_char cp1)
]

-- What a function that allocates a file name returns: NULL, a name, a pointer that was never set, a
-- write past the end of the memory, or an `int` that overflows.
pub data FileName : Type 0 where
  null_name indeterminate overrun overflow out_of_fuel : FileName
  file_name : Text → FileName

-- `strcpy(cp, s)` into `size` bytes.
abbrev pub copied : ℕ → Text → FileName
copied size s = if ltb (length s) size then file_name s else overrun

-- `malloc(safe_strlen(cp)+1)` and the copy, for what the loop returned.
abbrev pub copied_or : Option Text → Bool → FileName
copied_or none memory = out_of_fuel
copied_or (some cp) memory = elim (int_succ (safe_strlen (some cp))) [
  | none ↦ overflow
  | some i ↦ if memory then copied (int_to_size i) cp else null_name
]

unfoldable pub get_file_name_no_dir : Bool → Option Text → FileName
unfolding skip_directories safe_strlen
get_file_name_no_dir memory none = null_name
get_file_name_no_dir memory (some path) =
    copied_or (skip_directories (suc (length path)) path) memory

-- `cp` is returned without a value where there is no base.
unfoldable pub create_file_name : Bool → Option Text → Text → FileName
create_file_name memory none ext = indeterminate
create_file_name memory (some base) ext =
    if memory
    then copied ((length base + length ext + 1) % 18446744073709551616) (base ++ ext)
    else null_name

-- `rindex`: the loop over the string behind `cp`, with the position of the character after it, and the
-- last position found. The terminator is tested too.
unfoldable pub rindex_loop : ℕ → Text → ℕ → Option ℕ → Option ℕ
rindex_loop c [] at found = found
rindex_loop c (x ∷ []) at found = if 0 == c then some at else found
rindex_loop c (x ∷ y ∷ s) at found =
    rindex_loop c (y ∷ s) (suc at) (if y == c then some at else found)

-- The position in the string, or NULL.
unfoldable pub rindex : Text → ℕ → Option ℕ
unfolding rindex_loop
rindex str c = rindex_loop c str 1 none
