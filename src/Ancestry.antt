-- ===== src/Ancestry.antt =====
-- The names that src/fsm_utils.c builds from a machine and its ancestors: `streamStrCaseAware`,
-- `recursePrintAncestry`, `printAncestry`, `printNameWithAncestry`, and the depth of nesting.
pub mod Join
use fsm_lang.Base.{ℕ, ◌+◌, Bool, true, false, not, ◌&&◌, [], ◌++◌, if◌then◌else◌, u32, Text}
use fsm_lang.Hungarian.{stream_hungarian_to_underbar_caps}

-- `struct _machine_info_`, as far as this code reads it: the name, `sub_machine_depth` and, for a
-- sub-machine, the parent.
pub data Machine : Type 0 where
  top : Text → ℕ → Machine
  sub : Machine → Text → ℕ → Machine

abbrev pub name : Machine → Text
name (top n d) = n
name (sub p n d) = n

abbrev pub sub_machine_depth : Machine → ℕ
sub_machine_depth (top n d) = d
sub_machine_depth (sub p n d) = d

-- `ANCESTRY_LETTER_CASE`
pub data LetterCase : Type 0 where
  alc_upper alc_lower : LetterCase

-- `ANCESTRY_INCLUSION`: three of its four bits; the bit `ai_omit_self` is never tested.
pub record Inclusion : Type 0 where
  pub ai_include_self : Bool
  pub ai_omit_ultimate : Bool
  pub ai_stop_at_parent : Bool

abbrev pub inclusion : Bool → Bool → Bool → Inclusion
inclusion include_self omit_ultimate stop_at_parent = record {
  ai_include_self = include_self;
  ai_omit_ultimate = omit_ultimate;
  ai_stop_at_parent = stop_at_parent;
}

unfoldable pub stream_str_case_aware : LetterCase → Text → Text
stream_str_case_aware alc_upper s = stream_hungarian_to_underbar_caps s
stream_str_case_aware alc_lower s = s

-- The `else` branch: the last machine on the way up.
unfoldable pub print_ultimate : Text → LetterCase → Inclusion → Bool × Text
print_ultimate n alc ai =
    if not ai.ai_omit_ultimate then (true, stream_str_case_aware alc n) else (false, [])

-- What is returned, `something_was_printed`, and what is written.
unfoldable pub recurse_print_ancestry : Machine → Text → LetterCase → Inclusion → Bool × Text
unfolding print_ultimate
recurse_print_ancestry (top n d) separator alc ai = print_ultimate n alc ai
recurse_print_ancestry (sub p n d) separator alc ai =
    let (something_was_printed, out) = recurse_print_ancestry p separator alc ai in
    if not ai.ai_stop_at_parent
    then (
      something_was_printed,
      out ++ (if something_was_printed then separator else []) ++ stream_str_case_aware alc n,
    )
    else print_ultimate n alc ai

abbrev pub print_parents : Machine → Text → LetterCase → Inclusion → Bool × Text
print_parents (top n d) separator alc ai = (false, [])
print_parents (sub p n d) separator alc ai = recurse_print_ancestry p separator alc ai

unfoldable pub print_ancestry : Machine → Text → LetterCase → Inclusion → Bool × Text
unfolding recurse_print_ancestry
print_ancestry pmi separator alc ai =
    let (something_was_printed, out) = print_parents pmi separator alc ai in
    if ai.ai_include_self
    then (
      true,
      out
          ++ (if something_was_printed then separator else [])
          ++ stream_str_case_aware alc (name pmi),
    )
    else (something_was_printed, out)

unfoldable pub print_name_with_ancestry : Text → Machine → Text → LetterCase → Inclusion → Text
unfolding print_ancestry
print_name_with_ancestry n pmi separator alc ai =
    (print_ancestry pmi separator alc ai).1 ++ separator ++ stream_str_case_aware alc n

unfoldable pub ultimate_ancestor : Machine → Machine
ultimate_ancestor (top n d) = top n d
ultimate_ancestor (sub p n d) = ultimate_ancestor p

unfoldable pub max_depth : Machine → ℕ
unfolding ultimate_ancestor
max_depth pmi = sub_machine_depth (ultimate_ancestor pmi)

-- The parser calls this on the parent of a new sub-machine; it changes each machine on the way up.
unfoldable pub increase_sub_machine_depth : Machine → Machine
increase_sub_machine_depth (top n d) = top n (u32 (d + 1))
increase_sub_machine_depth (sub p n d) = sub (increase_sub_machine_depth p) n (u32 (d + 1))
