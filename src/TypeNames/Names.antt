-- ===== src/TypeNames/Names.antt =====
-- The machine names of src/ancestry.c, from `machineName` to `nfMachineNamePmi`, and
-- `createAncestryFileName`.
use fsm_lang.Base.{Bool, true, false, ◌&&◌, Option, none, some, ◌==◌, if◌then◌else◌, Text, codes}
use fsm_lang.Hungarian.{
  Allocated, out_of_memory, overrun, overflow, text, hungarian_to_underbar_caps,
}
use fsm_lang.Ancestry.{Machine, name, inclusion, alc_upper, alc_lower, print_ancestry, max_depth}
use fsm_lang.TypeNames.{Memory, CMachineData, create_string_from_file, once}

abbrev pub machine_name : CMachineData → Text
machine_name pcmd = name pcmd.pmi

unfoldable pub fq_machine_name : Memory → CMachineData → Option Text × CMachineData
fq_machine_name memory pcmd =
    once pcmd.fq_machine_name
      (print_ancestry pcmd.pmi (codes "_") alc_lower (inclusion true false false)).1
      (λ s str_len. record pcmd { fq_machine_name = s }) memory pcmd

-- `strdup` does not need a temporary file.
unfoldable pub uf_machine_name : Bool → Memory → CMachineData → Option Text × CMachineData
uf_machine_name short_user_fn_names memory pcmd =
    if short_user_fn_names && max_depth pcmd.pmi == 1
    then once pcmd.uf_machine_name (name pcmd.pmi)
        (λ s str_len. record pcmd { uf_machine_name = s }) (record memory { tmpfile = true }) pcmd
    else once pcmd.uf_machine_name
        (print_ancestry pcmd.pmi (codes "_") alc_lower (inclusion true false false)).1
        (λ s str_len. record pcmd { uf_machine_name = s }) memory pcmd

unfoldable pub ucfq_machine_name : Memory → CMachineData → Option Text × CMachineData
ucfq_machine_name memory pcmd =
    once pcmd.ucfq_machine_name
      (print_ancestry pcmd.pmi (codes "_") alc_upper (inclusion true false false)).1
      (λ s str_len. record pcmd { ucfq_machine_name = s }) memory pcmd

abbrev pub allocated_text : Allocated → Option Text
allocated_text out_of_memory = none
allocated_text overrun = none
allocated_text overflow = none
allocated_text (text s) = some s

unfoldable pub uc_machine_name : Memory → CMachineData → Option Text × CMachineData
uc_machine_name memory pcmd = elim pcmd.uc_machine_name [
  | some s ↦ (some s, pcmd)
  | none ↦
      let s = allocated_text (hungarian_to_underbar_caps memory.malloc (name pcmd.pmi)) in
      (s, record pcmd { uc_machine_name = s })
]

unfoldable pub nf_machine_name : Memory → CMachineData → Option Text × CMachineData
nf_machine_name memory pcmd =
    once pcmd.nf_machine_name
      (print_ancestry pcmd.pmi (codes "_") alc_lower (inclusion true false true)).1
      (λ s str_len. record pcmd { nf_machine_name = s }) memory pcmd

unfoldable pub uc_nf_machine_name : Memory → CMachineData → Option Text × CMachineData
uc_nf_machine_name memory pcmd =
    once pcmd.uc_nf_machine_name
      (print_ancestry pcmd.pmi (codes "_") alc_upper (inclusion true false true)).1
      (λ s str_len. record pcmd { uc_nf_machine_name = s }) memory pcmd

-- `createAncestryFileName` and `nfMachineNamePmi`, which keep nothing.
unfoldable pub create_ancestry_file_name : Memory → Machine → Option Text
create_ancestry_file_name memory pmi =
    if memory.tmpfile
    then (create_string_from_file memory
        (print_ancestry pmi (codes "_") alc_lower (inclusion true false false)).1).0
    else none

unfoldable pub nf_machine_name_pmi : Memory → Machine → Option Text
nf_machine_name_pmi memory pmi =
    if memory.tmpfile
    then (create_string_from_file memory
        (print_ancestry pmi (codes "_") alc_lower (inclusion true false true)).1).0
    else none
