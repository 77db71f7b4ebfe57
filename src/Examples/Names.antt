-- ===== src/Examples/Names.antt =====
-- Names that src/ancestry.c and src/fsm_utils.c make, on concrete machines.
use fsm_lang.Base.{
  ◌≡◌, refl, arith, true, false, ◌&&◌, ◌∷◌, [], none, some, ◌==◌, if◌then◌else◌, codes,
}
use fsm_lang.Hungarian.{hungarian_to_underbar_caps, stream_hungarian_to_underbar_caps, text}
use fsm_lang.Hungarian.Buffer.{hungarian-eq-stream}
use fsm_lang.Hungarian.Case.{IsLetters}
use fsm_lang.Ancestry.{
  Machine, top, sub, name, alc_upper, alc_lower, inclusion, print_ancestry,
  print_name_with_ancestry, max_depth, sub_machine_depth, increase_sub_machine_depth,
}
use fsm_lang.Ancestry.Join.{
  join, cases, selected, print_ancestry-join, print_ancestry-omit_ultimate,
}
use fsm_lang.TypeNames.{Memory, CMachineData}
use fsm_lang.TypeNames.Names.{
  fq_machine_name, ucfq_machine_name, uc_machine_name, nf_machine_name, uc_nf_machine_name,
  uf_machine_name, create_ancestry_file_name, nf_machine_name_pmi,
}
use fsm_lang.TypeNames.Types.{state_type}
use fsm_lang.TypeNames.Index.{make, state, fsm_data}
use fsm_lang.TypeNames.Once.{make-once}
use fsm_lang.TypeNames.Widths.{Grows, Fits, make-Fits}
use fsm_lang.TypeNames.Qualified.{enough, machine_names-join, uf_machine_name-qualified}

hungarian-eq-stream_example :
    hungarian_to_underbar_caps true (codes "newMachine")
    ≡ text (stream_hungarian_to_underbar_caps (codes "newMachine"))
hungarian-eq-stream_example = hungarian-eq-stream (codes "newMachine") (omega arith)

letters : IsLetters (codes "testFSM")
letters = (refl, (refl, (refl, (refl, (refl, (refl, (refl, tt)))))))

-- A machine `top` with the sub-machine `mid`, which has the sub-machine `low`.
abbrev mid : Machine
mid = sub (top (codes "top") 2) (codes "mid") 1

abbrev low : Machine
low = sub mid (codes "low") 0

print_ancestry-join_example :
    print_ancestry low (codes "_") alc_lower (inclusion true false false)
    ≡ (true, codes "top_mid_low")
unfolding fsm_lang.Ancestry.stream_str_case_aware
print_ancestry-join_example = print_ancestry-join low (codes "_") alc_lower true false

print_ancestry-omit_ultimate_example :
    print_ancestry low (codes "_") alc_upper (inclusion true true false)
    ≡ (true, join [] (cases alc_upper (codes "mid" ∷ codes "low" ∷ [])))
print_ancestry-omit_ultimate_example =
    print_ancestry-omit_ultimate mid (codes "low") 0 (codes "_") alc_upper

abbrev generated : CMachineData
generated = record {
  pmi = low;
  actions_return_void = true;
  actions_return_states = false;
  data_block_count = 0;
  action_return_type = none;
  fsm_type = none;
  action_fn_type = none;
  action_trans_type = none;
  transition_fn_type = none;
  fsm_data_type = none;
  fsm_fn_type = none;
  event_type = none;
  fsm_fn_event_type = none;
  sub_fsm_if_type = none;
  state_type = none;
  state_fn_type = none;
  sub_machine_fn_type = none;
  data_translation_fn_type = none;
  shared_event_str_type = none;
  fq_machine_name = none;
  uf_machine_name = none;
  ucfq_machine_name = none;
  uc_machine_name = none;
  nf_machine_name = none;
  uc_nf_machine_name = none;
  sub_fsm_if_format_width = 0;
  shared_event_str_format_width = 0;
  sub_machine_struct_format_width = 0;
  c_machine_struct_format_width = 0;
}

machine_names-join_example :
    ((fq_machine_name enough generated).0 ≡ some (join (codes "_") (selected true false low)))
    × ((ucfq_machine_name enough generated).0
        ≡ some (join (codes "_") (cases alc_upper (selected true false low))))
    × ((nf_machine_name enough generated).0 ≡ some (join (codes "_") (selected true true low)))
    × ((uc_nf_machine_name enough generated).0
        ≡ some (join (codes "_") (cases alc_upper (selected true true low))))
    × (create_ancestry_file_name enough low ≡ some (join (codes "_") (selected true false low)))
    × (nf_machine_name_pmi enough low ≡ some (join (codes "_") (selected true true low)))
    × ((uc_machine_name enough generated).0
        ≡ some (stream_hungarian_to_underbar_caps (codes "low")))
machine_names-join_example = machine_names-join generated refl refl refl refl refl (omega arith)

uf_machine_name-qualified_example :
    (uf_machine_name true enough generated).0
    ≡ some (
        if true && max_depth low == 1
        then codes "low"
        else join (codes "_") (selected true false low))
uf_machine_name-qualified_example = uf_machine_name-qualified true generated refl

abbrev scarce : Memory
scarce = record { tmpfile = false; malloc = false }

state_made : (make state enough generated).0 ≡ some (codes "LOW_STATE")
unfolding state_type stream_hungarian_to_underbar_caps fsm_lang.TypeNames.create_string_from_file
state_made = refl

make-once_example :
    make state scarce (make state enough generated).1
    ≡ (some (codes "LOW_STATE"), (make state enough generated).1)
make-once_example = make-once state enough scarce generated (codes "LOW_STATE") state_made

make-Fits_example :
    Grows generated (make fsm_data enough generated).1
    × Fits fsm_data (make fsm_data enough generated).1
make-Fits_example = make-Fits fsm_data enough generated (tt, (tt, tt))
