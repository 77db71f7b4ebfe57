-- ===== src/TypeNames/Qualified.antt =====
-- What the machine names of src/ancestry.c are.
use fsm_lang.Base.{
  ◌≡◌, ◌+◌, ◌<◌, length, refl, ap, Bool, true, false, ◌&&◌, none, some, List, [], ◌∷◌, ◌==◌,
  if◌then◌else◌, Text, codes, Bool-cases, inl, inr,
}
use fsm_lang.Hungarian.{stream_hungarian_to_underbar_caps}
use fsm_lang.Hungarian.Buffer.{extra, hungarian-eq-stream}
use fsm_lang.Ancestry.{Machine, name, max_depth, alc_upper, alc_lower, stream_str_case_aware}
use fsm_lang.Ancestry.Join.{join, cases, selected, print_ancestry-join}
use fsm_lang.TypeNames.{Memory, CMachineData, create_string_from_file}
use fsm_lang.TypeNames.Names.{
  fq_machine_name, uf_machine_name, ucfq_machine_name, uc_machine_name, nf_machine_name,
  uc_nf_machine_name, create_ancestry_file_name, nf_machine_name_pmi,
}

-- A call that finds memory and a temporary file.
abbrev pub enough : Memory
enough = record { tmpfile = true; malloc = true }

-- The names of a machine and its ancestors, joined by underbars.
abbrev pub qualified : Machine → Text
qualified m = join (codes "_") (selected true false m)

-- The names of a machine and its parent.
abbrev pub with_parent : Machine → Text
with_parent m = join (codes "_") (selected true true m)

lower_lem : (xs : List Text) → cases alc_lower xs ≡ xs
unfolding stream_str_case_aware
lower_lem [] = refl
lower_lem (x ∷ xs) = ap (λ (t : List Text). x ∷ t) (lower_lem xs)

-- Where memory and a temporary file can be had and none of these names is kept yet, the fully
-- qualified machine name joins the names from the top-level machine down by underbars, the near
-- name joins the parent's name and the machine's, the two `uc` variants do so with each name in
-- underbar capitals, `createAncestryFileName` and `nfMachineNamePmi` give the fully qualified and
-- the near name, and `ucMachineName` gives what `streamHungarianToUnderbarCaps` writes for the
-- machine's name. The size that the machine's name needs in underbar capitals is below 2 ^ 31.
pub machine_names-join :
    (p : CMachineData)
    → p.fq_machine_name ≡ none
    → p.ucfq_machine_name ≡ none
    → p.nf_machine_name ≡ none
    → p.uc_nf_machine_name ≡ none
    → p.uc_machine_name ≡ none
    → length (name p.pmi) + extra (name p.pmi) < 2147483647
    → ((fq_machine_name enough p).0 ≡ some (qualified p.pmi))
      × ((ucfq_machine_name enough p).0
          ≡ some (join (codes "_") (cases alc_upper (selected true false p.pmi))))
      × ((nf_machine_name enough p).0 ≡ some (with_parent p.pmi))
      × ((uc_nf_machine_name enough p).0
          ≡ some (join (codes "_") (cases alc_upper (selected true true p.pmi))))
      × (create_ancestry_file_name enough p.pmi ≡ some (qualified p.pmi))
      × (nf_machine_name_pmi enough p.pmi ≡ some (with_parent p.pmi))
      × ((uc_machine_name enough p).0 ≡ some (stream_hungarian_to_underbar_caps (name p.pmi)))
unfolding fq_machine_name ucfq_machine_name nf_machine_name uc_nf_machine_name
    create_ancestry_file_name nf_machine_name_pmi uc_machine_name create_string_from_file
machine_names-join p fq ucfq nf ucnf uc lt = (
  rw (fq, print_ancestry-join, lower_lem),
  rw (ucfq, print_ancestry-join),
  rw (nf, print_ancestry-join, lower_lem),
  rw (ucnf, print_ancestry-join),
  rw (print_ancestry-join, lower_lem),
  rw (print_ancestry-join, lower_lem),
  rw (uc, hungarian-eq-stream (name p.pmi) lt),
)

-- The name for user functions is the bare machine name exactly when short names are asked for and
-- the top-level machine's depth is 1; else it is the fully qualified name. It is made at the first
-- call, with memory and a temporary file.
pub uf_machine_name-qualified :
    (short : Bool) (p : CMachineData)
    → p.uf_machine_name ≡ none
    → (uf_machine_name short enough p).0
      ≡ some (if short && max_depth p.pmi == 1 then name p.pmi else qualified p.pmi)
unfolding uf_machine_name create_string_from_file
uf_machine_name-qualified short p e = elim (Bool-cases (short && max_depth p.pmi == 1)) [
  | inl y ↦ rw (y, e)
  | inr n ↦ rw (n, e, print_ancestry-join, lower_lem)
]
