-- ===== src/CFiles/Phases.antt =====
-- Closing the files one by one.
use fsm_lang.Base.{
  ◌≡◌, refl, ◌∙◌, ap, arith, Bool, true, false, Option, none, some, List, [], ◌∷◌, if◌then◌else◌,
  Text, Bool-cases, inl, inr,
}
use fsm_lang.CFiles.{
  CreatedFile, created_files, Files, and_then, set_file, same_file, cf_c, cf_h, cf_pub_h,
  cf_sub_machine_h, cf_events_h, fclose_and_clear, close_files, unlink, unlink_files,
}
use fsm_lang.CFiles.Opening.{eq_of_same_file}

-- The files of a set are open, each in its own slot, and the other slots are NULL.
abbrev pub Phase : (CreatedFile → Bool) → Files → Type 0
Phase todo d =
    (cf : CreatedFile)
    → (d.file_array cf ≡ (if todo cf then some cf else none)) × (d.is_open cf ≡ todo cf)

-- Neither a file's name nor whether it is there has changed, nor whether a sub-machine was met.
abbrev pub SameDisk : Files → Files → Type 0
SameDisk d d' =
    (cf : CreatedFile)
    → (d'.on_disk cf ≡ d.on_disk cf) × (d'.file_name_array cf ≡ d.file_name_array cf)

pub fclose_and_clear-Phase :
    (cf : CreatedFile) (todo : CreatedFile → Bool) (d : Files)
    → Phase todo d
    → (d' : Files) × (fclose_and_clear cf d ≡ some d')
      × Phase (set_file todo cf false) d'
      × SameDisk d d'
unfolding fclose_and_clear
fclose_and_clear-Phase cf todo d h = elim (Bool-cases (todo cf)) [
  | inl on ↦
      let slot : d.file_array cf ≡ some cf = (h cf).0 ∙ rw on refl in
      let live : d.is_open cf ≡ true = (h cf).1 ∙ on in
      (
        record d {
          file_array = set_file d.file_array cf none;
          is_open = set_file d.is_open cf false;
        },
        rw (fclose_and_clear, slot, live) refl,
        λ g. elim (Bool-cases (same_file g cf)) [
          | inl same ↦ (rw same refl, rw same refl)
          | inr other ↦ (rw other (h g).0, rw other (h g).1)
        ],
        λ g. (refl, refl),
      )
  | inr off ↦
      let slot : d.file_array cf ≡ none = (h cf).0 ∙ rw off refl in
      (
        d,
        rw (fclose_and_clear, slot) refl,
        λ g. elim (Bool-cases (same_file g cf)) [
          | inl same ↦
              let here : g ≡ cf = eq_of_same_file g cf same in
              (
                ap d.file_array here ∙ slot ∙ rw same refl,
                ap d.is_open here ∙ (h cf).1 ∙ off ∙ rw same refl,
              )
          | inr other ↦ (rw other (h g).0, rw other (h g).1)
        ],
        λ g. (refl, refl),
      )
]

abbrev pub cleared : List CreatedFile → (CreatedFile → Bool) → CreatedFile → Bool
cleared [] todo = todo
cleared (cf ∷ cfs) todo = cleared cfs (set_file todo cf false)

pub close_files-Phase :
    (cfs : List CreatedFile) (todo : CreatedFile → Bool) (d : Files)
    → Phase todo d
    → (d' : Files) × (close_files cfs d ≡ some d') × Phase (cleared cfs todo) d' × SameDisk d d'
unfolding close_files
close_files-Phase [] todo d h = (d, refl, h, λ g. (refl, refl))
close_files-Phase (cf ∷ cfs) todo d h =
    let (d1, run, h1, same1) = fclose_and_clear-Phase cf todo d h in
    let (d2, run', h2, same2) = close_files-Phase cfs (set_file todo cf false) d1 h1 in
    (
      d2,
      ap (λ (o : Option Files). and_then o (close_files cfs)) run ∙ run',
      h2,
      λ g. ((same2 g).0 ∙ (same1 g).0, (same2 g).1 ∙ (same1 g).1),
    )

pub all_cleared :
    (cf : CreatedFile) (todo : CreatedFile → Bool) → cleared created_files todo cf ≡ false
all_cleared cf_c todo = refl
all_cleared cf_h todo = refl
all_cleared cf_pub_h todo = refl
all_cleared cf_sub_machine_h todo = refl
all_cleared cf_events_h todo = refl

-- Where every file has its name, all of them are removed.
pub unlink-names :
    (cf g : CreatedFile) (d : Files) → (unlink cf d).file_name_array g ≡ d.file_name_array g
unfolding unlink
unlink-names cf g d = ground arith

unlink-on_disk :
    (cf : CreatedFile) (d : Files)
    → ((f : CreatedFile) → (name : Text) × (d.file_name_array f ≡ some name))
    → (unlink cf d).on_disk ≡ set_file d.on_disk cf false
unfolding unlink
unlink-on_disk cf d names = let (name, has) = names cf in rw (unlink, has) refl

pub unlink_files-on_disk :
    (cfs : List CreatedFile) (d : Files) (g : CreatedFile)
    → ((f : CreatedFile) → (name : Text) × (d.file_name_array f ≡ some name))
    → (unlink_files cfs d).on_disk g ≡ cleared cfs d.on_disk g
unfolding unlink_files
unlink_files-on_disk [] d g names = refl
unlink_files-on_disk (cf ∷ cfs) d g names =
    unlink_files-on_disk cfs (unlink cf d) g
      (λ f. let (name, has) = names f in (name, unlink-names cf f d ∙ has))
    ∙ ap (λ (on_disk : CreatedFile → Bool). cleared cfs on_disk g) (unlink-on_disk cf d names)
