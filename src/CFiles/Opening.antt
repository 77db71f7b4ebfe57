-- ===== src/CFiles/Opening.antt =====
-- A machine that starts opens its files and leaves them open.
use mathlib.Core.Path.{subst}
use fsm_lang.Base.{
  ℕ, ◌≡◌, refl, ◌∙◌, ap, sym, ==_iff, arith, Bool, true, false, Option, none, some, List, [], ◌∷◌,
  ◌++◌, ◌==◌, if◌then◌else◌, Text, Bool-cases, inl, inr,
}
use fsm_lang.CFiles.{
  CreatedFile, cf_c, cf_h, cf_pub_h, cf_sub_machine_h, cf_events_h, Files, write, and_then,
  set_file, same_file, cf_number, guarded, create_header_compilation_guard, open_slot, open_files,
  write_header_preamble, write_preamble, write_preambles, name_text,
}

-- Every file is open, in its own slot, and has its name.
abbrev pub Opened : Files → Type 0
Opened d =
    (cf : CreatedFile)
    → (d.file_array cf ≡ some cf)
      × (d.is_open cf ≡ true)
      × (d.on_disk cf ≡ true)
      × ((name : Text) × (d.file_name_array cf ≡ some name))

-- A command that leaves all files open.
abbrev pub KeepsOpen : (Files → Option Files) → Type 0
KeepsOpen k = (d : Files) → Opened d → (d' : Files) × (k d ≡ some d') × Opened d'

pub write-KeepsOpen : (slot : CreatedFile) (s : Text) → KeepsOpen (write slot s)
unfolding write
write-KeepsOpen slot s d h =
    (record d { text = set_file d.text slot (d.text slot ++ s) }, rw (write, (h slot).0) refl, h)

pub and_then-KeepsOpen :
    (j k : Files → Option Files) → KeepsOpen j → KeepsOpen k → KeepsOpen (λ d. and_then (j d) k)
and_then-KeepsOpen j k keeps_j keeps_k d h =
    let (d1, run, h1) = keeps_j d h in
    let (d2, run', h2) = keeps_k d1 h1 in
    (d2, ap (λ (o : Option Files). and_then o k) run ∙ run', h2)

write_header_preamble-KeepsOpen :
    (file_name_no_dir : Text → Text) (cf : CreatedFile)
    → KeepsOpen (write_header_preamble file_name_no_dir cf)
unfolding write_header_preamble
write_header_preamble-KeepsOpen file_name_no_dir cf d h =
    let name : Text = name_text (d.file_name_array cf) in
    let guard : Text = create_header_compilation_guard (file_name_no_dir name) in
    let (d', run, h') = write-KeepsOpen cf (guarded name guard) d h in
    (d', rw (write_header_preamble, (h cf).0) run, h')

write_preamble-KeepsOpen :
    (file_name_no_dir : Text → Text) (cf : CreatedFile)
    → KeepsOpen (write_preamble file_name_no_dir none cf)
unfolding write_preamble
write_preamble-KeepsOpen file_name_no_dir cf_c d h = write-KeepsOpen cf_c _ d h
write_preamble-KeepsOpen file_name_no_dir cf_h d h =
    write_header_preamble-KeepsOpen file_name_no_dir cf_h d h
write_preamble-KeepsOpen file_name_no_dir cf_pub_h d h =
    let (d', run, h') = write_header_preamble-KeepsOpen file_name_no_dir cf_pub_h d h in
    (d', rw (write_preamble, (h cf_pub_h).0, (h cf_h).0) run, h')
write_preamble-KeepsOpen file_name_no_dir cf_sub_machine_h d h =
    write_header_preamble-KeepsOpen file_name_no_dir cf_sub_machine_h d h
write_preamble-KeepsOpen file_name_no_dir cf_events_h d h =
    write_header_preamble-KeepsOpen file_name_no_dir cf_events_h d h

pub write_preambles-KeepsOpen :
    (file_name_no_dir : Text → Text) (cfs : List CreatedFile)
    → KeepsOpen (write_preambles file_name_no_dir none cfs)
unfolding write_preambles
write_preambles-KeepsOpen file_name_no_dir [] d h = (d, refl, h)
write_preambles-KeepsOpen file_name_no_dir (cf ∷ cfs) d h =
    and_then-KeepsOpen (write_preamble file_name_no_dir none cf)
      (write_preambles file_name_no_dir none cfs) (write_preamble-KeepsOpen file_name_no_dir cf)
      (write_preambles-KeepsOpen file_name_no_dir cfs) d h

from_number : ℕ → CreatedFile
from_number n =
    if n == 0
    then cf_c
    else if n == 1
    then cf_h
    else if n == 2
    then cf_pub_h
    else if n == 3
    then cf_sub_machine_h
    else cf_events_h

from_number-cf_number : (f : CreatedFile) → from_number (cf_number f) ≡ f
unfolding from_number
from_number-cf_number cf_c = refl
from_number-cf_number cf_h = refl
from_number-cf_number cf_pub_h = refl
from_number-cf_number cf_sub_machine_h = refl
from_number-cf_number cf_events_h = refl

pub eq_of_same_file : (f g : CreatedFile) → same_file f g ≡ true → f ≡ g
eq_of_same_file f g h =
    sym (from_number-cf_number f)
    ∙ ap from_number ((==_iff (cf_number f) (cf_number g)).0 h)
    ∙ from_number-cf_number g

-- The files that a set names are open.
abbrev pub OpenIn : (CreatedFile → Bool) → Files → Type 0
OpenIn done d =
    (cf : CreatedFile)
    → done cf ≡ true
    → (d.file_array cf ≡ some cf) × (d.is_open cf ≡ true) × (d.on_disk cf ≡ true)

open_slot-OpenIn :
    (opens : CreatedFile → Bool) (cf : CreatedFile) (d : Files) (done : CreatedFile → Bool)
    → opens cf ≡ true
    → OpenIn done d
    → OpenIn (set_file done cf true) (open_slot opens cf d)
unfolding open_slot
open_slot-OpenIn opens cf d done can h g marked = elim (Bool-cases (same_file g cf)) [
  | inl same ↦ (
    rw (can, same) (ap (λ (f : CreatedFile). some f) (sym (eq_of_same_file g cf same))),
    rw (can, same) refl,
    rw (can, same) refl,
  )
  | inr other ↦
      let (a, b, c) = h g (ground arith) in
      (rw (can, other) a, rw (can, other) b, rw (can, other) c)
]

open_slot-names :
    (opens : CreatedFile → Bool) (cf g : CreatedFile) (d : Files)
    → (open_slot opens cf d).file_name_array g ≡ d.file_name_array g
unfolding open_slot
open_slot-names opens cf g d = ground arith

abbrev pub marks : List CreatedFile → (CreatedFile → Bool) → CreatedFile → Bool
marks [] done = done
marks (cf ∷ cfs) done = marks cfs (set_file done cf true)

open_files-cons :
    (opens : CreatedFile → Bool) (cf : CreatedFile) (cfs : List CreatedFile) (d : Files)
    → opens cf ≡ true
    → open_files opens false (cf ∷ cfs) d ≡ open_files opens false cfs (open_slot opens cf d)
unfolding open_files
open_files-cons opens cf cfs d can = ground (arith, can)

abbrev pub AllOpenIn : (CreatedFile → Bool) → Files → Bool × Files → Type 0
AllOpenIn done d r =
    (r.0 ≡ false)
    × OpenIn done r.1
    × ((g : CreatedFile) → r.1.file_name_array g ≡ d.file_name_array g)

pub open_files-OpenIn :
    (opens : CreatedFile → Bool) (cfs : List CreatedFile) (d : Files) (done : CreatedFile → Bool)
    → ((cf : CreatedFile) → opens cf ≡ true)
    → OpenIn done d
    → AllOpenIn (marks cfs done) d (open_files opens false cfs d)
unfolding open_files
open_files-OpenIn opens [] d done all h = (refl, h, λ g. refl)
open_files-OpenIn opens (cf ∷ cfs) d done all h =
    let (fine, after, names) =
      open_files-OpenIn opens cfs (open_slot opens cf d) (set_file done cf true) all
        (open_slot-OpenIn opens cf d done (all cf) h) in
    subst (AllOpenIn (marks (cf ∷ cfs) done) d) (sym (open_files-cons opens cf cfs d (all cf)))
      (fine, after, λ g. names g ∙ open_slot-names opens cf g d)
