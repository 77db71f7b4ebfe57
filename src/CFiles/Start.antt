-- ===== src/CFiles/Start.antt =====
-- The start of a machine, and what is written while its files are open.
use fsm_lang.Base.{◌≡◌, refl, ◌∙◌, Bool, true, false, Option, none, some, List, [], ◌∷◌, ◌++◌, Text}
use fsm_lang.CFiles.{
  CreatedFile, cf_c, cf_h, cf_pub_h, cf_sub_machine_h, cf_events_h, created_files, Files, write,
  and_then, extension, open_files, write_c_file_preambles, new_c_machine_data, init_c_machine,
  include,
}
use fsm_lang.CFiles.Opening.{
  Opened, KeepsOpen, write-KeepsOpen, and_then-KeepsOpen, write_preambles-KeepsOpen,
  open_files-OpenIn, marks,
}

all_marked : (cf : CreatedFile) → marks created_files (λ f. false) cf ≡ true
all_marked cf_c = refl
all_marked cf_h = refl
all_marked cf_pub_h = refl
all_marked cf_sub_machine_h = refl
all_marked cf_events_h = refl

write_c_file_preambles-Opened :
    (file_name_no_dir : Text → Text) (opens : CreatedFile → Bool) (d : Files)
    → ((cf : CreatedFile) → opens cf ≡ true)
    → ((cf : CreatedFile) → (name : Text) × (d.file_name_array cf ≡ some name))
    → (d' : Files) × (write_c_file_preambles file_name_no_dir opens none d ≡ some d') × Opened d'
unfolding write_c_file_preambles
write_c_file_preambles-Opened file_name_no_dir opens d all names =
    let tried : Bool × Files = open_files opens false created_files d in
    let (fine, opened, named) =
      open_files-OpenIn opens created_files d (λ f. false) all (λ cf h. elim (false_true h) [ ]) in
    let (d', run, h') = write_preambles-KeepsOpen file_name_no_dir created_files tried.1 (λ cf.
      let (a, b, c) = opened cf (all_marked cf) in
      let (name, has) = names cf in (a, b, c, (name, named cf ∙ has))) in
    (d', rw (write_c_file_preambles, fine) run, h')
  where
    false_true : false ≡ true → ⊥
    false_true h = cc

-- The three inclusions that `initCMachine` adds.
pub init_c_machine-Opened :
    (file_name_no_dir : Text → Text) (opens : CreatedFile → Bool) (file_name : Text)
    (before : CreatedFile → Bool)
    → ((cf : CreatedFile) → opens cf ≡ true)
    → (d : Files) × (init_c_machine true file_name_no_dir opens file_name before ≡ some (0, some d))
      × Opened d
unfolding init_c_machine new_c_machine_data
init_c_machine-Opened file_name_no_dir opens file_name before all =
    let d0 : Files = record {
      file_array = λ cf. none;
      file_name_array = λ cf. some (file_name ++ extension cf);
      a_sub_machine_was_encountered = false;
      is_open = λ cf. false;
      on_disk = before;
      text = λ cf. [];
    } in
    let pub_include : Text = include (file_name ++ extension cf_pub_h) in
    let events_include : Text = include (file_name ++ extension cf_events_h) in
    let (d1, run1, h1) =
      write_c_file_preambles-Opened file_name_no_dir opens d0 all
        (λ cf. (file_name ++ extension cf, refl)) in
    let (d2, run2, h2) = write-KeepsOpen cf_h pub_include d1 h1 in
    let (d3, run3, h3) = write-KeepsOpen cf_sub_machine_h pub_include d2 h2 in
    let (d4, run4, h4) = write-KeepsOpen cf_pub_h events_include d3 h3 in
    (d4, rw (init_c_machine, new_c_machine_data, run1, run2, run3, run4) refl, h4)

-- What the generators write into the files in between.
abbrev pub write_texts : List (CreatedFile × Text) → Files → Option Files
write_texts [] d = some d
write_texts ((slot, s) ∷ more) d = and_then (write slot s d) (write_texts more)

pub write_texts-KeepsOpen : (texts : List (CreatedFile × Text)) → KeepsOpen (write_texts texts)
write_texts-KeepsOpen [] d h = (d, refl, h)
write_texts-KeepsOpen ((slot, s) ∷ more) d h =
    and_then-KeepsOpen (write slot s) (write_texts more) (write-KeepsOpen slot s)
      (write_texts-KeepsOpen more) d h
