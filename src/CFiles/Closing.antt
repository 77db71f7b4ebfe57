-- ===== src/CFiles/Closing.antt =====
-- What becomes of the files of a machine that was started, written and closed.
use fsm_lang.Base.{
  ◌≡◌, refl, ◌∙◌, ap, arith, Bool, true, false, not, ◌&&◌, ◌||◌, Option, none, some, List, [], ◌∷◌,
  ◌++◌, Text, Bool-cases, inl, inr,
}
use fsm_lang.CFiles.{
  CreatedFile, cf_h, cf_pub_h, cf_sub_machine_h, cf_events_h, created_files, Files, write, and_then,
  set_file, same_file, same_stream, init_c_machine, end_public_header, drop_sub_machine_header,
  guard_end, close_and_free, finish_files, fclose_and_clear, unlink, unlink_files,
  destroy_c_machine_data,
}
use fsm_lang.CFiles.Opening.{Opened}
use fsm_lang.CFiles.Phases.{
  Phase, all_cleared, fclose_and_clear-Phase, close_files-Phase, unlink_files-on_disk,
}
use fsm_lang.CFiles.Start.{init_c_machine-Opened, write_texts, write_texts-KeepsOpen}

Opened-Phase : (d : Files) → Opened d → Phase (λ cf. true) d
Opened-Phase d h cf = ((h cf).0, (h cf).1)

-- Every file is closed, and those that `kept` names are there.
abbrev pub Closed : (CreatedFile → Bool) → Files → Type 0
Closed kept d =
    (cf : CreatedFile)
    → (d.file_array cf ≡ none)
      × (d.is_open cf ≡ false)
      × (d.on_disk cf ≡ kept cf)
      × (d.file_name_array cf ≡ none)

abbrev pub kept_files : Bool → Bool → CreatedFile → Bool
kept_files good encountered cf = good && (encountered || not (same_file cf cf_sub_machine_h))

abbrev pub appended : CreatedFile → Text → Files → Files
appended cf s d = record d { text = set_file d.text cf (d.text cf ++ s) }

write-opened :
    (cf : CreatedFile) (s : Text) (d : Files)
    → d.file_array cf ≡ some cf
    → write cf s d ≡ some (appended cf s d)
unfolding write
write-opened cf s d slot = rw (write, slot) refl

end_public_header-Opened :
    (d : Files) → Opened d → end_public_header d ≡ some (appended cf_pub_h guard_end d)
unfolding end_public_header
end_public_header-Opened d h =
    ground (arith, (h cf_pub_h).0, (h cf_h).0, write-opened cf_pub_h guard_end d (h cf_pub_h).0)

-- What a closed machine that was written leaves behind, in the middle of its closing.
abbrev Finished : Files → Files → Type 0
Finished d d' =
    Phase (kept_files true d.a_sub_machine_was_encountered) d'
    × ((cf : CreatedFile)
        → (d'.on_disk cf ≡ kept_files true d.a_sub_machine_was_encountered cf)
          × (d'.file_name_array cf ≡ d.file_name_array cf))

unlink-named :
    (cf : CreatedFile) (d : Files) (name : Text)
    → d.file_name_array cf ≡ some name
    → unlink cf d ≡ record d { on_disk = set_file d.on_disk cf false }
unfolding unlink
unlink-named cf d name has = rw (unlink, has) refl

dropped :
    (d d1 : Files) (name : Text)
    → d.a_sub_machine_was_encountered ≡ false
    → fclose_and_clear cf_sub_machine_h d ≡ some d1
    → d1.file_name_array cf_sub_machine_h ≡ some name
    → drop_sub_machine_header d
      ≡ some (record d1 { on_disk = set_file d1.on_disk cf_sub_machine_h false })
unfolding drop_sub_machine_header
dropped d d1 name alone run has =
    ground (arith, alone, run)
    ∙ ap (λ (q : Files). some q) (unlink-named cf_sub_machine_h d1 name has)

drop_sub_machine_header-Finished :
    (d : Files) → Opened d → (d' : Files) × (drop_sub_machine_header d ≡ some d') × Finished d d'
unfolding drop_sub_machine_header unlink
drop_sub_machine_header-Finished d h = elim (Bool-cases d.a_sub_machine_was_encountered) [
  | inl met ↦ (
    d,
    ground (arith, met),
    (
      λ cf. (ground (arith, met, (h cf).0), ground (arith, met, (h cf).1)),
      λ cf. (ground (arith, met, (h cf).2), refl),
    ),
  )
  | inr alone ↦
      let (d1, run, h1, same) =
        fclose_and_clear-Phase cf_sub_machine_h (λ cf. true) d (Opened-Phase d h) in
      let (name, has) = (h cf_sub_machine_h).3 in
      let has1 : d1.file_name_array cf_sub_machine_h ≡ some name =
        (same cf_sub_machine_h).1 ∙ has in
      (
        record d1 { on_disk = set_file d1.on_disk cf_sub_machine_h false },
        dropped d d1 name alone run has1,
        (
          λ cf. (ground (arith, alone, (h1 cf).0), ground (arith, alone, (h1 cf).1)),
          λ cf. (ground (arith, alone, (h cf).2, (same cf).0), (same cf).1),
        ),
      )
]

finish_files-Finished :
    (d : Files) → Opened d → (d' : Files) × (finish_files d ≡ some d') × Finished d d'
unfolding finish_files
finish_files-Finished d h =
    let d1 : Files = appended cf_h guard_end d in
    let d2 : Files = appended cf_sub_machine_h guard_end d1 in
    let d3 : Files = appended cf_events_h guard_end d2 in
    let d4 : Files = appended cf_pub_h guard_end d3 in
    let (d', run, done) = drop_sub_machine_header-Finished d4 h in
    (
      d',
      ap
            (λ (o : Option Files). and_then o (λ q.
              and_then (write cf_sub_machine_h guard_end q) (λ r.
                and_then (write cf_events_h guard_end r)
                  (λ s. and_then (end_public_header s) drop_sub_machine_header))))
            (write-opened cf_h guard_end d (h cf_h).0)
          ∙ ap
              (λ (o : Option Files). and_then o (λ r.
                and_then (write cf_events_h guard_end r)
                  (λ s. and_then (end_public_header s) drop_sub_machine_header)))
              (write-opened cf_sub_machine_h guard_end d1 (h cf_sub_machine_h).0)
          ∙ ap
              (λ (o : Option Files).
                and_then o (λ s. and_then (end_public_header s) drop_sub_machine_header))
              (write-opened cf_events_h guard_end d2 (h cf_events_h).0)
          ∙ ap (λ (o : Option Files). and_then o drop_sub_machine_header)
              (end_public_header-Opened d3 h)
          ∙ run,
      done,
    )

unlink_files-streams :
    (cfs : List CreatedFile) (d : Files) (g : CreatedFile)
    → ((unlink_files cfs d).file_array g ≡ d.file_array g)
      × ((unlink_files cfs d).is_open g ≡ d.is_open g)
unfolding unlink_files unlink
unlink_files-streams [] d g = (refl, refl)
unlink_files-streams (cf ∷ cfs) d g =
    let (a, b) = unlink_files-streams cfs (unlink cf d) g in (a ∙ ground arith, b ∙ ground arith)

same_alone :
    (d : Files)
    → d.file_array cf_pub_h ≡ some cf_pub_h
    → d.file_array cf_h ≡ some cf_h
    → same_stream (d.file_array cf_pub_h) (d.file_array cf_h) ≡ false
same_alone d slot_pub slot_h = ground (arith, slot_pub, slot_h)

close_and_free-Closed :
    (good : Bool) (todo : CreatedFile → Bool) (d : Files)
    → Phase todo d
    → todo cf_pub_h ≡ true
    → todo cf_h ≡ true
    → ((cf : CreatedFile) → (name : Text) × (d.file_name_array cf ≡ some name))
    → (d' : Files) × (close_and_free good d ≡ some d') × Closed (λ cf. good && d.on_disk cf) d'
unfolding close_and_free
close_and_free-Closed good todo d h pub_todo h_todo names =
    let (d1, run, h1, same) = close_files-Phase created_files todo d h in
    let apart = same_alone d ((h cf_pub_h).0 ∙ rw pub_todo refl) ((h cf_h).0 ∙ rw h_todo refl) in
    let gone : (cf : CreatedFile) → (d1.file_array cf ≡ none) × (d1.is_open cf ≡ false) =
      λ cf. (ground (arith, (h1 cf).0, all_cleared cf todo), (h1 cf).1 ∙ all_cleared cf todo) in
    elim (Bool-cases good) [
      | inl well ↦ (
        record d1 { file_name_array = λ cf. none },
        rw (close_and_free, apart, run, well) refl,
        λ cf. ((gone cf).0, (gone cf).1, rw well (same cf).0, refl),
      )
      | inr ill ↦
          let d2 : Files = unlink_files created_files d1 in
          (
            record d2 { file_name_array = λ cf. none },
            rw (close_and_free, apart, run, ill) refl,
            λ cf. (
              (unlink_files-streams created_files d1 cf).0 ∙ (gone cf).0,
              (unlink_files-streams created_files d1 cf).1 ∙ (gone cf).1,
              unlink_files-on_disk created_files d1 cf
                    (λ f. let (name, has) = names f in (name, (same f).1 ∙ has))
                  ∙ all_cleared cf d1.on_disk
                  ∙ rw ill refl,
              refl,
            ),
          )
    ]

destroy_c_machine_data-Closed :
    (good : Bool) (d : Files)
    → Opened d
    → (d' : Files) × (destroy_c_machine_data good d ≡ some d')
      × Closed (kept_files good d.a_sub_machine_was_encountered) d'
unfolding destroy_c_machine_data
destroy_c_machine_data-Closed false d h =
    let (d', run, closed) =
      close_and_free-Closed false (λ cf. true) d (Opened-Phase d h) refl refl (λ cf. (h cf).3) in
    (d', run, closed)
destroy_c_machine_data-Closed true d h =
    let (d1, run1, (phase, disk)) = finish_files-Finished d h in
    let (d2, run2, closed) =
      close_and_free-Closed true (kept_files true d.a_sub_machine_was_encountered) d1 phase
        (ground arith) (ground arith)
        (λ cf. let (name, has) = (h cf).3 in (name, (disk cf).1 ∙ has)) in
    (
      d2,
      ap (λ (o : Option Files). and_then o (close_and_free true)) run1 ∙ run2,
      λ cf. ((closed cf).0, (closed cf).1, (closed cf).2 ∙ (disk cf).0, (closed cf).3),
    )

-- Where the five files of a machine can be opened, `initCMachine` opens them, whatever is then
-- written to them is written to open streams, and `destroyCMachineData` closes each of them once
-- and frees the names. If the machine was written well the files stay, but for the header for
-- sub-machines where none was met; otherwise all of them are removed. Memory can be had.
pub destroy_c_machine_data-init :
    (file_name_no_dir : Text → Text) (opens : CreatedFile → Bool) (file_name : Text)
    (before : CreatedFile → Bool) (texts : List (CreatedFile × Text)) (encountered good : Bool)
    → ((cf : CreatedFile) → opens cf ≡ true)
    → (started : Files) × (written : Files) × (closed : Files) × (init_c_machine true
          file_name_no_dir opens file_name before
        ≡ some (0, some started))
      × (write_texts texts started ≡ some written)
      × (destroy_c_machine_data good
            (record written { a_sub_machine_was_encountered = encountered })
          ≡ some closed)
      × Closed (kept_files good encountered) closed
destroy_c_machine_data-init file_name_no_dir opens file_name before texts encountered good all =
    let (started, run1, h1) = init_c_machine-Opened file_name_no_dir opens file_name before all in
    let (written, run2, h2) = write_texts-KeepsOpen texts started h1 in
    let (closed, run3, h3) =
      destroy_c_machine_data-Closed good
        (record written { a_sub_machine_was_encountered = encountered }) h2 in
    (started, written, closed, run1, run2, run3, h3)
