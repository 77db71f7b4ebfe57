-- ===== src/Ancestry/Join.antt =====
-- What `printAncestry` and `printNameWithAncestry` write, as names joined by the separator.
use mathlib.Core.Path.{ap₂}
use fsm_lang.Base.{
  ℕ, ◌+◌, ◌≡◌, refl, Bool, true, false, List, [], ◌∷◌, ◌++◌, map, append_assoc, ◌∙◌, ap, sym,
  if◌then◌else◌, u32, Text,
}
use fsm_lang.Ancestry.{
  inclusion, Machine, top, sub, name, sub_machine_depth, LetterCase, stream_str_case_aware,
  print_ultimate, recurse_print_ancestry, print_parents, print_ancestry, print_name_with_ancestry,
  ultimate_ancestor, max_depth, increase_sub_machine_depth,
}

-- The texts of a list, with a separator between any two.
abbrev pub join : Text → List Text → Text
join separator [] = []
join separator (x ∷ []) = x
join separator (x ∷ y ∷ xs) = x ++ separator ++ join separator (y ∷ xs)

abbrev pub nonempty {ℓ} : {A : Type ℓ} → List A → Bool
nonempty [] = false
nonempty (x ∷ xs) = true

regroup : (a b c d : Text) → a ++ (b ++ c ++ d) ≡ a ++ b ++ c ++ d
regroup a b c d =
    sym (append_assoc a (b ++ c) d) ∙ ap (λ (t : Text). t ++ d) (sym (append_assoc a b c))

join-snoc :
    (separator : Text) (xs : List Text) (y : Text)
    → join separator (xs ++ y ∷ [])
      ≡ join separator xs ++ (if nonempty xs then separator else []) ++ y
join-snoc separator [] y = refl
join-snoc separator (x ∷ []) y = refl
join-snoc separator (x ∷ x' ∷ xs) y =
    ap (λ (t : Text). x ++ separator ++ t) (join-snoc separator (x' ∷ xs) y)
    ∙ regroup (x ++ separator) (join separator (x' ∷ xs)) separator y

nonempty-snoc {ℓ} : {A : Type ℓ} (xs : List A) (y : A) → nonempty (xs ++ y ∷ []) ≡ true
nonempty-snoc [] y = refl
nonempty-snoc (x ∷ xs) y = refl

-- The names from the top-level machine down to a machine.
abbrev pub lineage : Machine → List Text
lineage (top n d) = n ∷ []
lineage (sub p n d) = lineage p ++ n ∷ []

-- The ancestors that are to be named, the top-level machine among them.
abbrev pub ancestors : Bool → Machine → List Text
ancestors stop_at_parent (top n d) = []
ancestors stop_at_parent (sub p n d) = if stop_at_parent then name p ∷ [] else lineage p

abbrev pub cases : LetterCase → List Text → List Text
cases alc = map (stream_str_case_aware alc)

cases-snoc :
    (alc : LetterCase) (xs : List Text) (y : Text)
    → cases alc (xs ++ y ∷ []) ≡ cases alc xs ++ stream_str_case_aware alc y ∷ []
cases-snoc alc [] y = refl
cases-snoc alc (x ∷ xs) y =
    ap (λ (t : List Text). stream_str_case_aware alc x ∷ t) (cases-snoc alc xs y)

nonempty-lineage : (m : Machine) → nonempty (lineage m) ≡ true
nonempty-lineage (top n d) = refl
nonempty-lineage (sub p n d) = nonempty-snoc (lineage p) n

nonempty-cases : (alc : LetterCase) (xs : List Text) → nonempty (cases alc xs) ≡ nonempty xs
nonempty-cases alc [] = refl
nonempty-cases alc (x ∷ xs) = refl

-- Taking one more name into what is joined.
join-cases :
    (separator : Text) (alc : LetterCase) (xs : List Text) (y : Text)
    → join separator (cases alc (xs ++ y ∷ []))
      ≡ join separator (cases alc xs)
        ++ (if nonempty xs then separator else [])
        ++ stream_str_case_aware alc y
join-cases separator alc xs y =
    ap (join separator) (cases-snoc alc xs y)
    ∙ join-snoc separator (cases alc xs) (stream_str_case_aware alc y)
    ∙ rw (nonempty-cases alc xs)

module _ (separator : Text) (alc : LetterCase) (self : Bool) where
  recurse_print_ancestry-lineage :
      (m : Machine)
      → recurse_print_ancestry m separator alc (inclusion self false false)
        ≡ (true, join separator (cases alc (lineage m)))
  unfolding recurse_print_ancestry print_ultimate
  recurse_print_ancestry-lineage (top n d) = refl
  recurse_print_ancestry-lineage (sub p n d) = rw (recurse_print_ancestry-lineage p) (
      ap (λ (t : Text). (true, t))
        (sym (join-cases separator alc (lineage p) n ∙ rw (nonempty-lineage p))))

  print_parents-ancestors :
      (m : Machine) (stop : Bool)
      → print_parents m separator alc (inclusion self false stop)
        ≡ (nonempty (ancestors stop m), join separator (cases alc (ancestors stop m)))
  unfolding recurse_print_ancestry print_ultimate
  print_parents-ancestors (top n d) stop = refl
  print_parents-ancestors (sub p n d) false =
      recurse_print_ancestry-lineage p
      ∙ ap (λ (b : Bool). (b, join separator (cases alc (lineage p)))) (sym (nonempty-lineage p))
  print_parents-ancestors (sub (top n' d') n d) true = refl
  print_parents-ancestors (sub (sub p n' d') n d) true = refl

-- The names that `printAncestry` is to write.
abbrev pub selected : Bool → Bool → Machine → List Text
selected self stop_at_parent m =
    if self then ancestors stop_at_parent m ++ name m ∷ [] else ancestors stop_at_parent m

-- `printAncestry` without `ai_omit_ultimate` writes the names from the top-level machine down (or
-- from the parent, with `ai_stop_at_parent`), the machine's own name at the end if
-- `ai_include_self` is set, each in the case asked for, with the separator between any two. It
-- returns whether it wrote a name.
pub print_ancestry-join :
    (m : Machine) (separator : Text) (alc : LetterCase) (self stop : Bool)
    → print_ancestry m separator alc (inclusion self false stop)
      ≡ (nonempty (selected self stop m), join separator (cases alc (selected self stop m)))
unfolding print_ancestry
print_ancestry-join m separator alc false stop =
    rw (print_parents-ancestors separator alc false m stop)
print_ancestry-join m separator alc true stop =
    rw (print_parents-ancestors separator alc true m stop) (
      ap₂ (λ (b : Bool) (t : Text). (b, t)) (sym (nonempty-snoc (ancestors stop m) (name m)))
        (sym (join-cases separator alc (ancestors stop m) (name m))))

-- `printNameWithAncestry` without `ai_omit_ultimate`, where the machine has a name written before
-- it, joins the new name to the ancestry like one more machine.
pub print_name_with_ancestry-join :
    (n : Text) (m : Machine) (separator : Text) (alc : LetterCase) (self stop : Bool)
    → nonempty (selected self stop m) ≡ true
    → print_name_with_ancestry n m separator alc (inclusion self false stop)
      ≡ join separator (cases alc (selected self stop m ++ n ∷ []))
unfolding print_name_with_ancestry
print_name_with_ancestry-join n m separator alc self stop some_name =
    rw (print_ancestry-join m separator alc self stop)
      (sym (join-cases separator alc (selected self stop m) n ∙ rw some_name))

-- The names below the top-level machine.
abbrev pub below_top : Machine → List Text
below_top (top n d) = []
below_top (sub p n d) = below_top p ++ n ∷ []

run_together :
    (alc : LetterCase) (xs : List Text) (y : Text)
    → join [] (cases alc (xs ++ y ∷ []))
      ≡ join [] (cases alc xs) ++ [] ++ stream_str_case_aware alc y
run_together alc xs y = join-cases [] alc xs y ∙ nothing (nonempty xs)
  where
    nothing :
        (b : Bool)
        → join [] (cases alc xs) ++ (if b then [] else []) ++ stream_str_case_aware alc y
          ≡ join [] (cases alc xs) ++ [] ++ stream_str_case_aware alc y
    nothing true = refl
    nothing false = refl

recurse_print_ancestry-below_top :
    (m : Machine) (separator : Text) (alc : LetterCase) (self : Bool)
    → recurse_print_ancestry m separator alc (inclusion self true false)
      ≡ (false, join [] (cases alc (below_top m)))
unfolding recurse_print_ancestry print_ultimate
recurse_print_ancestry-below_top (top n d) separator alc self = refl
recurse_print_ancestry-below_top (sub p n d) separator alc self =
    rw (recurse_print_ancestry-below_top p separator alc self)
      (ap (λ (t : Text). (false, t)) (sym (run_together alc (below_top p) n)))

-- `printAncestry` with `ai_omit_ultimate` and `ai_include_self`, for a sub-machine, leaves out the
-- top-level machine's name and also every separator: the other names are run together, whatever the
-- separator is.
pub print_ancestry-omit_ultimate :
    (p : Machine) (n : Text) (d : ℕ) (separator : Text) (alc : LetterCase)
    → print_ancestry (sub p n d) separator alc (inclusion true true false)
      ≡ (true, join [] (cases alc (below_top p ++ n ∷ [])))
unfolding print_ancestry
print_ancestry-omit_ultimate p n d separator alc =
    rw (recurse_print_ancestry-below_top p separator alc true)
      (ap (λ (t : Text). (true, t)) (sym (run_together alc (below_top p) n)))

ultimate_ancestor-increase :
    (m : Machine)
    → ultimate_ancestor (increase_sub_machine_depth m)
      ≡ increase_sub_machine_depth (ultimate_ancestor m)
unfolding ultimate_ancestor increase_sub_machine_depth
ultimate_ancestor-increase (top n d) = refl
ultimate_ancestor-increase (sub p n d) = ultimate_ancestor-increase p

lineage-increase : (m : Machine) → lineage (increase_sub_machine_depth m) ≡ lineage m
unfolding increase_sub_machine_depth
lineage-increase (top n d) = refl
lineage-increase (sub p n d) = ap (λ (t : List Text). t ++ n ∷ []) (lineage-increase p)

sub_machine_depth-increase :
    (m : Machine) → sub_machine_depth (increase_sub_machine_depth m) ≡ u32 (sub_machine_depth m + 1)
unfolding increase_sub_machine_depth
sub_machine_depth-increase (top n d) = refl
sub_machine_depth-increase (sub p n d) = refl

-- `increase_sub_machine_depth` increases what `maxDepth` returns by one, modulo 2 ^ 32, and the
-- machine's own depth too, and keeps the names of the machine and of its ancestors.
pub increase_sub_machine_depth-max_depth :
    (m : Machine)
    → (max_depth (increase_sub_machine_depth m) ≡ u32 (max_depth m + 1))
      × (sub_machine_depth (increase_sub_machine_depth m) ≡ u32 (sub_machine_depth m + 1))
      × (lineage (increase_sub_machine_depth m) ≡ lineage m)
unfolding max_depth
increase_sub_machine_depth-max_depth m = (
  ap sub_machine_depth (ultimate_ancestor-increase m)
      ∙ sub_machine_depth-increase (ultimate_ancestor m),
  sub_machine_depth-increase m,
  lineage-increase m,
)
