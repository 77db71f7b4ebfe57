-- ===== src/FileNames/NoDir.antt =====
-- `getFileNameNoDir` and `createFileName` of src/fsm_utils.c.
use fsm_lang.Base.{
  ℕ, zero, suc, ◌+◌, ◌<◌, ◌≡◌, refl, ◌∙◌, ap, arith, Bool, true, false, none, some, [], ◌∷◌, ◌++◌,
  if◌then◌else◌, length, length-append, Text, Bool-cases, inl, inr, ◌⊎◌, lt→ltb, u32, int_succ,
  int_to_size, ◌%◌,
}
use fsm_lang.FileNames.{
  separator, strpbrk, next_char, skip_directories, safe_strlen, file_name, copied, copied_or,
  get_file_name_no_dir, create_file_name,
}

-- No separator is in the text.
abbrev pub plain : Text → Bool
plain [] = true
plain (c ∷ s) = if separator c then false else plain s

-- The part behind the last separator.
abbrev pub base_name : Text → Text
base_name [] = []
base_name (c ∷ s) = if plain s then (if separator c then s else c ∷ s) else base_name s

strpbrk-plain : (s : Text) → plain s ≡ true → (strpbrk s ≡ none) × (base_name s ≡ s)
strpbrk-plain [] p = (refl, refl)
strpbrk-plain (c ∷ s) p = elim (Bool-cases (separator c)) [
  | inl y ↦ cc
  | inr n ↦ let q : plain s ≡ true = ground arith in (rw n ((strpbrk-plain s q).0), rw (n, q))
]

-- Behind a separator the rest has the same base name and is shorter.
record Behind (s : Text) : Type 0 where
  rest : Text
  is : strpbrk s ≡ some rest
  same : base_name (next_char rest) ≡ base_name s
  shorter : length (next_char rest) < length s

strpbrk-Behind : (s : Text) → plain s ≡ false → Behind s
strpbrk-Behind [] p = cc
strpbrk-Behind (c ∷ s) p = elim (Bool-cases (separator c)) [
  | inl y ↦ record {
    rest = c ∷ s;
    is = rw y;
    same = here (Bool-cases (plain s)) y;
    shorter = omega arith;
  }
  | inr n ↦
      let q : plain s ≡ false = ground arith in
      let b = strpbrk-Behind s q in
      record {
        rest = b.rest;
        is = rw n b.is;
        same = b.same ∙ rw q;
        shorter = omega (arith, b.shorter);
      }
]
  where
    here :
        (plain s ≡ true) ⊎ (plain s ≡ false) → separator c ≡ true → base_name s ≡ base_name (c ∷ s)
    here (inl k) y = (strpbrk-plain s k).1 ∙ rw (k, y)
    here (inr k) y = rw k

skip_directories-base_name :
    (fuel : ℕ) (s : Text) → length s < fuel → skip_directories fuel s ≡ some (base_name s)
unfolding skip_directories
skip_directories-base_name zero s lt = absurd (omega (arith, lt))
skip_directories-base_name (suc fuel) s lt = elim (Bool-cases (plain s)) [
  | inl y ↦ let (none_left, whole) = strpbrk-plain s y in rw (skip_directories, none_left, whole)
  | inr n ↦
      let b = strpbrk-Behind s n in
      rw (skip_directories, b.is)
        (skip_directories-base_name fuel (next_char b.rest) (omega (arith, b.shorter, lt))
          ∙ ap some b.same)
]

base_name-plain : (s : Text) → plain (base_name s) ≡ true
base_name-plain [] = refl
base_name-plain (c ∷ s) = elim (Bool-cases (plain s)) [
  | inr n ↦ rw n (base_name-plain s)
  | inl y ↦ elim (Bool-cases (separator c)) [ inl sep ↦ rw (y, sep) y | inr n ↦ rw (y, n) (rw n y) ]
]

plain-append : (s t : Text) → plain s ≡ true → plain t ≡ true → plain (s ++ t) ≡ true
plain-append [] t p q = q
plain-append (c ∷ s) t p q = ground (arith, plain-append s t)

not-plain-append : (s t : Text) → plain s ≡ false → plain (s ++ t) ≡ false
not-plain-append [] t p = cc
not-plain-append (c ∷ s) t p = ground (arith, not-plain-append s t)

base_name-append : (s t : Text) → plain t ≡ true → base_name (s ++ t) ≡ base_name s ++ t
base_name-append [] t q = (strpbrk-plain t q).1
base_name-append (c ∷ s) t q = elim (Bool-cases (plain s)) [
  | inr n ↦ rw (not-plain-append s t n, n) (base_name-append s t q)
  | inl y ↦ elim (Bool-cases (separator c)) [
    | inl sep ↦ rw (plain-append s t y q, y, sep)
    | inr n ↦ rw (plain-append s t y q, y, n)
  ]
]

copied-fits : (s : Text) (size : ℕ) → length s < size → copied size s ≡ file_name s
copied-fits s size lt = rw (lt→ltb (length s) size lt)

-- The copy of a name whose length is in range.
copied_or-fits : (s : Text) → length s < 2147483647 → copied_or (some s) true ≡ file_name s
unfolding safe_strlen
copied_or-fits s lt =
    let whole : u32 (length s) ≡ length s = omega (arith, lt) in
    let next : int_succ (length s) ≡ some (length s + 1) = ground arith in
    let same : int_to_size (length s + 1) ≡ length s + 1 =
      rw (lt→ltb (length s + 1) 2147483648 (omega (arith, lt))) refl in
    rw (copied_or, whole, next, same) (copied-fits s (length s + 1) (omega arith))

-- Where memory can be had, `createFileName` joins a base and an extension inside the memory that it
-- allocates; for an extension without a separator `getFileNameNoDir` takes from the result, inside
-- the memory that it allocates, what stands behind the base's last separator, and the extension,
-- and no separator is left. The base and the extension together take less than 2 ^ 64 bytes, and
-- that name at most 2 ^ 31 - 1, the terminator included.
pub get_file_name_no_dir-base_name :
    (base ext : Text)
    → plain ext ≡ true
    → length base + length ext + 1 < 18446744073709551616
    → length (base_name base ++ ext) < 2147483647
    → (create_file_name true (some base) ext ≡ file_name (base ++ ext))
      × (get_file_name_no_dir true (some (base ++ ext)) ≡ file_name (base_name base ++ ext))
      × (plain (base_name base ++ ext) ≡ true)
unfolding create_file_name get_file_name_no_dir
get_file_name_no_dir-base_name base ext p fits lt =
    let size : ℕ = length base + length ext + 1 in
    let whole : size % 18446744073709551616 ≡ size = omega (arith, fits) in
    (
      rw whole (copied-fits (base ++ ext) size (omega (arith, length-append base ext))),
      rw
          (
            skip_directories-base_name (suc (length (base ++ ext))) (base ++ ext) (omega arith),
            base_name-append base ext p,
          )
          (copied_or-fits (base_name base ++ ext) lt),
      plain-append (base_name base) ext (base_name-plain base) p,
    )
