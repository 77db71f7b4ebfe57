-- ===== src/FileNames/Last.antt =====
-- What the `rindex` of src/rindex.c finds.
use fsm_lang.Base.{
  ℕ, suc, ◌≡◌, refl, arith, false, Option, none, some, [], ◌∷◌, ◌==◌, if◌then◌else◌, Text, ◌≢◌,
}
use fsm_lang.FileNames.{rindex, rindex_loop}

-- The last position of a character, counted from `at`.
abbrev pub last_from : ℕ → Text → ℕ → Option ℕ → Option ℕ
last_from c [] at found = found
last_from c (x ∷ s) at found = last_from c s (suc at) (if x == c then some at else found)

rindex_loop-last_from :
    (c x : ℕ) (s : Text) (at : ℕ) (found : Option ℕ)
    → (0 == c) ≡ false
    → rindex_loop c (x ∷ s) at found ≡ last_from c s at found
unfolding rindex_loop
rindex_loop-last_from c x [] at found ne = rw ne
rindex_loop-last_from c x (y ∷ s) at found ne = rindex_loop-last_from c y s (suc at) _ ne

-- For a character other than the terminator, `rindex` finds its last position behind the first
-- character of the string; a match at the first character is not found. In the empty string it
-- finds nothing.
pub rindex-last_from :
    (c x : ℕ) (s : Text) → c ≢ 0 → (rindex (x ∷ s) c ≡ last_from c s 1 none) × (rindex [] c ≡ none)
unfolding rindex rindex_loop
rindex-last_from c x s ne =
    let no : (0 == c) ≡ false = ground arith in (rindex_loop-last_from c x s 1 none no, refl)
