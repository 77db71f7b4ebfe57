-- ===== src/Events/Walk.antt =====
-- Writers that give each name a line of its own and count the lines in `counter0`.
use fsm_lang.Base.{ℕ, suc, ◌+◌, ◌<◌, ◌≡◌, refl, arith, Bool, List, [], ◌∷◌, ◌++◌, u32, length, Text}
use fsm_lang.Ancestry.{Machine}
use fsm_lang.Events.{Helper}
use fsm_lang.Events.Written.{helper}
use fsm_lang.Events.Values.{Values}
use fsm_lang.Events.Names.{number}

-- What was written, `first` and the counter.
abbrev pub Progress : Type 0
Progress = Text × Bool × ℕ

abbrev pub at : Machine → Progress → Helper
at pmi (out, first, c) = helper out pmi first c

-- `item` is the line of a name, `after` what becomes of `first`.
module _ (item : Bool → ℕ → Text → Text) (after : Bool → Bool) where
  abbrev pub step : Progress → Text → Progress
  step (out, first, c) n = (out ++ item first c n, after first, u32 (c + 1))

  abbrev pub walk : Progress → List Text → Progress
  walk p [] = p
  walk p (n ∷ ns) = walk (step p n) ns

  pub walk-append : (xs ys : List Text) (p : Progress) → walk p (xs ++ ys) ≡ walk (walk p xs) ys
  walk-append [] ys p = refl
  walk-append (x ∷ xs) ys p = walk-append xs ys (step p x)

  -- The lines of names with their numbers, behind what was written.
  abbrev pub numbered_lines : Bool → Text → Values → Text
  numbered_lines first out [] = out
  numbered_lines first out ((n, i) ∷ xs) = numbered_lines (after first) (out ++ item first i n) xs

  pub walk-numbered_lines :
      (ns : List Text) (out : Text) (first : Bool) (c : ℕ)
      → c + length ns < 4294967296
      → (walk (out, first, c) ns).0 ≡ numbered_lines first out (number c ns)
  walk-numbered_lines [] out first c h = refl
  walk-numbered_lines (n ∷ ns) out first c h =
      let next : u32 (c + 1) ≡ suc c = omega arith in
      rw (next, walk)
        (walk-numbered_lines ns (out ++ item first c n) (after first) (suc c) (omega arith))
