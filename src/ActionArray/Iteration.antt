-- ===== src/ActionArray/Iteration.antt =====
-- What an iteration of src/fsm_utils.c that stops at an error has done when there was none.
use mathlib.Core.Path.{subst}
use fsm_lang.Base.{
  ℕ, ◌≡◌, Bool, true, false, List, [], ◌∷◌, ◌==◌, ◌∙◌, sym, contains, Bool-cases, inl, inr, ==_iff,
}
use fsm_lang.Sequence.{iterate, iterate-stop, iterate-on, iterate_inv}
use fsm_lang.ActionArray.{Population}

-- An action that stops the iteration exactly when it leaves an error.
abbrev pub Reports : (ℕ → Population → Bool × Population) → Type 0
Reports action = (x : ℕ) (p : Population) → (action x p).0 ≡ (action x p).1.error

-- When no error is left, the action was taken at each member, and what it did there is kept.
module _ (action : ℕ → Population → Bool × Population) (reports : Reports action)
    (P : Population → Type 0) (Q : ℕ → Population → Type 0)
    (keep : (x : ℕ) (p : Population) → P p → P (action x p).1)
    (did : (x : ℕ) (p : Population) → P p → (action x p).1.error ≡ false → Q x (action x p).1)
    (hold : (x y : ℕ) (p : Population) → Q x p → Q x (action y p).1) where
  stays : (x : ℕ) (xs : List ℕ) (p : Population) → Q x p → Q x (iterate action xs p)
  stays x xs p q = iterate_inv (Q x) action xs (λ y r i g. hold x y r g) p q

  pub iterate_complete :
      (xs : List ℕ) (p : Population)
      → P p
      → (iterate action xs p).error ≡ false
      → (x : ℕ) → contains xs x ≡ true
      → Q x (iterate action xs p)
  iterate_complete [] p h e x i = clash i
    where
      clash : false ≡ true → Q x (iterate action [] p)
      clash c = cc
  iterate_complete (y ∷ ys) p h e x i = elim (Bool-cases (action y p).0) [
    | inl stop ↦ absurd (stopped stop)
    | inr on ↦ rw (iterate-on action y ys p on) (elim (Bool-cases (y == x)) [
      | inl same ↦
          let first : Q y (iterate action ys (action y p).1) =
            stays y ys (action y p).1 (did y p h (went_on on)) in
          subst (λ z. Q z (iterate action ys (action y p).1)) ((==_iff y x).0 same) first
      | inr other ↦
          iterate_complete ys (action y p).1 (keep y p h) (rw (iterate-on action y ys p on) at e) x
            (rw other at i)
    ])
  ]
    where
      went_on : (action y p).0 ≡ false → (action y p).1.error ≡ false
      went_on on = sym (reports y p) ∙ on

      stopped : (action y p).0 ≡ true → ⊥
      stopped stop =
          let e' : (action y p).1.error ≡ false = rw (iterate-stop action y ys p stop) at e in
          let e'' : (action y p).1.error ≡ true = sym (reports y p) ∙ stop in cc
