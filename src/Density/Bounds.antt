-- ===== src/Density/Bounds.antt =====
-- The densities that `compute_event_and_state_density_pct` of src/fsm_utils.c computes.
use mathlib.Core.Path.{fun_ext}
use native.Mathlib.Nat.{div-le_of_le-mul}
use fsm_lang.Base.{
  ℕ, ◌/◌, ◌≤◌, ◌<◌, ◌≡◌, refl, ◌∙◌, ap, arith, true, false, Option, none, some, List, ◌==◌, u32,
  length, contains,
}
use fsm_lang.Sequence.{iterate}
use fsm_lang.Density.{
  Machine, Density, quotient, averaged, compute_state_density_pct_and_average,
  compute_event_density_pct_and_average, compute_event_and_state_density_pct,
}
use fsm_lang.Density.Fill.{
  percent, total_percent, percent-bound, step, Few, total_percent-bound, iterate-Filled,
}

-- What a half of the computation returns for a list.
pub record Computed (total : ℕ) (count : ℕ → ℕ) (xs : List ℕ) (o : Option Density) : Type 0 where
  pub density : Density
  pub is : o ≡ some density
  pub pct :
      (x : ℕ)
      → contains xs x ≡ true
      → (density.density_pct x ≡ percent total (count x)) × (density.density_pct x ≤ 100)
  pub mean : density.average ≡ total_percent total count xs / length xs
  pub bound : density.average ≤ 100

averaged-some :
    (xs : List ℕ) (d : Density)
    → 0 < length xs
    → length xs < 42949673
    → averaged xs (some d) ≡ some (record d { average = d.average / length xs })
unfolding averaged quotient
averaged-some xs d ne short =
    let whole : u32 (length xs) ≡ length xs = omega arith in
    let some_there : (length xs == 0) ≡ false = ground arith in
    rw (averaged, quotient, whole, some_there)

averaged-Computed :
    (total : ℕ) (count : ℕ → ℕ) (xs : List ℕ) (d : Density)
    → 0 < total
    → total < 42949673
    → 0 < length xs
    → length xs < 42949673
    → Few total count xs
    → d.average ≡ 0
    → Computed total count xs (averaged xs (iterate (step total count) xs (some d)))
unfolding averaged quotient
averaged-Computed total count xs d pos small ne short few zero_start =
    let f = iterate-Filled total count xs d pos small few (omega arith) in
    let sum : f.density.average ≡ total_percent total count xs = f.sum ∙ omega arith in
    record {
      density = record f.density { average = f.density.average / length xs };
      is = ap (averaged xs) f.is ∙ averaged-some xs f.density ne short;
      pct = λ x i. (f.pct x i, rw (f.pct x i) (percent-bound total (count x) (few x i)));
      mean = ap (λ (n : ℕ). n / length xs) sum;
      bound =
          div-le_of_le-mul (length xs)
            (rw sum (omega (arith, total_percent-bound total count xs few)));
    }

state_step :
    (pmi : Machine)
    → compute_state_density_pct_and_average pmi
      ≡ step (length pmi.event_list) pmi.pevents_handled_count
unfolding compute_state_density_pct_and_average
state_step pmi = fun_ext λ x. fun_ext λ (o : Option Density). elim o [ none ↦ refl | some d ↦ refl ]

event_step :
    (pmi : Machine)
    → compute_event_density_pct_and_average pmi
      ≡ step (length pmi.state_list) pmi.phandling_states_count
unfolding compute_event_density_pct_and_average
event_step pmi = fun_ext λ x. fun_ext λ (o : Option Density). elim o [ none ↦ refl | some d ↦ refl ]

-- Where a machine has a state and an event, fewer than 2 ^ 32 / 100 of each, no state handles more
-- events than there are and no event is handled by more states than there are, neither division of
-- `compute_event_and_state_density_pct` is by zero. From accumulators that are 0 each state gets
-- the percentage of the events that it handles and each event that of the states that handle it,
-- rounded down and at most 100, and each average is the mean of its percentages, rounded down and
-- at most 100.
pub compute_event_and_state_density_pct-Computed :
    (pmi : Machine) (states events : Density)
    → 0 < length pmi.state_list
    → 0 < length pmi.event_list
    → length pmi.state_list < 42949673
    → length pmi.event_list < 42949673
    → Few (length pmi.event_list) pmi.pevents_handled_count pmi.state_list
    → Few (length pmi.state_list) pmi.phandling_states_count pmi.event_list
    → states.average ≡ 0
    → events.average ≡ 0
    → Computed
        (length pmi.event_list)
        pmi.pevents_handled_count
        pmi.state_list
        (compute_event_and_state_density_pct pmi states events).0
      × Computed
          (length pmi.state_list)
          pmi.phandling_states_count
          pmi.event_list
          (compute_event_and_state_density_pct pmi states events).1
unfolding compute_event_and_state_density_pct
compute_event_and_state_density_pct-Computed pmi states events s e ss es fs fe zs ze = (
  rw (state_step pmi) (averaged-Computed _ _ _ states e es s ss fs zs),
  rw (event_step pmi) (averaged-Computed _ _ _ events s ss e es fe ze),
)
