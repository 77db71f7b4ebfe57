-- ===== src/Density.antt =====
-- The densities of src/fsm_utils.c: `compute_event_and_state_density_pct` with its two iterators.
pub mod Fill
pub mod Bounds
pub mod Populated
use fsm_lang.Base.{
  ℕ, suc, ◌+◌, ◌*◌, ◌/◌, ◌≤◌, ◌<◌, ◌≡◌, refl, ◌∙◌, ap, arith, Bool, true, false, Option, none, some,
  List, [], ◌∷◌, ◌==◌, if◌then◌else◌, u32, length, contains, ==_self, ==_ne, Bool-cases, inl, inr,
  ◌||◌, sym, ◌≢◌,
}
use fsm_lang.Sequence.{iterate, set_at, iterate-on}

-- What is read: the lists, and how many events a state handles and how many states handle an event.
pub record Machine : Type 0 where
  pub state_list : List ℕ
  pub event_list : List ℕ
  pub pevents_handled_count : ℕ → ℕ
  pub phandling_states_count : ℕ → ℕ

-- What is written for the members of one list: the percentage of each and their accumulated average.
pub record Density : Type 0 where
  pub density_pct : ℕ → ℕ
  pub average : ℕ

-- A division by zero is undefined; here it ends the computation with `none`.
unfoldable pub quotient : ℕ → ℕ → Option ℕ
quotient n d = if d == 0 then none else some (n / d)

abbrev pub accumulate : ℕ → Density → Option ℕ → Bool × Option Density
accumulate x d none = (true, none)
accumulate x d (some pct) = (
  false,
  some (record { density_pct = set_at d.density_pct x pct; average = u32 (d.average + pct) }),
)

unfoldable pub compute_state_density_pct_and_average :
    Machine → ℕ → Option Density → Bool × Option Density
unfolding quotient
compute_state_density_pct_and_average pmi pstate none = (true, none)
compute_state_density_pct_and_average pmi pstate (some d) =
    accumulate pstate d
      (quotient (u32 (100 * pmi.pevents_handled_count pstate)) (u32 (length pmi.event_list)))

unfoldable pub compute_event_density_pct_and_average :
    Machine → ℕ → Option Density → Bool × Option Density
unfolding quotient
compute_event_density_pct_and_average pmi pevent none = (true, none)
compute_event_density_pct_and_average pmi pevent (some d) =
    accumulate pevent d
      (quotient (u32 (100 * pmi.phandling_states_count pevent)) (u32 (length pmi.state_list)))

-- The average of what was accumulated.
unfoldable pub averaged : List ℕ → Option Density → Option Density
unfolding quotient
averaged xs none = none
averaged xs (some d) = elim (quotient d.average (u32 (length xs))) [
  | none ↦ none
  | some a ↦ some (record d { average = a })
]

-- Both halves: the densities of the states, and those of the events.
unfoldable pub compute_event_and_state_density_pct :
    Machine → Density → Density → Option Density × Option Density
unfolding compute_state_density_pct_and_average compute_event_density_pct_and_average averaged
compute_event_and_state_density_pct pmi states events = (
  averaged pmi.state_list
      (iterate (compute_state_density_pct_and_average pmi) pmi.state_list (some states)),
  averaged pmi.event_list
      (iterate (compute_event_density_pct_and_average pmi) pmi.event_list (some events)),
)
