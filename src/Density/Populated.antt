-- ===== src/Density/Populated.antt =====
-- The densities of src/fsm_utils.c of a machine whose action array was populated.
use fsm_lang.Base.{ℕ, ◌≤◌, ◌<◌, ◌≡◌, arith, length, u32}
use fsm_lang.ActionArray.{Population, populate_action_array}
use fsm_lang.ActionArray.Handled.{Handled, Listed-length, populate-Handled}
use fsm_lang.Density.{Machine, Density, compute_event_and_state_density_pct}
use fsm_lang.Density.Bounds.{Computed, compute_event_and_state_density_pct-Computed}

-- What the density computation reads of a population: the counts of its handler lists.
abbrev pub measured : fsm_lang.ActionArray.Machine → Population → Machine
measured m p = record {
  state_list = m.state_list;
  event_list = m.event_list;
  pevents_handled_count = λ s. u32 (length (p.states s).pevents_handled);
  phandling_states_count = λ e. u32 (length (p.events e).phandling_states);
}

count_le : (n k : ℕ) → n ≤ k → u32 n ≤ k
count_le n k h = omega arith

-- The densities of a machine whose action array was populated, from handler lists without
-- repetition and within the machine's own lists, are computed without a division by zero: each
-- state gets the percentage of the events that it handles and each event that of the states that
-- handle it, and the averages are the means, all rounded down and at most 100. The machine has a
-- state and an event, fewer than 2 ^ 32 / 100 of each, and the accumulators are 0 before.
pub populate-Computed :
    (m : fsm_lang.ActionArray.Machine) (p : Population) (states events : Density)
    → Handled m p
    → 0 < length m.state_list
    → 0 < length m.event_list
    → length m.state_list < 42949673
    → length m.event_list < 42949673
    → states.average ≡ 0
    → events.average ≡ 0
    → let q = measured m (populate_action_array m p) in
      Computed
        (length m.event_list)
        q.pevents_handled_count
        m.state_list
        (compute_event_and_state_density_pct q states events).0
      × Computed
          (length m.state_list)
          q.phandling_states_count
          m.event_list
          (compute_event_and_state_density_pct q states events).1
populate-Computed m p states events h s e ss se zs ze =
    let after = populate_action_array m p in
    let kept = populate-Handled m p h in
    compute_event_and_state_density_pct-Computed (measured m after) states events s e ss se
      (λ x i.
        count_le _ _
          (Listed-length m.event_list (after.states x).pevents_handled (kept.events_handled x)))
      (λ x i.
        count_le _ _
          (Listed-length m.state_list (after.events x).phandling_states (kept.handling_states x)))
      zs ze
