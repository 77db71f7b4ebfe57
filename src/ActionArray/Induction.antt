-- ===== src/ActionArray/Induction.antt =====
-- Induction over the steps of `populate_action_array` of src/fsm_utils.c.
use fsm_lang.Base.{ℕ, true, false, ◌≡◌, contains}
use fsm_lang.Sequence.{set_at, iterate_inv}
use fsm_lang.ActionArray.{
  Machine, Population, add_to_action_array, start_event, finish_event, expand,
  iterate_matrix_states, process_action_info, populate_action_array,
}

-- `IsEvent` and `IsState` tell what stands in the matrices.
pub record Preserved {ℓ} (m : Machine) (IsEvent IsState : ℕ → Type 0) (P : Population → Type ℓ)
    : Type ℓ where
  pub states_of :
      (pai s : ℕ) (p : Population)
      → P p
      → contains (p.matrices pai).matrix_states s ≡ true
      → IsState s
  pub events_of :
      (pai e : ℕ) (p : Population)
      → P p
      → contains (expand m (p.matrices pai)).matrix_events e ≡ true
      → IsEvent e
  pub step :
      (pai e s : ℕ) (p : Population)
      → IsEvent e
      → IsState s
      → P p
      → P (add_to_action_array m pai e s p).1
  pub start : (pai e : ℕ) (p : Population) → P p → P (start_event m pai e p)
  pub finish : (e : ℕ) (p : Population) → P p → P (finish_event m e p)
  pub expanded :
      (pai : ℕ) (p : Population)
      → P p
      → P (record p { matrices = set_at p.matrices pai (expand m (p.matrices pai)) })
  pub begun : (p : Population) → P p → P (record p { error = false })

module _ {ℓ} (m : Machine) (IsEvent IsState : ℕ → Type 0) (P : Population → Type ℓ)
    (keep : Preserved m IsEvent IsState P) where
  pub iterate_matrix_states_inv :
      (pai e : ℕ) (p : Population) → IsEvent e → P p → P (iterate_matrix_states m pai e p).1
  unfolding iterate_matrix_states
  iterate_matrix_states_inv pai e p ev h = keep.finish e _ (
      iterate_inv P (add_to_action_array m pai e) (p.matrices pai).matrix_states
        (λ s q i g. keep.step pai e s q ev (keep.states_of pai s p h i) g) (start_event m pai e p)
        (keep.start pai e p h))

  pub process_action_info_inv : (pai : ℕ) (p : Population) → P p → P (process_action_info m pai p).1
  unfolding process_action_info
  process_action_info_inv pai p h =
      let x = expand m (p.matrices pai) in
      iterate_inv P (iterate_matrix_states m pai) x.matrix_events
        (λ e q i g. iterate_matrix_states_inv pai e q (keep.events_of pai e p h i) g)
        (record p { matrices = set_at p.matrices pai x }) (keep.expanded pai p h)

  pub populate_action_array_inv : (p : Population) → P p → P (populate_action_array m p)
  unfolding populate_action_array
  populate_action_array_inv p h =
      iterate_inv P (process_action_info m) m.action_info_list
        (λ pai q i g. process_action_info_inv pai q g) (record p { error = false }) (keep.begun p h)
