-- ===== src/TypeNames/Once.antt =====
-- The type names of src/ancestry.c over two calls.
use fsm_lang.Base.{arith, ℕ, ◌≡◌, refl, ◌∙◌, Option, none, some, Text, Bool-cases, inl, inr}
use fsm_lang.TypeNames.{Memory, CMachineData, once}
use fsm_lang.TypeNames.Types.{
  action_return_type, fsm_type, action_fn_type, action_trans_type, transition_fn_type,
  fsm_data_type, fsm_fn_type, event_type, fsm_fn_event_type, sub_fsm_if_type, state_type,
  state_fn_type, sub_machine_fn_type, data_translation_fn_type, shared_event_str_type,
}
use fsm_lang.TypeNames.Index.{
  TypeName, make, action_return, fsm, action_fn, action_trans, transition_fn, fsm_data, fsm_fn,
  event, fsm_fn_event, sub_fsm_if, state, state_fn, sub_machine_fn, data_translation_fn,
  shared_event_str,
}

-- A later call, whatever memory it finds, returns the string that a successful call returned, and
-- changes nothing.
abbrev pub Once : (Memory → CMachineData → Option Text × CMachineData) → Type 0
Once f =
    (now later : Memory) (pcmd : CMachineData) (s : Text)
    → (f now pcmd).0 ≡ some s
    → f later (f now pcmd).1 ≡ (some s, (f now pcmd).1)

module _ (get : CMachineData → Option Text) where
  -- What is returned is kept.
  kept_after :
      (c : Option Text) (contents : Text) (keep : Option Text → ℕ → CMachineData) (memory : Memory)
      (pcmd : CMachineData) (s : Text)
      → ((o : Option Text) (n : ℕ) → get (keep o n) ≡ o)
      → get pcmd ≡ c
      → (once c contents keep memory pcmd).0 ≡ some s
      → get (once c contents keep memory pcmd).1 ≡ some s
  kept_after (some t) contents keep memory pcmd s kept is e = is ∙ e
  kept_after none contents keep memory pcmd s kept is e = elim (Bool-cases memory.tmpfile) [
    | inl y ↦ rw y (kept _ _ ∙ rw y at e)
    | inr n ↦ nothing (rw n at e)
  ]
    where
      nothing : none ≡ some s → get (once none contents keep memory pcmd).1 ≡ some s
      nothing q = ground arith

  again :
      (contents : CMachineData → Text) (keep : CMachineData → Option Text → ℕ → CMachineData)
      → ((pcmd : CMachineData) (o : Option Text) (n : ℕ) → get (keep pcmd o n) ≡ o)
      → Once (λ memory pcmd. once (get pcmd) (contents pcmd) (keep pcmd) memory pcmd)
  again contents keep kept now later pcmd s e =
      rw (kept_after (get pcmd) (contents pcmd) (keep pcmd) now pcmd s (kept pcmd) refl e)

-- When one of the fifteen functions that make the type names returns a string, a later call of it,
-- whether or not memory and a temporary file can be had, returns the same string and leaves the
-- machine's data as it is.
pub make-once :
    (t : TypeName) (now later : Memory) (pcmd : CMachineData) (s : Text)
    → (make t now pcmd).0 ≡ some s
    → make t later (make t now pcmd).1 ≡ (some s, (make t now pcmd).1)
unfolding action_return_type fsm_type action_fn_type action_trans_type transition_fn_type
    fsm_data_type fsm_fn_type event_type fsm_fn_event_type sub_fsm_if_type state_type state_fn_type
    sub_machine_fn_type data_translation_fn_type shared_event_str_type
make-once action_return = again (λ (p : CMachineData). p.action_return_type) _ _ (λ p o n. refl)
make-once fsm = again (λ (p : CMachineData). p.fsm_type) _ _ (λ p o n. refl)
make-once action_fn = again (λ (p : CMachineData). p.action_fn_type) _ _ (λ p o n. refl)
make-once action_trans = again (λ (p : CMachineData). p.action_trans_type) _ _ (λ p o n. refl)
make-once transition_fn = again (λ (p : CMachineData). p.transition_fn_type) _ _ (λ p o n. refl)
make-once fsm_data = again (λ (p : CMachineData). p.fsm_data_type) _ _ (λ p o n. refl)
make-once fsm_fn = again (λ (p : CMachineData). p.fsm_fn_type) _ _ (λ p o n. refl)
make-once event = again (λ (p : CMachineData). p.event_type) _ _ (λ p o n. refl)
make-once fsm_fn_event = again (λ (p : CMachineData). p.fsm_fn_event_type) _ _ (λ p o n. refl)
make-once sub_fsm_if = again (λ (p : CMachineData). p.sub_fsm_if_type) _ _ (λ p o n. refl)
make-once state = again (λ (p : CMachineData). p.state_type) _ _ (λ p o n. refl)
make-once state_fn = again (λ (p : CMachineData). p.state_fn_type) _ _ (λ p o n. refl)
make-once sub_machine_fn = again (λ (p : CMachineData). p.sub_machine_fn_type) _ _ (λ p o n. refl)
make-once data_translation_fn =
    again (λ (p : CMachineData). p.data_translation_fn_type) _ _ (λ p o n. refl)
make-once shared_event_str =
    again (λ (p : CMachineData). p.shared_event_str_type) _ _ (λ p o n. refl)
