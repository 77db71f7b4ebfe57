-- ===== src/Counts.antt =====
-- The numbering and the counters of src/fsm_utils.c: `enumerate_pid_list` and the `count_` functions
-- with their iterators. The lists are sequences (module `Sequence`).
pub mod Tally
pub mod Enumerate
use fsm_lang.Base.{
  ℕ, suc, ◌+◌, ◌%◌, ◌/◌, Bool, true, false, not, ◌&&◌, Option, none, some, List, [], ◌∷◌, ◌==◌,
  if◌then◌else◌, u32,
}
use fsm_lang.Sequence.{iterate, set_at}

-- `struct _user_event_data_`: which of its pointers are not NULL.
pub record UserEventData : Type 0 where
  pub translator : Bool
  pub data_fields : Bool

-- What the counters read of an event: which pointers are not NULL, and how long a list is.
pub record Event : Type 0 where
  pub external_designation : Bool
  pub psharing_sub_machines : Bool
  pub shared_with_parent : Bool
  pub puser_event_data : Option UserEventData
  pub handling_states_count : ℕ

-- What the counters read of a state: its flags, and how long its lists are.
pub record State : Type 0 where
  pub state_flags : ℕ
  pub events_handled_count : ℕ
  pub inbound_transitions_count : ℕ
  pub outbound_transitions_count : ℕ

-- `state_flags & sfInibitSubMachines`, `& sfHasEntryFn` and `& sfHasExitFn`
abbrev pub inhibits : State → Bool
inhibits s = s.state_flags % 2 == 1

abbrev pub has_entry_fn : State → Bool
has_entry_fn s = s.state_flags / 2 % 2 == 1

abbrev pub has_exit_fn : State → Bool
has_exit_fn s = s.state_flags / 4 % 2 == 1

-- An iterator that counts the members for which a test holds, in an `unsigned`.
abbrev pub count_if {ℓ} : {A : Type ℓ} → (A → Bool) → A → ℕ → Bool × ℕ
count_if test x count = (false, if test x then u32 (count + 1) else count)

unfoldable pub count_external : Event → ℕ → Bool × ℕ
count_external = count_if λ e. e.external_designation

unfoldable pub count_inhibitors : State → ℕ → Bool × ℕ
count_inhibitors = count_if inhibits

unfoldable pub count_parent_event_refs : Event → ℕ → Bool × ℕ
count_parent_event_refs = count_if λ e. e.psharing_sub_machines

unfoldable pub count_shared_evts : Event → ℕ → Bool × ℕ
count_shared_evts = count_if λ e. e.shared_with_parent

unfoldable pub count_zero_event_states : State → ℕ → Bool × ℕ
count_zero_event_states = count_if λ s. s.events_handled_count == 0

unfoldable pub count_one_event_states : State → ℕ → Bool × ℕ
count_one_event_states = count_if λ s. s.events_handled_count == 1

unfoldable pub count_zero_event_handlers : Event → ℕ → Bool × ℕ
count_zero_event_handlers = count_if λ e. e.handling_states_count == 0

unfoldable pub count_one_event_handlers : Event → ℕ → Bool × ℕ
count_one_event_handlers = count_if λ e. e.handling_states_count == 1

unfoldable pub count_no_way_out_states : State → ℕ → Bool × ℕ
count_no_way_out_states = count_if λ s. s.outbound_transitions_count == 0

-- The element brings its ordinal: the first state has a way in.
unfoldable pub count_no_way_in_states : ℕ × State → ℕ → Bool × ℕ
count_no_way_in_states =
    count_if λ (ordinal, s). not (ordinal == 0) && s.inbound_transitions_count == 0

abbrev pub has_translator : Option UserEventData → Bool
has_translator none = false
has_translator (some d) = d.translator

abbrev pub has_data_fields : Option UserEventData → Bool
has_data_fields none = false
has_data_fields (some d) = d.data_fields

-- The two counters of `ITERATOR_HELPER`.
unfoldable pub count_data_xlate : Event → ℕ × ℕ → Bool × (ℕ × ℕ)
count_data_xlate e (translators, blocks) = (
  false,
  (
    if has_translator e.puser_event_data then u32 (translators + 1) else translators,
    if has_data_fields e.puser_event_data then u32 (blocks + 1) else blocks,
  ),
)

unfoldable pub count_entry_and_exit_handlers : State → ℕ × ℕ → Bool × (ℕ × ℕ)
count_entry_and_exit_handlers s (entries, exits) = (
  false,
  (
    if has_entry_fn s then u32 (entries + 1) else entries,
    if has_exit_fn s then u32 (exits + 1) else exits,
  ),
)

-- The elements of a list with their ordinals.
abbrev pub with_ordinals {ℓ} : {A : Type ℓ} → ℕ → List A → List (ℕ × A)
with_ordinals n [] = []
with_ordinals n (x ∷ xs) = (u32 n, x) ∷ with_ordinals (suc n) xs

-- The functions that the parser calls, each with the value of its counter before the call.
unfoldable pub count_external_declarations : List Event → ℕ → ℕ
count_external_declarations = iterate count_external

unfoldable pub count_sub_machine_inhibitors : List State → ℕ → ℕ
count_sub_machine_inhibitors = iterate count_inhibitors

unfoldable pub count_parent_event_referenced : List Event → ℕ → ℕ
count_parent_event_referenced = iterate count_parent_event_refs

unfoldable pub count_shared_events : List Event → ℕ → ℕ
count_shared_events = iterate count_shared_evts

unfoldable pub count_event_user_data_attributes : List Event → ℕ × ℕ → ℕ × ℕ
count_event_user_data_attributes = iterate count_data_xlate

-- Both counters are set to 0 first.
unfoldable pub count_states_with_entry_exit_fns : List State → ℕ × ℕ → ℕ × ℕ
count_states_with_entry_exit_fns xs counters = iterate count_entry_and_exit_handlers xs (0, 0)

unfoldable pub count_states_with_zero_events : List State → ℕ → ℕ
count_states_with_zero_events = iterate count_zero_event_states

unfoldable pub count_states_with_one_event : List State → ℕ → ℕ
count_states_with_one_event = iterate count_one_event_states

unfoldable pub count_states_with_no_way_in : List State → ℕ → ℕ
count_states_with_no_way_in xs = iterate count_no_way_in_states (with_ordinals 0 xs)

unfoldable pub count_states_with_no_way_out : List State → ℕ → ℕ
count_states_with_no_way_out = iterate count_no_way_out_states

unfoldable pub count_events_with_zero_handlers : List Event → ℕ → ℕ
count_events_with_zero_handlers = iterate count_zero_event_handlers

unfoldable pub count_events_with_one_handler : List Event → ℕ → ℕ
count_events_with_one_handler = iterate count_one_event_handlers

-- `enumerate_pid`: the order of each `ID_INFO`, by its address, and the counter.
unfoldable pub enumerate_pid : ℕ → (ℕ → ℕ) × ℕ → Bool × ((ℕ → ℕ) × ℕ)
enumerate_pid pid (order, counter) = (false, (set_at order pid counter, u32 (counter + 1)))

unfoldable pub enumerate_pid_list : List ℕ → (ℕ → ℕ) → ℕ → ℕ
unfolding enumerate_pid
enumerate_pid_list xs order = (iterate enumerate_pid xs (order, 0)).0
