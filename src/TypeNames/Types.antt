-- ===== src/TypeNames/Types.antt =====
-- The type names of src/ancestry.c, from `actionReturnType` to `sharedEventStrType`.
use fsm_lang.Base.{true, false, Option, [], ◌++◌, ◌==◌, if◌then◌else◌, Text, codes}
use fsm_lang.Hungarian.{stream_hungarian_to_underbar_caps}
use fsm_lang.Ancestry.{name, inclusion, alc_upper, print_ancestry}
use fsm_lang.TypeNames.{Memory, CMachineData, widen, create_string_from_file, once}

abbrev pub upper_name : CMachineData → Text
upper_name pcmd = stream_hungarian_to_underbar_caps (name pcmd.pmi)

unfoldable pub action_return_type : Memory → CMachineData → Option Text × CMachineData
action_return_type memory pcmd =
    once pcmd.action_return_type
      (if pcmd.actions_return_void
        then codes "void"
        else (print_ancestry pcmd.pmi (codes "_") alc_upper (inclusion true false true)).1
          ++ (if pcmd.actions_return_states
              then codes "_STATE"
              else codes "_EVENT" ++ (if pcmd.data_block_count == 0 then [] else codes "_ENUM")))
      (λ s str_len. record pcmd { action_return_type = s }) memory pcmd

unfoldable pub fsm_type : Memory → CMachineData → Option Text × CMachineData
fsm_type memory pcmd =
    once pcmd.fsm_type (upper_name pcmd) (λ s str_len. record pcmd { fsm_type = s }) memory pcmd

unfoldable pub action_fn_type : Memory → CMachineData → Option Text × CMachineData
unfolding widen create_string_from_file
action_fn_type memory pcmd =
    once pcmd.action_fn_type (upper_name pcmd ++ codes "_ACTION_FN")
      (λ s str_len. record pcmd {
        action_fn_type = s;
        c_machine_struct_format_width = widen pcmd.c_machine_struct_format_width str_len;
      })
      memory pcmd

unfoldable pub action_trans_type : Memory → CMachineData → Option Text × CMachineData
unfolding widen create_string_from_file
action_trans_type memory pcmd =
    once pcmd.action_trans_type (upper_name pcmd ++ codes "_ACTION_TRANS")
      (λ s str_len. record pcmd {
        action_trans_type = s;
        c_machine_struct_format_width = widen pcmd.c_machine_struct_format_width str_len;
      })
      memory pcmd

unfoldable pub transition_fn_type : Memory → CMachineData → Option Text × CMachineData
unfolding widen create_string_from_file
transition_fn_type memory pcmd =
    once pcmd.transition_fn_type (upper_name pcmd ++ codes "_TRANSITION_FN")
      (λ s str_len. record pcmd {
        transition_fn_type = s;
        c_machine_struct_format_width = widen pcmd.c_machine_struct_format_width str_len;
      })
      memory pcmd

unfoldable pub fsm_data_type : Memory → CMachineData → Option Text × CMachineData
unfolding widen create_string_from_file
fsm_data_type memory pcmd =
    once pcmd.fsm_data_type (upper_name pcmd ++ codes "_DATA")
      (λ s str_len. record pcmd {
        fsm_data_type = s;
        sub_machine_struct_format_width = widen pcmd.sub_machine_struct_format_width str_len;
        c_machine_struct_format_width = widen pcmd.c_machine_struct_format_width str_len;
      })
      memory pcmd

unfoldable pub fsm_fn_type : Memory → CMachineData → Option Text × CMachineData
unfolding widen create_string_from_file
fsm_fn_type memory pcmd =
    once pcmd.fsm_fn_type (upper_name pcmd ++ codes "_FSM")
      (λ s str_len. record pcmd {
        fsm_fn_type = s;
        sub_machine_struct_format_width = widen pcmd.sub_machine_struct_format_width str_len;
        c_machine_struct_format_width = widen pcmd.c_machine_struct_format_width str_len;
      })
      memory pcmd

unfoldable pub event_type : Memory → CMachineData → Option Text × CMachineData
unfolding widen create_string_from_file
event_type memory pcmd =
    once pcmd.event_type
      (upper_name pcmd
        ++ codes "_EVENT"
        ++ (if pcmd.data_block_count == 0 then [] else codes "_ENUM"))
      (λ s str_len. record pcmd {
        event_type = s;
        sub_fsm_if_format_width = widen pcmd.sub_fsm_if_format_width str_len;
        shared_event_str_format_width = widen pcmd.shared_event_str_format_width str_len;
        sub_machine_struct_format_width = widen pcmd.sub_machine_struct_format_width str_len;
        c_machine_struct_format_width = widen pcmd.c_machine_struct_format_width str_len;
      })
      memory pcmd

unfoldable pub fsm_fn_event_type : Memory → CMachineData → Option Text × CMachineData
unfolding widen create_string_from_file
fsm_fn_event_type memory pcmd =
    once pcmd.fsm_fn_event_type
      ((if pcmd.data_block_count == 0 then [] else codes "p") ++ upper_name pcmd ++ codes "_EVENT")
      (λ s str_len. record pcmd {
        fsm_fn_event_type = s;
        sub_fsm_if_format_width = widen pcmd.sub_fsm_if_format_width str_len;
      })
      memory pcmd

unfoldable pub sub_fsm_if_type : Memory → CMachineData → Option Text × CMachineData
unfolding widen create_string_from_file
sub_fsm_if_type memory pcmd =
    once pcmd.sub_fsm_if_type (upper_name pcmd ++ codes "_SUB_FSM_IF")
      (λ s str_len. record pcmd {
        sub_fsm_if_type = s;
        sub_machine_struct_format_width = widen pcmd.sub_machine_struct_format_width str_len;
        c_machine_struct_format_width = widen pcmd.c_machine_struct_format_width str_len;
      })
      memory pcmd

unfoldable pub state_type : Memory → CMachineData → Option Text × CMachineData
unfolding widen create_string_from_file
state_type memory pcmd =
    once pcmd.state_type (upper_name pcmd ++ codes "_STATE")
      (λ s str_len. record pcmd {
        state_type = s;
        sub_machine_struct_format_width = widen pcmd.sub_machine_struct_format_width str_len;
        c_machine_struct_format_width = widen pcmd.c_machine_struct_format_width str_len;
      })
      memory pcmd

unfoldable pub state_fn_type : Memory → CMachineData → Option Text × CMachineData
unfolding widen create_string_from_file
state_fn_type memory pcmd =
    once pcmd.state_fn_type (upper_name pcmd ++ codes "_STATE_FN")
      (λ s str_len. record pcmd {
        state_fn_type = s;
        sub_machine_struct_format_width = widen pcmd.sub_machine_struct_format_width str_len;
      })
      memory pcmd

unfoldable pub sub_machine_fn_type : Memory → CMachineData → Option Text × CMachineData
unfolding widen create_string_from_file
sub_machine_fn_type memory pcmd =
    once pcmd.sub_machine_fn_type (upper_name pcmd ++ codes "_SUB_MACHINE_FN")
      (λ s str_len. record pcmd {
        sub_machine_fn_type = s;
        sub_fsm_if_format_width = widen pcmd.sub_fsm_if_format_width str_len;
      })
      memory pcmd

unfoldable pub data_translation_fn_type : Memory → CMachineData → Option Text × CMachineData
unfolding widen create_string_from_file
data_translation_fn_type memory pcmd =
    once pcmd.data_translation_fn_type (upper_name pcmd ++ codes "_DATA_TRANSLATION_FN")
      (λ s str_len. record pcmd {
        data_translation_fn_type = s;
        shared_event_str_format_width = widen pcmd.shared_event_str_format_width str_len;
      })
      memory pcmd

unfoldable pub shared_event_str_type : Memory → CMachineData → Option Text × CMachineData
unfolding widen create_string_from_file
shared_event_str_type memory pcmd =
    once pcmd.shared_event_str_type (upper_name pcmd ++ codes "_SHARED_EVENT_STR")
      (λ s str_len. record pcmd {
        shared_event_str_type = s;
        shared_event_str_format_width = widen pcmd.shared_event_str_format_width str_len;
      })
      memory pcmd
