-- ===== src/TypeNames/Index.antt =====
-- The fifteen type names of src/ancestry.c, each with the function that makes it, the pointer that
-- keeps it and the columns that it is printed in.
use fsm_lang.Base.{ℕ, Option, Text, List, [], ◌∷◌}
use fsm_lang.TypeNames.{Memory, CMachineData}
use fsm_lang.TypeNames.Types.{
  action_return_type, fsm_type, action_fn_type, action_trans_type, transition_fn_type,
  fsm_data_type, fsm_fn_type, event_type, fsm_fn_event_type, sub_fsm_if_type, state_type,
  state_fn_type, sub_machine_fn_type, data_translation_fn_type, shared_event_str_type,
}

pub data TypeName : Type 0 where
  action_return fsm action_fn action_trans transition_fn fsm_data fsm_fn event fsm_fn_event
        sub_fsm_if state state_fn sub_machine_fn data_translation_fn shared_event_str :
      TypeName

abbrev pub make : TypeName → Memory → CMachineData → Option Text × CMachineData
make action_return = action_return_type
make fsm = fsm_type
make action_fn = action_fn_type
make action_trans = action_trans_type
make transition_fn = transition_fn_type
make fsm_data = fsm_data_type
make fsm_fn = fsm_fn_type
make event = event_type
make fsm_fn_event = fsm_fn_event_type
make sub_fsm_if = sub_fsm_if_type
make state = state_type
make state_fn = state_fn_type
make sub_machine_fn = sub_machine_fn_type
make data_translation_fn = data_translation_fn_type
make shared_event_str = shared_event_str_type

abbrev pub cache : TypeName → CMachineData → Option Text
cache action_return p = p.action_return_type
cache fsm p = p.fsm_type
cache action_fn p = p.action_fn_type
cache action_trans p = p.action_trans_type
cache transition_fn p = p.transition_fn_type
cache fsm_data p = p.fsm_data_type
cache fsm_fn p = p.fsm_fn_type
cache event p = p.event_type
cache fsm_fn_event p = p.fsm_fn_event_type
cache sub_fsm_if p = p.sub_fsm_if_type
cache state p = p.state_type
cache state_fn p = p.state_fn_type
cache sub_machine_fn p = p.sub_machine_fn_type
cache data_translation_fn p = p.data_translation_fn_type
cache shared_event_str p = p.shared_event_str_type

abbrev pub Width : Type 0
Width = CMachineData → ℕ

abbrev pub sub_fsm_if_width : Width
sub_fsm_if_width p = p.sub_fsm_if_format_width

abbrev pub shared_event_str_width : Width
shared_event_str_width p = p.shared_event_str_format_width

abbrev pub sub_machine_struct_width : Width
sub_machine_struct_width p = p.sub_machine_struct_format_width

abbrev pub c_machine_struct_width : Width
c_machine_struct_width p = p.c_machine_struct_format_width

abbrev pub widths : TypeName → List Width
widths action_return = []
widths fsm = []
widths action_fn = c_machine_struct_width ∷ []
widths action_trans = c_machine_struct_width ∷ []
widths transition_fn = c_machine_struct_width ∷ []
widths fsm_data = sub_machine_struct_width ∷ c_machine_struct_width ∷ []
widths fsm_fn = sub_machine_struct_width ∷ c_machine_struct_width ∷ []
widths event =
    sub_fsm_if_width ∷ shared_event_str_width ∷ sub_machine_struct_width ∷ c_machine_struct_width
    ∷ []
widths fsm_fn_event = sub_fsm_if_width ∷ []
widths sub_fsm_if = sub_machine_struct_width ∷ c_machine_struct_width ∷ []
widths state = sub_machine_struct_width ∷ c_machine_struct_width ∷ []
widths state_fn = sub_machine_struct_width ∷ []
widths sub_machine_fn = sub_fsm_if_width ∷ []
widths data_translation_fn = shared_event_str_width ∷ []
widths shared_event_str = shared_event_str_width ∷ []
