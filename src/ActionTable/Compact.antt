-- ===== src/ActionTable/Compact.antt =====
-- The enumerations and arrays of functions that a compact action array refers to: the six iterators and
-- `declareCMachineActionFnEnum`, `defineCMachineActionFnArray`, `declareCMachineTransitionFnEnum` and
-- `defineCMachineTransitionFnArray` of src/fsm_c.c. Lists are sequences of names.
pub mod Indexed
use fsm_lang.Base.{Bool, true, false, List, [], ◌++◌, if◌then◌else◌, Text, codes}
use fsm_lang.Sequence.{iterate}
use fsm_lang.ActionArray.{has_text}

-- What was written, and the helper's `first`.
pub record Out : Type 0 where
  pub fout : Text
  pub first : Bool

abbrev pub write_member : Text → Text → Out → Out
write_member before member pich = record pich {
  fout =
      pich.fout
      ++ before
      ++ (if pich.first then codes "  " else codes ", ")
      ++ member
      ++ codes "\n";
  first = false;
}

-- The members, from the names and what `fqMachineName` returns.
unfoldable pub declare_action_enum_member : Text → Text → Out → Bool × Out
declare_action_enum_member fq_machine_name pid_info pich = (
  false,
  if has_text pid_info
      then write_member [] (fq_machine_name ++ codes "_" ++ pid_info ++ codes "_e") pich
      else pich,
)

unfoldable pub declare_action_array_member : Text → Out → Bool × Out
declare_action_array_member pid_info pich = (
  false,
  if has_text pid_info
      then write_member (codes "\t") (codes "UFMN(" ++ pid_info ++ codes ")") pich
      else pich,
)

unfoldable pub declare_transition_fn_enum_member : Text → Out → Bool × Out
declare_transition_fn_enum_member pid_info pich =
    (false, write_member [] (codes "UFMN(" ++ pid_info ++ codes "_e)") pich)

unfoldable pub declare_transition_enum_member : Text → Out → Bool × Out
declare_transition_enum_member pid_info pich =
    (false, write_member [] (codes "UFMN(transitionTo" ++ pid_info ++ codes "_e)") pich)

unfoldable pub define_transition_fn_array_member : Text → Out → Bool × Out
define_transition_fn_array_member pid_info pich =
    (false, write_member (codes "\t") (codes "UFMN(" ++ pid_info ++ codes ")") pich)

unfoldable pub define_transition_array_member : Text → Text → Out → Bool × Out
define_transition_array_member fq_machine_name pid_info pich =
    (false, write_member (codes "\t") (fq_machine_name ++ codes "_transitionTo" ++ pid_info) pich)

abbrev pub started : Text → Out
started s = record { fout = s; first = true }

abbrev pub enum_open : Text
enum_open = codes "typedef enum\n{\n"

abbrev pub array_open : Text → Text → Text
array_open type array = codes "const " ++ type ++ codes " " ++ array ++ codes "[] =\n{\n"

unfoldable pub declare_action_fn_enum : Text → Text → List Text → Text
unfolding declare_action_enum_member
declare_action_fn_enum fq_machine_name action_fn_type action_list =
    (iterate (declare_action_enum_member fq_machine_name) action_list (started enum_open)).fout
    ++ codes ", THIS(noAction_e)\n"
    ++ codes "} __attribute__((__packed__)) "
    ++ action_fn_type
    ++ codes "_E;\n\n"

unfoldable pub define_action_fn_array : Text → List Text → Text
unfolding declare_action_array_member
define_action_fn_array action_fn_type action_list =
    (iterate declare_action_array_member action_list
      (started (array_open action_fn_type (codes "THIS(action_fns)")))).fout
    ++ codes "\t,  THIS(noAction)\n};\n\n"

unfoldable pub declare_transition_fn_enum : Text → List Text → List Text → Text
unfolding declare_transition_fn_enum_member declare_transition_enum_member
declare_transition_fn_enum transition_fn_type transition_fn_list transition_list =
    (iterate declare_transition_enum_member transition_list
      (iterate declare_transition_fn_enum_member transition_fn_list (started enum_open))).fout
    ++ codes ", THIS(noTransition_e)\n"
    ++ codes "} __attribute__ (( __packed__ )) "
    ++ transition_fn_type
    ++ codes "_E;\n\n"

unfoldable pub define_transition_fn_array : Text → Text → List Text → List Text → Text
unfolding define_transition_fn_array_member define_transition_array_member
define_transition_fn_array fq_machine_name transition_fn_type transition_fn_list transition_list =
    (iterate (define_transition_array_member fq_machine_name) transition_list (
      iterate define_transition_fn_array_member transition_fn_list (
        started (array_open transition_fn_type (fq_machine_name ++ codes "_transition_fns"))))).fout
    ++ codes "\t, "
    ++ fq_machine_name
    ++ codes "_noTransitionFn\n"
    ++ codes "};\n\n"
