-- ===== src/Status.antt =====
-- The status words of src/main.rs: `AppSW`. The words whose numbers come from the device SDK keep
-- their names only; the model never reads a number.

pub data AppSw : Type 0 where
  pin_remaining_attempts execution_error wrong_apdu_length command_incompatible_file_structure :
      AppSw
  security_status_not_satisfied incorrect_data not_enough_memory_space : AppSw
  referenced_data_not_found file_already_exists swap_without_trusted_inputs wrong_p1p2 : AppSw
  ins_not_supported cla_not_supported memory_problem no_ef_selected invalid_offset : AppSw
  file_not_found inconsistent_file algorithm_not_supported invalid_kcv code_not_initialized : AppSw
  access_condition_not_fulfilled contradiction_secret_code_status : AppSw
  contradiction_invalidation code_blocked max_value_reached gp_auth_failed licensing halted : AppSw
  deny conditions_of_use_not_satisfied technical_problem version_parsing_fail : AppSw
  tx_parsing_fail rng_failure bad_state sw_ok : AppSw
