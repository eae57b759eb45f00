-- ===== src/Error.antt =====
-- include/pof_global.h, the error types and codes that the local resources report, and the value
-- that `POF_ERROR_HANDLE_RETURN_UPWARD` and its variants return. The report itself goes to the
-- controller's channel and to the log; a model result names the type and the code.

pub data FlowModCode : Type 0 where
  unknown table_full bad_table_id overlap eperm bad_timeout bad_command bad_flags : FlowModCode
  entry_exist entry_unexist bad_table_type bad_entry_id bad_counter_id : FlowModCode

pub data TableModCode : Type 0 where
  unknown bad_command bad_table_type bad_table_id table_exist table_unexist : TableModCode
  bad_table_size bad_key_len table_unempty : TableModCode

pub data GroupModCode : Type 0 where
  group_exists invalid_group weight_unsupported out_of_groups out_of_buckets : GroupModCode
  chaining_unsupported watch_unsupported loop unknown_group chained_group bad_type : GroupModCode
  bad_command bad_bucket bad_watch eperm bad_counter_id : GroupModCode

pub data MeterModCode : Type 0 where
  unknown meter_exists invalid_meter unknown_meter bad_command bad_flags bad_rate : MeterModCode
  bad_burst bad_band bad_band_value out_of_meters out_of_bands : MeterModCode

pub data CounterModCode : Type 0 where
  unknown bad_counter_id bad_command counter_unexist counter_exist : CounterModCode

pub data BadActionCode : Type 0 where
  bad_type bad_len bad_experimenter bad_exp_type bad_out_port bad_argument eperm : BadActionCode
  too_many bad_queue bad_out_group match_inconsistent unsupported_order bad_tag : BadActionCode
  bad_set_type bad_set_len bad_set_argument bad_table_id : BadActionCode

pub data BadInstructionCode : Type 0 where
  unknown_inst unsup_inst bad_table_id bad_table_type unsup_metadata : BadInstructionCode
  unsup_metadata_mask bad_experimenter bad_exp_type bad_len eperm : BadInstructionCode
  too_many_actions table_unexist entry_unexist bad_offset jum_to_invalid_inst : BadInstructionCode

pub data BadMatchCode : Type 0 where
  bad_type bad_len bad_tag bad_dl_addr_mask bad_nw_addr_mask bad_wildcards : BadMatchCode

-- The codes of `pof_soft_error` that are reported by the modelled files.
pub data SoftCode : Type 0 where
  packet_len_error metadata_len_error field_len_error : SoftCode
  allocate_resource_failure invalid_slot_id bad_table_id send_msg_failure : SoftCode
  write_msg_queue_failure ptr_null pof_error : SoftCode

-- `bad_action_inst` is POFET_BAD_ACTION with a code of POFET_BAD_INSTRUCTION, as two instructions
-- report it.
pub data Error : Type 0 where
  bad_action : BadActionCode → Error
  bad_action_inst : BadInstructionCode → Error
  bad_instruction : BadInstructionCode → Error
  bad_match : BadMatchCode → Error
  flow_mod_failed : FlowModCode → Error
  table_mod_failed : TableModCode → Error
  group_mod_failed : GroupModCode → Error
  meter_mod_failed : MeterModCode → Error
  counter_mod_failed : CounterModCode → Error
  software_failed : SoftCode → Error

-- The `uint32_t` that an operation returns.
pub data Ret : Type 0 where
  pof_ok : Ret
  failed : Error → Ret

-- An operation on a state ends with a return value and the state that it leaves, or at an access
-- through NULL or out of a buffer.
pub data Outcome (S : Type 0) : Type 0 where
  done : Ret → S → Outcome S
  fault : Outcome S

-- `POF_CHECK_RETVALUE_RETURN_NO_UPWARD`: go on after POF_OK, else return the value at hand.
abbrev pub and_then : {S : Type 0} → Outcome S → (S → Outcome S) → Outcome S
and_then (done pof_ok s) f = f s
and_then (done (failed e) s) f = done (failed e) s
and_then fault f = fault
