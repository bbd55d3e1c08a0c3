-- ===== src/Models/Errors.antt =====
-- internal/models/models.go: the errors that callers tell apart, one constructor for each variable.
use sendly.Common.{String}

pub data Error : Type 0 where
  invalid_duration file_too_large file_not_found identity_key_not_found file_expired : Error
  identity_envelope_required identity_key_stale participant_conflict guest_device_required : Error
  participant_rejected envelope_exists invalid_file_id file_id_taken session_not_found : Error
  transfer_exists transfer_not_found transfer_already_answered transfer_file_unavailable : Error
  session_expired upload_not_pending invalid_chunk upload_incomplete upload_not_accepting : Error
  assembly_in_progress invalid_code user_not_found cns_user_not_found : Error
  transfer_not_accepted : Error
  -- what the database driver or the operating system answered
  driver : Error
  -- the error of a cancelled context
  context_canceled : Error
  -- an error made with `fmt.Errorf` or `errors.New`: the words of its format
  message : String → Error
