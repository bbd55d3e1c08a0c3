-- ===== src/Uploads/Finalize.antt =====
-- internal/services/upload.go: a finalized upload becomes a file. `others` is what other replicas and
-- requests do between the checks of the upload and the statement that writes the row.
use sendly.Common.{
  ℕ, zero, suc, ◌+◌, String, Bool, true, false, not, ◌==◌, nat_eq, string_eq, leb, Option, none,
  some, [], ◌∷◌, if◌then◌else◌, Result, ok, err, pure, raise, raise_if, try, handle, modify,
  with_option, ◌>>=◌, ◌>>◌, ℤ, pos, negsuc, is_nonpos,
}
use sendly.Models.{
  Time, Bytes, File, FileKeyEnvelope, FileAccessKeyEnvelope, Error, message, session_not_found,
  session_expired, file_not_found, assembly_in_progress, upload_not_pending, file_expired,
  identity_envelope_required, identity_key_not_found, identity_key_stale, parse_finalize_duration,
}
use sendly.Uploads.Session.{UploadState, assembling, assembled, finalized, state_eq, UploadSession}
use sendly.Uploads.Store
use sendly.Uploads.Disk
use sendly.Uploads.Files.{
  create_file_with_envelope, numeric_code_exists, get_active_user_identity_key, record_upload,
}
use sendly.Uploads.Serve.{World, Serve, ⊤, on_db, on_disk, logged, wrapped, get_file_for_admin}

pub record FinalizeUploadOptions : Type 0 where
  pub owner_cns_user_id : Option ℕ
  pub owner_cns_user_name : Option String
  pub tunnel_id : String
  pub tunnel_expires_at : Time
  pub wrapped_dek : Bytes
  pub dek_wrap_alg : String
  pub dek_wrap_nonce : Bytes
  pub dek_wrap_version : ℤ
  pub identity_wrapped_dek : Bytes
  pub identity_dek_wrap_alg : String
  pub identity_dek_wrap_nonce : Bytes
  pub identity_dek_wrap_version : ℤ
  pub identity_key_version : ℤ

-- `ShareURL` is the base URL of the configuration with the file's identifier behind it.
pub record UploadFinalizeResponse : Type 0 where
  pub file_id : String
  pub numeric_code : String

abbrev pub finalize_response : File → UploadFinalizeResponse
finalize_response f = record { file_id = f.id; numeric_code = f.numeric_code }

-- The loop, with `rounds` of its ten left; `codes` stands for `GenerateNumericCode`.
unfoldable pub unique_code : (ℕ → String) → ℕ → ℕ → Serve String
unique_code codes i zero = raise (message "failed to generate unique numeric code")
unique_code codes i (suc rounds) = do
  taken ← wrapped "error checking numeric code" (on_db (numeric_code_exists (codes i)))
  if not taken then pure (codes i) else unique_code codes (suc i) rounds

unfoldable pub generate_unique_numeric_code : (ℕ → String) → Serve String
generate_unique_numeric_code codes = unique_code codes 0 10

abbrev pub tunnel_of : Option FinalizeUploadOptions → String
tunnel_of none = ""
tunnel_of (some o) = o.tunnel_id

abbrev pub owner_of : Option FinalizeUploadOptions → Option ℕ
owner_of none = none
owner_of (some o) = o.owner_cns_user_id

abbrev pub owner_name_of : Option FinalizeUploadOptions → Option String
owner_name_of none = none
owner_name_of (some o) = o.owner_cns_user_name

-- When the file expires: with its tunnel, or after the duration that was asked for.
abbrev pub duration_expiry : Time → String → Result Error Time
duration_expiry now duration = elim (parse_finalize_duration duration) [
  | ok dur ↦ ok (now + dur)
  | err e ↦ err e
]

abbrev pub expiry : Time → String → Option FinalizeUploadOptions → Result Error Time
expiry now duration none = duration_expiry now duration
expiry now duration (some o) =
    if o.tunnel_id == ""
    then duration_expiry now duration
    else if o.tunnel_expires_at == 0
    then err (message "error resolving tunnel expiry")
    else if leb o.tunnel_expires_at now
    then err file_expired
    else ok o.tunnel_expires_at

abbrev pub check_state : UploadState → Result Error ⊤
check_state assembled = ok tt
check_state assembling = err assembly_in_progress
check_state s = err upload_not_pending

abbrev pub is_empty : Bytes → Bool
is_empty [] = true
is_empty (b ∷ bytes) = false

abbrev pub version_or_1 : ℤ → ℤ
version_or_1 v = if is_nonpos v then pos 1 else v

-- The key envelope of a guest's upload.
abbrev pub guest_envelope : String → FinalizeUploadOptions → FileKeyEnvelope
guest_envelope file_id o = record {
  file_id = file_id;
  wrapped_dek = o.wrapped_dek;
  dek_wrap_alg = o.dek_wrap_alg;
  dek_wrap_nonce = o.dek_wrap_nonce;
  dek_wrap_version = version_or_1 o.dek_wrap_version;
}

abbrev pub envelope_of : String → Option FinalizeUploadOptions → Option FileKeyEnvelope
envelope_of file_id none = none
envelope_of file_id (some o) = elim o.owner_cns_user_id [
  | some user ↦ none
  | none ↦ if is_empty o.wrapped_dek then none else some (guest_envelope file_id o)
]

abbrev pub is_version : ℤ → ℕ → Bool
is_version (pos v) key_version = v == key_version
is_version (negsuc v) key_version = false

abbrev pub owner_envelope : Time → String → ℕ → ℕ → FinalizeUploadOptions → FileAccessKeyEnvelope
owner_envelope now file_id user key_version o = record {
  file_id = file_id;
  recipient_cns_user_id = user;
  wrapped_dek = o.identity_wrapped_dek;
  dek_wrap_alg = o.identity_dek_wrap_alg;
  dek_wrap_nonce = o.identity_dek_wrap_nonce;
  dek_wrap_version = version_or_1 o.identity_dek_wrap_version;
  recipient_key_version = key_version;
  access_kind = "owner";
  source_tunnel_id = none;
  granted_at = now;
  created_at = now;
  updated_at = now;
}

abbrev pub key_error : Error → Error
key_error identity_key_not_found = identity_envelope_required
key_error e = message "owner identity key unavailable"

-- The key envelope of a signed-in uploader, for the active identity key of the account.
unfoldable pub identity_envelope_for :
    Time → String → ℕ → FinalizeUploadOptions → Serve (Option FileAccessKeyEnvelope)
identity_envelope_for now file_id user o = do
  raise_if (is_empty o.identity_wrapped_dek) identity_envelope_required
  r ← try (on_db (get_active_user_identity_key user))
  handle r
      (λ key. do
        raise_if (not (is_version o.identity_key_version key.key_version)) identity_key_stale
        pure (some (owner_envelope now file_id user key.key_version o)))
      (λ e. raise (key_error e))

abbrev pub owned_options : Option FinalizeUploadOptions → Option (ℕ × FinalizeUploadOptions)
owned_options none = none
owned_options (some o) = elim o.owner_cns_user_id [ none ↦ none | some user ↦ some (user, o) ]

unfoldable pub identity_envelope_of :
    Time → String → Option FinalizeUploadOptions → Serve (Option FileAccessKeyEnvelope)
identity_envelope_of now file_id opts =
    with_option (owned_options opts) (pure none)
      (λ x. let (user, o) = x in identity_envelope_for now file_id user o)

abbrev pub some_unless_empty : String → Option String
some_unless_empty s = if s == "" then none else some s

abbrev pub new_file : Time → Time → String → ℕ → UploadSession → Option FinalizeUploadOptions → File
new_file now expires_at numeric_code size s opts = record {
  id = s.file_id;
  numeric_code = numeric_code;
  original_name = s.original_name;
  size_bytes = size;
  uploader_ip = s.uploader_ip;
  owner_cns_user_id = owner_of opts;
  owner_cns_user_name = owner_name_of opts;
  tunnel_id = some_unless_empty (tunnel_of opts);
  expires_at = expires_at;
  created_at = now;
  report_count = 0;
  is_deleted = false;
  deleted_at = none;
}

-- `Tracker.RecordUpload` (internal/services/tracker.go)
unfoldable pub track_upload : ℕ → String → Serve ⊤
track_upload zero ip = pure tt
track_upload (suc bytes) ip = logged (on_db (record_upload (suc bytes) ip))

-- What is left once the row of the file is written.
unfoldable pub written : Time → String → File → Serve UploadFinalizeResponse
written now session_id file = do
  track_upload file.size_bytes file.uploader_ip
  logged (on_db (Store.mark_upload_finalized now session_id))
  pure (finalize_response file)

-- Two requests raced, and the other one has written the row.
unfoldable pub lost_race : String → Serve UploadFinalizeResponse
lost_race file_id = do
  r ← try (on_db (get_file_for_admin file_id))
  handle r (λ existing. pure (finalize_response existing))
      (λ e. raise (message "error creating file record"))

-- From the check of the state to the answer, where the file does not exist yet.
unfoldable pub create_file :
    (World → World)
    → (ℕ → String)
    → Time
    → String
    → String
    → Option FinalizeUploadOptions
    → UploadSession
    → Serve UploadFinalizeResponse
create_file others codes now session_id duration opts s = do
  handle (check_state s.state) pure raise
  expires_at ← handle (expiry now duration opts) pure raise
  size ← wrapped "error getting file size" (on_disk (Disk.get_file_size s.file_id))
  numeric_code ← generate_unique_numeric_code codes
  identity_envelope ← identity_envelope_of now s.file_id opts
  modify others
  r ← try (
      on_db (
        create_file_with_envelope (new_file now expires_at numeric_code size s opts)
          (envelope_of s.file_id opts) identity_envelope))
  handle r (λ u. written now session_id (new_file now expires_at numeric_code size s opts))
      (λ e. lost_race s.file_id)

-- The file that an earlier finalize created.
unfoldable pub repeated : Time → String → UploadSession → File → Serve UploadFinalizeResponse
repeated now session_id s existing = do
  if not (s.state == finalized)
      then logged (on_db (Store.mark_upload_finalized now session_id))
      else pure tt
  pure (finalize_response existing)

abbrev pub expired_if_missing : Error → Error
expired_if_missing session_not_found = session_expired
expired_if_missing e = e

abbrev pub not_there : Error → Bool
not_there file_not_found = true
not_there e = false

unfoldable pub finalize_upload_with_options :
    (World → World)
    → (ℕ → String)
    → Time
    → String
    → String
    → Option FinalizeUploadOptions
    → Serve UploadFinalizeResponse
finalize_upload_with_options others codes now session_id duration opts = do
  found ← try (on_db (Store.get_upload_session now session_id))
  s ← handle found pure (λ e. raise (expired_if_missing e))
  r ← try (on_db (get_file_for_admin s.file_id))
  handle r (repeated now session_id s) (λ e.
      if not_there e then create_file others codes now session_id duration opts s else raise e)
