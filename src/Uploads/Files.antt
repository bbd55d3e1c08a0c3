-- ===== src/Uploads/Files.antt =====
-- internal/storage/postgres.go and internal/storage/tracker.go: the statements that finalize runs.
use sendly.Common.{
  ℕ, ◌+◌, String, Bool, true, false, ◌&&◌, ◌||◌, ◌==◌, nat_eq, string_eq, ltb, Option, none, some,
  List, ◌∷◌, if◌then◌else◌, find, exists, update, count, pure, raise, or_raise, with_option, ◌>>=◌,
  ◌>>◌, statement, query, transaction,
}
use sendly.Models.{
  File, FileKeyEnvelope, FileAccessKeyEnvelope, UserIdentityKey, driver, identity_key_not_found,
}
use sendly.Uploads.Session.{Tables, UploadByIp}
use sendly.Uploads.Store.{Store, ⊤}

abbrev pub has_file_id : String → File → Bool
has_file_id id f = f.id == id

abbrev pub has_code : String → File → Bool
has_code code f = f.numeric_code == code

-- `INSERT INTO files`: the identifier is the primary key and the numeric code is unique.
abbrev pub insert_file : File → Tables → Option Tables
insert_file f t =
    if exists (has_file_id f.id) t.files || exists (has_code f.numeric_code) t.files
    then none
    else some (record t { files = f ∷ t.files })

-- `INSERT INTO file_key_envelopes`, whose primary key is the file.
abbrev pub insert_envelope : FileKeyEnvelope → Tables → Option Tables
insert_envelope e t =
    if exists (λ (x : FileKeyEnvelope). x.file_id == e.file_id) t.file_key_envelopes
    then none
    else some (record t { file_key_envelopes = e ∷ t.file_key_envelopes })

abbrev pub is_grant : String → ℕ → FileAccessKeyEnvelope → Bool
is_grant file_id user g = g.file_id == file_id && g.recipient_cns_user_id == user

-- `ON CONFLICT (file_id, recipient_cns_user_id) DO UPDATE`: the date of the row's creation stays.
abbrev pub upsert_grant : FileAccessKeyEnvelope → Tables → Option Tables
upsert_grant e t =
    let at = is_grant e.file_id e.recipient_cns_user_id in
    some (record t {
      file_access_key_envelopes =
          if exists at t.file_access_key_envelopes
          then update at (λ old. record e { created_at = old.created_at })
              t.file_access_key_envelopes
          else e ∷ t.file_access_key_envelopes;
    })

-- A statement that a constraint may refuse.
abbrev pub keep_or : Tables → Option Tables → Bool × Tables
keep_or t none = (false, t)
keep_or t (some t') = (true, t')

unfoldable pub constrained : (Tables → Option Tables) → Store ⊤
constrained change = do
  fine ← statement driver (λ t. keep_or t (change t))
  if fine then pure tt else raise driver

unfoldable pub create_file_with_envelope :
    File → Option FileKeyEnvelope → Option FileAccessKeyEnvelope → Store ⊤
create_file_with_envelope file envelope identity_envelope = transaction driver (do
  constrained (insert_file file)
  with_option envelope (pure tt) (λ e. constrained (insert_envelope e))
  with_option identity_envelope (pure tt) (λ e. constrained (upsert_grant e)))

unfoldable pub numeric_code_exists : String → Store Bool
numeric_code_exists code = do n ← query driver (λ t. count (has_code code) t.files); pure (ltb 0 n)

unfoldable pub get_active_user_identity_key : ℕ → Store UserIdentityKey
get_active_user_identity_key user = do
  found ← query driver (λ t.
      find (λ (k : UserIdentityKey). k.cns_user_id == user && k.status == "active") t.identity_keys)
  or_raise found identity_key_not_found

abbrev pub add_upload : ℕ → String → List UploadByIp → List UploadByIp
add_upload bytes ip rows =
    let at = λ (r : UploadByIp). r.ip == ip in
    if exists at rows
    then update at (λ r. record r { uploaded_bytes = r.uploaded_bytes + bytes }) rows
    else record { ip = ip; uploaded_bytes = bytes } ∷ rows

unfoldable pub record_upload : ℕ → String → Store ⊤
record_upload bytes ip = transaction driver (do
  statement driver (λ t. (tt, record t { total_uploaded = t.total_uploaded + bytes }))
  statement driver (λ t. (tt, record t { total_processed = t.total_processed + bytes }))
  statement driver (λ t. (tt, record t { uploads_by_ip = add_upload bytes ip t.uploads_by_ip })))
