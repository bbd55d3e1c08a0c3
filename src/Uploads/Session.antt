-- ===== src/Uploads/Session.antt =====
-- internal/models: an upload session, and the tables that uploads read and write
-- (db/migrations/023-add-shared-runtime-state.sql). A row has the columns that only SQL touches too.
use sendly.Common.{
  ℕ, ◌*◌, ◌≡◌, ◌↔◌, string_eq, String, Bool, true, false, Option, none, some, List, ltb, arith, Eq,
  nat_beq, ◌==◌,
}
use sendly.Models.{
  Time, File, FileKeyEnvelope, FileAccessKeyEnvelope, UserIdentityKey, minute, hour, second,
}

pub data UploadState : Type 0 where
  uploading assembling assembled finalized failed : UploadState

abbrev state_code : UploadState → ℕ
state_code uploading = 0
state_code assembling = 1
state_code assembled = 2
state_code finalized = 3
state_code failed = 4

abbrev pub state_beq : UploadState → UploadState → Bool
state_beq a b = nat_beq (state_code a) (state_code b)

pub state_beq_iff : (a b : UploadState) → (state_beq a b ≡ true) ↔ (a ≡ b)
state_beq_iff a b = ground arith

instance abbrev pub state_eq : Eq UploadState
state_eq = record { beq = state_beq; reflects = state_beq_iff }

pub record UploadSession : Type 0 where
  pub session_id : String
  pub file_id : String
  pub original_name : String
  pub total_size : ℕ
  pub total_chunks : ℕ
  pub chunk_size : ℕ
  pub uploader_ip : String
  pub state : UploadState
  pub error : Option String
  pub expires_at : Time
  pub created_at : Time
  pub assembly_owner : Option String
  pub assembly_lease_until : Option Time
  pub updated_at : Time

-- `upload_chunks`, whose primary key is the whole row.
pub record UploadChunk : Type 0 where
  pub session_id : String
  pub chunk_index : ℕ

-- `uploads_by_ip`
pub record UploadByIp : Type 0 where
  pub ip : String
  pub uploaded_bytes : ℕ

pub record Tables : Type 0 where
  pub sessions : List UploadSession
  pub chunks : List UploadChunk
  pub files : List File
  pub file_key_envelopes : List FileKeyEnvelope
  pub file_access_key_envelopes : List FileAccessKeyEnvelope
  pub identity_keys : List UserIdentityKey
  -- the two rows of `data_counters`
  pub total_uploaded : ℕ
  pub total_processed : ℕ
  pub uploads_by_ip : List UploadByIp

abbrev pub upload_session_ttl : ℕ
upload_session_ttl = 1 * hour

abbrev pub upload_pending_ttl : ℕ
upload_pending_ttl = 10 * minute

abbrev pub assembly_lease : ℕ
assembly_lease = 30 * second

-- `assembly_lease_until > NOW()`, which is not true of NULL.
abbrev pub lease_live : Time → UploadSession → Bool
lease_live now s = elim s.assembly_lease_until [ none ↦ false | some until ↦ ltb now until ]

-- `assembly_lease_until < NOW()`
abbrev pub lease_over : Time → UploadSession → Bool
lease_over now s = elim s.assembly_lease_until [ none ↦ false | some until ↦ ltb until now ]

-- `assembly_lease_until IS NULL`
abbrev pub lease_null : UploadSession → Bool
lease_null s = elim s.assembly_lease_until [ none ↦ true | some until ↦ false ]

-- `assembly_owner = $n`
abbrev pub owned_by : String → UploadSession → Bool
owned_by owner s = elim s.assembly_owner [ none ↦ false | some o ↦ o == owner ]
