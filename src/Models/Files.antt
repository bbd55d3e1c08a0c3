-- ===== src/Models/Files.antt =====
-- internal/models: file records, the key envelopes stored beside them, file identifiers, durations.
use Prim.Native.Char.{code}
use Prim.Native.String.{len}
use text.Mathlib.Text.{◌==◌ as str_eq}
use sendly.Common.{
  ℕ, ◌*◌, String, Bool, true, ◌&&◌, ◌||◌, Option, List, ℤ, leb, ◌==◌, nat_eq, if◌then◌else◌, Result,
  ok, err,
}
use sendly.Models.Errors.{Error, invalid_duration}

-- Instants and durations are counted in nanoseconds since Go's zero time, whose number is 0.
abbrev pub Time : Type 0
Time = ℕ

abbrev pub second : ℕ
second = 1000000000

abbrev pub minute : ℕ
minute = 60 * second

abbrev pub hour : ℕ
hour = 60 * minute

abbrev pub Bytes : Type 0
Bytes = List ℕ

pub record File : Type 0 where
  pub id : String
  pub numeric_code : String
  pub original_name : String
  pub size_bytes : ℕ
  pub uploader_ip : String
  pub owner_cns_user_id : Option ℕ
  pub owner_cns_user_name : Option String
  pub tunnel_id : Option String
  pub expires_at : Time
  pub created_at : Time
  pub report_count : ℕ
  pub is_deleted : Bool
  pub deleted_at : Option Time

pub record FileKeyEnvelope : Type 0 where
  pub file_id : String
  pub wrapped_dek : Bytes
  pub dek_wrap_alg : String
  pub dek_wrap_nonce : Bytes
  pub dek_wrap_version : ℤ

pub record FileAccessKeyEnvelope : Type 0 where
  pub file_id : String
  pub recipient_cns_user_id : ℕ
  pub wrapped_dek : Bytes
  pub dek_wrap_alg : String
  pub dek_wrap_nonce : Bytes
  pub dek_wrap_version : ℤ
  pub recipient_key_version : ℕ
  pub access_kind : String
  pub source_tunnel_id : Option String
  pub granted_at : Time
  pub created_at : Time
  pub updated_at : Time

pub record UserIdentityKey : Type 0 where
  pub cns_user_id : ℕ
  pub key_version : ℕ
  pub status : String

abbrev pub file_id_length : ℕ
file_id_length = 17

-- `fileIDCharset` holds the lower case letters and the digits.
abbrev in_charset : ℕ → Bool
in_charset c = (leb b'a' c && leb c b'z') || (leb b'0' c && leb c b'9')

-- The loop runs over bytes; a byte outside ASCII is not in the charset, nor is its character.
all_in_charset : String → Bool
all_in_charset String.[] = true
all_in_charset (String.◌∷◌ c s) = in_charset (code c) && all_in_charset s

unfoldable pub is_valid_file_id : String → Bool
unfolding all_in_charset
is_valid_file_id id = len id == file_id_length && all_in_charset id

unfoldable pub parse_finalize_duration : String → Result Error ℕ
parse_finalize_duration d =
    if str_eq d "24h"
    then ok (24 * hour)
    else if str_eq d "7d"
    then ok (7 * 24 * hour)
    else if str_eq d "30d"
    then ok (30 * 24 * hour)
    else if str_eq d "90d"
    then ok (90 * 24 * hour)
    else err invalid_duration
