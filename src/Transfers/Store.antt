-- ===== src/Transfers/Store.antt =====
-- internal/storage/transfers.go: the statements on transfers and on the key envelopes of their
-- recipients. `now` is the database's NOW(); `id` stands for `gen_random_uuid`.
use sendly.Common.{
  ℕ, String, Bool, not, ◌&&◌, ◌||◌, ◌==◌, nat_eq, string_eq, ltb, Option, none, some, List, ◌∷◌,
  if◌then◌else◌, find, exists, update, delete, count, Action, pure, raise, raise_if, or_raise,
  ◌>>=◌, ◌>>◌, Db, statement, query, transaction,
}
use sendly.Models.{
  Time, Error, driver, transfer_exists, transfer_not_found, transfer_already_answered,
  transfer_file_unavailable, transfer_not_accepted, File, FileAccessKeyEnvelope, UserIdentityKey,
}
use sendly.Transfers.Transfer.{TransferStatus, pending, accepted, declined, same_status, Transfer}

pub record Tables : Type 0 where
  pub transfers : List Transfer
  pub files : List File
  pub file_access_key_envelopes : List FileAccessKeyEnvelope
  pub identity_keys : List UserIdentityKey

abbrev pub Store : Type 0 → Type 0
Store A = Action Error (Db Tables) A

abbrev pub is_transfer : String → ℕ → Transfer → Bool
is_transfer file_id user t = t.file_id == file_id && t.recipient_cns_user_id == user

abbrev pub is_row : String → Transfer → Bool
is_row id t = t.id == id

abbrev pub is_file : String → File → Bool
is_file id f = f.id == id

abbrev pub is_grant_of : String → ℕ → FileAccessKeyEnvelope → Bool
is_grant_of file_id user e = e.file_id == file_id && e.recipient_cns_user_id == user

abbrev pub is_share : String → ℕ → FileAccessKeyEnvelope → Bool
is_share file_id user e = is_grant_of file_id user e && e.access_kind == "share"

-- What an `INSERT ... ON CONFLICT DO NOTHING` does.
pub data Inserted : Type 0 where
  refused unchanged inserted : Inserted

-- The identifier is the primary key, the file and its recipient are unique, and the file must exist.
abbrev pub insert_transfer : String → Transfer → Tables → Inserted × Tables
insert_transfer id t s =
    if exists (is_transfer t.file_id t.recipient_cns_user_id) s.transfers
    then (unchanged, s)
    else if exists (is_row id) s.transfers || not (exists (is_file t.file_id) s.files)
    then (refused, s)
    else (
      inserted,
      record s {
        transfers = record t { id = id; status = pending; responded_at = none } ∷ s.transfers;
      },
    )

abbrev pub is_key_of : FileAccessKeyEnvelope → UserIdentityKey → Bool
is_key_of e k = k.cns_user_id == e.recipient_cns_user_id && k.key_version == e.recipient_key_version

-- One row for a file and a recipient, whose key must exist in the version that the row names.
abbrev pub insert_share : FileAccessKeyEnvelope → Tables → Inserted × Tables
insert_share e s =
    if exists (is_grant_of e.file_id e.recipient_cns_user_id) s.file_access_key_envelopes
    then (unchanged, s)
    else if not (exists (is_file e.file_id) s.files) || not (exists (is_key_of e) s.identity_keys)
    then (refused, s)
    else (
      inserted,
      record s {
        file_access_key_envelopes =
            record e { access_kind = "share"; source_tunnel_id = none }
            ∷ s.file_access_key_envelopes;
      },
    )

-- The error of the statement, and then the count of the rows that it affected.
abbrev pub insert_result : Inserted → Store (Unit {0})
insert_result refused = raise driver
insert_result unchanged = raise transfer_exists
insert_result inserted = pure tt

unfoldable pub must_insert : (Tables → Inserted × Tables) → Store (Unit {0})
must_insert insert = do result ← statement driver insert; insert_result result

unfoldable pub create_transfer : String → Transfer → FileAccessKeyEnvelope → Store (Unit {0})
unfolding must_insert
create_transfer id transfer envelope =
    transaction driver
      (do must_insert (insert_transfer id transfer); must_insert (insert_share envelope))

-- `COALESCE(f.is_deleted, FALSE) = FALSE AND f.expires_at > NOW()`
abbrev pub is_available : Time → File → Bool
is_available now f = not f.is_deleted && ltb now f.expires_at

-- The row of a transfer that is joined with that of its file, and whether the file is available.
abbrev pub with_file : Time → Tables → Option Transfer → Option (Transfer × Bool)
with_file now s none = none
with_file now s (some t) = elim (find (is_file t.file_id) s.files) [
  | none ↦ none
  | some f ↦ some (t, is_available now f)
]

abbrev pub answered : Time → TransferStatus → Transfer → Transfer
answered now status t = record t { status = status; responded_at = some now }

abbrev pub answer_of : Bool → TransferStatus
answer_of accept = if accept then accepted else declined

abbrev pub delete_share : String → ℕ → Tables → Tables
delete_share file_id user s = record s {
  file_access_key_envelopes = delete (is_share file_id user) s.file_access_key_envelopes;
}

-- What follows the read of the row.
unfoldable pub answer : Time → ℕ → String → Bool → Transfer × Bool → Store Transfer
unfolding same_status
answer now user file_id accept row = do
  raise_if (not (same_status row.0.status pending)) transfer_already_answered
  raise_if (accept && not row.1) transfer_file_unavailable
  statement driver (λ s. (
    tt,
    record s { transfers = update (is_row row.0.id) (answered now (answer_of accept)) s.transfers },
  ))
  if accept then pure tt else statement driver (λ s. (tt, delete_share file_id user s))
  pure (answered now (answer_of accept) row.0)

unfoldable pub respond_locked : Time → ℕ → String → Bool → Store Transfer
unfolding answer
respond_locked now user file_id accept = do
  found ← query driver (λ s. with_file now s (find (is_transfer file_id user) s.transfers))
  row ← or_raise found transfer_not_found
  answer now user file_id accept row

unfoldable pub respond_to_transfer : Time → ℕ → String → Bool → Store Transfer
unfolding respond_locked
respond_to_transfer now user file_id accept =
    transaction driver (respond_locked now user file_id accept)

unfoldable pub get_accepted_transfer : ℕ → String → Store Transfer
unfolding same_status
get_accepted_transfer user file_id = do
  found ← query driver (λ s. find (is_transfer file_id user) s.transfers)
  t ← or_raise found transfer_not_found
  raise_if (not (same_status t.status accepted)) transfer_not_accepted
  pure t

abbrev pub is_waiting : Time → ℕ → List File → Transfer → Bool
is_waiting now user files t =
    t.recipient_cns_user_id == user
    && same_status t.status pending
    && exists (λ f. is_file t.file_id f && is_available now f) files

unfoldable pub count_pending_transfers : Time → ℕ → Store ℕ
unfolding same_status
count_pending_transfers now user =
    query driver (λ s. count (is_waiting now user s.files) s.transfers)
