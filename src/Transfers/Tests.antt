-- ===== src/Transfers/Tests.antt =====
-- Runs of the theorem on transfers.
use sendly.Common.{
  true, false, not, ◌||◌, ◌≡◌, refl, none, some, List, [], ◌∷◌, find, exists, Db, ok, pure, raise,
  raise_if, or_raise, statement, query, transaction, end_transaction, ◌>>=◌,
}
use sendly.Models.{Time, File}
use sendly.Transfers.Transfer.{Transfer, declined, same_status}
use sendly.Transfers.Store.{
  Tables, is_transfer, is_share, must_insert, create_transfer, answer, respond_locked,
  respond_to_transfer, count_pending_transfers,
}
use sendly.Transfers.Changes.{
  ShareFileRequest, Change, share, respond, new_transfer, new_share, share_file, apply, apply_all,
}
use sendly.Transfers.Final.{respond_to_transfer-final}

abbrev file : File
file = record {
  id = "f";
  numeric_code = "1";
  original_name = "n";
  size_bytes = 1;
  uploader_ip = "";
  owner_cns_user_id = some 1;
  owner_cns_user_name = none;
  tunnel_id = none;
  expires_at = 100;
  created_at = 0;
  report_count = 0;
  is_deleted = false;
  deleted_at = none;
}

abbrev request : ShareFileRequest
request = record {
  recipient_user_id = 2;
  wrapped_dek = [];
  dek_wrap_alg = "";
  dek_wrap_nonce = [];
  recipient_key_version = 1;
}

abbrev start : Db Tables
start = record {
  faults = [];
  tables = record {
    transfers = [];
    files = file ∷ [];
    file_access_key_envelopes = [];
    identity_keys = record { cns_user_id = 2; key_version = 1; status = "active" } ∷ [];
  };
}

abbrev sent : Db Tables
sent = apply 3 (share "t" 1 "f" request) start

abbrev refused_transfer : Transfer
refused_transfer = record {
  id = "t";
  file_id = "f";
  sender_cns_user_id = 1;
  recipient_cns_user_id = 2;
  status = declined;
  created_at = 3;
  responded_at = some 5;
}

-- The recipient declines; then the file is sent again, and the recipient tries to accept.
abbrev later_changes : List (Time × Change)
later_changes = (6, share "s" 1 "f" request) ∷ (7, respond 2 "f" true) ∷ []

abbrev after : Tables
after = (apply_all later_changes (respond_to_transfer 5 2 "f" false sent).1).tables

waiting_once : (count_pending_transfers 4 2 sent).0 ≡ ok 1
unfolding apply share_file create_transfer must_insert new_transfer new_share transaction
    end_transaction statement query pure raise ◌>>=◌ count_pending_transfers same_status
waiting_once = refl

respond_to_transfer-final_example :
    (find (is_transfer "f" 2) after.transfers ≡ some refused_transfer)
    × ((false || not (exists (is_share "f" 2) after.file_access_key_envelopes)) ≡ true)
unfolding apply share_file create_transfer must_insert new_transfer new_share transaction
    end_transaction statement query pure raise raise_if or_raise ◌>>=◌ respond_to_transfer
    respond_locked answer same_status
respond_to_transfer-final_example =
    respond_to_transfer-final 5 2 "f" false later_changes sent refused_transfer (refl, tt) refl
