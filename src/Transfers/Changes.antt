-- ===== src/Transfers/Changes.antt =====
-- internal/handlers/sharing.go: what users ask of transfers, by a send and by an answer.
use sendly.Common.{ℕ, String, Bool, List, [], ◌∷◌, none, Db, pos}
use sendly.Models.{Time, Bytes, FileAccessKeyEnvelope}
use sendly.Transfers.Transfer.{Transfer, pending}
use sendly.Transfers.Store.{Tables, Store, create_transfer, respond_to_transfer}

-- The fields that hold base64 are decoded.
pub record ShareFileRequest : Type 0 where
  pub recipient_user_id : ℕ
  pub wrapped_dek : Bytes
  pub dek_wrap_alg : String
  pub dek_wrap_nonce : Bytes
  pub recipient_key_version : ℕ

-- The rows that ShareFileToUser makes of a request that it has checked, and the call with them.
unfoldable pub new_transfer : Time → ℕ → String → ShareFileRequest → Transfer
new_transfer now user file_id req = record {
  id = "";
  file_id = file_id;
  sender_cns_user_id = user;
  recipient_cns_user_id = req.recipient_user_id;
  status = pending;
  created_at = now;
  responded_at = none;
}

unfoldable pub new_share : Time → String → ShareFileRequest → FileAccessKeyEnvelope
new_share now file_id req = record {
  file_id = file_id;
  recipient_cns_user_id = req.recipient_user_id;
  wrapped_dek = req.wrapped_dek;
  dek_wrap_alg = req.dek_wrap_alg;
  dek_wrap_nonce = req.dek_wrap_nonce;
  dek_wrap_version = pos 1;
  recipient_key_version = req.recipient_key_version;
  access_kind = "share";
  source_tunnel_id = none;
  granted_at = now;
  created_at = now;
  updated_at = now;
}

unfoldable pub share_file : String → Time → ℕ → String → ShareFileRequest → Store (Unit {0})
unfolding new_transfer new_share create_transfer
share_file id now user file_id req =
    create_transfer id (new_transfer now user file_id req) (new_share now file_id req)

pub data Change : Type 0 where
  -- a send, with the identifier that is drawn for its row
  share : String → ℕ → String → ShareFileRequest → Change
  respond : ℕ → String → Bool → Change

unfoldable pub apply : Time → Change → Db Tables → Db Tables
unfolding share_file respond_to_transfer
apply now (share id user file_id req) db = (share_file id now user file_id req db).1
apply now (respond user file_id accept) db = (respond_to_transfer now user file_id accept db).1

unfoldable pub apply_all : List (Time × Change) → Db Tables → Db Tables
unfolding apply
apply_all [] db = db
apply_all ((now, change) ∷ changes) db = apply_all changes (apply now change db)
