-- ===== src/Transfers/Transfer.antt =====
-- internal/models/transfer.go: a send of one file from one user to another.
use sendly.Common.{ℕ, String, Bool, true, false, Option}
use sendly.Models.{Time}

pub data TransferStatus : Type 0 where
  pending accepted declined : TransferStatus

unfoldable pub same_status : TransferStatus → TransferStatus → Bool
same_status pending pending = true
same_status pending accepted = false
same_status pending declined = false
same_status accepted pending = false
same_status accepted accepted = true
same_status accepted declined = false
same_status declined pending = false
same_status declined accepted = false
same_status declined declined = true

pub record Transfer : Type 0 where
  pub id : String
  pub file_id : String
  pub sender_cns_user_id : ℕ
  pub recipient_cns_user_id : ℕ
  pub status : TransferStatus
  pub created_at : Time
  pub responded_at : Option Time
