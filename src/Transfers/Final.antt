-- ===== src/Transfers/Final.antt =====
-- internal/storage/transfers.go: an answer is the last one, and what it does to the key envelope.
use sendly.Common.{
  ℕ, String, Bool, true, not, ◌||◌, ◌≡◌, some, List, [], ◌∷◌, nat_eq, string_eq, find, exists, ok,
  Db,
}
use sendly.Common.Keeps.{OnTables}
use sendly.Common.Inversion.{transaction_ok}
use sendly.Models.{Time, driver}
use sendly.Transfers.Transfer.{Transfer}
use sendly.Transfers.Store.{Tables, is_transfer, is_share, respond_locked, respond_to_transfer}
use sendly.Transfers.Changes.{Change, share, respond, apply, apply_all}
use sendly.Transfers.Answered.{IsKeyed, Settled, respond_locked-Settled}
use sendly.Transfers.Kept.{respond-Spares}
use sendly.Transfers.Sent.{share-Spares}

module _ (file_id : String) (user : ℕ) (accept : Bool) (t : Transfer) where
  apply-Settled :
      (now : Time) (change : Change) (db : Db Tables)
      → OnTables (Settled file_id user accept t) db
      → OnTables (Settled file_id user accept t) (apply now change db)
  unfolding apply
  apply-Settled now (share id by of req) db h =
      (share-Spares file_id user accept t id now by of req).at db h
  apply-Settled now (respond by of accept') db h =
      (respond-Spares file_id user accept t now by of accept').at db h

  applied :
      (changes : List (Time × Change)) (db : Db Tables)
      → OnTables (Settled file_id user accept t) db
      → OnTables (Settled file_id user accept t) (apply_all changes db)
  unfolding apply_all
  applied [] db h = h
  applied ((now, change) ∷ changes) db h =
      applied changes (apply now change db) (apply-Settled now change db h)

-- An answer is the last one: once a recipient has answered a transfer, then whatever sends and
-- answers follow, its row stays as the answer has left it. After a decline the recipient has no share
-- envelope of the file either, and gets none.
pub respond_to_transfer-final :
    (now : Time) (user : ℕ) (file_id : String) (accept : Bool) (changes : List (Time × Change))
    (db : Db Tables) (t : Transfer)
    → IsKeyed db.tables
    → (respond_to_transfer now user file_id accept db).0 ≡ ok t
    → let after = (apply_all changes (respond_to_transfer now user file_id accept db).1).tables in
      (find (is_transfer file_id user) after.transfers ≡ some t)
      × ((accept || not (exists (is_share file_id user) after.file_access_key_envelopes)) ≡ true)
unfolding respond_to_transfer
respond_to_transfer-final now user file_id accept changes db t keyed got =
    let (done, left) = transaction_ok driver (respond_locked now user file_id accept) db t got in
    let settled = respond_locked-Settled now user file_id accept _ t keyed done in
    let all =
      applied file_id user accept t changes (respond_to_transfer now user file_id accept db).1
        (record { on = rw left settled }) in
    (all.on.there, all.on.gone)
