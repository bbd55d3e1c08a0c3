-- ===== src/Transfers/Answered.antt =====
-- internal/storage/transfers.go: what a successful answer leaves.
use sendly.Common.{
  ℕ, String, Bool, true, false, not, ◌||◌, ◌≡◌, refl, ◌∙◌, some, List, [], ◌∷◌, nat_eq, string_eq,
  ==_refl, if◌then◌else◌, find, exists, update, delete, arith, ok, pure, raise_if, ◌>>=◌, Db,
  statement, Option, none,
}
use sendly.Common.Keyed.{Distinct, Distinct-update, find-update}
use sendly.Common.Inversion.{find_ok}
use sendly.Models.{Time, driver, transfer_not_found, FileAccessKeyEnvelope}
use sendly.Transfers.Transfer.{pending, same_status, Transfer}
use sendly.Transfers.Store.{
  Tables, is_transfer, is_row, is_share, answered, answer_of, delete_share, answer, respond_locked,
  with_file,
}

-- The primary key of `file_transfers`.
abbrev pub IsKeyed : Tables → Type 0
IsKeyed s = Distinct (λ (t : Transfer). t.id) s.transfers

-- What an answer leaves of the tables.
abbrev pub changed : Time → ℕ → String → Bool → Transfer → Tables → Tables
changed now user file_id accept row s =
    let s' = record s {
      transfers = update (is_row row.id) (answered now (answer_of accept)) s.transfers;
    } in
    if accept then s' else delete_share file_id user s'

answer_ok :
    (now : Time) (user : ℕ) (file_id : String) (accept : Bool) (row : Transfer × Bool)
    (db : Db Tables) (t : Transfer)
    → (answer now user file_id accept row db).0 ≡ ok t
    → (t ≡ answered now (answer_of accept) row.0)
      × ((answer now user file_id accept row db).1.tables
          ≡ changed now user file_id accept row.0 db.tables)
unfolding answer pure raise_if statement ◌>>=◌
answer_ok now user file_id true row db t got = ground arith
answer_ok now user file_id false row db t got = ground arith

none_deleted :
    (file_id : String) (user : ℕ) (es : List FileAccessKeyEnvelope)
    → exists (is_share file_id user) (delete (is_share file_id user) es) ≡ false
none_deleted file_id user [] = refl
none_deleted file_id user (e ∷ es) = ground (arith, none_deleted file_id user es)

module _ (file_id : String) (user : ℕ) (accept : Bool) (t : Transfer) where
  -- The transfer has been answered with `accept`.
  pub record Settled (s : Tables) : Type 0 where
    pub keyed : IsKeyed s
    pub there : find (is_transfer file_id user) s.transfers ≡ some t
    pub over : same_status t.status pending ≡ false
    pub gone : (accept || not (exists (is_share file_id user) s.file_access_key_envelopes)) ≡ true

changed-Settled :
    (now : Time) (user : ℕ) (file_id : String) (accept : Bool) (row : Transfer) (s : Tables)
    → IsKeyed s
    → find (is_transfer file_id user) s.transfers ≡ some row
    → Settled file_id user accept
        (answered now (answer_of accept) row)
        (changed now user file_id accept row s)
unfolding same_status
changed-Settled now user file_id true row s keyed there = record {
  keyed = Distinct-update (λ (x : Transfer). x.id) (is_row row.id) _ s.transfers (λ x. refl) keyed;
  there =
      find-update (is_transfer file_id user) (is_row row.id) _ s.transfers (λ x. refl)
      ∙ rw (there, ==_refl row.id) refl;
  over = refl;
  gone = refl;
}
changed-Settled now user file_id false row s keyed there = record {
  keyed = Distinct-update (λ (x : Transfer). x.id) (is_row row.id) _ s.transfers (λ x. refl) keyed;
  there =
      find-update (is_transfer file_id user) (is_row row.id) _ s.transfers (λ x. refl)
      ∙ rw (there, ==_refl row.id) refl;
  over = refl;
  gone = rw (none_deleted file_id user s.file_access_key_envelopes) refl;
}

pub with_file_row :
    (now : Time) (s : Tables) (o : Option Transfer) (row : Transfer × Bool)
    → with_file now s o ≡ some row
    → o ≡ some row.0
with_file_row now s none row h = cc
with_file_row now s (some t) row h = ground arith

pub respond_locked-Settled :
    (now : Time) (user : ℕ) (file_id : String) (accept : Bool) (db : Db Tables) (t : Transfer)
    → IsKeyed db.tables
    → (respond_locked now user file_id accept db).0 ≡ ok t
    → Settled file_id user accept t (respond_locked now user file_id accept db).1.tables
unfolding respond_locked
respond_locked-Settled now user file_id accept db t keyed got =
    let (row, found, done, same) =
      find_ok driver transfer_not_found
        (λ (s : Tables). with_file now s (find (is_transfer file_id user) s.transfers))
        (answer now user file_id accept) db t got in
    let there = with_file_row now db.tables _ row found in
    let (is_t, left) = answer_ok now user file_id accept row _ t done in
    rw (same, left, is_t) (changed-Settled now user file_id accept row.0 db.tables keyed there)
