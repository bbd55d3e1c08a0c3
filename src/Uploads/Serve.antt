-- ===== src/Uploads/Serve.antt =====
-- What every method of the upload service uses (internal/services/upload.go): the state of one
-- replica, its calls of the database and of the volume. `now` is the clock at a call.
use sendly.Common.{
  String, ◌==◌, nat_eq, string_eq, List, find, Action, pure, raise, or_raise, try, handle, ◌>>=◌,
  Db, query,
}
use sendly.Models.{File, Error, driver, message, file_not_found}
use sendly.Uploads.Session.{state_eq, Tables}
use sendly.Uploads.Disk.{Disk}

pub record World : Type 0 where
  pub db : Db Tables
  pub disk : Disk
  -- the sessions that this replica assembles right now
  pub running : List String

abbrev pub Serve : Type 0 → Type 0
Serve A = Action Error World A

abbrev pub ⊤ : Type 0
⊤ = Unit {0}

module _ {A : Type 0} where
  unfoldable pub on_db : Action Error (Db Tables) A → Serve A
  on_db m w = let (r, db') = m w.db in (r, record w { db = db' })

  unfoldable pub on_disk : Action Error Disk A → Serve A
  on_disk m w = let (r, disk') = m w.disk in (r, record w { disk = disk' })

  -- A call whose error is only logged.
  unfoldable pub logged : Serve A → Serve ⊤
  logged m = do r ← try m; pure tt

  -- `fmt.Errorf("text: %w", err)`
  unfoldable pub wrapped : String → Serve A → Serve A
  wrapped text m = try m >>= λ r. handle r pure (λ e. raise (message text))

-- `GetFileForAdmin` (internal/storage/postgres.go)
unfoldable pub get_file_for_admin : String → Action Error (Db Tables) File
get_file_for_admin id = do
  found ← query driver (λ t. find (λ (f : File). f.id == id) t.files)
  or_raise found file_not_found
