-- ===== src/Uploads/Fence.antt =====
-- internal/storage/upload_sessions.go: the statements fenced by the owner of the lease.
use sendly.Common.{
  String, Bool, false, ◌≡◌, refl, Option, none, some, arith, ◌>>=◌, Db, eq_iff as ==_iff,
  Bool-cases, ◌==◌, string_eq, ==→eq, inl, inr,
}
use sendly.Common.Keyed.{change_if}
use sendly.Models.{Time}
use sendly.Uploads.Session.{Tables, UploadSession}
use sendly.Uploads.Store.{
  fence, broken, fail_assembly, released, release_assembly, update_sessions, holds_lease,
}
use sendly.Uploads.Outcomes.{session_of, holds, update_sessions_self, update_sessions_other}

change_none :
    (q : UploadSession → Bool) (f : UploadSession → UploadSession) (o : Option UploadSession)
    → holds q o ≡ false
    → change_if q f o ≡ o
change_none q f none h = refl
change_none q f (some s) h = rw h

-- A fenced update by a replica that does not hold the lease.
unfenced :
    (session_id owner : String) (f : UploadSession → UploadSession)
    (same : (s : UploadSession) → (f s).session_id ≡ s.session_id) (db : Db Tables)
    → holds (fence owner) (session_of session_id db.tables) ≡ false
    → (k : String)
    → session_of k (update_sessions (holds_lease session_id owner) f db).1.tables
      ≡ session_of k db.tables
unfenced session_id owner f same db lost k = elim (Bool-cases (k == session_id)) [
  | inl own ↦ rw (==→eq k session_id own) (
      ground (
        arith,
        update_sessions_self session_id (fence owner) f same db,
        change_none (fence owner) f (session_of session_id db.tables) lost,
      ))
  | inr other ↦
      update_sessions_other session_id (fence owner) f same db k
        (λ e. cc (other, (==_iff k session_id).1 e))
]

-- A replica that has lost the lease can neither fail the session nor give the lease away: its
-- `FailAssembly` and `ReleaseAssembly` leave every session as it was.
pub lost_lease-harmless :
    (now : Time) (session_id owner text k : String) (db : Db Tables)
    → holds (fence owner) (session_of session_id db.tables) ≡ false
    → (session_of k (fail_assembly now session_id owner text db).1.tables ≡ session_of k db.tables)
      × (session_of k (release_assembly session_id owner db).1.tables ≡ session_of k db.tables)
unfolding fail_assembly release_assembly ◌>>=◌
lost_lease-harmless now session_id owner text k db lost = (
  ground (arith, unfenced session_id owner (broken now text) (λ s. refl) db lost k),
  ground (arith, unfenced session_id owner released (λ s. refl) db lost k),
)
