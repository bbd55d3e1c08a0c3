-- ===== src/Uploads/Live.antt =====
-- internal/storage/upload_sessions.go: TakeExpiredUploadSessions and the sessions still of use.
use sendly.Common.{
  ℕ, zero, suc, String, Bool, true, false, not, ◌&&◌, ◌≡◌, refl, ◌∙◌, inl, inr, some, none, List,
  [], ◌∷◌, nat_eq, string_eq, ==→eq, find, exists, delete, select, take, insert_by, order_by, arith,
  Bool-cases, Db, is_faulty, statement,
}
use sendly.Common.Keyed.{find-keyed, none-exists, find-delete}
use sendly.Models.{Time}
use sendly.Uploads.Session.{state_eq, UploadSession, Tables}
use sendly.Uploads.Store.{has_id, is_live, is_expired, among, take_expired_upload_sessions}
use sendly.Uploads.Outcomes.{session_of, IsKeyed}

module _ {A : Type 0} (p : A → Bool) where
  exists-take : (n : ℕ) (xs : List A) → exists p xs ≡ false → exists p (take n xs) ≡ false
  exists-take zero xs h = refl
  exists-take (suc n) [] h = refl
  exists-take (suc n) (x ∷ xs) h = ground (arith, exists-take n xs)

  exists-insert_by :
      (key : A → ℕ) (x : A) (xs : List A)
      → p x ≡ false
      → exists p xs ≡ false
      → exists p (insert_by key x xs) ≡ false
  exists-insert_by key x [] hx h = ground arith
  exists-insert_by key x (y ∷ ys) hx h = ground (arith, exists-insert_by key x ys hx)

  exists-order_by :
      (key : A → ℕ) (xs : List A) → exists p xs ≡ false → exists p (order_by key xs) ≡ false
  exists-order_by key [] h = refl
  exists-order_by key (x ∷ xs) h =
      ground (arith, exists-order_by key xs, exists-insert_by key x (order_by key xs))

  exists-select :
      (q : A → Bool) (xs : List A)
      → exists (λ x. p x && q x) xs ≡ false
      → exists p (select q xs) ≡ false
  exists-select q [] h = refl
  exists-select q (x ∷ xs) h = ground (arith, exists-select q xs)

live_unexpired : (now : Time) (s : UploadSession) → is_live now s ≡ true → is_expired now s ≡ false
live_unexpired now s h = ground arith

module _ (now : Time) (k : String) (locked : String → Bool) (limit : ℕ) (db : Db Tables)
    (s : UploadSession) where
  abbrev chosen : UploadSession → Bool
  chosen x = is_expired now x && not (locked x.session_id)

  abbrev taken : List UploadSession
  taken =
      take limit (order_by (λ (x : UploadSession). x.expires_at) (select chosen db.tables.sessions))

  spared :
      IsKeyed db.tables
      → session_of k db.tables ≡ some s
      → is_live now s ≡ true
      → among taken k ≡ false
  spared keyed there live =
      let mine =
        find-keyed (λ (x : UploadSession). x.session_id) k chosen db.tables.sessions keyed in
      let missed : find (λ x. has_id k x && chosen x) db.tables.sessions ≡ none =
        mine ∙ rw (there, live_unexpired now s live) refl in
      exists-take (has_id k) limit _ (
        exists-order_by (has_id k) _ _ (
          exists-select (has_id k) chosen db.tables.sessions
            (none-exists (λ x. has_id k x && chosen x) db.tables.sessions missed)))

  deleted_others :
      among taken k ≡ false
      → session_of k db.tables ≡ some s
      → find (has_id k) (delete (λ x. among taken x.session_id) db.tables.sessions) ≡ some s
  deleted_others out there =
      find-delete (has_id k) (λ x. among taken x.session_id) false db.tables.sessions
        (λ x own. rw (==→eq x.session_id k own) out)
      ∙ there

-- Cleanup does not take a session that GetUploadSession still answers: one that has not expired, or
-- that a replica assembles under a running lease.
pub take_expired-live :
    (now : Time) (k : String) (locked : String → Bool) (limit : ℕ) (db : Db Tables)
    (s : UploadSession)
    → IsKeyed db.tables
    → session_of k db.tables ≡ some s
    → is_live now s ≡ true
    → session_of k (take_expired_upload_sessions now locked limit db).1.tables ≡ some s
unfolding take_expired_upload_sessions statement
take_expired-live now k locked limit db s keyed there live =
    elim (Bool-cases (is_faulty db.faults)) [
      | inl bad ↦ rw bad there
      | inr good ↦ rw good (
          deleted_others now k locked limit db s (spared now k locked limit db s keyed there live)
            there)
    ]
