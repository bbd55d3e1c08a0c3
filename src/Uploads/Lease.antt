-- ===== src/Uploads/Lease.antt =====
-- internal/storage/upload_sessions.go: what it is for a replica to hold the lease of a session.
use sendly.Common.{
  ◌≤◌, String, Bool, true, false, ◌&&◌, ◌||◌, ◌≡◌, ◌≢◌, refl, inl, inr, Option, none, some, leb,
  ◌==◌, nat_eq, string_eq, ==→eq, Bool-cases, Option-cases, if◌then◌else◌, update, delete, ap,
  arith, eq_iff,
}
use sendly.Common.Keyed.{
  find-update, find-delete, Distinct-update, Distinct-delete, change_if, find-some,
}
use sendly.Models.{Time}
use sendly.Uploads.Session.{finalized, state_eq, UploadSession, Tables}
use sendly.Uploads.Store.{has_id, fence, can_claim}
use sendly.Uploads.Outcomes.{session_of, IsKeyed}

abbrev pub lease_reaches : Time → UploadSession → Bool
lease_reaches until s = elim s.assembly_lease_until [ none ↦ false | some u ↦ leb until u ]

-- The session is gone, finalized, or being assembled by `owner` under a lease that reaches `until`.
abbrev pub held : String → Time → Option UploadSession → Bool
held owner until none = true
held owner until (some s) = s.state == finalized || (fence owner s && lease_reaches until s)

module _ (session_id owner : String) (until : Time) where
  pub record Holding (t : Tables) : Type 0 where
    pub keyed : IsKeyed t
    pub reserved : held owner until (session_of session_id t) ≡ true

  -- A change that the session survives, where it is held.
  abbrev pub Spares : (UploadSession → Bool) → (UploadSession → UploadSession) → Type 0
  Spares test f =
      (s : UploadSession)
      → has_id session_id s ≡ true
      → held owner until (some s) ≡ true
      → test s ≡ true
      → held owner until (some (f s)) ≡ true

  spared :
      (test : UploadSession → Bool) (f : UploadSession → UploadSession)
      → Spares test f
      → (t : Tables) (o : Option UploadSession) → session_of session_id t ≡ o
      → held owner until o ≡ true
      → held owner until (change_if test f o) ≡ true
  spared test f spares t none found h = refl
  spared test f spares t (some s) found h = elim (Bool-cases (test s)) [
    | inl hit ↦ rw hit (spares s (find-some (has_id session_id) t.sessions s found) h hit)
    | inr miss ↦ rw miss h
  ]

  pub Holding-update :
      (test : UploadSession → Bool) (f : UploadSession → UploadSession)
      → ((s : UploadSession) → (f s).session_id ≡ s.session_id)
      → Spares test f
      → (t : Tables) → Holding t
      → Holding (record t { sessions = update test f t.sessions })
  Holding-update test f same spares t h = record {
    keyed = Distinct-update (λ (s : UploadSession). s.session_id) test f t.sessions same h.keyed;
    reserved =
        rw (find-update (has_id session_id) test f t.sessions (λ s. rw same))
          (spared test f spares t (session_of session_id t) refl h.reserved);
  }

  kept :
      (c : Bool) (o : Option UploadSession)
      → held owner until o ≡ true
      → held owner until (if c then none else o) ≡ true
  kept true o h = refl
  kept false o h = h

  -- A deletion by session identifiers.
  pub Holding-delete :
      (gone : String → Bool) (t t' : Tables)
      → t'.sessions ≡ delete (λ (s : UploadSession). gone s.session_id) t.sessions
      → Holding t
      → Holding t'
  Holding-delete gone t t' e h = record {
    keyed = rw e (
        Distinct-delete (λ (s : UploadSession). s.session_id) (λ s. gone s.session_id) t.sessions
          h.keyed);
    reserved =
        rw
          (
            e,
            find-delete (has_id session_id) (λ s. gone s.session_id) (gone session_id) t.sessions
                (λ s own. ap gone (==→eq s.session_id session_id own)),
          )
          (kept (gone session_id) (session_of session_id t) h.reserved);
  }

  pub foreign_claim :
      (now : Time) (o : String)
      → now ≤ until
      → o ≢ owner
      → (s : UploadSession) → held owner until (some s) ≡ true
      → can_claim now o s ≡ false
  foreign_claim now o early ne s h = elim (Option-cases s.assembly_owner) [
    | inl free ↦ ground arith
    | inr (a, e) ↦ ground (arith, eq_iff a o, eq_iff a owner)
  ]

  pub foreign_fence :
      (o : String)
      → o ≢ owner
      → (s : UploadSession) → held owner until (some s) ≡ true
      → fence o s ≡ false
  foreign_fence o ne s h = elim (Option-cases s.assembly_owner) [
    | inl free ↦ ground arith
    | inr (a, e) ↦ ground (arith, eq_iff a o, eq_iff a owner)
  ]
