-- ===== src/Transfers/Sent.antt =====
-- internal/storage/transfers.go: an answered transfer, under sends.
use sendly.Common.{
  ℕ, String, Bool, false, not, ◌||◌, ◌≡◌, inl, inr, nat_eq, string_eq, ==→eq, Bool-cases, exists,
  arith, ok, pure, raise, ◌>>=◌, Db, statement, is_faulty, none,
}
use sendly.Common.Keeps.{
  OnTables, Keeps-statement, Keeps-bind, Keeps-raise, Keeps-pure, Keeps-transaction,
}
use sendly.Common.KeepsInto.{Keeps-bind_with}
use sendly.Common.Keyed.{find-exists}
use sendly.Models.{Time, FileAccessKeyEnvelope}
use sendly.Transfers.Transfer.{Transfer}
use sendly.Transfers.Store.{
  Tables, is_transfer, is_row, is_file, is_key_of, is_share, Inserted, refused, unchanged, inserted,
  insert_result, must_insert, insert_transfer, insert_share, create_transfer, is_grant_of,
}
use sendly.Transfers.Changes.{ShareFileRequest, new_transfer, new_share, share_file}
use sendly.Transfers.Answered.{Settled}
use sendly.Transfers.Kept.{Spares}

module _ (file_id : String) (user : ℕ) (accept : Bool) (t : Transfer) where
  module _ (id : String) (n : Transfer) where
    abbrev Another : Type 0
    Another = is_transfer file_id user n ≡ false

    -- Where the pair is taken, no row is inserted for it.
    another :
        (s : Tables)
        → Settled file_id user accept t s
        → exists (is_transfer n.file_id n.recipient_cns_user_id) s.transfers ≡ false
        → Another
    another s h free = elim (Bool-cases (is_transfer file_id user n)) [
      | inl own ↦ absurd (
          let file = ==→eq n.file_id file_id (ground arith) in
          let recipient = ==→eq n.recipient_cns_user_id user (ground arith) in
          let there = find-exists (is_transfer file_id user) s.transfers t h.there in
          let free' = rw (file, recipient) at free in cc)
      | inr other ↦ other
    ]

    insert_transfer-Settled :
        (s : Tables)
        → Settled file_id user accept t s
        → Settled file_id user accept t (insert_transfer id n s).1
    insert_transfer-Settled s h =
        elim (Bool-cases (exists (is_transfer n.file_id n.recipient_cns_user_id) s.transfers)) [
          | inl taken ↦ rw taken h
          | inr free ↦
              elim (Bool-cases
                (exists (is_row id) s.transfers || not (exists (is_file n.file_id) s.files))) [
                  | inl bad ↦ rw (free, bad) h
                  | inr good ↦
                      rw (free, good)
                        (record {
                          keyed = (ground (arith, good), h.keyed);
                          there = rw (another s h free) h.there;
                          over = h.over;
                          gone = h.gone;
                        })
                ]
        ]

    inserted_another :
        (db : Db Tables) (u : Unit {0})
        → OnTables (Settled file_id user accept t) db
        → (must_insert (insert_transfer id n) db).0 ≡ ok u
        → Another
    unfolding must_insert pure raise statement ◌>>=◌
    inserted_another db u h got =
        elim (Bool-cases
          (exists (is_transfer n.file_id n.recipient_cns_user_id) db.tables.transfers)) [
            | inr free ↦ another db.tables h.on free
            | inl taken ↦ absurd (elim (Bool-cases (is_faulty db.faults)) [
              | inl bad ↦ let got' = rw (taken, bad) at got in cc
              | inr good ↦ let got' = rw (taken, good) at got in cc
            ])
          ]

    insert_share-Settled :
        (e : FileAccessKeyEnvelope) (s : Tables)
        → is_share file_id user (record e { access_kind = "share"; source_tunnel_id = none })
          ≡ false
        → Settled file_id user accept t s
        → Settled file_id user accept t (insert_share e s).1
    insert_share-Settled e s other h =
        elim (Bool-cases
          (exists (is_grant_of e.file_id e.recipient_cns_user_id) s.file_access_key_envelopes)) [
            | inl taken ↦ rw taken h
            | inr free ↦
                elim (Bool-cases (
                  not (exists (is_file e.file_id) s.files)
                  || not (exists (is_key_of e) s.identity_keys))) [
                    | inl bad ↦ rw (free, bad) h
                    | inr good ↦
                        rw (free, good)
                          (record {
                            keyed = h.keyed;
                            there = h.there;
                            over = h.over;
                            gone = rw other h.gone;
                          })
                  ]
          ]

    must_insert-Spares :
        (insert : Tables → Inserted × Tables)
        → ((s : Tables)
            → Settled file_id user accept t s
            → Settled file_id user accept t (insert s).1)
        → Spares file_id user accept t (must_insert insert)
    unfolding must_insert
    must_insert-Spares insert k = Keeps-bind _ _ (Keeps-statement _ _ k) (λ a. told a)
      where
        told : (a : Inserted) → Spares file_id user accept t {A = Unit {0}} (insert_result a)
        told refused = Keeps-raise _
        told unchanged = Keeps-raise _
        told inserted = Keeps-pure _

  pub share-Spares :
      (id : String) (now : Time) (by : ℕ) (of : String) (req : ShareFileRequest)
      → Spares file_id user accept t (share_file id now by of req)
  unfolding share_file create_transfer new_transfer new_share
  share-Spares id now by of req =
      let n = new_transfer now by of req in
      Keeps-transaction _ _ (
        Keeps-bind_with {Φ = λ (u : Unit {0}). is_transfer file_id user n ≡ false} _ _
          (must_insert-Spares id n _ (insert_transfer-Settled id n)) (inserted_another id n)
          (λ u other.
            must_insert-Spares id n _ (λ s h.
              insert_share-Settled id n (new_share now of req) s (ground (arith, other)) h)))
