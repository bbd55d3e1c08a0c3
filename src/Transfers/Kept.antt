-- ===== src/Transfers/Kept.antt =====
-- internal/storage/transfers.go: an answered transfer, under the answers of others.
use sendly.Common.{
  ℕ, String, Bool, true, false, not, ◌≡◌, refl, ◌∙◌, inl, inr, ◌==◌, nat_eq, string_eq, ==→eq,
  ==_refl, Bool-cases, update, arith,
}
use sendly.Common.Keeps.{
  Keeps, OnTables, Keeps-statement, Keeps-bind, Keeps-raise_if, Keeps-if, Keeps-pure, Keeps-find,
  Keeps-transaction,
}
use sendly.Common.KeepsInto.{Keeps-bind_with}
use sendly.Common.Keyed.{Distinct-update, find-update, same_row, exists-delete}
use sendly.Common.Inversion.{raise_if_ok}
use sendly.Models.{Time, transfer_already_answered}
use sendly.Transfers.Transfer.{pending, same_status, Transfer}
use sendly.Transfers.Store.{
  Tables, Store, is_transfer, is_row, is_share, answered, answer_of, delete_share, answer,
  respond_locked, respond_to_transfer,
}
use sendly.Transfers.Answered.{Settled, with_file_row}

module _ (file_id : String) (user : ℕ) (accept : Bool) (t : Transfer) where
  abbrev pub Spares : {A : Type 0} → Store A → Type 0
  Spares m = Keeps (OnTables (Settled file_id user accept t)) m

  module _ (now : Time) (by : ℕ) (of : String) (accept' : Bool) where
    updated-Settled :
        (row : Transfer) (s : Tables)
        → (row.id == t.id) ≡ false
        → Settled file_id user accept t s
        → Settled file_id user accept t (record s {
          transfers = update (is_row row.id) (answered now (answer_of accept')) s.transfers;
        })
    updated-Settled row s other h = record {
      keyed =
          Distinct-update (λ (x : Transfer). x.id) (is_row row.id) _ s.transfers (λ x. refl)
            h.keyed;
      there =
          find-update (is_transfer file_id user) (is_row row.id) _ s.transfers (λ x. refl)
          ∙ rw (h.there, missed) refl;
      over = h.over;
      gone = h.gone;
    }
      where
        missed : is_row row.id t ≡ false
        missed = ground (arith, other, ==→eq t.id row.id, ==_refl t.id)

    withdrawn-Settled :
        (s : Tables)
        → Settled file_id user accept t s
        → Settled file_id user accept t (delete_share of by s)
    withdrawn-Settled s h = record {
      keyed = h.keyed;
      there = h.there;
      over = h.over;
      gone = ground (
        arith,
        h.gone,
        exists-delete (is_share file_id user) (is_share of by) s.file_access_key_envelopes,
      );
    }

    answer-Spares :
        (row : Transfer × Bool)
        → ((row.0.id == t.id) ≡ true → row.0 ≡ t)
        → same_status t.status pending ≡ false
        → Spares (answer now by of accept' row)
    unfolding answer
    answer-Spares row same over =
        Keeps-bind_with {Φ = λ (u : Unit {0}). same_status row.0.status pending ≡ true} _ _
          (Keeps-raise_if _ _)
          (λ db u h got. ground (
            arith,
            (raise_if_ok (not (same_status row.0.status pending)) transfer_already_answered db u
                got).0,
          ))
          (λ u waits. Keeps-bind _ _ (Keeps-raise_if _ _) (λ u.
            Keeps-bind _ _ (Keeps-statement _ _ (λ s h. updated-Settled row.0 s (apart waits) h))
              (λ u.
                Keeps-bind _ _
                  (Keeps-if accept' _ _ (λ e. Keeps-pure _)
                    (λ e. Keeps-statement _ _ (λ s h. withdrawn-Settled s h)))
                  (λ u. Keeps-pure _))))
      where
        apart : same_status row.0.status pending ≡ true → (row.0.id == t.id) ≡ false
        apart waits = elim (Bool-cases (row.0.id == t.id)) [
          | inl own ↦ absurd (let waits' = rw (same own) at waits in cc)
          | inr other ↦ other
        ]

    pub respond-Spares : Spares (respond_to_transfer now by of accept')
    unfolding respond_to_transfer respond_locked
    respond-Spares = Keeps-transaction _ _ (
        Keeps-find _ _ _ _ (λ s h row found.
          answer-Spares row
            (λ own.
              same_row (λ (x : Transfer). x.id) (is_transfer of by) (is_transfer file_id user) row.0
                t s.transfers h.keyed (with_file_row now s _ row found) h.there own)
            h.over))
