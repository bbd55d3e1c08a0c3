-- ===== src/Tunnels/Others.antt =====
-- internal/storage/tunnels.go: JoinTunnel and the rows of other participants.
use sendly.Common.{
  String, Bool, true, false, ◌||◌, ◌≡◌, refl, sym, ◌∙◌, inl, inr, Option, none, some, List, [], ◌∷◌,
  ◌==◌, nat_eq, string_eq, int_eq, ==→eq, ==_refl, find, exists, update, arith, Bool-cases, ok,
  pure, raise_if, ◌>>=◌, Db, statement, query, is_faulty,
}
use sendly.Common.Keeps.{
  Keeps, OnTables, Keeps-statement, Keeps-query, Keeps-bind, Keeps-raise_if, Keeps-pure,
  Keeps-or_raise, Keeps-if, Keeps-transaction,
}
use sendly.Common.KeepsInto.{Keeps-bind_with}
use sendly.Common.Keyed.{Distinct, Distinct-update, find-update, find-exists, find-some}
use sendly.Common.Inversion.{query_ok}
use sendly.Models.{Time, Bytes, driver}
use sendly.AccountStatus.Text.{trimmed}
use sendly.Tunnels.Tunnel.{TunnelParticipant, TunnelJoin}
use sendly.Tunnels.Store.{
  Tables, Store, is_participant, is_joiner, participant_owned_by, is_taken, insert_participant,
  new_participant, token_for, admit, with_key, publish_key, delete_envelopes, show_joined,
  lock_tunnel, join_locked, join_tunnel, is_empty, has_key,
}

-- The primary key of `tunnel_participants`.
abbrev pub IsKeyed : Tables → Type 0
IsKeyed s = Distinct (λ (p : TunnelParticipant). p.id) s.participants

found-exists :
    (q : TunnelParticipant → Bool) (k : String) (e : TunnelParticipant)
    (ps : List TunnelParticipant)
    → find q ps ≡ some e
    → (e.id == k) ≡ true
    → exists (is_participant k) ps ≡ true
found-exists q k e [] found own = cc
found-exists q k e (x ∷ xs) found own = elim (Bool-cases (q x)) [
  | inl hit ↦ let same : x ≡ e = ground (arith, hit, found) in rw (same, own) refl
  | inr miss ↦ ground (arith, found-exists q k e xs (rw miss at found) own)
]

-- Two rows of a table with one identifier are one row.
same_row :
    (q : TunnelParticipant → Bool) (k : String) (e p : TunnelParticipant)
    (ps : List TunnelParticipant)
    → Distinct (λ (p : TunnelParticipant). p.id) ps
    → find q ps ≡ some e
    → find (is_participant k) ps ≡ some p
    → (e.id == k) ≡ true
    → e ≡ p
same_row q k e p [] d found there own = cc
same_row q k e p (x ∷ xs) d found there own = elim (Bool-cases (q x)) [
  | inl hit ↦
      let same : x ≡ e = ground (arith, hit, found) in
      let mine = rw (sym same) at own in ground arith
  | inr miss ↦
      let rest : find q xs ≡ some e = rw miss at found in
      let behind = found-exists q k e xs rest own in
      elim (Bool-cases (x.id == k)) [
        | inl first ↦ absurd (let lone = rw (==→eq x.id k first) at d.0 in cc)
        | inr other ↦ same_row q k e p xs d.1 rest (rw other at there) own
      ]
]

module _ (k : String) (p : TunnelParticipant) where
  pub record Untouched (s : Tables) : Type 0 where
    pub keyed : IsKeyed s
    pub there : find (is_participant k) s.participants ≡ some p

  abbrev Spares : {A : Type 0} → Store A → Type 0
  Spares m = Keeps (OnTables Untouched) m

  module _ (jsonb : Bytes → Bytes) (new : String) (now : Time) (tunnel_id device : String)
      (j : TunnelJoin)
      (foreign : participant_owned_by p j.user_id j.presented_token_hash ≡ false) where
    unlike :
        (row : TunnelParticipant) (s : Tables)
        → Untouched s
        → is_taken row s ≡ false
        → (row.id == k) ≡ false
    unlike row s h free = elim (Bool-cases (row.id == k)) [
      | inl same ↦ absurd (
          let taken = find-exists (is_participant k) s.participants p h.there in
          let own = ==→eq row.id k same in ground (arith, own))
      | inr other ↦ other
    ]

    inserted-Untouched :
        (row : TunnelParticipant) (s : Tables)
        → Untouched s
        → Untouched (insert_participant row s).1
    inserted-Untouched row s h = elim (Bool-cases (is_taken row s)) [
      | inl taken ↦ rw taken h
      | inr free ↦ rw free (record {
        keyed = (ground (arith, free), h.keyed);
        there = rw (unlike row s h free) h.there;
      })
    ]

    -- The row of the caller, if there is one, is not the other participant's unless it is that row.
    abbrev Same : Option TunnelParticipant → Type 0
    Same o = (e : TunnelParticipant) → o ≡ some e → (e.id == k) ≡ true → e ≡ p

    asked-Same :
        (db : Db Tables) (o : Option TunnelParticipant)
        → OnTables Untouched db
        → (query driver
            (λ (s : Tables). find (is_joiner tunnel_id j.user_id device) s.participants)
            db).0
          ≡ ok o
        → Same o
    asked-Same db o h got e is own =
        same_row (is_joiner tunnel_id j.user_id device) k e p db.tables.participants h.on.keyed
          ((query_ok driver
              (λ (s : Tables). find (is_joiner tunnel_id j.user_id device) s.participants) db o
              got).0
            ∙ is)
          h.on.there own

    abbrev Another : TunnelParticipant × Bool → Type 0
    Another row = (row.0.id == k) ≡ false

    existing-Another :
        (e : TunnelParticipant) (db : Db Tables) (a : TunnelParticipant × Bool)
        → Same (some e)
        → (admit new now tunnel_id device j (some e) db).0 ≡ ok a
        → Another a
    unfolding admit pure raise_if ◌>>=◌
    existing-Another e db a same got =
        elim (Bool-cases (participant_owned_by e j.user_id j.presented_token_hash)) [
          | inl mine ↦
              let got' = rw mine at got in
              elim (Bool-cases (e.id == k)) [
                | inl own ↦ absurd (let is = same e refl own in let mine' = rw is at mine in cc)
                | inr other ↦ ground (arith, got', other)
              ]
          | inr not_mine ↦ absurd (let got' = rw not_mine at got in cc)
        ]

    fresh-Another :
        (db : Db Tables) (a : TunnelParticipant × Bool)
        → OnTables Untouched db
        → (admit new now tunnel_id device j none db).0 ≡ ok a
        → Another a
    unfolding admit pure raise_if statement ◌>>=◌
    fresh-Another db a h got =
        let row = new_participant new now tunnel_id j.user_id device (token_for j) in
        elim (Bool-cases (is_faulty db.faults)) [
          | inl bad ↦ absurd (let got' = rw bad at got in cc)
          | inr good ↦ elim (Bool-cases (is_taken row db.tables)) [
            | inl taken ↦ absurd (let got' = rw (good, taken) at got in cc)
            | inr free ↦
                let got' = rw (good, free) at got in
                ground (arith, got', unlike row db.tables h.on free)
          ]
        ]

    admit-Another :
        (o : Option TunnelParticipant) (db : Db Tables) (a : TunnelParticipant × Bool)
        → Same o
        → OnTables Untouched db
        → (admit new now tunnel_id device j o db).0 ≡ ok a
        → Another a
    admit-Another none db a same h got = fresh-Another db a h got
    admit-Another (some e) db a same h got = existing-Another e db a same got

    admit-Spares : (o : Option TunnelParticipant) → Spares (admit new now tunnel_id device j o)
    unfolding admit
    admit-Spares (some e) = Keeps-bind _ _ (Keeps-raise_if _ _) (λ u. Keeps-pure _)
    admit-Spares none =
        Keeps-bind _ _ (Keeps-statement _ _ (λ s h. inserted-Untouched _ s h))
          (λ fresh. Keeps-bind _ _ (Keeps-raise_if _ _) (λ u. Keeps-pure _))

    keyed-Untouched :
        (row : TunnelParticipant) (s : Tables)
        → (row.id == k) ≡ false
        → Untouched s
        → Untouched (record s {
          participants = update (is_participant row.id) (with_key jsonb j) s.participants;
        })
    keyed-Untouched row s other h = record {
      keyed =
          Distinct-update (λ (x : TunnelParticipant). x.id) (is_participant row.id)
            (with_key jsonb j) s.participants (λ x. refl) h.keyed;
      there =
          find-update (is_participant k) (is_participant row.id) (with_key jsonb j) s.participants
            (λ x. refl)
          ∙ rw (h.there, missed) refl;
    }
      where
        missed : is_participant row.id p ≡ false
        missed = elim (Bool-cases (p.id == row.id)) [
          | inl same ↦ absurd (
              let mine = ==→eq p.id k (find-some (is_participant k) s.participants p h.there) in
              let bad = rw (sym (==→eq p.id row.id same), mine, ==_refl k) at other in cc)
          | inr ne ↦ ne
        ]

    publish-Spares :
        (row : TunnelParticipant)
        → (row.id == k) ≡ false
        → Spares (publish_key jsonb tunnel_id device j row)
    unfolding publish_key delete_envelopes
    publish-Spares row other =
        Keeps-if
          (is_empty j.public_key_jwk || device == "" || has_key row.public_key_jwk j.public_key_jwk)
          _ _ (λ e. Keeps-pure _)
          (λ e.
            Keeps-bind _ _ (Keeps-statement _ _ (λ s h. keyed-Untouched row s other h))
              (λ u. Keeps-statement _ _ (λ s h. record { keyed = h.keyed; there = h.there })))

    join_locked-Spares : Spares (join_locked jsonb new now tunnel_id device j)
    unfolding join_locked lock_tunnel show_joined
    join_locked-Spares =
        Keeps-bind _ _ (Keeps-bind _ _ (Keeps-query _ _) (λ o. Keeps-or_raise _ _)) (λ t.
          Keeps-bind _ _ (Keeps-raise_if _ _) (λ u. Keeps-bind _ _ (Keeps-query _ _) (λ rejected.
            Keeps-bind _ _ (Keeps-raise_if _ _) (λ u.
              Keeps-bind_with {Φ = Same} _ _ (Keeps-query _ _) asked-Same (λ o same.
                Keeps-bind_with {Φ = Another} _ _ (admit-Spares o)
                  (λ db a h e. admit-Another o db a same h e)
                  (λ row other. Keeps-bind _ _ (publish-Spares row.0 other) (λ u.
                    Keeps-bind _ _
                      (Keeps-statement _ _ (λ s h. record { keyed = h.keyed; there = h.there }))
                      (λ u.
                        Keeps-bind _ _ (Keeps-query _ _)
                          (λ o. Keeps-bind _ _ (Keeps-or_raise _ _) (λ after. Keeps-pure _))))))))))

-- Whoever joins, and however the join ends, the row of a participant that the caller does not own
-- stays as it is, its public key included.
pub join_tunnel-others :
    (jsonb : Bytes → Bytes) (id k : String) (now : Time) (tunnel_id : String) (j : TunnelJoin)
    (p : TunnelParticipant) (db : Db Tables)
    → IsKeyed db.tables
    → find (is_participant k) db.tables.participants ≡ some p
    → participant_owned_by p j.user_id j.presented_token_hash ≡ false
    → find (is_participant k) (join_tunnel jsonb id now tunnel_id j db).1.tables.participants
      ≡ some p
unfolding join_tunnel
join_tunnel-others jsonb id k now tunnel_id j p db keyed there foreign =
    ((Keeps-bind _ _ (Keeps-raise_if _ _) (λ u.
        Keeps-transaction _ _
          (join_locked-Spares k p jsonb id now tunnel_id (trimmed j.device_id) j foreign))).at
      db (record { on = record { keyed = keyed; there = there } })).on.there
