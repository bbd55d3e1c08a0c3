-- ===== src/Common/Inversion.antt =====
-- What a call that succeeded has done: one lemma for each way to build an action.
use mathlib.Core.Path.{◌≡◌, refl}
use mathlib.Core.Bool.{Bool, true, false}
use mathlib.Core.Option.{Option, none, some}
use native.Mathlib.Omega.{arith}
use mathlib.Core.Logic.{inl, inr}
use sendly.Common.Tests.{Bool-cases}
use sendly.Common.Effects.{
  Result, ok, err, Action, or_raise, raise_if, continue, ◌>>=◌, Db, is_faulty, later, statement,
  query, end_transaction, transaction,
}

module _ {E S A B : Type 0} where
  continue_ok :
      (r : Result E A) (f : A → Action E S B) (s : S) {b : B}
      → (continue r f s).0 ≡ ok b
      → (a : A) × (r ≡ ok a) × ((f a s).0 ≡ ok b)
  continue_ok (ok a) f s h = (a, refl, h)
  continue_ok (err e) f s h = cc

  -- The first part succeeded, and the second from where it ended; the state is where that ended.
  pub bind_ok :
      (m : Action E S A) (f : A → Action E S B) (s : S) {b : B}
      → ((m >>= f) s).0 ≡ ok b
      → (a : A) × ((m s).0 ≡ ok a) × ((f a (m s).1).0 ≡ ok b)
  unfolding ◌>>=◌
  bind_ok m f s h = continue_ok (m s).0 f (m s).1 h

  pub bind_state :
      (m : Action E S A) (f : A → Action E S B) (s : S) (a : A)
      → (m s).0 ≡ ok a
      → (m >>= f) s ≡ f a (m s).1
  unfolding ◌>>=◌
  bind_state m f s a h = rw h

module _ {E S A : Type 0} where
  pub statement_ok :
      (e : E) (run : S → A × S) (db : Db S) (a : A)
      → (statement e run db).0 ≡ ok a
      → ((run db.tables).0 ≡ a) × ((statement e run db).1.tables ≡ (run db.tables).1)
  unfolding statement
  statement_ok e run db a h = ground arith

  pub query_ok :
      (e : E) (read : S → A) (db : Db S) (a : A)
      → (query e read db).0 ≡ ok a
      → (read db.tables ≡ a) × ((query e read db).1.tables ≡ db.tables)
  unfolding query
  query_ok e read db a h = statement_ok e (λ t. (read t, t)) db a h

  pub or_raise_ok :
      (o : Option A) (e : E) (s : S) (a : A)
      → (or_raise o e s).0 ≡ ok a
      → (o ≡ some a) × ((or_raise o e s).1 ≡ s)
  unfolding or_raise
  or_raise_ok none e s a h = cc
  or_raise_ok (some x) e s a h = ground arith

module _ {E S A : Type 0} where
  committed :
      (e : E) (before : S) (r : Result E A) (db : Db S) (a : A)
      → (end_transaction e before (r, db)).0 ≡ ok a
      → (r ≡ ok a) × ((end_transaction e before (r, db)).1.tables ≡ db.tables)
  unfolding end_transaction
  committed e before (ok x) db a h = ground arith
  committed e before (err x) db a h = cc

  -- A transaction that succeeds leaves what its body has left.
  pub transaction_ok :
      (e : E) (body : Action E (Db S) A) (db : Db S) (a : A)
      → (transaction e body db).0 ≡ ok a
      → ((body (record db { faults = later db.faults })).0 ≡ ok a)
        × ((transaction e body db).1.tables
            ≡ (body (record db { faults = later db.faults })).1.tables)
  unfolding transaction
  transaction_ok e body db a h = elim (Bool-cases (is_faulty db.faults)) [
    | inl bad ↦ absurd (let h' = rw bad at h in cc)
    | inr good ↦
        let begun : Db S = record db { faults = later db.faults } in
        let (r, db') = body begun in
        let h' = rw good at h in rw good (committed e db.tables r db' a h')
  ]

module _ {E S : Type 0} where
  pub raise_if_ok :
      (c : Bool) (e : E) (s : S) (u : Unit {0})
      → (raise_if c e s).0 ≡ ok u
      → (c ≡ false) × ((raise_if c e s).1 ≡ s)
  unfolding raise_if
  raise_if_ok true e s u h = cc
  raise_if_ok false e s u h = (refl, refl)

module _ {E S A B : Type 0} where
  found_at :
      (e' : E) (f : A → Action E (Db S) B) (o : Option A) (db : Db S) (b : B)
      → (continue (or_raise o e' db).0 f (or_raise o e' db).1).0 ≡ ok b
      → (a : A) × (o ≡ some a)
        × ((f a db).0 ≡ ok b)
        × ((continue (or_raise o e' db).0 f (or_raise o e' db).1).1 ≡ (f a db).1)
  unfolding or_raise
  found_at e' f none db b h = cc
  found_at e' f (some a) db b h = (a, refl, h, refl)

  -- A row that must be there was, and the rest succeeded on the same tables.
  pub find_ok :
      (e e' : E) (read : S → Option A) (f : A → Action E (Db S) B) (db : Db S) (b : B)
      → ((query e read >>= λ o. or_raise o e' >>= f) db).0 ≡ ok b
      → (a : A) × (read db.tables ≡ some a)
        × ((f a (record db { faults = later db.faults })).0 ≡ ok b)
        × (((query e read >>= λ o. or_raise o e' >>= f) db).1
            ≡ (f a (record db { faults = later db.faults })).1)
  unfolding ◌>>=◌ query statement
  find_ok e e' read f db b h = elim (Bool-cases (is_faulty db.faults)) [
    | inl bad ↦ absurd (let h' = rw bad at h in cc)
    | inr good ↦
        let h' = rw good at h in
        rw good (
          found_at e' f (read db.tables) (record { faults = later db.faults; tables = db.tables }) b
            h')
  ]
