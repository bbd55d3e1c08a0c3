-- ===== src/Common/Keeps.antt =====
-- Invariants of actions: one rule for each way to build an action.
use mathlib.Core.Path.{◌≡◌, refl}
use mathlib.Core.Bool.{Bool, true, false}
use mathlib.Core.Option.{Option, none, some}
use native.Mathlib.Omega.{arith}
use mathlib.Core.Logic.{inl, inr}
use sendly.Common.Tests.{if◌then◌else◌, Bool-cases}
use sendly.Common.Effects.{
  Result, ok, err, Action, pure, raise, gets, or_raise, try, raise_if, modify, handle, with_option,
  continue, ◌>>=◌, Db, is_faulty, later, statement, query, end_transaction, transaction,
}

-- `m` keeps `P`, whether it returns or fails.
pub record Keeps {κ} {E S A : Type 0} (P : S → Type κ) (m : Action E S A) : Type κ where
  pub at : (s : S) → P s → P (m s).1

module _ {κ} {E S A : Type 0} {P : S → Type κ} where
  pub Keeps-try : (m : Action E S A) → Keeps P m → Keeps P (try m)
  unfolding try
  Keeps-try m k = record { at = λ s h. k.at s h }

  pub Keeps-gets : (f : S → A) → Keeps {E = E} P (gets f)
  unfolding gets
  Keeps-gets f = record { at = λ s h. h }

  pub Keeps-or_raise : (o : Option A) (e : E) → Keeps P (or_raise o e)
  unfolding or_raise
  Keeps-or_raise none e = record { at = λ s h. h }
  Keeps-or_raise (some a) e = record { at = λ s h. h }

  pub Keeps-raise : (e : E) → Keeps P (raise {A = A} e)
  unfolding raise
  Keeps-raise e = record { at = λ s h. h }

  pub Keeps-pure : (a : A) → Keeps {E = E} P (pure a)
  unfolding pure
  Keeps-pure a = record { at = λ s h. h }

  pub Keeps-if :
      (test : Bool) (first second : Action E S A)
      → (test ≡ true → Keeps P first)
      → (test ≡ false → Keeps P second)
      → Keeps P (if test then first else second)
  Keeps-if true first second ky kn = ky refl
  Keeps-if false first second ky kn = kn refl

module _ {κ} {E S A B : Type 0} {P : S → Type κ} where
  pub Keeps-handle :
      {F : Type 0} (r : Result F A) (good : A → Action E S B) (bad : F → Action E S B)
      → ((a : A) → Keeps P (good a))
      → ((e : F) → Keeps P (bad e))
      → Keeps P (handle r good bad)
  unfolding handle
  Keeps-handle (ok a) good bad kg kb = kg a
  Keeps-handle (err e) good bad kg kb = kb e

  pub Keeps-with_option :
      (o : Option A) (absent : Action E S B) (there : A → Action E S B)
      → Keeps P absent
      → ((a : A) → Keeps P (there a))
      → Keeps P (with_option o absent there)
  unfolding with_option
  Keeps-with_option none absent there ka kt = ka
  Keeps-with_option (some a) absent there ka kt = kt a

module _ {κ} {E S : Type 0} {P : S → Type κ} where
  pub Keeps-raise_if : (c : Bool) (e : E) → Keeps P (raise_if c e)
  unfolding raise_if
  Keeps-raise_if c e = record { at = λ s h. h }

  pub Keeps-modify : (f : S → S) → ((s : S) → P s → P (f s)) → Keeps {E = E} P (modify f)
  unfolding modify
  Keeps-modify f k = record { at = k }

module _ {κ} {E S A B : Type 0} {P : S → Type κ} where
  continued :
      (f : A → Action E S B)
      → ((a : A) → Keeps P (f a))
      → (r : Result E A) (s : S) → P s
      → P (continue r f s).1
  continued f kf (ok a) s h = (kf a).at s h
  continued f kf (err e) s h = h

  pub Keeps-bind :
      (m : Action E S A) (next : A → Action E S B)
      → Keeps P m
      → ((x : A) → Keeps P (next x))
      → Keeps P (m >>= next)
  unfolding ◌>>=◌
  Keeps-bind m next here there = record {
    at = λ s h. continued next there (m s).0 (m s).1 (here.at s h);
  }

-- What holds of the tables.
pub record OnTables {κ} {S : Type 0} (Q : S → Type κ) (db : Db S) : Type κ where
  pub on : Q db.tables

module _ {κ} {E S A : Type 0} {Q : S → Type κ} where
  pub Keeps-statement :
      (e : E) (run : S → A × S)
      → ((t : S) → Q t → Q (run t).1)
      → Keeps (OnTables Q) (statement e run)
  unfolding statement
  Keeps-statement e run k = record { at = λ db h. record { on = ran db h } }
    where
      ran : (db : Db S) → OnTables Q db → Q (statement e run db).1.tables
      ran db h = elim (Bool-cases (is_faulty db.faults)) [
        | inl bad ↦ rw bad h.on
        | inr good ↦ rw good (k db.tables h.on)
      ]

  pub Keeps-query : (e : E) (read : S → A) → Keeps (OnTables Q) (query e read)
  unfolding query
  Keeps-query e read = Keeps-statement e (λ t. (read t, t)) (λ t h. h)

  ended :
      (e : E) (before : S) (r : Result E A) (db : Db S)
      → Q before
      → OnTables Q db
      → Q (end_transaction e before (r, db)).1.tables
  unfolding end_transaction
  ended e before (ok a) db hb h = elim (Bool-cases (is_faulty db.faults)) [
    | inl bad ↦ rw bad hb
    | inr good ↦ rw good h.on
  ]
  ended e before (err x) db hb h = hb

  pub Keeps-transaction :
      (e : E) (body : Action E (Db S) A)
      → Keeps (OnTables Q) body
      → Keeps (OnTables Q) (transaction e body)
  unfolding transaction
  Keeps-transaction e body k = record { at = λ db h. record { on = ran db h } }
    where
      ran : (db : Db S) → OnTables Q db → Q (transaction e body db).1.tables
      ran db h = elim (Bool-cases (is_faulty db.faults)) [
        | inl bad ↦ rw bad h.on
        | inr good ↦
            let begun : Db S = record db { faults = later db.faults } in
            let (r, db') = body begun in
            rw good (ended e db.tables r db' h.on (k.at begun (record { on = h.on })))
      ]

module _ {κ} {E S A B : Type 0} {Q : S → Type κ} where
  found :
      (e : E) (f : A → Action E (Db S) B) (o : Option A) (db : Db S)
      → ((a : A) → o ≡ some a → Keeps (OnTables Q) (f a))
      → OnTables Q db
      → OnTables Q ((or_raise o e >>= f) db).1
  unfolding ◌>>=◌
  found e f none db k h = h
  found e f (some a) db k h = (k a refl).at db h

  -- A row that is read and must be there: the rest of the block may use that it was.
  pub Keeps-find :
      (e e' : E) (read : S → Option A) (f : A → Action E (Db S) B)
      → ((t : S) → Q t → (a : A) → read t ≡ some a → Keeps (OnTables Q) (f a))
      → Keeps (OnTables Q) (query e read >>= λ o. or_raise o e' >>= f)
  unfolding ◌>>=◌ query statement
  Keeps-find e e' read f k = record { at = λ db h. ran db h }
    where
      ran :
          (db : Db S)
          → OnTables Q db
          → OnTables Q ((query e read >>= λ o. or_raise o e' >>= f) db).1
      ran db h = elim (Bool-cases (is_faulty db.faults)) [
        | inl bad ↦ rw bad (record { on = h.on })
        | inr good ↦ rw good (
            found e' f (read db.tables) (record { faults = later db.faults; tables = db.tables })
              (λ a r. k db.tables h.on a r) (record { on = h.on }))
      ]

-- `m` keeps `P` where it fails.
pub record FailsClean {κ} {E S A : Type 0} (P : S → Type κ) (m : Action E S A) : Type κ where
  pub at : (s : S) (e : E) → P s → (m s).0 ≡ err e → P (m s).1

module _ {κ} {E S A : Type 0} {P : S → Type κ} where
  pub FailsClean-of-Keeps : (m : Action E S A) → Keeps P m → FailsClean P m
  FailsClean-of-Keeps m k = record { at = λ s e h failed. k.at s h }

module _ {κ} {E S A : Type 0} {Q : S → Type κ} where
  pub FailsClean-statement : (e : E) (run : S → A × S) → FailsClean (OnTables Q) (statement e run)
  unfolding statement
  FailsClean-statement e run = record {
    at = λ db x h failed. elim (Bool-cases (is_faulty db.faults)) [
      | inl bad ↦ rw bad (record { on = h.on })
      | inr good ↦ absurd (ground arith)
    ];
  }

module _ {κ} {E S A B : Type 0} {P : S → Type κ} where
  failed_later :
      (f : A → Action E S B)
      → ((a : A) → FailsClean P (f a))
      → (r : Result E A) (s : S) (e : E) → P s
      → (continue r f s).0 ≡ err e
      → P (continue r f s).1
  failed_later f kf (ok a) s e h failed = (kf a).at s e h failed
  failed_later f kf (err x) s e h failed = h

  pub FailsClean-bind :
      (m : Action E S A) (f : A → Action E S B)
      → Keeps P m
      → ((a : A) → FailsClean P (f a))
      → FailsClean P (m >>= f)
  unfolding ◌>>=◌
  FailsClean-bind m f km kf = record {
    at = λ s e h failed. failed_later f kf (m s).0 (m s).1 e (km.at s h) failed;
  }

pub ruleset keeps_rules = (
  Keeps-pure, Keeps-raise, Keeps-gets, Keeps-or_raise, Keeps-try, Keeps-if, Keeps-raise_if,
  Keeps-bind, Keeps-handle, Keeps-with_option, Keeps-query, Keeps-transaction,
)
