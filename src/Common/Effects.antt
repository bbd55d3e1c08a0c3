-- ===== src/Common/Effects.antt =====
-- Code that may fail and that changes a state: a result beside the state that was reached.
use mathlib.Core.Bool.{Bool, false}
use mathlib.Core.List.{List, [], ◌∷◌}
use mathlib.Core.Option.{Option, none, some}
use sendly.Common.Tests.{if◌then◌else◌}

pub data Result (E A : Type 0) : Type 0 where
  ok : A → Result E A
  err : E → Result E A

abbrev pub Action : Type 0 → Type 0 → Type 0 → Type 0
Action E S A = S → Result E A × S

module _ {E S A : Type 0} where
  unfoldable pub pure : A → Action E S A
  pure a s = (ok a, s)

  unfoldable pub raise : E → Action E S A
  raise e s = (err e, s)

  unfoldable pub gets : (S → A) → Action E S A
  gets f s = (ok (f s), s)

  -- `sql.ErrNoRows`, or a nil, becomes the error that the caller names.
  unfoldable pub or_raise : Option A → E → Action E S A
  or_raise none e s = (err e, s)
  or_raise (some a) e s = (ok a, s)

  -- An error that the caller looks at itself.
  unfoldable pub try : Action E S A → Action E S (Result E A)
  try m s = let (r, s') = m s in (ok r, s')

module _ {E S : Type 0} where
  unfoldable pub raise_if : Bool → E → Action E S (Unit {0})
  raise_if c e s = (if c then err e else ok tt, s)

  unfoldable pub modify : (S → S) → Action E S (Unit {0})
  modify f s = (ok tt, f s)

abbrev pub continue : {E S A B : Type 0} → Result E A → (A → Action E S B) → Action E S B
continue (ok a) f s = f a s
continue (err e) f s = (err e, s)

module _ {E F S A B : Type 0} where
  -- An error that has been looked for, by a result at hand.
  unfoldable pub handle : Result F A → (A → Action E S B) → (F → Action E S B) → Action E S B
  handle (ok a) good bad = good a
  handle (err e) good bad = bad e

module _ {E S A B : Type 0} where
  -- A nil, or a value.
  unfoldable pub with_option : Option A → Action E S B → (A → Action E S B) → Action E S B
  with_option none absent there = absent
  with_option (some a) absent there = there a

infixl 5 ◌>>=◌ ◌>>◌
-- Opening this opens the actions above too.
unfoldable pub ◌>>=◌ : {E S A B : Type 0} → Action E S A → (A → Action E S B) → Action E S B
unfolding pure raise gets or_raise raise_if modify try handle with_option
◌>>=◌ m f s = let (r, s') = m s in continue r f s'

abbrev pub ◌>>◌ : {E S B : Type 0} → Action E S (Unit {0}) → Action E S B → Action E S B
m >> k = m >>= λ _. k

-- The database: its tables, and for each statement still to come whether the driver answers it
-- with an error. No entry left means that the rest of the statements are answered.
pub record Db (S : Type 0) : Type 0 where
  pub faults : List Bool
  pub tables : S

abbrev pub is_faulty : List Bool → Bool
is_faulty [] = false
is_faulty (fault ∷ faults) = fault

abbrev pub later : List Bool → List Bool
later [] = []
later (fault ∷ faults) = faults

module _ {E S A : Type 0} where
  -- One statement: it fails and changes nothing, or it runs.
  unfoldable pub statement : E → (S → A × S) → Action E (Db S) A
  statement e run db =
      let (a, tables) = run db.tables in
      if is_faulty db.faults
      then (err e, record db { faults = later db.faults })
      else (ok a, record { faults = later db.faults; tables = tables })

  unfoldable pub query : E → (S → A) → Action E (Db S) A
  unfolding statement
  query e read = statement e (λ t. (read t, t))

  -- The end of a transaction that began with the tables `before`: an error rolls it back, and so
  -- does a commit that fails.
  unfoldable pub end_transaction : E → S → Result E A × Db S → Result E A × Db S
  end_transaction e before (ok a, db) =
      if is_faulty db.faults
      then (err e, record { faults = later db.faults; tables = before })
      else (ok a, record { faults = later db.faults; tables = db.tables })
  end_transaction e before (err x, db) = (err x, record { faults = db.faults; tables = before })

  -- `BeginTxx`, the body, and `Commit`, with the deferred `Rollback`.
  unfoldable pub transaction : E → Action E (Db S) A → Action E (Db S) A
  unfolding end_transaction
  transaction e body db =
      let begun = record db { faults = later db.faults } in
      if is_faulty db.faults then (err e, begun) else end_transaction e db.tables (body begun)
