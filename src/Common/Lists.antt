-- ===== src/Common/Lists.antt =====
-- Rows of a table as a list: what a statement selects, changes, deletes and counts.
use Prim.Native.Nat.{ℕ, zero, suc, ◌+◌}
use mathlib.Core.Path.{◌≡◌, subst}
use mathlib.Core.Logic.{inl, inr}
use mathlib.Core.Bool.{Bool, true, false, ◌||◌}
use mathlib.Core.List.{List, [], ◌∷◌, ◌++◌}
use mathlib.Core.Option.{Option, none, some}
use native.Mathlib.Omega.{arith}
use sendly.Common.Tests.{if◌then◌else◌, Bool-cases, leb}

module _ {ℓ} {A : Type ℓ} where
  abbrev pub length : List A → ℕ
  length [] = 0
  length (x ∷ xs) = suc (length xs)

  abbrev pub take : ℕ → List A → List A
  take zero xs = []
  take (suc n) [] = []
  take (suc n) (x ∷ xs) = x ∷ take n xs

  -- `SELECT * … WHERE test`
  abbrev pub select : (A → Bool) → List A → List A
  select test [] = []
  select test (x ∷ xs) = let rest = select test xs in if test x then x ∷ rest else rest

  -- The first row of a selection; `none` is `sql.ErrNoRows`.
  abbrev pub find : (A → Bool) → List A → Option A
  find test [] = none
  find test (x ∷ xs) = let rest = find test xs in if test x then some x else rest

  -- `SELECT EXISTS (… WHERE test)`
  abbrev pub exists : (A → Bool) → List A → Bool
  exists test [] = false
  exists test (x ∷ xs) = test x || exists test xs

  -- `UPDATE … SET change WHERE test`
  abbrev pub update : (A → Bool) → (A → A) → List A → List A
  update test change [] = []
  update test change (x ∷ xs) = (if test x then change x else x) ∷ update test change xs

  -- `DELETE … WHERE test`
  abbrev pub delete : (A → Bool) → List A → List A
  delete test [] = []
  delete test (x ∷ xs) = let rest = delete test xs in if test x then rest else x ∷ rest

  -- `SELECT COUNT(*) … WHERE test`, and the rows that a statement with this test affects.
  abbrev pub count : (A → Bool) → List A → ℕ
  count test [] = 0
  count test (x ∷ xs) = (if test x then 1 else 0) + count test xs

  -- `ORDER BY key`
  abbrev pub insert_by : (A → ℕ) → A → List A → List A
  insert_by key x [] = x ∷ []
  insert_by key x (y ∷ ys) =
      let rest = insert_by key x ys in if leb (key x) (key y) then x ∷ y ∷ ys else y ∷ rest

  abbrev pub order_by : (A → ℕ) → List A → List A
  order_by key [] = []
  order_by key (x ∷ xs) = insert_by key x (order_by key xs)

-- What holds of every row.
abbrev pub All {ℓ κ} : {A : Type ℓ} → (A → Type κ) → List A → Type κ
All P [] = Unit
All P (x ∷ xs) = P x × All P xs

module _ {ℓ κ} {A : Type ℓ} (P : A → Type κ) where
  pub All-update :
      (test : A → Bool) (change : A → A) (xs : List A)
      → ((x : A) → test x ≡ true → P x → P (change x))
      → All P xs
      → All P (update test change xs)
  All-update test change [] keep h = tt
  All-update test change (x ∷ xs) keep h = elim (Bool-cases (test x)) [
    | inl hit ↦ rw hit (keep x hit h.0, All-update test change xs keep h.1)
    | inr miss ↦ rw miss (h.0, All-update test change xs keep h.1)
  ]

  pub All-delete : (test : A → Bool) (xs : List A) → All P xs → All P (delete test xs)
  All-delete test [] h = tt
  All-delete test (x ∷ xs) h = ground (arith, All-delete test xs h.1)

  pub All-append : (xs ys : List A) → All P xs → All P ys → All P (xs ++ ys)
  All-append [] ys hx hy = hy
  All-append (x ∷ xs) ys hx hy = (hx.0, All-append xs ys hx.1 hy)

  -- A row that a selection returns has the property.
  pub All-find : (test : A → Bool) (xs : List A) {x : A} → All P xs → find test xs ≡ some x → P x
  All-find test [] h e = cc
  All-find test (y ∷ ys) {x} h e = elim (Bool-cases (test y)) [
    | inl hit ↦ subst P (cc) h.0
    | inr miss ↦ All-find test ys h.1 (rw miss at e)
  ]
