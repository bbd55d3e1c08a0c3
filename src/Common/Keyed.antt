-- ===== src/Common/Keyed.antt =====
-- Tables with a key: what the statements that name one key do, by the row that has it.
use Prim.Native.Nat.{ℕ}
use mathlib.Core.Path.{◌≡◌, refl, ap, sym, ◌∙◌}
use mathlib.Core.Bool.{Bool, true, false, ◌&&◌}
use mathlib.Core.List.{List, [], ◌∷◌}
use mathlib.Core.Option.{Option, none, some}
use mathlib.Core.Logic.{inl, inr}
use native.Mathlib.Omega.{arith}
use sendly.Common.Tests.{if◌then◌else◌, Bool-cases, Eq, ◌==◌, ==→eq, ==_refl}
use sendly.Common.Lists.{find, exists, select, update, delete, count}

module _ {A : Type 0} where
  abbrev pub keep_if : (A → Bool) → Option A → Option A
  keep_if q none = none
  keep_if q (some x) = if q x then some x else none

  abbrev pub change_if : (A → Bool) → (A → A) → Option A → Option A
  change_if q f none = none
  change_if q f (some x) = some (if q x then f x else x)

  abbrev pub count_if : (A → Bool) → Option A → ℕ
  count_if q none = 0
  count_if q (some x) = if q x then 1 else 0

  -- An update that does not touch what a search looks at changes the row that is found.
  pub find-update :
      (p q : A → Bool) (f : A → A) (xs : List A)
      → ((x : A) → p (f x) ≡ p x)
      → find p (update q f xs) ≡ change_if q f (find p xs)
  find-update p q f [] same = refl
  find-update p q f (x ∷ xs) same = ground (arith, same x, find-update p q f xs same)

  -- An update of other rows than those of a search.
  pub find-update_other :
      (p q : A → Bool) (f : A → A) (xs : List A)
      → ((x : A) → p (f x) ≡ p x)
      → ((x : A) → p x ≡ true → q x ≡ false)
      → find p (update q f xs) ≡ find p xs
  find-update_other p q f [] same apart = refl
  find-update_other p q f (x ∷ xs) same apart =
      ground (arith, same x, apart x, find-update_other p q f xs same apart)

  -- The row of a search that a further test lets through, and that a deletion leaves.
  pub find-and :
      (p q : A → Bool) (xs : List A) (x : A)
      → find p xs ≡ some x
      → q x ≡ true
      → find (λ y. p y && q y) xs ≡ some x
  find-and p q [] x h hit = cc
  find-and p q (y ∷ ys) x h hit = ground (arith, find-and p q ys x)

  pub find-kept :
      (p q : A → Bool) (xs : List A) (x : A)
      → find p xs ≡ some x
      → q x ≡ false
      → find p (delete q xs) ≡ some x
  find-kept p q [] x h miss = cc
  find-kept p q (y ∷ ys) x h miss = ground (arith, find-kept p q ys x)

  -- An update that hits no row changes nothing.
  pub update_none : (q : A → Bool) (f : A → A) (xs : List A) → count q xs ≡ 0 → update q f xs ≡ xs
  update_none q f [] h = refl
  update_none q f (x ∷ xs) h = ground (arith, update_none q f xs)

  pub exists-update :
      (p q : A → Bool) (f : A → A) (xs : List A)
      → ((x : A) → p (f x) ≡ p x)
      → exists p (update q f xs) ≡ exists p xs
  exists-update p q f [] same = refl
  exists-update p q f (x ∷ xs) same = ground (arith, same x, exists-update p q f xs same)

  pub exists-delete :
      (p q : A → Bool) (xs : List A) → exists p xs ≡ false → exists p (delete q xs) ≡ false
  exists-delete p q [] h = refl
  exists-delete p q (x ∷ xs) h = ground (arith, exists-delete p q xs)

  pub exists-select :
      (p test : A → Bool) (xs : List A) → exists p xs ≡ false → exists p (select test xs) ≡ false
  exists-select p test [] h = refl
  exists-select p test (x ∷ xs) h = ground (arith, exists-select p test xs)

  -- A narrower search finds nothing where a wider one does not.
  pub exists-within :
      (p q : A → Bool) (xs : List A)
      → ((x : A) → q x ≡ true → p x ≡ true)
      → exists p xs ≡ false
      → exists q xs ≡ false
  exists-within p q [] h none_left = refl
  exists-within p q (x ∷ xs) h none_left = ground (arith, h x, exists-within p q xs h)

  pub find-none : (p : A → Bool) (xs : List A) → exists p xs ≡ false → find p xs ≡ none
  find-none p [] h = refl
  find-none p (x ∷ xs) h = ground (arith, find-none p xs)

  pub none-exists : (p : A → Bool) (xs : List A) → find p xs ≡ none → exists p xs ≡ false
  none-exists p [] h = refl
  none-exists p (x ∷ xs) h = ground (arith, none-exists p xs)

  pub find-exists : (p : A → Bool) (xs : List A) (x : A) → find p xs ≡ some x → exists p xs ≡ true
  find-exists p [] x h = cc
  find-exists p (y ∷ ys) x h = ground (arith, find-exists p ys x)

  pub find-some : (p : A → Bool) (xs : List A) (x : A) → find p xs ≡ some x → p x ≡ true
  find-some p [] x h = cc
  find-some p (y ∷ ys) x h = ground (arith, find-some p ys x)

  -- A deletion that agrees on the rows of a search takes all of them or none.
  pub find-delete :
      (p q : A → Bool) (c : Bool) (xs : List A)
      → ((x : A) → p x ≡ true → q x ≡ c)
      → find p (delete q xs) ≡ (if c then none else find p xs)
  find-delete p q c [] agree = ground arith
  find-delete p q c (x ∷ xs) agree = ground (arith, agree x, find-delete p q c xs agree)

module _ {A K : Type 0} ⦃e : Eq K⦄ (key : A → K) where
  -- No two rows have one key.
  abbrev pub Distinct : List A → Type 0
  Distinct [] = Unit
  Distinct (x ∷ xs) = (exists (λ y. key y == key x) xs ≡ false) × Distinct xs

  abbrev pub keyed : K → A → Bool
  keyed k x = key x == k

  -- Behind the row that has a key, no row has it.
  alone :
      (k : K) (x : A) (xs : List A)
      → (key x == k) ≡ true
      → exists (λ y. key y == key x) xs ≡ false
      → exists (keyed k) xs ≡ false
  alone k x xs h none_left = rw (==→eq (key x) k h) at none_left

  find-keyed_absent :
      (k : K) (q : A → Bool) (xs : List A)
      → exists (keyed k) xs ≡ false
      → find (λ x. key x == k && q x) xs ≡ none
  find-keyed_absent k q [] h = refl
  find-keyed_absent k q (x ∷ xs) h = ground (arith, find-keyed_absent k q xs)

  pub find-keyed :
      (k : K) (q : A → Bool) (xs : List A)
      → Distinct xs
      → find (λ x. key x == k && q x) xs ≡ keep_if q (find (keyed k) xs)
  find-keyed k q [] d = refl
  find-keyed k q (x ∷ xs) d = elim (Bool-cases (key x == k)) [
    | inl hit ↦ ground (arith, find-keyed_absent k q xs (alone k x xs hit d.0))
    | inr miss ↦ rw miss (find-keyed k q xs d.1)
  ]

  count-keyed_absent :
      (k : K) (q : A → Bool) (xs : List A)
      → exists (keyed k) xs ≡ false
      → count (λ x. key x == k && q x) xs ≡ 0
  count-keyed_absent k q [] h = refl
  count-keyed_absent k q (x ∷ xs) h = ground (arith, count-keyed_absent k q xs)

  pub count-keyed :
      (k : K) (q : A → Bool) (xs : List A)
      → Distinct xs
      → count (λ x. key x == k && q x) xs ≡ count_if q (find (keyed k) xs)
  count-keyed k q [] d = refl
  count-keyed k q (x ∷ xs) d = elim (Bool-cases (key x == k)) [
    | inl hit ↦ ground (arith, count-keyed_absent k q xs (alone k x xs hit d.0))
    | inr miss ↦ ground (arith, count-keyed k q xs d.1)
  ]

  pub Distinct-update :
      (q : A → Bool) (f : A → A) (xs : List A)
      → ((x : A) → key (f x) ≡ key x)
      → Distinct xs
      → Distinct (update q f xs)
  Distinct-update q f [] same d = tt
  Distinct-update q f (x ∷ xs) same d = (
    ground (
      arith,
      same x,
      d.0,
      exists-update (λ y. key y == key x) q f xs (λ y. ap (λ k. k == key x) (same y)),
    ),
    Distinct-update q f xs same d.1,
  )

  pub Distinct-delete : (q : A → Bool) (xs : List A) → Distinct xs → Distinct (delete q xs)
  Distinct-delete q [] d = tt
  Distinct-delete q (x ∷ xs) d =
      ground (arith, Distinct-delete q xs d.1, exists-delete (λ y. key y == key x) q xs d.0)

  -- A row that any search finds is the one with its key.
  find-by_key :
      (p : A → Bool) (x : A) (xs : List A)
      → Distinct xs
      → find p xs ≡ some x
      → find (keyed (key x)) xs ≡ some x
  find-by_key p x [] d h = cc
  find-by_key p x (y ∷ ys) d h = elim (Bool-cases (p y)) [
    | inl hit ↦
        let same : y ≡ x = ground (arith, hit, h) in
        rw (ap (λ z. key z == key x) same, ==_refl (key x)) (ap some same)
    | inr miss ↦
        let rest : find p ys ≡ some x = rw miss at h in
        let behind = find-by_key p x ys d.1 rest in
        elim (Bool-cases (key y == key x)) [
          | inl first ↦ absurd (
              let there = find-exists (keyed (key x)) ys x behind in
              let lone = rw (==→eq (key y) (key x) first) at d.0 in cc)
          | inr other ↦ rw other behind
        ]
  ]

  -- Two rows of a table with one key are one row.
  pub same_row :
      (p q : A → Bool) (x y : A) (xs : List A)
      → Distinct xs
      → find p xs ≡ some x
      → find q xs ≡ some y
      → (key x == key y) ≡ true
      → x ≡ y
  same_row p q x y xs d hx hy own =
      let fx = find-by_key p x xs d hx in
      let fy = find-by_key q y xs d hy in
      let fx' = rw (==→eq (key x) (key y) own) at fx in
      let both : some x ≡ some y = sym fx' ∙ fy in ground (arith, both)
