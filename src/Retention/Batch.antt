-- ===== src/Retention/Batch.antt =====
-- internal/storage/retention.go: the deletion of at most so many rows, which every purge runs.
use sendly.Common.{
  ℕ, zero, suc, ◌+◌, Bool, true, false, not, ◌≡◌, refl, ap, ◌∙◌, sym, inl, inr, some, List, [], ◌∷◌,
  map, Eq, ◌==◌, ==→eq, ==_refl, take, select, find, exists, delete, count, insert_by, order_by,
  All, arith, Bool-cases, leb,
}
use sendly.Common.Keyed.{Distinct, keyed}

module _ {A K : Type 0} ⦃e : Eq K⦄ (key : A → K) where
  abbrev pub is_among : List K → A → Bool
  is_among ids x = exists (λ i. i == key x) ids

  -- The keys of the first rows that pass a test.
  abbrev pub batch : (A → ℕ) → (A → Bool) → ℕ → List A → List K
  batch rank test n rows = map key (take n (order_by rank (select test rows)))

  -- Every key is that of a row that passes the test.
  abbrev pub Picked : (A → Bool) → List A → List K → Type 0
  Picked test rows = All (λ i. (y : A) × (find (keyed key i) rows ≡ some y) × (test y ≡ true))

  -- A row that is found by its key and fails the test is not picked.
  pub not_among :
      (test : A → Bool) (rows : List A) (ids : List K) (x : A)
      → Picked test rows ids
      → find (keyed key (key x)) rows ≡ some x
      → test x ≡ false
      → is_among ids x ≡ false
  not_among test rows [] x picked found fails = refl
  not_among test rows (i ∷ ids) x ((y, at, passes), picked) found fails =
      elim (Bool-cases (i == key x)) [
        | inl same ↦
            let at' = ap (λ k. find (keyed key k) rows) (sym (==→eq i (key x) same)) ∙ at in
            absurd (let y_is = same_row y at' in let t = ap test y_is in cc)
        | inr other ↦ rw other (not_among test rows ids x picked found fails)
      ]
    where
      same_row : (y : A) → find (keyed key (key x)) rows ≡ some y → x ≡ y
      same_row y at = cc

  behind :
      (x : A) (all xs : List A)
      → exists (λ y. key y == key x) xs ≡ false
      → All (λ y. find (keyed key (key y)) all ≡ some y) xs
      → All (λ y. find (keyed key (key y)) (x ∷ all) ≡ some y) xs
  behind x all [] h found = tt
  behind x all (y ∷ ys) h found = (
    ground (arith, found.0, e.reflects (key x) (key y), e.reflects (key y) (key x)),
    behind x all ys (ground arith) found.1,
  )

  -- Where no two rows have one key, each is found by its own.
  pub each_found :
      (rows : List A) → Distinct key rows → All (λ x. find (keyed key (key x)) rows ≡ some x) rows
  each_found [] d = tt
  each_found (x ∷ xs) d = (rw (==_refl (key x)) refl, behind x xs xs d.0 (each_found xs d.1))

module _ {ℓ} {A : Type ℓ} where
  pub All-select {κ} :
      (P : A → Type κ) (test : A → Bool) (xs : List A)
      → All P xs
      → All (λ x. P x × (test x ≡ true)) (select test xs)
  All-select P test [] h = tt
  All-select P test (x ∷ xs) h = elim (Bool-cases (test x)) [
    | inl hit ↦ rw hit ((h.0, hit), All-select P test xs h.1)
    | inr miss ↦ rw miss (All-select P test xs h.1)
  ]

  All-insert_by {κ} :
      (P : A → Type κ) (rank : A → ℕ) (x : A) (xs : List A)
      → P x
      → All P xs
      → All P (insert_by rank x xs)
  All-insert_by P rank x [] hx h = (hx, tt)
  All-insert_by P rank x (y ∷ ys) hx h = elim (Bool-cases (leb (rank x) (rank y))) [
    | inl first ↦ rw first (hx, h)
    | inr later ↦ rw later (h.0, All-insert_by P rank x ys hx h.1)
  ]

  pub All-order_by {κ} :
      (P : A → Type κ) (rank : A → ℕ) (xs : List A) → All P xs → All P (order_by rank xs)
  All-order_by P rank [] h = tt
  All-order_by P rank (x ∷ xs) h =
      All-insert_by P rank x (order_by rank xs) h.0 (All-order_by P rank xs h.1)

  pub All-take {κ} : (P : A → Type κ) (n : ℕ) (xs : List A) → All P xs → All P (take n xs)
  All-take P zero xs h = tt
  All-take P (suc n) [] h = tt
  All-take P (suc n) (x ∷ xs) h = (h.0, All-take P n xs h.1)

  pub All-with {κ κ'} :
      (P : A → Type κ) (Q : A → Type κ') (xs : List A) → ((x : A) → P x → Q x) → All P xs → All Q xs
  All-with P Q [] f h = tt
  All-with P Q (x ∷ xs) f h = (f x h.0, All-with P Q xs f h.1)

  -- A deletion of rows that pass a test leaves those that fail it, in their order.
  pub select-delete :
      (test gone : A → Bool) (xs : List A)
      → All (λ x. test x ≡ false → gone x ≡ false) xs
      → select (λ x. not (test x)) (delete gone xs) ≡ select (λ x. not (test x)) xs
  select-delete test gone [] h = refl
  select-delete test gone (x ∷ xs) h = ground (arith, h.0, select-delete test gone xs h.1)

  pub count-delete :
      (test gone : A → Bool) (xs : List A)
      → All (λ x. test x ≡ false → gone x ≡ false) xs
      → count test (delete gone xs) + count gone xs ≡ count test xs
  count-delete test gone [] h = refl
  count-delete test gone (x ∷ xs) h = ground (arith, h.0, count-delete test gone xs h.1)

module _ {A K : Type 0} ⦃e : Eq K⦄ (key : A → K) where
  All-keys {κ} : (P : K → Type κ) (xs : List A) → All (λ x. P (key x)) xs → All P (map key xs)
  All-keys P [] h = tt
  All-keys P (x ∷ xs) h = (h.0, All-keys P xs h.1)

  pub batch-Picked :
      (rank : A → ℕ) (test : A → Bool) (n : ℕ) (rows : List A)
      → Distinct key rows
      → Picked key test rows (batch key rank test n rows)
  batch-Picked rank test n rows d = All-keys _ (take n (order_by rank (select test rows))) (
      All-with _ _ _ (λ x h. (x, h.0, h.1))
        (All-take _ n _ (All-order_by _ rank _ (All-select _ test rows (each_found key rows d)))))

  -- Only rows that pass the test are in a batch.
  pub batch-only :
      (rank : A → ℕ) (test : A → Bool) (n : ℕ) (rows : List A)
      → Distinct key rows
      → All (λ x. test x ≡ false → is_among key (batch key rank test n rows) x ≡ false) rows
  batch-only rank test n rows d =
      All-with _ _ rows
        (λ x found.
          not_among key test rows (batch key rank test n rows) x (batch-Picked rank test n rows d)
            found)
        (each_found key rows d)
