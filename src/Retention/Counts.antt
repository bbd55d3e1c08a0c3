-- ===== src/Retention/Counts.antt =====
-- internal/storage/retention.go: how many rows the deletion of a batch takes.
use sendly.Common.{
  ℕ, zero, suc, ◌+◌, Bool, true, false, ◌||◌, ◌≡◌, refl, ap, ◌∙◌, sym, inl, inr, some, List, [],
  ◌∷◌, map, Eq, ◌==◌, ==→eq, length, take, select, find, exists, count, insert_by, order_by, All,
  arith, Bool-cases,
}
use Prim.Native.Nat.{min}
use sendly.Common.Keyed.{Distinct, keyed, find-exists, exists-select}
use sendly.Retention.Batch.{
  is_among, batch, each_found, All-select, All-order_by, All-take, All-with,
}

module _ {A : Type 0} where
  length-take : (n : ℕ) (xs : List A) → length (take n xs) ≡ min n (length xs)
  length-take zero xs = ground arith
  length-take (suc n) [] = ground arith
  length-take (suc n) (x ∷ xs) = ground (arith, length-take n xs)

  length-insert_by :
      (rank : A → ℕ) (x : A) (xs : List A) → length (insert_by rank x xs) ≡ suc (length xs)
  length-insert_by rank x [] = refl
  length-insert_by rank x (y ∷ ys) = ground (arith, length-insert_by rank x ys)

  length-order_by : (rank : A → ℕ) (xs : List A) → length (order_by rank xs) ≡ length xs
  length-order_by rank [] = refl
  length-order_by rank (x ∷ xs) =
      ground (arith, length-insert_by rank x (order_by rank xs), length-order_by rank xs)

  length-select : (test : A → Bool) (xs : List A) → length (select test xs) ≡ count test xs
  length-select test [] = refl
  length-select test (x ∷ xs) = ground (arith, length-select test xs)

  exists-take :
      (p : A → Bool) (n : ℕ) (xs : List A) → exists p xs ≡ false → exists p (take n xs) ≡ false
  exists-take p zero xs h = refl
  exists-take p (suc n) [] h = refl
  exists-take p (suc n) (x ∷ xs) h = ground (arith, exists-take p n xs)

  exists-insert_by :
      (p : A → Bool) (rank : A → ℕ) (x : A) (xs : List A)
      → exists p (insert_by rank x xs) ≡ (p x || exists p xs)
  exists-insert_by p rank x [] = refl
  exists-insert_by p rank x (y ∷ ys) = ground (arith, exists-insert_by p rank x ys)

  exists-order_by :
      (p : A → Bool) (rank : A → ℕ) (xs : List A) → exists p (order_by rank xs) ≡ exists p xs
  exists-order_by p rank [] = refl
  exists-order_by p rank (x ∷ xs) =
      ground (arith, exists-insert_by p rank x (order_by rank xs), exists-order_by p rank xs)

  count-or :
      (p q : A → Bool) (xs : List A)
      → All (λ x. p x ≡ true → q x ≡ false) xs
      → count (λ x. p x || q x) xs ≡ count p xs + count q xs
  count-or p q [] h = refl
  count-or p q (x ∷ xs) h = ground (arith, h.0, count-or p q xs h.1)

module _ {A K : Type 0} ⦃e : Eq K⦄ (key : A → K) where
  Distinct-select :
      (test : A → Bool) (xs : List A) → Distinct key xs → Distinct key (select test xs)
  Distinct-select test [] d = tt
  Distinct-select test (x ∷ xs) d =
      ground (arith, Distinct-select test xs d.1, exists-select (λ y. key y == key x) test xs d.0)

  Distinct-take : (n : ℕ) (xs : List A) → Distinct key xs → Distinct key (take n xs)
  Distinct-take zero xs d = tt
  Distinct-take (suc n) [] d = tt
  Distinct-take (suc n) (x ∷ xs) d =
      (exists-take (λ y. key y == key x) n xs d.0, Distinct-take n xs d.1)

  Distinct-insert_by :
      (rank : A → ℕ) (x : A) (xs : List A)
      → exists (λ y. key y == key x) xs ≡ false
      → Distinct key xs
      → Distinct key (insert_by rank x xs)
  Distinct-insert_by rank x [] h d = (refl, tt)
  Distinct-insert_by rank x (y ∷ ys) h d = ground (
    arith,
    e.reflects (key x) (key y),
    e.reflects (key y) (key x),
    exists-insert_by (λ z. key z == key y) rank x ys,
    Distinct-insert_by rank x ys (ground arith) d.1,
  )

  Distinct-order_by :
      (rank : A → ℕ) (xs : List A) → Distinct key xs → Distinct key (order_by rank xs)
  Distinct-order_by rank [] d = tt
  Distinct-order_by rank (x ∷ xs) d =
      Distinct-insert_by rank x (order_by rank xs)
        (exists-order_by (λ y. key y == key x) rank xs ∙ d.0) (Distinct-order_by rank xs d.1)

  is_among-keys :
      (ps : List A) (x : A) → is_among key (map key ps) x ≡ exists (λ y. key y == key x) ps
  is_among-keys [] x = refl
  is_among-keys (p ∷ ps) x = ground (arith, is_among-keys ps x)

  none_keyed :
      (k : K) (xs : List A) → exists (keyed key k) xs ≡ false → count (λ x. k == key x) xs ≡ 0
  none_keyed k [] h = refl
  none_keyed k (x ∷ xs) h =
      ground (arith, e.reflects k (key x), e.reflects (key x) k, none_keyed k xs)

  one_keyed :
      (k : K) (xs : List A)
      → Distinct key xs
      → exists (keyed key k) xs ≡ true
      → count (λ x. k == key x) xs ≡ 1
  one_keyed k [] d h = cc
  one_keyed k (x ∷ xs) d h = elim (Bool-cases (key x == k)) [
    | inl hit ↦ ground (
      arith,
      ==→eq (key x) k hit,
      e.reflects (key x) k,
      none_keyed k xs (ap (λ j. exists (keyed key j) xs) (sym (==→eq (key x) k hit)) ∙ d.0),
      e.reflects k (key x),
    )
    | inr miss ↦
        ground
          (arith, e.reflects k (key x), e.reflects (key x) k, one_keyed k xs d.1 (rw miss at h))
  ]

  apart :
      (p : A) (ps xs : List A)
      → exists (λ y. key y == key p) ps ≡ false
      → All (λ x. (key p == key x) ≡ true → is_among key (map key ps) x ≡ false) xs
  apart p ps [] h = tt
  apart p ps (x ∷ xs) h = (
    (λ hit.
        is_among-keys ps x
        ∙ ap (λ k. exists (λ y. key y == k) ps) (sym (==→eq (key p) (key x) hit))
        ∙ h),
    apart p ps xs h,
  )

  -- As many rows have one of the keys as there are keys.
  count-is_among :
      (ps rows : List A)
      → Distinct key rows
      → Distinct key ps
      → All (λ p. find (keyed key (key p)) rows ≡ some p) ps
      → count (is_among key (map key ps)) rows ≡ length ps
  count-is_among [] rows d dp found = count_nothing rows
    where
      count_nothing : (xs : List A) → count (is_among key []) xs ≡ 0
      count_nothing [] = refl
      count_nothing (x ∷ xs) = omega (arith, count_nothing xs)
  count-is_among (p ∷ ps) rows d dp found =
      count-or (λ x. key p == key x) (is_among key (map key ps)) rows (apart p ps rows dp.0)
      ∙ ground (
        arith,
        one_keyed (key p) rows d (find-exists (keyed key (key p)) rows p found.0),
        count-is_among ps rows d dp.1 found.1,
      )

  -- A batch takes as many rows as it may, or all that there are.
  pub count-batch :
      (rank : A → ℕ) (test : A → Bool) (n : ℕ) (rows : List A)
      → Distinct key rows
      → count (is_among key (batch key rank test n rows)) rows ≡ min n (count test rows)
  count-batch rank test n rows d =
      count-is_among (take n (order_by rank (select test rows))) rows d
        (Distinct-take n _ (Distinct-order_by rank _ (Distinct-select test rows d)))
        (All-take _ n _ (
          All-order_by _ rank _
            (All-with _ _ _ (λ x h. h.0) (All-select _ test rows (each_found key rows d)))))
      ∙ length-take n (order_by rank (select test rows))
      ∙ ap (min n) (length-order_by rank (select test rows) ∙ length-select test rows)
