-- ===== src/Common/KeepsInto.antt =====
-- Invariants of an action in two parts, where the second may use what the first has found.
use mathlib.Core.Path.{◌≡◌, refl}
use sendly.Common.Effects.{Result, ok, err, Action, continue, ◌>>=◌}
use sendly.Common.Keeps.{Keeps}

module _ {κ κ'} {E S A B : Type 0} {P : S → Type κ} {R : S → Type κ'} where
  gone_on :
      (f : A → Action E S B) (r : Result E A) (s : S)
      → P s
      → ((a : A) → r ≡ ok a → R s)
      → ((a : A) → Keeps R (f a))
      → ((s : S) → R s → P s)
      → P (continue r f s).1
  gone_on f (ok a) s h into k out = out _ ((k a).at s (into a refl))
  gone_on f (err e) s h into k out = h

  -- Once the first part has succeeded, the second may use a stronger invariant.
  pub Keeps-bind_into :
      (m : Action E S A) (f : A → Action E S B)
      → Keeps P m
      → ((s : S) (a : A) → P s → (m s).0 ≡ ok a → R (m s).1)
      → ((a : A) → Keeps R (f a))
      → ((s : S) → R s → P s)
      → Keeps P (m >>= f)
  unfolding ◌>>=◌
  Keeps-bind_into m f km into k out = record {
    at = λ s h. gone_on f (m s).0 (m s).1 (km.at s h) (λ a e. into s a h e) k out;
  }

module _ {κ κ'} {E S A B : Type 0} {P : S → Type κ} {Φ : A → Type κ'} where
  found_on :
      (f : A → Action E S B) (r : Result E A) (s : S)
      → P s
      → ((a : A) → r ≡ ok a → Φ a)
      → ((a : A) → Φ a → Keeps P (f a))
      → P (continue r f s).1
  found_on f (ok a) s h fact k = (k a (fact a refl)).at s h
  found_on f (err e) s h fact k = h

  -- The second part may use a fact about the answer of the first.
  pub Keeps-bind_with :
      (m : Action E S A) (f : A → Action E S B)
      → Keeps P m
      → ((s : S) (a : A) → P s → (m s).0 ≡ ok a → Φ a)
      → ((a : A) → Φ a → Keeps P (f a))
      → Keeps P (m >>= f)
  unfolding ◌>>=◌
  Keeps-bind_with m f km fact k = record {
    at = λ s h. found_on f (m s).0 (m s).1 (km.at s h) (λ a e. fact s a h e) k;
  }
