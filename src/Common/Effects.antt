-- ===== src/Common/Effects.antt =====
-- Asynchronous code over a world that changes with each call: a computation takes the world and returns
-- its result with the world after it. An error does not undo the calls before it.
use mathlib.Core.Path.{◌≡◌, refl, ap}
use graph_privacy_showcase_d.Common.Results.{Result, ok, err}

abbrev pub Run : Type 0 → Type 0 → Type 0
Run World A = World → Result A × World

module _ {World : Type 0} where
  abbrev pub lift : {A : Type 0} → Result A → Run World A
  lift r w = (r, w)

  abbrev pub and_then : {A B : Type 0} → (A → Run World B) → Result A → Run World B
  and_then f (ok a) w = f a w
  and_then f (err e) w = (err e, w)

  infixl 5 ◌>>=◌
  abbrev pub ◌>>=◌ : {A B : Type 0} → Run World A → (A → Run World B) → Run World B
  ◌>>=◌ m f w = let (r, v) = m w in and_then f r v

  -- The result of a call as a value, for code that matches on it.
  abbrev pub attempt : {A : Type 0} → Run World A → Run World (Result A)
  attempt m w = let (r, v) = m w in (ok r, v)

  and_then-eq-ok :
      {A B : Type 0} (f : A → Run World B) (r : Result A) (u v : World) (b : B)
      → and_then f r u ≡ (ok b, v)
      → (a : A) × (r ≡ ok a) × (f a u ≡ (ok b, v))
  and_then-eq-ok f (ok a) u v b e = (a, refl, e)
  and_then-eq-ok f (err x) u v b e = absurd (cc)

  -- Inversion of a computation that succeeds.
  pub run-eq-ok :
      {A B : Type 0} (m : Run World A) (f : A → Run World B) (w v : World) (b : B)
      → (m >>= f) w ≡ (ok b, v)
      → (a : A) × (u : World) × (m w ≡ (ok a, u)) × (f a u ≡ (ok b, v))
  run-eq-ok m f w v b e =
      let (a, first, rest) = and_then-eq-ok f (m w).0 (m w).1 v b e in
      (a, (m w).1, ap (λ r. (r, (m w).1)) first, rest)

  pub lift-eq-ok :
      {A : Type 0} (r : Result A) (w v : World) (a : A) → lift r w ≡ (ok a, v) → r ≡ ok a
  lift-eq-ok r w v a e = ap (λ p. p.0) e
