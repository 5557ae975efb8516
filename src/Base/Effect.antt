-- ===== src/Base/Effect.antt =====
-- Calls that may fail and change the world: the world before to the world after and a `Result`. An
-- error leaves the world as the steps before it made it.
use mathlib.Core.Path.{◌≡◌, refl, ap}
use mathlib.Core.Bool.{Bool, true, false}
use onedrive_davfs.Base.Tests.{if◌then◌else◌}
use onedrive_davfs.Base.ByteStr.{Bytes}
use onedrive_davfs.Base.Fallible.{Result, ok, err}

abbrev pub Op : Type 0 → Type 0 → Type 0
Op W A = W → W × Result Bytes A

module _ {W : Type 0} where
  abbrev pub pure : {A : Type 0} → A → Op W A
  pure a w = (w, ok a)

  abbrev pub fail : {A : Type 0} → Bytes → Op W A
  fail e w = (w, err e)

  abbrev pub lift : {A : Type 0} → Result Bytes A → Op W A
  lift r w = (w, r)

  abbrev pub proceed : {A B : Type 0} → (A → Op W B) → W × Result Bytes A → W × Result Bytes B
  proceed f (w, ok a) = f a w
  proceed f (w, err e) = (w, err e)

  infixl 5 ◌>>=◌
  abbrev pub ◌>>=◌ : {A B : Type 0} → Op W A → (A → Op W B) → Op W B
  ◌>>=◌ m f w = proceed f (m w)

  -- The call keeps a property of the world, whatever it returns.
  pub record Keeps (P : W → Type 0) {A : Type 0} (m : Op W A) : Type 0 where
    pub keep : (w : W) → P w → P (m w).0

  proceed-Keeps :
      (P : W → Type 0) {A B : Type 0} (f : A → Op W B)
      → ((a : A) → Keeps P (f a))
      → (r : W × Result Bytes A) → P r.0
      → P (proceed f r).0
  proceed-Keeps P f k (w, ok a) h = (k a).keep w h
  proceed-Keeps P f k (w, err e) h = h

  pub Keeps->>= :
      (P : W → Type 0) {A B : Type 0} (m : Op W A) (f : A → Op W B)
      → Keeps P m
      → ((a : A) → Keeps P (f a))
      → Keeps P (m >>= f)
  Keeps->>= P m f h k = record { keep = λ w p. proceed-Keeps P f k (m w) (h.keep w p) }

  -- What only computes leaves the world as it is.
  pub Keeps-lift : (P : W → Type 0) {A : Type 0} (r : Result Bytes A) → Keeps P (lift r)
  Keeps-lift P r = record { keep = λ w p. p }

  pub Keeps-pure : (P : W → Type 0) {A : Type 0} (a : A) → Keeps P (pure a)
  Keeps-pure P a = record { keep = λ w p. p }

  pub Keeps-fail : (P : W → Type 0) {A : Type 0} (e : Bytes) → Keeps P (fail {A = A} e)
  Keeps-fail P e = record { keep = λ w p. p }

  -- A test first: what follows knows that it passed.
  pub Keeps-checked :
      (P : W → Type 0) {A B : Type 0} (r : Result Bytes A) (f : A → Op W B)
      → ((a : A) → r ≡ ok a → Keeps P (f a))
      → Keeps P (lift r >>= f)
  Keeps-checked P (ok a) f k = record { keep = λ w p. (k a refl).keep w p }
  Keeps-checked P (err e) f k = record { keep = λ w p. p }

  pub Keeps-if :
      (P : W → Type 0) {A : Type 0} (b : Bool) (x y : Op W A)
      → Keeps P x
      → Keeps P y
      → Keeps P (if b then x else y)
  Keeps-if P true x y h k = h
  Keeps-if P false x y h k = k

-- A chain that ends in a value: its first call has one.
pub proceed-ok :
    {W A B : Type 0} (f : A → Op W B) (r : W × Result Bytes A) (w' : W) (b : B)
    → proceed f r ≡ (w', ok b)
    → (v : W) × (a : A) × (r ≡ (v, ok a)) × (f a v ≡ (w', ok b))
proceed-ok f (w, ok a) w' b h = (w, a, refl, h)
proceed-ok f (w, err e) w' b h = let e' = ap (λ p. p.1) h in cc
