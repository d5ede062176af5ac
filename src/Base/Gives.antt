-- ===== src/Base/Gives.antt =====
-- Rules for what a result satisfies when there is one.
use mathlib.Core.Path.{◌≡◌, refl}
use mathlib.Core.Bool.{Bool, true, false}
use app_zcash.Base.Tests.{if◌then◌else◌}
use app_zcash.Base.Results.{Result, ok, err, ◌>>=◌, ◌>>◌, ensure}

abbrev pub Gives : {E A : Type 0} → (A → Type 0) → Result E A → Type 0
Gives P (ok a) = P a
Gives P (err e) = Unit

module _ {E A B : Type 0} (P : A → Type 0) (Q : B → Type 0) where
  pub Gives-bind :
      (m : Result E A) (f : A → Result E B)
      → Gives P m
      → ((a : A) → m ≡ ok a → P a → Gives Q (f a))
      → Gives Q (m >>= f)
  Gives-bind (ok a) f h k = k a refl h
  Gives-bind (err e) f h k = tt

module _ {E A B : Type 0} (P P' : A → Type 0) (Q : B → Type 0) where
  pub Gives-both-bind :
      (m : Result E A) (f : A → Result E B)
      → Gives P m
      → Gives P' m
      → ((a : A) → P a → P' a → Gives Q (f a))
      → Gives Q (m >>= f)
  Gives-both-bind (ok a) f h h' k = k a h h'
  Gives-both-bind (err e) f h h' k = tt

module _ {E A : Type 0} (P Q : A → Type 0) where
  pub Gives-map : (m : Result E A) → Gives P m → ((a : A) → P a → Q a) → Gives Q m
  Gives-map (ok a) h k = k a h
  Gives-map (err e) h k = tt

module _ {E A B : Type 0} (Q : B → Type 0) where
  -- To go past a call of which nothing is asked.
  pub Gives-past :
      (m : Result E A) (f : A → Result E B)
      → ((a : A) → m ≡ ok a → Gives Q (f a))
      → Gives Q (m >>= f)
  Gives-past (ok a) f k = k a refl
  Gives-past (err e) f k = tt

module _ {E B : Type 0} (Q : B → Type 0) where
  pub Gives-ensure :
      (b : Bool) (e : E) (k : Result E B) → (b ≡ true → Gives Q k) → Gives Q (ensure b e >> k)
  Gives-ensure true e k q = q refl
  Gives-ensure false e k q = tt

  pub Gives-if :
      (b : Bool) (m n : Result E B)
      → (b ≡ true → Gives Q m)
      → (b ≡ false → Gives Q n)
      → Gives Q (if b then m else n)
  Gives-if true m n p q = p refl
  Gives-if false m n p q = q refl

  pub Gives-any : (m : Result E B) → ((b : B) → m ≡ ok b → Q b) → Gives Q m
  Gives-any (ok b) k = k b refl
  Gives-any (err e) k = tt

  pub Gives-ok : (m : Result E B) (b : B) → Gives Q m → m ≡ ok b → Q b
  Gives-ok m b h e = rw e at h
