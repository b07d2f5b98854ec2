-- ===== src/Base/Fallible.antt =====
-- Fallible calls: a value, or the reason that there is none.
use mathlib.Core.Path.{◌≡◌, refl}

pub data Result (E : Type 0) (A : Type 0) : Type 0 where
  ok : A → Result E A
  err : E → Result E A

module _ {E A B : Type 0} where
  infixl 5 ◌>>=◌
  abbrev pub ◌>>=◌ : Result E A → (A → Result E B) → Result E B
  err reason >>= next = err reason
  ok value >>= next = next value

  -- A chain of calls succeeds only if each part does.
  pub >>=-eq-ok :
      (call : Result E A) (next : A → Result E B) {answer : B}
      → (call >>= next) ≡ ok answer
      → (value : A) × (call ≡ ok value) × (next value ≡ ok answer)
  >>=-eq-ok (err reason) next e = cc
  >>=-eq-ok (ok value) next e = (value, refl, e)
