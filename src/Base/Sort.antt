-- ===== src/Base/Sort.antt =====
-- `sort` and `sort_by_key` of a slice: the stable sort by a Boolean order, entries that tie staying
-- in their places; and `dedup`, which drops each entry that equals its predecessor.
use mathlib.Core.Path.{◌≡◌, refl}
use mathlib.Core.Logic.{inl, inr}
use mathlib.Core.Bool.{Bool, true, false}
use mathlib.Core.List.{List, [], ◌∷◌, Permᴰ}
use mathlib.Core.List.Permᴰ
use dalila.Base.Tests.{if◌then◌else◌, Bool-cases}
use dalila.Base.Lists.{All}

module _ {A : Type 0} (le : A → A → Bool) where
  pub put : A → List A → List A
  put x [] = x ∷ []
  put x (y ∷ ys) = if le x y then x ∷ y ∷ ys else y ∷ put x ys

  unfoldable pub sort : List A → List A
  unfolding put
  sort [] = []
  sort (x ∷ xs) = put x (sort xs)

  -- Each entry is in order with all that follow it.
  abbrev pub IsSorted : List A → Type 0
  IsSorted [] = Unit
  IsSorted (x ∷ xs) = All (λ y. le x y ≡ true) xs × IsSorted xs

  put-perm : (x : A) (xs : List A) → Permᴰ (put x xs) (x ∷ xs)
  unfolding put
  put-perm x [] = Permᴰ.refl (x ∷ [])
  put-perm x (y ∷ ys) = elim (Bool-cases (le x y)) [
    | inl e ↦ rw e (Permᴰ.refl (x ∷ y ∷ ys))
    | inr e ↦ rw e (Permᴰ.trans (Permᴰ.cons refl (put-perm x ys)) (Permᴰ.swap refl refl))
  ]

  pub sort-perm : (xs : List A) → Permᴰ (sort xs) xs
  unfolding sort
  sort-perm [] = Permᴰ.nil
  sort-perm (x ∷ xs) = Permᴰ.trans (put-perm x (sort xs)) (Permᴰ.cons refl (sort-perm xs))

  module _ (total : (x y : A) → le x y ≡ false → le y x ≡ true)
      (trans : (x y z : A) → le x y ≡ true → le y z ≡ true → le x z ≡ true) where
    All-le_trans :
        (x y : A) (xs : List A)
        → le x y ≡ true
        → All (λ z. le y z ≡ true) xs
        → All (λ z. le x z ≡ true) xs
    All-le_trans x y [] h a = tt
    All-le_trans x y (z ∷ zs) h a = (trans x y z h a.0, All-le_trans x y zs h a.1)

    All-put : (P : A → Type 0) (x : A) (xs : List A) → P x → All P xs → All P (put x xs)
    unfolding put
    All-put P x [] h a = (h, tt)
    All-put P x (y ∷ ys) h a = elim (Bool-cases (le x y)) [
      | inl e ↦ rw e (h, a)
      | inr e ↦ rw e (a.0, All-put P x ys h a.1)
    ]

    put-IsSorted : (x : A) (xs : List A) → IsSorted xs → IsSorted (put x xs)
    unfolding put
    put-IsSorted x [] s = (tt, tt)
    put-IsSorted x (y ∷ ys) s = elim (Bool-cases (le x y)) [
      | inl e ↦ rw e ((e, All-le_trans x y ys e s.0), s)
      | inr e ↦ rw e (All-put (λ z. le y z ≡ true) x ys (total x y e) s.0, put-IsSorted x ys s.1)
    ]

    pub sort-IsSorted : (xs : List A) → IsSorted (sort xs)
    unfolding sort
    sort-IsSorted [] = tt
    sort-IsSorted (x ∷ xs) = put-IsSorted x (sort xs) (sort-IsSorted xs)
