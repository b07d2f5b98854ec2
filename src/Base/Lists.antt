-- ===== src/Base/Lists.antt =====
-- Lists measured by native numbers, filtered by Boolean tests, and membership as a family.
use Prim.Native.Nat.{ℕ, zero, suc, ◌+◌, ◌-◌, ◌≤◌, min}
use mathlib.Core.Path.{◌≡◌, refl, sym, ap, ◌∙◌, subst}
use mathlib.Core.Logic.{◌⊎◌, inl, inr}
use mathlib.Core.Bool.{Bool, true}
use mathlib.Core.List.{List, [], ◌∷◌, ◌++◌, map}
use native.Mathlib.Omega.{arith}
use mathlib.Core.List.{Permᴰ}
use dalila.Base.Tests.{Bool-cases, if◌then◌else◌}

module _ {ℓ} {A : Type ℓ} where
  abbrev pub length : List A → ℕ
  length [] = 0
  length (x ∷ xs) = suc (length xs)

  pub length-append : (xs ys : List A) → length (xs ++ ys) ≡ length xs + length ys
  length-append [] ys = omega arith
  length-append (x ∷ xs) ys = omega (arith, length-append xs ys)

  abbrev pub take : ℕ → List A → List A
  take zero xs = []
  take (suc n) [] = []
  take (suc n) (x ∷ xs) = x ∷ take n xs

  abbrev pub drop : ℕ → List A → List A
  drop zero xs = xs
  drop (suc n) [] = []
  drop (suc n) (x ∷ xs) = drop n xs

  pub length-take : (n : ℕ) (xs : List A) → length (take n xs) ≡ min n (length xs)
  length-take zero xs = omega arith
  length-take (suc n) [] = omega arith
  length-take (suc n) (x ∷ xs) = omega (arith, length-take n xs)

  pub length-drop : (n : ℕ) (xs : List A) → length (drop n xs) ≡ length xs - n
  length-drop zero xs = omega arith
  length-drop (suc n) [] = omega arith
  length-drop (suc n) (x ∷ xs) = omega (arith, length-drop n xs)

  pub take-length-append : (xs ys : List A) → take (length xs) (xs ++ ys) ≡ xs
  take-length-append [] ys = refl
  take-length-append (x ∷ xs) ys = ap (◌∷◌ x) (take-length-append xs ys)

  pub drop-length-append : (xs ys : List A) → drop (length xs) (xs ++ ys) ≡ ys
  drop-length-append [] ys = refl
  drop-length-append (x ∷ xs) ys = drop-length-append xs ys

  pub take-all : (n : ℕ) (xs : List A) → length xs ≤ n → take n xs ≡ xs
  take-all zero [] h = refl
  take-all zero (x ∷ xs) h = absurd (omega (arith, h))
  take-all (suc n) [] h = refl
  take-all (suc n) (x ∷ xs) h = ap (◌∷◌ x) (take-all n xs (omega (arith, h)))

  pub take-append-drop : (n : ℕ) (xs : List A) → take n xs ++ drop n xs ≡ xs
  take-append-drop zero xs = refl
  take-append-drop (suc n) [] = refl
  take-append-drop (suc n) (x ∷ xs) = ap (◌∷◌ x) (take-append-drop n xs)

  -- The entries that pass the test, in order: `retain`, and `filter` on an iterator.
  abbrev pub filter : (A → Bool) → List A → List A
  filter f [] = []
  filter f (x ∷ xs) = let rest = filter f xs in if f x then x ∷ rest else rest

  pub length-filter-le : (f : A → Bool) (xs : List A) → length (filter f xs) ≤ length xs
  length-filter-le f [] = omega arith
  length-filter-le f (x ∷ xs) = ground (arith, length-filter-le f xs)

-- `a` stands in the list. The place is kept, so that a proof can match on it.
abbrev pub Elem : {A : Type 0} → A → List A → Type 0
Elem a [] = ⊥
Elem a (x ∷ xs) = (x ≡ a) ⊎ Elem a xs

module _ {A : Type 0} where
  pub Elem-filter :
      (f : A → Bool) (xs : List A) {a : A} → Elem a xs → f a ≡ true → Elem a (filter f xs)
  Elem-filter f [] i h = i
  Elem-filter f (x ∷ xs) {a} (inl e) h = ground arith
  Elem-filter f (x ∷ xs) {a} (inr i) h = ground (arith, Elem-filter f xs {a = a} i h)

  pub filter-Elem :
      (f : A → Bool) (xs : List A) {a : A} → Elem a (filter f xs) → Elem a xs × (f a ≡ true)
  filter-Elem f [] h = absurd h
  filter-Elem f (x ∷ xs) {a} h = elim (Bool-cases (f x)) [
    | inl e ↦ ground (arith, filter-Elem f xs {a = a})
    | inr e ↦ ground (arith, filter-Elem f xs {a = a})
  ]

  pub Elem-append_left : (xs ys : List A) (a : A) → Elem a xs → Elem a (xs ++ ys)
  Elem-append_left [] ys a i = absurd i
  Elem-append_left (x ∷ xs) ys a (inl e) = inl e
  Elem-append_left (x ∷ xs) ys a (inr i) = inr (Elem-append_left xs ys a i)

  pub Elem-append_right : (xs ys : List A) (a : A) → Elem a ys → Elem a (xs ++ ys)
  Elem-append_right [] ys a i = i
  Elem-append_right (x ∷ xs) ys a i = inr (Elem-append_right xs ys a i)

  pub append-Elem : (xs ys : List A) (a : A) → Elem a (xs ++ ys) → Elem a xs ⊎ Elem a ys
  append-Elem [] ys a i = inr i
  append-Elem (x ∷ xs) ys a (inl e) = inl (inl e)
  append-Elem (x ∷ xs) ys a (inr i) = elim (append-Elem xs ys a i) [
    | inl l ↦ inl (inr l)
    | inr r ↦ inr r
  ]

  pub Elem-map : {B : Type 0} (f : A → B) (xs : List A) (a : A) → Elem a xs → Elem (f a) (map f xs)
  Elem-map f [] a i = i
  Elem-map f (x ∷ xs) a (inl e) = inl (ap f e)
  Elem-map f (x ∷ xs) a (inr i) = inr (Elem-map f xs a i)

  -- Reordering a list keeps what stands in it.
  pub Elem-perm : {xs ys : List A} (a : A) → Permᴰ xs ys → Elem a xs → Elem a ys
  Elem-perm a Permᴰ.nil i = i
  Elem-perm a (Permᴰ.cons e p) (inl h) = inl (sym e ∙ h)
  Elem-perm a (Permᴰ.cons e p) (inr i) = inr (Elem-perm a p i)
  Elem-perm a (Permᴰ.swap e f) (inl h) = inr (inl (sym e ∙ h))
  Elem-perm a (Permᴰ.swap e f) (inr (inl h)) = inl (sym f ∙ h)
  Elem-perm a (Permᴰ.swap e f) (inr (inr i)) = inr (inr i)
  Elem-perm a (Permᴰ.trans p q) i = Elem-perm a q (Elem-perm a p i)

  -- Every entry of the list has the property.
  abbrev pub All : (A → Type 0) → List A → Type 0
  All P [] = Unit
  All P (x ∷ xs) = P x × All P xs

  pub All-Elem : (P : A → Type 0) (xs : List A) (a : A) → All P xs → Elem a xs → P a
  All-Elem P [] a h i = absurd i
  All-Elem P (x ∷ xs) a h (inl e) = subst P e h.0
  All-Elem P (x ∷ xs) a h (inr i) = All-Elem P xs a h.1 i

  pub Elem-All : (P : A → Type 0) (xs : List A) → ((a : A) → Elem a xs → P a) → All P xs
  Elem-All P [] h = tt
  Elem-All P (x ∷ xs) h = (h x (inl refl), Elem-All P xs (λ a i. h a (inr i)))

  pub All-filter : (P : A → Type 0) (f : A → Bool) (xs : List A) → All P xs → All P (filter f xs)
  All-filter P f [] h = tt
  All-filter P f (x ∷ xs) h = elim (Bool-cases (f x)) [
    | inl e ↦ rw e (h.0, All-filter P f xs h.1)
    | inr e ↦ rw e (All-filter P f xs h.1)
  ]

  pub length-perm : {xs ys : List A} → Permᴰ xs ys → length xs ≡ length ys
  length-perm Permᴰ.nil = refl
  length-perm (Permᴰ.cons e p) = ap suc (length-perm p)
  length-perm (Permᴰ.swap e f) = refl
  length-perm (Permᴰ.trans p q) = length-perm p ∙ length-perm q

  pub take-Elem : (n : ℕ) (xs : List A) (a : A) → Elem a (take n xs) → Elem a xs
  take-Elem zero xs a i = absurd i
  take-Elem (suc n) [] a i = i
  take-Elem (suc n) (x ∷ xs) a (inl e) = inl e
  take-Elem (suc n) (x ∷ xs) a (inr i) = inr (take-Elem n xs a i)

  pub map-Elem :
      {B : Type 0} (f : A → B) (xs : List A) (b : B)
      → Elem b (map f xs)
      → (a : A) × Elem a xs × (f a ≡ b)
  map-Elem f [] b i = absurd i
  map-Elem f (x ∷ xs) b (inl e) = (x, inl refl, e)
  map-Elem f (x ∷ xs) b (inr i) = let (a, k, e) = map-Elem f xs b i in (a, inr k, e)

module _ {A : Type 0} (f : A → ℕ) where
  -- The sum of a weight over a list.
  abbrev pub sum_by : List A → ℕ
  sum_by [] = 0
  sum_by (x ∷ xs) = f x + sum_by xs

  pub sum_by-append : (xs ys : List A) → sum_by (xs ++ ys) ≡ sum_by xs + sum_by ys
  sum_by-append [] ys = omega arith
  sum_by-append (x ∷ xs) ys = omega (arith, sum_by-append xs ys)

  pub sum_by-perm : {xs ys : List A} → Permᴰ xs ys → sum_by xs ≡ sum_by ys
  sum_by-perm Permᴰ.nil = refl
  sum_by-perm (Permᴰ.cons e p) = omega (arith, ap f e, sum_by-perm p)
  sum_by-perm (Permᴰ.swap e g) = omega (arith, ap f e, ap f g)
  sum_by-perm (Permᴰ.trans p q) = sum_by-perm p ∙ sum_by-perm q

module _ {A : Type 0} where
  pub length-map : {B : Type 0} (f : A → B) (xs : List A) → length (map f xs) ≡ length xs
  length-map f [] = refl
  length-map f (x ∷ xs) = ap suc (length-map f xs)

  pub drop-Elem : (n : ℕ) (xs : List A) (a : A) → Elem a (drop n xs) → Elem a xs
  drop-Elem zero xs a i = i
  drop-Elem (suc n) [] a i = i
  drop-Elem (suc n) (x ∷ xs) a i = inr (drop-Elem n xs a i)
