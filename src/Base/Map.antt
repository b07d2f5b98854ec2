-- ===== src/Base/Map.antt =====
-- `std::collections::HashMap` keyed by a number: an association list whose order is arbitrary.
use Prim.Native.Nat.{ℕ}
use mathlib.Core.Path.{◌≡◌, refl}
use mathlib.Core.Logic.{◌≢◌, inl, inr}
use mathlib.Core.Bool.{Bool, true, false}
use mathlib.Core.Option.{Option, none, some}
use mathlib.Core.List.{List, [], ◌∷◌, map}
use native.Mathlib.Omega.{arith}
use dalila.Base.Tests.{◌==◌, if◌then◌else◌}
use dalila.Base.Lists.{Elem}

abbrev pub HashMap {ℓ} : Type ℓ → Type ℓ
HashMap V = List (ℕ × V)

module _ {ℓ} {V : Type ℓ} where
  unfoldable pub lookup : (key : ℕ) → HashMap V → Option V
  lookup key ((held, value) ∷ rest) = if held == key then some value else lookup key rest
  lookup key [] = none

  -- The old value under the key gives way to the new one.
  unfoldable pub insert : (key : ℕ) (value : V) → HashMap V → HashMap V
  insert key value ((held, old) ∷ rest) =
      if held == key then (key, value) ∷ rest else (held, old) ∷ insert key value rest
  insert key value [] = (key, value) ∷ []

  unfoldable pub remove : (key : ℕ) → HashMap V → HashMap V
  remove key ((held, value) ∷ rest) =
      let others = remove key rest in if held == key then others else (held, value) ∷ others
  remove key [] = []

  unfoldable pub contains_key : ℕ → HashMap V → Bool
  contains_key k m = elim (lookup k m) [ none ↦ false | some _ ↦ true ]

  abbrev pub keys : HashMap V → List ℕ
  keys = map (λ e. e.0)

  abbrev pub values : HashMap V → List V
  values = map (λ e. e.1)

  -- No key stands twice.
  abbrev pub IsMap : HashMap V → Type ℓ
  IsMap [] = Unit
  IsMap ((k, v) ∷ m) = (lookup k m ≡ none) × IsMap m

  -- After an insertion: the new value under its key, and under any other key what was there.
  pub lookup-insert :
      (key asked : ℕ) (value : V) (m : HashMap V)
      → lookup asked (insert key value m) ≡ (if key == asked then some value else lookup asked m)
  unfolding insert lookup
  lookup-insert key asked value ((held, old) ∷ rest) =
      let ih = lookup-insert key asked value rest in ground (arith, ih)
  lookup-insert key asked value [] = refl

  -- After a removal: nothing under the key, and under any other key what was there.
  pub lookup-remove :
      (key asked : ℕ) (m : HashMap V)
      → lookup asked (remove key m) ≡ (if key == asked then none else lookup asked m)
  unfolding remove lookup
  lookup-remove key asked ((held, old) ∷ rest) =
      let ih = lookup-remove key asked rest in ground (arith, ih)
  lookup-remove key asked [] = ground arith

  pub insert-IsMap : (k : ℕ) (v : V) (m : HashMap V) → IsMap m → IsMap (insert k v m)
  unfolding insert lookup
  insert-IsMap k v [] h = (refl, tt)
  insert-IsMap k v ((i, w) ∷ m) h = ground (arith, insert-IsMap k v m h.1, lookup-insert k i v m)

  pub remove-IsMap : (k : ℕ) (m : HashMap V) → IsMap m → IsMap (remove k m)
  unfolding remove lookup
  remove-IsMap k [] h = tt
  remove-IsMap k ((i, w) ∷ m) h = ground (arith, remove-IsMap k m h.1, lookup-remove k i m)

module _ {V : Type 0} where
  pub Elem-keys : (k : ℕ) (m : HashMap V) → lookup k m ≢ none → Elem k (keys m)
  unfolding lookup
  Elem-keys k [] h = h refl
  Elem-keys k ((j, w) ∷ m) h = ground (arith, Elem-keys k m)

  pub keys-Elem : (k : ℕ) (m : HashMap V) → Elem k (keys m) → lookup k m ≢ none
  unfolding lookup
  keys-Elem k [] i = absurd i
  keys-Elem k ((j, w) ∷ m) (inl e) = ground arith
  keys-Elem k ((j, w) ∷ m) (inr i) = ground (arith, keys-Elem k m i)

  pub Elem-values : (k : ℕ) (v : V) (m : HashMap V) → lookup k m ≡ some v → Elem v (values m)
  unfolding lookup
  Elem-values k v [] h = cc
  Elem-values k v ((j, w) ∷ m) h = ground (arith, Elem-values k v m)

  -- What a map without repeated keys holds is found under its key.
  pub values-Elem :
      (v : V) (m : HashMap V) → IsMap m → Elem v (values m) → (k : ℕ) × (lookup k m ≡ some v)
  unfolding lookup
  values-Elem v [] h i = absurd i
  values-Elem v ((j, w) ∷ m) h (inl e) = (j, ground arith)
  values-Elem v ((j, w) ∷ m) h (inr i) = let (k, e) = values-Elem v m h.1 i in (k, ground arith)
