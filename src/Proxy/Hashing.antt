-- ===== src/Proxy/Hashing.antt =====
-- The backends do not depend on the order in which the hash map of the table holds its entries.
use dalila.Base.{
  ℕ, ◌≡◌, ◌≢◌, refl, sym, ◌∙◌, subst, true, List, [], ◌∷◌, Option, Elem, All, IsSorted, inl, inr,
}
use dalila.Member.{Instant, SocketAddr, Text, NodeId}
use dalila.Wire.{WireMember}
use dalila.Node.{LocalNode}
use dalila.Table.{MemberTable}
use dalila.Table.Invariant.{IsTable}
use dalila.Table.Abstract.{Same, merge_each, merge_each-Same, merge_each-IsTable}
use dalila.Proxy.{addr_le, backends}
use dalila.Proxy.Addresses.{addr_eq-eq, addr_antisymm}
use dalila.Proxy.Backends.{Distinct, backends-Distinct, CanWork, Elem-backends}

All-at :
    (P : SocketAddr → Type 0) (xs : List SocketAddr) (a : SocketAddr) → All P xs → Elem a xs → P a
All-at P (x ∷ xs) a (p, all) (inl e) = subst P e p
All-at P (x ∷ xs) a (p, all) (inr i) = All-at P xs a all i
All-at P [] a all i = absurd i

-- The lists have the same entries.
abbrev SameElems : List SocketAddr → List SocketAddr → Type 0
SameElems xs ys = (a : SocketAddr) → (Elem a xs → Elem a ys) × (Elem a ys → Elem a xs)

heads :
    (x y : SocketAddr) (xs ys : List SocketAddr)
    → IsSorted addr_le (x ∷ xs)
    → IsSorted addr_le (y ∷ ys)
    → SameElems (x ∷ xs) (y ∷ ys)
    → x ≡ y
heads x y xs ys (up, s) (up', s') same = elim ((same x).0 (inl refl)) [
  | inl e ↦ sym e
  | inr i ↦ elim ((same y).1 (inl refl)) [
    | inl e ↦ e
    | inr k ↦ addr_eq-eq x y (
        addr_antisymm x y (All-at (λ z. addr_le x z ≡ true) xs y up k)
          (All-at (λ z. addr_le y z ≡ true) ys x up' i))
  ]
]

tail_of :
    (x a : SocketAddr) (xs ys : List SocketAddr)
    → All (λ z. z ≢ x) xs
    → (Elem a (x ∷ xs) → Elem a (x ∷ ys))
    → Elem a xs
    → Elem a ys
tail_of x a xs ys fresh f i = elim (f (inr i)) [
  | inl e ↦ absurd (All-at (λ z. z ≢ x) xs a fresh i (sym e))
  | inr k ↦ k
]

-- A list in order that repeats nothing is determined by its entries.
pub sorted_unique :
    (xs ys : List SocketAddr)
    → IsSorted addr_le xs
    → IsSorted addr_le ys
    → Distinct xs
    → Distinct ys
    → SameElems xs ys
    → xs ≡ ys
sorted_unique [] [] s s' d d' same = refl
sorted_unique [] (y ∷ ys) s s' d d' same = absurd ((same y).1 (inl refl))
sorted_unique (x ∷ xs) [] s s' d d' same = absurd ((same x).0 (inl refl))
sorted_unique (x ∷ xs) (y ∷ ys) s s' d d' same =
    let head = heads x y xs ys s s' same in
    let same' : SameElems (x ∷ xs) (x ∷ ys) =
      subst (λ z. SameElems (x ∷ xs) (z ∷ ys)) (sym head) same in
    let fresh : All (λ z. z ≢ x) ys = subst (λ w. All (λ z. z ≢ w) ys) (sym head) d'.0 in
    let tails =
      sorted_unique xs ys s.1 s'.1 d.1 d'.1
        (λ a. (tail_of x a xs ys d.0 (same' a).0, tail_of x a ys xs fresh (same' a).1)) in
    λ i. head i ∷ tails i

CanWork-Same :
    (n : LocalNode) (t t' : MemberTable) (port : ℕ) (tag : Option Text) (a : SocketAddr)
    → Same t t'
    → CanWork n t port tag a
    → CanWork n t' port tag a
CanWork-Same n t t' port tag a same (inl (m, found, up, r, c, e)) =
    inl (m, sym (same m.id) ∙ found, up, r, c, e)
CanWork-Same n t t' port tag a same (inr own) = inr own

backends-Same :
    (n : LocalNode) (t t' : MemberTable) (me : NodeId) (port : ℕ) (tag : Option Text)
    → IsTable me t
    → IsTable me t'
    → Same t t'
    → backends n t port tag ≡ backends n t' port tag
backends-Same n t t' me port tag v v' same =
    let (d, s) = backends-Distinct n t port tag in
    let (d', s') = backends-Distinct n t' port tag in
    sorted_unique _ _ s s' d d' (λ a.
      let (f, g) = Elem-backends n t me port tag a v in
      let (f', g') = Elem-backends n t' me port tag a v' in
      (
        λ i. g' (CanWork-Same n t t' port tag a same (f i)),
        λ i. g (CanWork-Same n t' t port tag a (λ j. sym (same j)) (f' i)),
      ))

-- Two well-formed tables with the same entries, in whatever order they hold them, answer the same
-- rumors alike, and give the same list of backends afterwards.
pub backends-merge_each :
    (n : LocalNode) (t t' : MemberTable) (me : NodeId) (port : ℕ) (tag : Option Text)
    (rs : List (Instant × WireMember))
    → IsTable me t
    → IsTable me t'
    → Same t t'
    → ((merge_each rs me t).1 ≡ (merge_each rs me t').1)
      × (backends n (merge_each rs me t).0 port tag ≡ backends n (merge_each rs me t').0 port tag)
backends-merge_each n t t' me port tag rs v v' same =
    let (later, outcomes) = merge_each-Same rs me t t' same in
    (
      outcomes,
      backends-Same n (merge_each rs me t).0 (merge_each rs me t').0 me port tag
          (merge_each-IsTable rs me t v) (merge_each-IsTable rs me t' v') later,
    )
