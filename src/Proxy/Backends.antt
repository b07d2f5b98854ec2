-- ===== src/Proxy/Backends.antt =====
-- The list of backends: exactly the members that can take work, each address once, in order.
use dalila.Base.{
  ℕ, ◌≡◌, ◌≢◌, sym, Bool, true, false, List, [], ◌∷◌, ◌&&◌, if◌then◌else◌, map, filter, sort, some,
  Option, arith, Elem, All, IsSorted, sort-IsSorted, sort-perm, Bool-cases, inl, inr, ◌⊎◌, ◌↔◌,
  Elem-perm, subst, lookup, Elem-map, map-Elem, Elem-filter, filter-Elem, append-Elem,
  Elem-append_left, Elem-append_right,
}
use dalila.Base.Permᴰ
use dalila.Member.{SocketAddr, Text, Member, NodeId, is_alive}
use dalila.Node.{LocalNode, is_ready}
use dalila.Table.{MemberTable, ready}
use dalila.Table.Invariant.{IsTable}
use dalila.Table.Queries.{Elem-ready}
use dalila.Proxy.{addr_le, addr_eq, dedup, dedup_after, carries, backend_of, candidates, backends}
use dalila.Proxy.Addresses.{addr_eq-eq, addr_total, addr_trans, addr_antisymm, addr_eq_of}

-- Every two entries differ.
abbrev pub Distinct : List SocketAddr → Type 0
Distinct [] = Unit
Distinct (x ∷ xs) = All (λ y. y ≢ x) xs × Distinct xs

All-dedup_after :
    (P : SocketAddr → Type 0) (x : SocketAddr) (xs : List SocketAddr)
    → All P xs
    → All P (dedup_after x xs)
All-dedup_after P x [] h = tt
All-dedup_after P x (y ∷ ys) h = elim (Bool-cases (addr_eq x y)) [
  | inl e ↦ rw e (All-dedup_after P y ys h.1)
  | inr e ↦ rw e (h.0, All-dedup_after P y ys h.1)
]

dedup_after-IsSorted :
    (x : SocketAddr) (xs : List SocketAddr)
    → IsSorted addr_le xs
    → IsSorted addr_le (dedup_after x xs)
dedup_after-IsSorted x [] s = tt
dedup_after-IsSorted x (y ∷ ys) s = elim (Bool-cases (addr_eq x y)) [
  | inl e ↦ rw e (dedup_after-IsSorted y ys s.1)
  | inr e ↦ rw e (All-dedup_after (λ z. addr_le y z ≡ true) y ys s.0, dedup_after-IsSorted y ys s.1)
]

apart :
    (x y : SocketAddr) (zs : List SocketAddr)
    → addr_le x y ≡ true
    → addr_eq x y ≡ false
    → All (λ z. addr_le y z ≡ true) zs
    → All (λ z. z ≢ x) zs
apart x y [] h d a = tt
apart x y (z ∷ zs) h d a = (
  λ e. absurd (ground (arith, d, addr_antisymm x y h (subst (λ w. addr_le y w ≡ true) e a.0))),
  apart x y zs h d a.1,
)

dedup_after-Distinct :
    (x : SocketAddr) (xs : List SocketAddr)
    → IsSorted addr_le (x ∷ xs)
    → Distinct (x ∷ dedup_after x xs)
dedup_after-Distinct x [] s = (tt, tt)
dedup_after-Distinct x (y ∷ ys) s = elim (Bool-cases (addr_eq x y)) [
  | inl e ↦
      let same = addr_eq-eq x y e in
      rw e (subst (λ w. Distinct (w ∷ dedup_after y ys)) (sym same) (dedup_after-Distinct y ys s.1))
  | inr e ↦ rw e (
    (
      λ k. absurd (ground (arith, e, addr_eq_of x y (sym k))),
      apart x y (dedup_after y ys) s.0.0 e (All-dedup_after (λ z. addr_le y z ≡ true) y ys s.1.0),
    ),
    dedup_after-Distinct y ys s.1,
  )
]

Elem-dedup_after :
    (a x : SocketAddr) (xs : List SocketAddr) → Elem a (x ∷ xs) → Elem a (x ∷ dedup_after x xs)
Elem-dedup_after a x xs (inl e) = inl e
Elem-dedup_after a x [] (inr i) = absurd i
Elem-dedup_after a x (y ∷ ys) (inr i) = elim (Bool-cases (addr_eq x y)) [
  | inl e ↦
      let same = addr_eq-eq x y e in
      rw e (subst (λ w. Elem a (w ∷ dedup_after y ys)) (sym same) (Elem-dedup_after a y ys i))
  | inr e ↦ rw e (inr (Elem-dedup_after a y ys i))
]

behind :
    (a y : SocketAddr) (xs ys : List SocketAddr)
    → (Elem a xs → Elem a ys)
    → Elem a (y ∷ xs)
    → Elem a (y ∷ ys)
behind a y xs ys f (inl k) = inl k
behind a y xs ys f (inr k) = inr (f k)

dedup_after-Elem : (a x : SocketAddr) (xs : List SocketAddr) → Elem a (dedup_after x xs) → Elem a xs
dedup_after-Elem a x [] i = i
dedup_after-Elem a x (y ∷ ys) i = elim (Bool-cases (addr_eq x y)) [
  | inl e ↦ inr (dedup_after-Elem a y ys (rw e at i))
  | inr e ↦ behind a y (dedup_after y ys) ys (dedup_after-Elem a y ys) (rw e at i)
]

dedup-Elem : (a : SocketAddr) (xs : List SocketAddr) → Elem a (dedup xs) → Elem a xs
dedup-Elem a [] i = i
dedup-Elem a (x ∷ xs) i = behind a x (dedup_after x xs) xs (dedup_after-Elem a x xs) i

Elem-dedup : (a : SocketAddr) (xs : List SocketAddr) → Elem a xs → Elem a (dedup xs)
Elem-dedup a [] i = i
Elem-dedup a (x ∷ xs) i = Elem-dedup_after a x xs i

dedup-Distinct : (xs : List SocketAddr) → IsSorted addr_le xs → Distinct (dedup xs)
dedup-Distinct [] s = tt
dedup-Distinct (x ∷ xs) s = dedup_after-Distinct x xs s

dedup-IsSorted : (xs : List SocketAddr) → IsSorted addr_le xs → IsSorted addr_le (dedup xs)
dedup-IsSorted [] s = tt
dedup-IsSorted (x ∷ xs) s =
    (All-dedup_after (λ z. addr_le x z ≡ true) x xs s.0, dedup_after-IsSorted x xs s.1)

-- No backend is listed twice, and the list is in order.
pub backends-Distinct :
    (n : LocalNode) (t : MemberTable) (port : ℕ) (tag : Option Text)
    → Distinct (backends n t port tag) × IsSorted addr_le (backends n t port tag)
unfolding backends
backends-Distinct n t port tag =
    let s = sort-IsSorted addr_le addr_total addr_trans (candidates n t port tag) in
    (
      dedup-Distinct (sort addr_le (candidates n t port tag)) s,
      dedup-IsSorted (sort addr_le (candidates n t port tag)) s,
    )

-- `a` is the app's address on a member that the table has alive and ready and that carries the tag,
-- or on this node, if it is ready and carries the tag.
abbrev pub CanWork : LocalNode → MemberTable → ℕ → Option Text → SocketAddr → Type 0
CanWork n t port tag a =
    ((m : Member) × (lookup m.id t ≡ some m)
      × (is_alive m.state ≡ true)
      × (m.ready ≡ true)
      × (carries tag m.tags ≡ true)
      × (backend_of port m.addr ≡ a))
    ⊎ ((n.ready ≡ true) × (carries tag n.tags ≡ true) × (backend_of port n.addr ≡ a))

own_backend :
    (n : LocalNode) (port : ℕ) (tag : Option Text) (a : SocketAddr)
    → Elem a (if is_ready n && carries tag n.tags then backend_of port n.addr ∷ [] else [])
      ↔ ((n.ready ≡ true) × (carries tag n.tags ≡ true) × (backend_of port n.addr ≡ a))
own_backend n port tag a = elim (Bool-cases (is_ready n && carries tag n.tags)) [
  | inl e ↦
      rw e (
        elim [ inl h ↦ (ground (arith, e), ground (arith, e), h) | inr h ↦ absurd h ],
        λ h. inl h.2,
      )
  | inr e ↦ rw e (λ h. absurd h, λ h. absurd (ground (arith, e, h.0, h.1)))
]

candidates-CanWork :
    (n : LocalNode) (t : MemberTable) (me : NodeId) (port : ℕ) (tag : Option Text) (a : SocketAddr)
    → IsTable me t
    → Elem a (candidates n t port tag) ↔ CanWork n t port tag a
candidates-CanWork n t me port tag a v = (into, out_of)
  where
    at : Member → SocketAddr
    at m = backend_of port m.addr

    tagged : Member → Bool
    tagged m = carries tag m.tags

    own : List SocketAddr
    own = if is_ready n && carries tag n.tags then backend_of port n.addr ∷ [] else []

    into : Elem a (candidates n t port tag) → CanWork n t port tag a
    into i = elim (append-Elem (map at (filter tagged (ready t))) own a i) [
      | inl k ↦
          let (m, j, e) = map-Elem at (filter tagged (ready t)) a k in
          let (j', c) = filter-Elem tagged (ready t) {a = m} j in
          let (found, up, r) = (Elem-ready t me m v).0 j' in inl (m, found, up, r, c, e)
      | inr k ↦ inr ((own_backend n port tag a).0 k)
    ]

    out_of : CanWork n t port tag a → Elem a (candidates n t port tag)
    out_of (inl (m, found, up, r, c, e)) =
        Elem-append_left (map at (filter tagged (ready t))) own a (
          subst (λ x. Elem x (map at (filter tagged (ready t)))) e
            (Elem-map at (filter tagged (ready t)) m
              (Elem-filter tagged (ready t) {a = m} ((Elem-ready t me m v).1 (found, up, r)) c)))
    out_of (inr h) =
        Elem-append_right (map at (filter tagged (ready t))) own a ((own_backend n port tag a).1 h)

-- From a well-formed table, the backends are exactly the addresses, with the app's port, of the
-- members that are alive, ready and carry the tag, and of this node if it is ready and carries it.
pub Elem-backends :
    (n : LocalNode) (t : MemberTable) (me : NodeId) (port : ℕ) (tag : Option Text) (a : SocketAddr)
    → IsTable me t
    → Elem a (backends n t port tag) ↔ CanWork n t port tag a
unfolding backends
Elem-backends n t me port tag a v =
    let cs = candidates n t port tag in
    let (f, g) = candidates-CanWork n t me port tag a v in
    (
      λ i. f (Elem-perm a (sort-perm addr_le cs) (dedup-Elem a (sort addr_le cs) i)),
      λ h. Elem-dedup a (sort addr_le cs) (Elem-perm a (Permᴰ.symm (sort-perm addr_le cs)) (g h)),
    )
