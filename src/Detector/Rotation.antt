-- ===== src/Detector/Rotation.antt =====
-- The probe rotation: a pass over a shuffle probes every member that is not dead, once.
use dalila.Base.{
  ℕ, zero, suc, ◌≤◌, ◌≡◌, refl, sym, ap, ◌∙◌, arith, not, if◌then◌else◌, Bool-cases, Option-cases,
  inl, inr, ◌⊎◌, ◌↔◌, true, false, List, [], ◌∷◌, Elem, Elem-perm, lookup, some, none, Option,
  subst, Permᴰ, Elem-keys, keys, length, length-perm, length-map,
}
use dalila.Base.Permᴰ
use dalila.Member.{NodeId, Member, is_dead}
use dalila.Table.{MemberTable, get}
use dalila.Table.Invariant.{IsTable}
use dalila.Detector.{pop_live, pop_round, next_target, shuffled}

abbrev pub live_round : Option Member → List Member → List Member
live_round none rest = rest
live_round (some m) rest = if not (is_dead m.state) then m ∷ rest else rest

-- The members that one pass over an order has to probe.
abbrev pub live_of : MemberTable → List NodeId → List Member
live_of t [] = []
live_of t (id ∷ order) = live_round (get t id) (live_of t order)

-- A pop finds nobody if nobody is left to probe, and the first of those otherwise.
abbrev Pops : MemberTable → List NodeId → ℕ → Option Member × List NodeId → List Member → Type 0
Pops t order n (found, left) live =
    ((found ≡ none) × (live ≡ []))
    ⊎ ((m : Member) × (found ≡ some m) × (live ≡ m ∷ live_of t left) × (suc (length left) ≤ n))

Pops-suc :
    (t : MemberTable) (order : List NodeId) (n : ℕ) (r : Option Member × List NodeId)
    (live : List Member)
    → Pops t order n r live
    → Pops t order (suc n) r live
Pops-suc t order n r live (inl h) = inl h
Pops-suc t order n r live (inr (m, a, b, c)) = inr (m, a, b, omega (arith, c))

Pops-round :
    (t : MemberTable) (order : List NodeId) (o : Option Member)
    → Pops t order (length order) (pop_live t order) (live_of t order)
    → Pops t order
        (suc (length order))
        (pop_round o order (pop_live t order))
        (live_round o (live_of t order))
Pops-round t order none h = Pops-suc t order (length order) (pop_live t order) (live_of t order) h
Pops-round t order (some m) h = elim (Bool-cases (is_dead m.state)) [
  | inl d ↦ rw d (Pops-suc t order (length order) (pop_live t order) (live_of t order) h)
  | inr d ↦ rw d (inr (m, refl, refl, omega arith))
]

pop_live-Pops :
    (t : MemberTable) (order : List NodeId)
    → Pops t order (length order) (pop_live t order) (live_of t order)
unfolding pop_live
pop_live-Pops t [] = inl (refl, refl)
pop_live-Pops t (id ∷ order) = Pops-round t order (lookup id t) (pop_live-Pops t order)

abbrev target_then : Option Member → List Member → List Member
target_then none later = []
target_then (some m) later = m ∷ later

-- The targets of successive probes while the table stays as it is, until the order runs out.
pub targets : ℕ → MemberTable → List NodeId → List Member
targets zero t order = []
targets (suc f) t order = target_then (pop_live t order).0 (targets f t (pop_live t order).1)

-- One pass probes exactly the members of its order that are not dead, in that order.
pub targets-live_of :
    (f : ℕ) (t : MemberTable) (order : List NodeId)
    → length order ≤ f
    → targets f t order ≡ live_of t order
unfolding targets
targets-live_of zero t [] h = refl
targets-live_of zero t (id ∷ order) h = absurd (omega arith)
targets-live_of (suc f) t order h = elim (pop_live-Pops t order) [
  | inl (e, l) ↦ rw (e, l)
  | inr (m, e, l, fewer) ↦
      rw (e, l) (ap (◌∷◌ m) (targets-live_of f t (pop_live t order).1 (omega (arith, fewer))))
]

live_round-Elem :
    (o : Option Member) (rest : List Member) (m : Member) → Elem m rest → Elem m (live_round o rest)
live_round-Elem none rest m i = i
live_round-Elem (some k) rest m i = ground (arith, i)

Elem-live_of :
    (t : MemberTable) (order : List NodeId) (j : NodeId) (m : Member)
    → Elem j order
    → lookup j t ≡ some m
    → is_dead m.state ≡ false
    → Elem m (live_of t order)
Elem-live_of t [] j m i e d = absurd i
Elem-live_of t (id ∷ order) j m (inl here) e d = rw (ap (λ x. lookup x t) here ∙ e, d) (inl refl)
Elem-live_of t (id ∷ order) j m (inr i) e d =
    live_round-Elem (lookup id t) (live_of t order) m (Elem-live_of t order j m i e d)

round-Elem :
    (t : MemberTable) (id : NodeId) (o : Option Member) (rest : List Member) (m : Member)
    → lookup id t ≡ o
    → Elem m (live_round o rest)
    → Elem m rest ⊎ ((lookup id t ≡ some m) × (is_dead m.state ≡ false))
round-Elem t id none rest m e i = inl i
round-Elem t id (some k) rest m e i = elim (Bool-cases (is_dead k.state)) [
  | inl d ↦ inl (rw d at i)
  | inr d ↦ elim (at_head k rest m (rw d at i)) [
    | inl here ↦ inr (e ∙ ap some here, ap (λ x. is_dead x.state) (sym here) ∙ d)
    | inr k ↦ inl k
  ]
]
  where
    at_head :
        (k : Member) (rest : List Member) (m : Member) → Elem m (k ∷ rest) → (k ≡ m) ⊎ Elem m rest
    at_head k rest m i = i

live_of-Elem :
    (t : MemberTable) (order : List NodeId) (m : Member)
    → Elem m (live_of t order)
    → (j : NodeId) × (lookup j t ≡ some m) × (is_dead m.state ≡ false)
live_of-Elem t [] m i = absurd i
live_of-Elem t (id ∷ order) m i = elim (round-Elem t id (lookup id t) (live_of t order) m refl i) [
  | inl later ↦ live_of-Elem t order m later
  | inr (e, d) ↦ (id, e, d)
]

pub Elem-shuffled :
    (shuffle : List NodeId → List NodeId) (t : MemberTable) (j : NodeId) (m : Member)
    → ((l : List NodeId) → Permᴰ (shuffle l) l)
    → lookup j t ≡ some m
    → Elem j (shuffled shuffle t)
Elem-shuffled shuffle t j m p e =
    Elem-perm j (Permᴰ.symm (Permᴰ.reverse (shuffle (keys t))))
      (Elem-perm j (Permᴰ.symm (p (keys t))) (Elem-keys j t (λ e'. ground (arith, e, e'))))

pub length-shuffled :
    (shuffle : List NodeId → List NodeId) (t : MemberTable)
    → ((l : List NodeId) → Permᴰ (shuffle l) l)
    → length (shuffled shuffle t) ≤ length t
length-shuffled shuffle t p =
    let a = length-perm (Permᴰ.reverse (shuffle (keys t))) in
    let b = length-perm (p (keys t)) in
    let c = length-map (λ (e : NodeId × Member). e.0) t in omega (arith, a, b, c)

-- A fresh shuffle of a well-formed table, whatever the order, probes every member that is not dead,
-- and nobody else, in as many turns as the table has entries, while the table stays as it is.
pub shuffle_probes_all :
    (shuffle : List NodeId → List NodeId) (t : MemberTable) (me : NodeId) (m : Member)
    → ((l : List NodeId) → Permᴰ (shuffle l) l)
    → IsTable me t
    → Elem m (targets (length t) t (shuffled shuffle t))
      ↔ ((lookup m.id t ≡ some m) × (is_dead m.state ≡ false))
shuffle_probes_all shuffle t me m p v =
    let pass : targets (length t) t (shuffled shuffle t) ≡ live_of t (shuffled shuffle t) =
      targets-live_of (length t) t (shuffled shuffle t) (length-shuffled shuffle t p) in
    (
      λ i.
          let (j, e, d) = live_of-Elem t (shuffled shuffle t) m (subst (Elem m) pass i) in
          (ap (λ x. lookup x t) (v.own_key j m e) ∙ e, d),
      λ h. subst (Elem m) (sym pass) (
          Elem-live_of t (shuffled shuffle t) m.id m (Elem-shuffled shuffle t m.id m p h.0) h.0
            h.1),
    )

first_live :
    (t : MemberTable) (order : List NodeId) (m : Member)
    → (pop_live t order).0 ≡ some m
    → Elem m (live_of t order)
first_live t order m e = elim (pop_live-Pops t order) [
  | inl (e', l) ↦ cc (sym e ∙ e')
  | inr (k, e', l, fewer) ↦ rw l (inl (ground (arith, sym e' ∙ e)))
]

none_live :
    (t : MemberTable) (order : List NodeId) → (pop_live t order).0 ≡ none → live_of t order ≡ []
none_live t order e = elim (pop_live-Pops t order) [
  | inl (e', l) ↦ l
  | inr (k, e', l, fewer) ↦ cc (sym e ∙ e')
]

-- From a well-formed table, the next target is an entry that is not dead, and there is none only if
-- all entries are dead.
pub next_target_lem :
    (shuffle shuffle' : List NodeId → List NodeId) (t : MemberTable) (me : NodeId)
    (order : List NodeId)
    → ((l : List NodeId) → Permᴰ (shuffle l) l)
    → IsTable me t
    → ((m : Member)
        → (next_target shuffle shuffle' t order).0 ≡ some m
        → (lookup m.id t ≡ some m) × (is_dead m.state ≡ false))
      × ((next_target shuffle shuffle' t order).0 ≡ none
          → (j : NodeId) (m : Member) → lookup j t ≡ some m
          → is_dead m.state ≡ true)
unfolding next_target
next_target_lem shuffle shuffle' t me order p v = elim (Option-cases (pop_live t order).0) [
  | inr (k, e) ↦ rw (e, next_target) (λ m h. found order m (e ∙ h), λ h. absurd (ground (arith, h)))
  | inl e ↦ elim (Option-cases (pop_live t (shuffled shuffle t)).0) [
    | inr (k, e') ↦
        rw (e, e', next_target)
          (λ m h. found (shuffled shuffle t) m (e' ∙ h), λ h. absurd (ground (arith, h)))
    | inl e' ↦
        rw (e, e', next_target) (λ m h. absurd (ground (arith, h)), λ h j m x. nobody j m x e')
  ]
]
  where
    found :
        (o : List NodeId) (m : Member)
        → (pop_live t o).0 ≡ some m
        → (lookup m.id t ≡ some m) × (is_dead m.state ≡ false)
    found o m h =
        let (j, e, d) = live_of-Elem t o m (first_live t o m h) in
        (ap (λ x. lookup x t) (v.own_key j m e) ∙ e, d)

    nobody :
        (j : NodeId) (m : Member)
        → lookup j t ≡ some m
        → (pop_live t (shuffled shuffle t)).0 ≡ none
        → is_dead m.state ≡ true
    nobody j m x h = elim (Bool-cases (is_dead m.state)) [
      | inl d ↦ d
      | inr d ↦ absurd (
          rw (none_live t (shuffled shuffle t) h) at
            (Elem-live_of t (shuffled shuffle t) j m (Elem-shuffled shuffle t j m p x) x d))
    ]
