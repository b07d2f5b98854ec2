-- ===== src/Detector/Waiting.antt =====
-- How long the probe rotation takes to come to a member.
use dalila.Base.{
  ℕ, suc, ◌+◌, ◌≤◌, ◌<◌, ◌≡◌, refl, arith, if◌then◌else◌, ◌==◌, Bool-cases, inl, inr, ◌⊎◌, false,
  List, [], ◌∷◌, Elem, lookup, some, none, Option, Permᴰ, length, ==_iff, ==_refl,
}
use dalila.Member.{NodeId, Member, is_dead}
use dalila.Table.{MemberTable}
use dalila.Detector.{pop_live, pop_round, next_target, shuffled}
use dalila.Detector.Rotation.{Elem-shuffled, length-shuffled}

-- How many ids come before `j`, and `n` more if it does not come.
abbrev pub wait : ℕ → NodeId → List NodeId → ℕ
wait n j [] = n
wait n j (id ∷ order) = if id == j then 0 else suc (wait n j order)

pub wait-bound : (n : ℕ) (j : NodeId) (order : List NodeId) → wait n j order ≤ length order + n
wait-bound n j [] = omega arith
wait-bound n j (id ∷ order) = ground (arith, wait-bound n j order)

wait-Elem :
    (n : ℕ) (j : NodeId) (order : List NodeId) → Elem j order → wait n j order < length order
wait-Elem n j [] i = absurd i
wait-Elem n j (id ∷ order) (inl e) = ground (arith, ==_refl j, e)
wait-Elem n j (id ∷ order) (inr i) = ground (arith, wait-Elem n j order i)

-- A pop of an order comes to the member with id `j`, or nearer to it, or the order does not have it.
abbrev Nears : ℕ → NodeId → Member → ℕ → Option Member × List NodeId → Type 0
Nears n j m before (found, left) =
    (found ≡ some m)
    ⊎ (((k : Member) × (found ≡ some k) × (wait n j left < before))
        ⊎ ((found ≡ none) × (n ≤ before)))

Nears-suc :
    (n : ℕ) (j : NodeId) (m : Member) (before : ℕ) (r : Option Member × List NodeId)
    → Nears n j m before r
    → Nears n j m (suc before) r
Nears-suc n j m before r (inl e) = inl e
Nears-suc n j m before r (inr (inl (k, e, less))) = inr (inl (k, e, omega (arith, less)))
Nears-suc n j m before r (inr (inr (e, less))) = inr (inr (e, omega (arith, less)))

Nears-round :
    (n : ℕ) (j : NodeId) (m : Member) (o : Option Member) (order : List NodeId)
    (r : Option Member × List NodeId)
    → Nears n j m (wait n j order) r
    → Nears n j m (suc (wait n j order)) (pop_round o order r)
Nears-round n j m none order r h = Nears-suc n j m (wait n j order) r h
Nears-round n j m (some k) order r h = elim (Bool-cases (is_dead k.state)) [
  | inl d ↦ rw d (Nears-suc n j m (wait n j order) r h)
  | inr d ↦ rw d (inr (inl (k, refl, omega arith)))
]

pop_live-Nears :
    (n : ℕ) (t : MemberTable) (j : NodeId) (m : Member) (order : List NodeId)
    → lookup j t ≡ some m
    → is_dead m.state ≡ false
    → Nears n j m (wait n j order) (pop_live t order)
unfolding pop_live
pop_live-Nears n t j m [] e d = inr (inr (refl, omega arith))
pop_live-Nears n t j m (id ∷ order) e d = elim (Bool-cases (id == j)) [
  | inl h ↦ let here : id ≡ j = (==_iff id j).0 h in rw (h, here, e, d) (inl refl)
  | inr h ↦
      rw h (
        Nears-round n j m (lookup id t) order (pop_live t order) (pop_live-Nears n t j m order e d))
]

-- Let the table have at most `n` entries, that of `j` being not dead. The next target is the member
-- `j`, or it is another and `j` is nearer than before.
pub next_target-Nears :
    (shuffle shuffle' : List NodeId → List NodeId) (n : ℕ) (t : MemberTable) (j : NodeId)
    (m : Member) (order : List NodeId)
    → ((l : List NodeId) → Permᴰ (shuffle l) l)
    → lookup j t ≡ some m
    → is_dead m.state ≡ false
    → length t ≤ n
    → let (found, left) = next_target shuffle shuffle' t order in
      (found ≡ some m) ⊎ ((k : Member) × (found ≡ some k) × (wait n j left < wait n j order))
unfolding next_target
next_target-Nears shuffle shuffle' n t j m order p e d small =
    let fresh = shuffled shuffle t in
    let soon = wait-Elem n j fresh (Elem-shuffled shuffle t j m p e) in
    let long = length-shuffled shuffle t p in
    elim (pop_live-Nears n t j m order e d) [
      | inl hit ↦ rw (hit, next_target) (inl refl)
      | inr (inl (k, hit, less)) ↦ rw (hit, next_target) (inr (k, refl, less))
      | inr (inr (miss, far)) ↦ elim (pop_live-Nears n t j m fresh e d) [
        | inl hit ↦ rw (miss, hit, next_target) (inl refl)
        | inr (inl (k, hit, less)) ↦
            rw (miss, hit, next_target) (inr (k, refl, omega (arith, less, soon, long, small, far)))
        | inr (inr (miss', far')) ↦ absurd (omega (arith, far', soon, long, small))
      ]
    ]
