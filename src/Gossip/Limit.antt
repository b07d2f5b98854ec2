-- ===== src/Gossip/Limit.antt =====
-- `retransmit_limit` is three times the base-2 logarithm of the cluster's size, rounded up.
use dalila.Base.{
  ℕ, zero, suc, ◌+◌, ◌-◌, ◌*◌, ◌/◌, ◌%◌, ◌^◌, ◌≤◌, ◌<◌, ◌≡◌, refl, ap, arith, leb, ◌==◌,
  if◌then◌else◌, Bool-cases, inl, inr, ◌⊎◌, true,
}
use native.Mathlib.Nat.{two-pow-succ}
use dalila.Gossip.{
  log2_from, next_power_of_two, zeros_from, trailing_zeros, retransmit_limit, retransmit_mult,
}

-- The search stops at the first power of two that is large enough.
log2_from_lem :
    (f k n : ℕ)
    → n ≤ 2 ^ (k + f)
    → (k ≡ 0) ⊎ (2 ^ (k - 1) < n)
    → let l = log2_from f k n in (n ≤ 2 ^ l) × (l ≤ k + f) × ((l ≡ 0) ⊎ (2 ^ (l - 1) < n))
unfolding log2_from
log2_from_lem zero k n h low = let e : k + 0 ≡ k = omega arith in (rw e at h, omega arith, low)
log2_from_lem (suc f) k n h low = elim (Bool-cases (leb n (2 ^ k))) [
  | inl here ↦ rw here (ground arith, omega arith, low)
  | inr on ↦
      let e : k + suc f ≡ k + 1 + f = omega arith in
      let e' : k + 1 - 1 ≡ k = omega arith in
      let (a, b, c) = log2_from_lem f (k + 1) n (rw e at h) (inr (rw e' (ground arith))) in
      rw on (a, omega (arith, b), c)
]

zeros_from-pow : (f k : ℕ) → k < f → zeros_from f (2 ^ k) ≡ k
unfolding zeros_from
zeros_from-pow zero k h = absurd (omega arith)
zeros_from-pow (suc f) zero h = refl
zeros_from-pow (suc f) (suc k) h =
    let even : (2 ^ suc k % 2 == 0) ≡ true = ground (arith, two-pow-succ k) in
    let half : 2 ^ suc k / 2 ≡ 2 ^ k = omega (arith, two-pow-succ k) in
    rw (even, half) (ap suc (zeros_from-pow f k (omega arith)))

pow_mono : (a b : ℕ) → a ≤ b → 2 ^ a ≤ 2 ^ b
pow_mono a zero h = let e : a ≡ 0 = omega arith in rw e (omega arith)
pow_mono zero (suc b) h = omega (arith, pow_mono zero b (omega arith), two-pow-succ b)
pow_mono (suc a) (suc b) h =
    omega (arith, pow_mono a b (omega arith), two-pow-succ a, two-pow-succ b)

below_32 : (l n : ℕ) → n ≤ 2 ^ 31 → l ≤ 32 → (l ≡ 0) ⊎ (2 ^ (l - 1) < n) → l ≤ 31
below_32 l n h k (inl e) = omega arith
below_32 l n h k (inr e) = elim (Bool-cases (leb l 31)) [
  | inl small ↦ ground arith
  | inr large ↦ absurd (omega (arith, pow_mono 31 (l - 1) (ground arith)))
]

zeros-next_power_of_two :
    (n : ℕ) → n ≤ 2 ^ 31 → trailing_zeros (next_power_of_two n) ≡ log2_from 32 0 n
unfolding trailing_zeros next_power_of_two
zeros-next_power_of_two n h =
    let l = log2_from 32 0 n in
    let (a, b, c) = log2_from_lem 32 0 n (omega arith) (inl refl) in
    let l_small : l ≤ 31 = below_32 l n h (omega (arith, b)) c in
    let fits : 2 ^ l % 2 ^ 32 ≡ 2 ^ l = omega (arith, pow_mono l 31 l_small) in
    rw fits (zeros_from-pow 32 l (omega arith))

-- For a cluster of at most 2 ^ 31 nodes, a rumor is sent three times as often as the least `k` with
-- `cluster_size ≤ 2 ^ k`, and three times at least.
pub retransmit_limit_lem :
    (cluster_size : ℕ)
    → cluster_size ≤ 2 ^ 31
    → (k : ℕ) × (cluster_size ≤ 2 ^ k)
      × ((k ≡ 0) ⊎ (2 ^ (k - 1) < cluster_size))
      × (retransmit_limit cluster_size ≡ retransmit_mult * (if leb k 1 then 1 else k))
unfolding retransmit_limit
retransmit_limit_lem n h =
    let fits : n % 2 ^ 32 ≡ n = omega arith in
    let (a, b, c) = log2_from_lem 32 0 n (omega arith) (inl refl) in
    (log2_from 32 0 n, a, c, rw (fits, zeros-next_power_of_two n h))

zeros_from-le : (f n : ℕ) → zeros_from f n ≤ f
unfolding zeros_from
zeros_from-le zero n = omega arith
zeros_from-le (suc f) n = ground (arith, zeros_from-le f (n / 2))

trailing_zeros-le : (n : ℕ) → trailing_zeros n ≤ 32
unfolding trailing_zeros
trailing_zeros-le n = zeros_from-le 32 n

thrice :
    (k : ℕ) → k ≤ 32 → let l = retransmit_mult * (if leb k 1 then 1 else k) in (3 ≤ l) × (l ≤ 96)
thrice k h = ground arith

-- The limit is never zero, and never large.
pub retransmit_limit_bounds : (n : ℕ) → (3 ≤ retransmit_limit n) × (retransmit_limit n ≤ 96)
unfolding retransmit_limit
retransmit_limit_bounds n =
    thrice (trailing_zeros (next_power_of_two (n % 2 ^ 32))) (trailing_zeros-le _)
