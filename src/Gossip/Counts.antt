-- ===== src/Gossip/Counts.antt =====
-- What the queue owes: how many sends each member's rumor has left, and how `push` and `take` change
-- that.
use dalila.Base.{
  ℕ, ◌+◌, ◌^◌, ◌≤◌, ◌<◌, ◌≡◌, refl, arith, ltb, ◌==◌, not, if◌then◌else◌, Bool, List, [], ◌∷◌, ◌++◌,
  map, filter, All, length, All-filter, sum_by, sum_by-append,
}
use dalila.Member.{NodeId}
use dalila.Wire.{WireMember}
use dalila.Gossip.{Pending, GossipQueue, push, retransmit_limit, sent_once}
use dalila.Gossip.Limit.{retransmit_limit_bounds}

-- How often the rumor about `id` is still to be sent, and how many entries are about `id`.
abbrev pub budget : NodeId → GossipQueue → ℕ
budget id = sum_by (λ p. if p.rumor.id == id then p.sends_left else 0)

abbrev pub entries : NodeId → GossipQueue → ℕ
entries id = sum_by (λ p. if p.rumor.id == id then 1 else 0)

-- How many of these rumors are about `id`.
abbrev pub sends : NodeId → List WireMember → ℕ
sends id = sum_by (λ r. if r.id == id then 1 else 0)

-- All that is still to be sent.
abbrev pub total : GossipQueue → ℕ
total = sum_by (λ p. p.sends_left)

-- No entry has run out, and no member has two.
pub record IsQueue (q : GossipQueue) : Type 0 where
  pub positive : All (λ p. (0 < p.sends_left) × (p.sends_left < 2 ^ 32)) q
  pub single : (id : NodeId) → entries id q ≤ 1

budget-others :
    (id k : NodeId) (q : GossipQueue)
    → budget id (filter (λ p. not (p.rumor.id == k)) q) ≡ (if k == id then 0 else budget id q)
budget-others id k [] = ground arith
budget-others id k (p ∷ q) = ground (arith, budget-others id k q)

entries-others :
    (id k : NodeId) (q : GossipQueue)
    → entries id (filter (λ p. not (p.rumor.id == k)) q) ≡ (if k == id then 0 else entries id q)
entries-others id k [] = ground arith
entries-others id k (p ∷ q) = ground (arith, entries-others id k q)

pub All-append :
    (P : Pending → Type 0) (xs ys : GossipQueue) → All P xs → All P ys → All P (xs ++ ys)
All-append P [] ys h k = k
All-append P (x ∷ xs) ys h k = (h.0, All-append P xs ys h.1 k)

-- A pushed rumor has the full number of sends to go, an older one about the same member is gone,
-- and nothing changes for the others.
pub budget-push :
    (id : NodeId) (q : GossipQueue) (r : WireMember) (n : ℕ)
    → budget id (push q r n) ≡ (if r.id == id then retransmit_limit n else budget id q)
unfolding push
budget-push id q r n = ground (
  arith,
  sum_by-append (λ p. if p.rumor.id == id then p.sends_left else 0)
      (filter (λ p. not (p.rumor.id == r.id)) q)
      (record { rumor = r; sends_left = retransmit_limit n } ∷ []),
  budget-others id r.id q,
)

entries-push :
    (id : NodeId) (q : GossipQueue) (r : WireMember) (n : ℕ)
    → entries id (push q r n) ≡ (if r.id == id then 1 else entries id q)
unfolding push
entries-push id q r n = ground (
  arith,
  sum_by-append (λ p. if p.rumor.id == id then 1 else 0) (filter (λ p. not (p.rumor.id == r.id)) q)
      (record { rumor = r; sends_left = retransmit_limit n } ∷ []),
  entries-others id r.id q,
)

-- `push` keeps at most one rumor about each member, and none without sends.
pub push-IsQueue : (q : GossipQueue) (r : WireMember) (n : ℕ) → IsQueue q → IsQueue (push q r n)
unfolding push
push-IsQueue q r n v = record {
  positive =
      All-append (λ p. (0 < p.sends_left) × (p.sends_left < 2 ^ 32)) _ _
        (All-filter (λ p. (0 < p.sends_left) × (p.sends_left < 2 ^ 32))
          (λ p. not (p.rumor.id == r.id)) q v.positive)
        (omega (arith, retransmit_limit_bounds n), tt);
  single = λ id. ground (arith, entries-push id q r n, v.single id);
}

abbrev pub keep : Pending → Bool
keep p = ltb 0 p.sends_left

pub budget-keep : (id : NodeId) (q : GossipQueue) → budget id (filter keep q) ≡ budget id q
budget-keep id [] = refl
budget-keep id (p ∷ q) = ground (arith, budget-keep id q)

pub entries-keep : (id : NodeId) (q : GossipQueue) → entries id (filter keep q) ≤ entries id q
entries-keep id [] = omega arith
entries-keep id (p ∷ q) = ground (arith, entries-keep id q)

pub total-keep : (q : GossipQueue) → total (filter keep q) ≡ total q
total-keep [] = refl
total-keep (p ∷ q) = ground (arith, total-keep q)

abbrev pub Good : Pending → Type 0
Good p = (0 < p.sends_left) × (p.sends_left < 2 ^ 32)

pub budget-sent :
    (id : NodeId) (q : GossipQueue)
    → All Good q
    → budget id (map sent_once q) + sends id (map (λ p. p.rumor) q) ≡ budget id q
budget-sent id [] h = refl
budget-sent id (p ∷ q) h = ground (arith, budget-sent id q h.1)

pub entries-sent : (id : NodeId) (q : GossipQueue) → entries id (map sent_once q) ≡ entries id q
entries-sent id [] = refl
entries-sent id (p ∷ q) = omega (arith, entries-sent id q)

pub total-sent : (q : GossipQueue) → All Good q → total (map sent_once q) + length q ≡ total q
total-sent [] h = omega arith
total-sent (p ∷ q) h = omega (arith, total-sent q h.1)
