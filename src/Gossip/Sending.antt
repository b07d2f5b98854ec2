-- ===== src/Gossip/Sending.antt =====
-- `take` against what the queue owes: no send is lost or made up, the freshest news goes first, and
-- a queue that gets no more news is empty after finitely many packets.
use dalila.Base.{
  ℕ, zero, suc, ◌+◌, ◌-◌, ◌≤◌, ◌≡◌, refl, sym, ap, ◌∙◌, arith, ◌==◌, if◌then◌else◌, inl, inr, true,
  List, [], ◌∷◌, ◌++◌, Permᴰ, map, filter, All, length, length-perm, length-take, length-map,
  sort-perm, sort, IsSorted, sort-IsSorted, drop, take as list_take, take-append-drop, min, Elem,
  Elem-All, All-Elem, Elem-perm, sum_by, sum_by-perm, sum_by-append, All-filter, take-Elem,
  drop-Elem, subst,
}
use dalila.Member.{NodeId}
use dalila.Wire.{WireMember}
use dalila.Gossip.{Pending, GossipQueue, take, max_piggyback, fresher, sent_once}
use dalila.Gossip.Counts.{
  budget, entries, sends, total, IsQueue, Good, keep, budget-keep, entries-keep, total-keep,
  budget-sent, entries-sent, total-sent, All-append,
}

abbrev sorted : GossipQueue → GossipQueue
sorted q = sort fresher q

abbrev batch : GossipQueue → GossipQueue
batch q = list_take max_piggyback (sorted q)

abbrev rest : GossipQueue → GossipQueue
rest q = drop max_piggyback (sorted q)

-- A weight of the queue is that of the batch and of the rest.
split_weight :
    (f : Pending → ℕ) (q : GossipQueue) → sum_by f (batch q) + sum_by f (rest q) ≡ sum_by f q
split_weight f q =
    sym (sum_by-append f (batch q) (rest q))
    ∙ ap (sum_by f) (take-append-drop max_piggyback (sorted q))
    ∙ sum_by-perm f (sort-perm fresher q)

All-sorted : (P : Pending → Type 0) (q : GossipQueue) → All P q → All P (sorted q)
All-sorted P q h =
    Elem-All P (sorted q) (λ p i. All-Elem P q p h (Elem-perm p (sort-perm fresher q) i))

All-batch : (P : Pending → Type 0) (q : GossipQueue) → All P q → All P (batch q)
All-batch P q h =
    Elem-All P (batch q)
      (λ p i. All-Elem P (sorted q) p (All-sorted P q h) (take-Elem max_piggyback (sorted q) p i))

All-rest : (P : Pending → Type 0) (q : GossipQueue) → All P q → All P (rest q)
All-rest P q h =
    Elem-All P (rest q)
      (λ p i. All-Elem P (sorted q) p (All-sorted P q h) (drop-Elem max_piggyback (sorted q) p i))

-- Each rumor in the packet has one send less to go, and the others have as many as before.
pub budget-take :
    (id : NodeId) (q : GossipQueue)
    → IsQueue q
    → budget id (take q).0 + sends id (take q).1 ≡ budget id q
unfolding take
budget-take id q v =
    let w : Pending → ℕ = λ p. if p.rumor.id == id then p.sends_left else 0 in
    omega (
      arith,
      budget-keep id (map sent_once (batch q) ++ rest q),
      sum_by-append w (map sent_once (batch q)) (rest q),
      budget-sent id (batch q) (All-batch Good q v.positive),
      split_weight w q,
    )

entries-take : (id : NodeId) (q : GossipQueue) → entries id (take q).0 ≤ entries id q
unfolding take
entries-take id q =
    let w : Pending → ℕ = λ p. if p.rumor.id == id then 1 else 0 in
    omega (
      arith,
      entries-keep id (map sent_once (batch q) ++ rest q),
      sum_by-append w (map sent_once (batch q)) (rest q),
      entries-sent id (batch q),
      split_weight w q,
    )

length-batch : (q : GossipQueue) → length (batch q) ≡ min max_piggyback (length q)
length-batch q =
    length-take max_piggyback (sorted q)
    ∙ ap (min max_piggyback) (length-perm (sort-perm fresher q))

-- A packet carries ten rumors, or all that there are, and as many sends are gone from the queue.
pub total-take :
    (q : GossipQueue)
    → IsQueue q
    → (length (take q).1 ≡ min max_piggyback (length q))
      × (total (take q).0 + length (take q).1 ≡ total q)
unfolding take
total-take q v =
    let w : Pending → ℕ = λ p. p.sends_left in
    let l = length-map (λ (p : Pending). p.rumor) (batch q) in
    (
      l ∙ length-batch q,
      omega (
        arith,
        total-keep (map sent_once (batch q) ++ rest q),
        sum_by-append w (map sent_once (batch q)) (rest q),
        total-sent (batch q) (All-batch Good q v.positive),
        split_weight w q,
        l,
      ),
    )

sent-Good : (q : GossipQueue) → All Good q → All Good (filter keep (map sent_once q))
sent-Good [] h = tt
sent-Good (p ∷ q) h = ground (arith, sent-Good q h.1)

filter-append : (xs ys : GossipQueue) → filter keep (xs ++ ys) ≡ filter keep xs ++ filter keep ys
filter-append [] ys = refl
filter-append (x ∷ xs) ys = ground (arith, filter-append xs ys)

-- `take` keeps a well-formed queue well formed: every entry has sends to go, in the range of a
-- `u32`, and no member has two.
pub take-IsQueue : (q : GossipQueue) → IsQueue q → IsQueue (take q).0
unfolding take
take-IsQueue q v = record {
  positive = subst (All Good) (sym (filter-append (map sent_once (batch q)) (rest q))) (
      All-append Good (filter keep (map sent_once (batch q))) (filter keep (rest q))
        (sent-Good (batch q) (All-batch Good q v.positive))
        (All-filter Good keep (rest q) (All-rest Good q v.positive)));
  single = λ id. omega (arith, entries-take id q, v.single id);
}

sorted-front :
    (n : ℕ) (xs : GossipQueue) (p r : Pending)
    → IsSorted fresher xs
    → Elem p (list_take n xs)
    → Elem r (drop n xs)
    → r.sends_left ≤ p.sends_left
sorted-front zero xs p r s i k = absurd i
sorted-front (suc n) [] p r s i k = absurd i
sorted-front (suc n) (x ∷ xs) p r s (inl e) k =
    let o : fresher x r ≡ true = All-Elem (λ y. fresher x y ≡ true) xs r s.0 (drop-Elem n xs r k) in
    ground arith
sorted-front (suc n) (x ∷ xs) p r s (inr i) k = sorted-front n xs p r s.1 i k

sorted-IsSorted : (q : GossipQueue) → IsSorted fresher (sorted q)
sorted-IsSorted q = sort-IsSorted fresher (λ x y h. ground arith) (λ x y z h k. ground arith) q

-- A packet takes the freshest news: the queue splits into ten entries, or all, that go and the ones
-- that stay, and none that stays has more sends to go than one that goes.
pub take_freshest :
    (q : GossipQueue)
    → (going staying : GossipQueue) × Permᴰ (going ++ staying) q
      × (length going ≡ min max_piggyback (length q))
      × ((take q).1 ≡ map (λ p. p.rumor) going)
      × ((take q).0 ≡ filter keep (map sent_once going ++ staying))
      × ((p r : Pending) → Elem p going → Elem r staying → r.sends_left ≤ p.sends_left)
unfolding take
take_freshest q = (
  batch q,
  rest q,
  subst (λ l. Permᴰ l q) (sym (take-append-drop max_piggyback (sorted q))) (sort-perm fresher q),
  length-batch q,
  refl,
  refl,
  λ p r i k. sorted-front max_piggyback (sorted q) p r (sorted-IsSorted q) i k,
)

-- `n` packets in a row, and all the rumors that they carry.
pub packets : ℕ → GossipQueue → GossipQueue × List WireMember
packets zero q = (q, [])
packets (suc n) q = let (q', out) = packets n (take q).0 in (q', (take q).1 ++ out)

budget-nil : (id : NodeId) (q : GossipQueue) → total q ≡ 0 → budget id q ≡ 0
budget-nil id [] h = refl
budget-nil id (p ∷ q) h = ground (arith, budget-nil id q)

nil_of_total : (q : GossipQueue) → IsQueue q → total q ≡ 0 → q ≡ []
nil_of_total [] v h = refl
nil_of_total (p ∷ q) v h = absurd (omega (arith, v.positive.0.0))

total_falls : (q : GossipQueue) → IsQueue q → total (take q).0 ≤ total q - 1
total_falls [] v = omega (arith, (total-take [] v).1)
total_falls (p ∷ q) v = let (a, b) = total-take (p ∷ q) v in omega (arith, a, b)

-- Gossip ends, and every rumor gets what it is owed: when at least as many packets have left a
-- well-formed queue as there were sends to go, and nothing was pushed meanwhile, the queue is
-- empty, and the rumor about each member was sent exactly as often as it had left.
pub packets_drain :
    (n : ℕ) (q : GossipQueue)
    → IsQueue q
    → total q ≤ n
    → ((packets n q).0 ≡ []) × ((id : NodeId) → sends id (packets n q).1 ≡ budget id q)
unfolding packets
packets_drain zero q v h =
    (nil_of_total q v (omega arith), λ id. sym (budget-nil id q (omega arith)))
packets_drain (suc n) q v h =
    let (done, sent) =
      packets_drain n (take q).0 (take-IsQueue q v) (omega (arith, total_falls q v)) in
    (
      done,
      λ id.
          let w : WireMember → ℕ = λ r. if r.id == id then 1 else 0 in
          omega (
            arith,
            sum_by-append w (take q).1 (packets n (take q).0).1,
            sent id,
            budget-take id q v,
          ),
    )
