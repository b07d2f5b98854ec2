-- ===== src/Gossip.antt =====
-- src/membership/src/dissemination.rs: the rumors that this node still owes the cluster, and `apply`,
-- by which all news enters. `Agent` holds the three handles that the tasks of one process share.
pub mod Counts
pub mod Limit
pub mod Sending
pub mod Apply
pub mod News
use dalila.Base.{
  ℕ, zero, suc, ◌+◌, ◌-◌, ◌*◌, ◌/◌, ◌%◌, ◌^◌, Bool, List, [], ◌∷◌, ◌++◌, map, none, some, Option,
  leb, ltb, ◌==◌, not, if◌then◌else◌, filter, sort, take as list_take, drop,
}
use dalila.Member.{Instant, Incarnation}
use dalila.Node.{LocalNode, refute, alive_rumor}
use dalila.Table.{MemberTable, MergeOutcome, ignored, added, updated, merge, len}
use dalila.Wire.{WireMember}

abbrev pub max_piggyback : ℕ
max_piggyback = 10

abbrev pub retransmit_mult : ℕ
retransmit_mult = 3

pub record Pending : Type 0 where
  pub rumor : WireMember
  pub sends_left : ℕ

abbrev pub GossipQueue : Type 0
GossipQueue = List Pending

-- The least `k` with `n ≤ 2 ^ k`, sought upwards from `k`.
unfoldable pub log2_from : ℕ → ℕ → ℕ → ℕ
log2_from zero k n = k
log2_from (suc f) k n = let rest = log2_from f (k + 1) n in if leb n (2 ^ k) then k else rest

-- `u32::next_power_of_two`; past 2 ^ 31 it wraps around to 0.
unfoldable pub next_power_of_two : ℕ → ℕ
unfolding log2_from
next_power_of_two n = 2 ^ log2_from 32 0 n % 2 ^ 32

unfoldable pub zeros_from : ℕ → ℕ → ℕ
zeros_from zero n = 0
zeros_from (suc f) n = let rest = suc (zeros_from f (n / 2)) in if n % 2 == 0 then rest else 0

-- `u32::trailing_zeros`.
unfoldable pub trailing_zeros : ℕ → ℕ
unfolding zeros_from
trailing_zeros n = zeros_from 32 n

unfoldable pub retransmit_limit : ℕ → ℕ
retransmit_limit cluster_size =
    let log = trailing_zeros (next_power_of_two (cluster_size % 2 ^ 32)) in
    retransmit_mult * (if leb log 1 then 1 else log)

unfoldable pub push : GossipQueue → WireMember → ℕ → GossipQueue
push q rumor cluster_size =
    filter (λ p. not (p.rumor.id == rumor.id)) q
    ++ record { rumor = rumor; sends_left = retransmit_limit cluster_size } ∷ []

-- `sends_left -= 1` on a `u32`.
abbrev pub sent_once : Pending → Pending
sent_once p = record p { sends_left = (p.sends_left + (2 ^ 32 - 1)) % 2 ^ 32 }

-- The order of `sort_by_key` with the key `Reverse(sends_left)`.
abbrev pub fresher : Pending → Pending → Bool
fresher p q = leb q.sends_left p.sends_left

unfoldable pub take : GossipQueue → GossipQueue × List WireMember
take q =
    let sorted = sort fresher q in
    let batch = list_take max_piggyback sorted in
    (
      filter (λ p. ltb 0 p.sends_left) (map sent_once batch ++ drop max_piggyback sorted),
      map (λ p. p.rumor) batch,
    )

pub record Agent : Type 0 where
  pub node : LocalNode
  pub table : MemberTable
  pub queue : GossipQueue

-- The answer to a doubt: our own record, unless we are leaving.
abbrev pub announce : Agent → LocalNode × Option Incarnation → Agent
announce s (n, none) = record s { node = n }
announce s (n, some now) = record s {
  node = n;
  queue = push s.queue (alive_rumor n) (len s.table + 1);
}

-- The `match outcome` of `apply`, in the table that the merge left.
abbrev pub react : Agent → WireMember → MergeOutcome → Agent
react s rumor ignored = s
react s rumor added = record s { queue = push s.queue rumor (len s.table + 1) }
react s rumor updated = record s { queue = push s.queue rumor (len s.table + 1) }
react s rumor (MergeOutcome.refute rumored) = announce s (refute s.node rumored)

unfoldable pub apply : Instant → Agent → WireMember → Agent × MergeOutcome
apply now s rumor =
    let (t, outcome) = merge now s.table rumor s.node.id in
    (react (record s { table = t }) rumor outcome, outcome)
