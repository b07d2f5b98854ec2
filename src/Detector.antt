-- ===== src/Detector.antt =====
-- src/membership/src/detector.rs: which member is probed next, and what becomes of members that do
-- not answer. Times are milliseconds; `now` is what the clock reads when a function runs.
pub mod Rotation
pub mod Timers
pub mod Failure
pub mod Loop
pub mod Accuracy
pub mod Waiting
pub mod Detection
pub mod Death
use dalila.Base.{
  ℕ, ◌-◌, Bool, true, false, List, [], ◌∷◌, map, none, some, Option, leb, not, if◌then◌else◌,
}
use mathlib.Core.List.{reverse}
use dalila.Member.{Instant, NodeId, Member, MemberState, is_dead}
use dalila.Wire.{WireMember, WireMemberState}
use dalila.Table.{MemberTable, MergeOutcome, updated, get, shuffled_ids, members_where, remove_ids}
use dalila.Gossip.{Agent, apply}

abbrev pub probe_interval : ℕ
probe_interval = 1000

abbrev pub suspicion_timeout : ℕ
suspicion_timeout = 5000

abbrev pub reap_timeout : ℕ
reap_timeout = 30000

abbrev pub indirect_probes : ℕ
indirect_probes = 3

-- One round of the `while let` of `next_target`, for the entry found under the popped id.
abbrev pub pop_round :
    Option Member → List NodeId → Option Member × List NodeId → Option Member × List NodeId
pop_round none order rest = rest
pop_round (some m) order rest = if not (is_dead m.state) then (some m, order) else rest

-- The `while let`: pops ids until one is a member that is not dead. The head of the list is the back
-- of the vector.
unfoldable pub pop_live : MemberTable → List NodeId → Option Member × List NodeId
pop_live t [] = (none, [])
pop_live t (id ∷ order) = pop_round (get t id) order (pop_live t order)

abbrev pub shuffled : (List NodeId → List NodeId) → MemberTable → List NodeId
shuffled shuffle t = reverse (shuffled_ids shuffle t)

-- What is left of this shuffle, then one fresh shuffle. The two calls of `shuffle` may differ.
unfoldable pub next_target :
    (List NodeId → List NodeId)
    → (List NodeId → List NodeId)
    → MemberTable
    → List NodeId
    → Option Member × List NodeId
next_target shuffle shuffle' t order =
    let (found, order') = pop_live t order in
    let (found', order'') = pop_live t (shuffled shuffle t) in
    elim found [
      | some m ↦ (some m, order')
      | none ↦ elim found' [ some m ↦ (some m, order'') | none ↦ (none, shuffled shuffle' t) ]
    ]

abbrev pub mark_rumor : Member → WireMemberState → WireMember
mark_rumor m state = record {
  id = m.id;
  addr = m.addr;
  incarnation = m.incarnation;
  state = state;
  ready = m.ready;
  tags = m.tags;
}

abbrev pub is_updated : MergeOutcome → Bool
is_updated updated = true
is_updated _ = false

unfoldable pub mark : Instant → Agent → Member → WireMemberState → Agent × Bool
mark now s m state =
    let (s', outcome) = apply now s (mark_rumor m state) in (s', is_updated outcome)

unfoldable pub handle_result : Instant → Agent → Member → Bool → Agent
handle_result now s target acked =
    if acked then s else (mark now s target WireMemberState.suspect).0

-- `since.elapsed() >= timeout`.
abbrev pub is_over : Instant → Instant → ℕ → Bool
is_over now since timeout = leb timeout (now - since)

abbrev pub suspect_expired : Instant → MemberState → Bool
suspect_expired now (MemberState.suspect since) = is_over now since suspicion_timeout
suspect_expired now MemberState.alive = false
suspect_expired now (MemberState.dead since) = false

abbrev pub dead_expired : Instant → MemberState → Bool
dead_expired now (MemberState.dead since) = is_over now since reap_timeout
dead_expired now MemberState.alive = false
dead_expired now (MemberState.suspect since) = false

unfoldable pub mark_all_dead : Instant → Agent → List Member → Agent
mark_all_dead now s [] = s
mark_all_dead now s (m ∷ ms) = mark_all_dead now (mark now s m WireMemberState.dead).0 ms

unfoldable pub sweep_suspects : Instant → Agent → Agent
sweep_suspects now s =
    mark_all_dead now s (members_where (λ m. suspect_expired now m.state) s.table)

-- The early return on an empty list is the removal of nothing.
unfoldable pub reap_dead : Instant → MemberTable → MemberTable
reap_dead now t = remove_ids t (map (λ m. m.id) (members_where (λ m. dead_expired now m.state) t))
