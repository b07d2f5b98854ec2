-- ===== src/Node/Defence.antt =====
-- How a node that is doubted clears itself at a peer, and the one case in which it cannot.
use dalila.Base.{◌≡◌, ◌≤◌, ◌<◌, false, arith, ◌≢◌, some, lookup}
use dalila.Member.{Instant, Incarnation, NodeId, Member, u32_max, superseding}
use dalila.Wire.{to_wire_state}
use dalila.Node.{LocalNode, refute, alive_rumor}
use dalila.Node.Steps.{Reach, Reach-Later}
use dalila.Table.{MemberTable, updated, ignored, merge, rank}
use dalila.Table.Entry.{lookup-merge, merge-outcome_of, outcome_of}
use dalila.Table.Order.{belief, merge_stale}

-- A node that is not leaving answers a rumor about it below the largest incarnation with an
-- incarnation above the rumor's, and its next record of itself is taken, and makes it alive again,
-- at every peer other than itself whose entry for it is no newer than the rumor.
pub refute_clears :
    (n : LocalNode) (rumored : Incarnation) (now : Instant) (t : MemberTable) (peer : NodeId)
    (m : Member)
    → n.leaving ≡ false
    → rumored < u32_max
    → n.id ≢ peer
    → lookup n.id t ≡ some m
    → m.incarnation ≤ rumored
    → let n' = (refute n rumored).0 in
      ((refute n rumored).1 ≡ some n'.incarnation)
      × (rumored < n'.incarnation)
      × ((merge now t (alive_rumor n') peer).1 ≡ updated)
      × (belief (merge now t (alive_rumor n') peer).0 n.id
          ≡ some (record (alive_rumor n') { id = m.id; addr = m.addr }))
unfolding refute superseding
refute_clears n rumored now t peer m stays room other e older =
    let n' = (refute n rumored).0 in
    (
      ground arith,
      ground arith,
      ground (arith, merge-outcome_of now t (alive_rumor n') peer),
      ground (arith, lookup-merge now t (alive_rumor n') peer n.id),
    )

-- At the largest incarnation there is no way back: whatever calls follow, a peer that holds the
-- node as suspect or dead there ignores every record that the node gives of itself.
pub refute_saturated :
    {n n' : LocalNode} (now : Instant) (t : MemberTable) (peer : NodeId) (m : Member)
    → n.incarnation ≤ u32_max
    → Reach n n'
    → n.id ≢ peer
    → lookup n.id t ≡ some m
    → m.incarnation ≡ u32_max
    → 1 ≤ rank (to_wire_state m.state)
    → merge now t (alive_rumor n') peer ≡ (t, ignored)
refute_saturated {n} {n'} now t peer m h r other e top doubted =
    let a = Reach-Later h r in
    let found : lookup n'.id t ≡ some m = rw a.same_id e in
    let stale : outcome_of (alive_rumor n') (lookup n'.id t) ≡ ignored =
      rw found (ground (arith, a.in_range)) in
    ground (arith, merge_stale now t (alive_rumor n') peer stale, a.same_id)
