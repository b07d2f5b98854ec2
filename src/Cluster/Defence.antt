-- ===== src/Cluster/Defence.antt =====
-- How a doubt about a node is cleared in a cluster.
use dalila.Base.{
  ◌+◌, ◌≡◌, ◌≢◌, ◌≤◌, ◌<◌, sym, ap, ◌∙◌, subst, refl, if◌then◌else◌, false, some, lookup, Elem,
}
use dalila.Member.{Instant, NodeId, Member, u32_max}
use dalila.Wire.{WireMember, WireMemberState}
use dalila.Node.{refute, alive_rumor}
use dalila.Node.Defence.{refute_clears}
use dalila.Node.Steps.{NodeStep, NodeStep-Later}
use dalila.Table.{merge, updated, len}
use dalila.Table.Order.{belief}
use dalila.Gossip.{Pending, apply, retransmit_limit, push}
use dalila.Gossip.News.{Elem-push, apply_doubt, fresh}
use dalila.Cluster.{Cluster, Run, IsStart}
use dalila.Cluster.Moves.{Run-AllAgents, start-AllAgents}
use dalila.Cluster.Runs.{Run-IsConsistent}
use dalila.Cluster.Spread.{nobody_ahead, at_home}

-- Let nodes that have just started, and know nobody, say, hear, check, reap, pack and leave, in any
-- order, any number of times. Let a node that is not leaving hear a doubt about itself below the
-- largest incarnation. Its queue then has, for as many sends as its cluster wants, a rumor that it
-- is alive, at a later incarnation than the doubt; and any other node whose entry for it is no
-- newer than the doubt takes that rumor as an update, and then believes it.
pub doubt_cleared :
    {c d : Cluster} (now later : Instant) (i k : NodeId) (m : Member) (r : WireMember)
    → IsStart c
    → Run c d
    → r.id ≡ i
    → r.state ≢ WireMemberState.alive
    → r.incarnation < u32_max
    → (d.agent i).node.leaving ≡ false
    → i ≢ k
    → lookup i (d.agent k).table ≡ some m
    → m.incarnation ≤ r.incarnation
    → let s = (apply now (d.agent i) r).0 in
      (p : Pending) × Elem p s.queue
      × (p.sends_left ≡ retransmit_limit (len s.table + 1))
      × (p.rumor.state ≡ WireMemberState.alive)
      × (r.incarnation < p.rumor.incarnation)
      × ((merge later (d.agent k).table p.rumor k).1 ≡ updated)
      × (belief (merge later (d.agent k).table p.rumor k).0 i ≡ some p.rumor)
doubt_cleared {d = d} now later i k m r v run about doubt small stays other e older =
    let s = d.agent i in
    let same = (Run-IsConsistent v run).1.own_id i in
    let (named, at, tagged, old, told) = nobody_ahead k i m v run e in
    let n' = (refute s.node r.incarnation).0 in
    let (answer, above, took, believed) =
      refute_clears s.node r.incarnation later (d.agent k).table k m stays small
        (λ h. other (sym same ∙ h)) (ap (λ x. lookup x (d.agent k).table) same ∙ e) older in
    let s' = record s { node = n'; queue = push s.queue (alive_rumor n') (len s.table + 1) } in
    let heard : (apply now s r).0 ≡ s' =
      ap (λ x. x.0) (apply_doubt now s r (about ∙ sym same) doubt)
      ∙ ap (λ b. if b then s else s') stays in
    let all = Run-AllAgents run (start-AllAgents _ v) in
    let l = NodeStep-Later (NodeStep.refutes r.incarnation) (all i).node in
    subst
      (λ x.
        (p : Pending) × Elem p x.queue
        × (p.sends_left ≡ retransmit_limit (len x.table + 1))
        × (p.rumor.state ≡ WireMemberState.alive)
        × (r.incarnation < p.rumor.incarnation)
        × ((merge later (d.agent k).table p.rumor k).1 ≡ updated)
        × (belief (merge later (d.agent k).table p.rumor k).0 i ≡ some p.rumor))
      (sym heard)
      (
        fresh (alive_rumor n') (len s.table + 1),
        Elem-push s.queue (alive_rumor n') (len s.table + 1),
        refl,
        refl,
        above,
        took,
        subst
            (λ x.
              belief (merge later (d.agent k).table (alive_rumor n') k).0 x ≡ some (alive_rumor n'))
            same
            (believed
              ∙ ap some (at_home n' m (named ∙ sym same ∙ sym l.same_id) (at ∙ sym l.same_addr))),
      )
