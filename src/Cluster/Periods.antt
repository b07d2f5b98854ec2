-- ===== src/Cluster/Periods.antt =====
-- The periods of a node's detector as runs of the cluster.
use dalila.Base.{
  ◌≡◌, refl, sym, subst, Bool, true, false, List, [], ◌∷◌, All, Elem, inl, inr, Option, none, some,
  lookup, ==_refl, Permᴰ,
}
use dalila.Member.{Instant, NodeId, Member}
use dalila.Wire.{WireMemberState}
use dalila.Gossip.{Agent}
use dalila.Gossip.Apply.{IsAgent}
use dalila.Udp.{Surroundings, Peer, probe}
use dalila.Detector.{next_target, mark, mark_rumor, handle_result, sweep_suspects}
use dalila.Detector.Rotation.{next_target_lem}
use dalila.Detector.Loop.{Tick, Detector, judged, probed_target, reaped_agent, tick, periods}
use dalila.Cluster.{Cluster, set_agent, doubt, reaps, here, next}
use dalila.Cluster.Moves.{AllAgents, Run-AllAgents}
use dalila.Cluster.Handlers.{Goes, Goes-stay, Goes-trans, hears-Goes, says-Goes}
use dalila.Cluster.Requests.{sweep_suspects-Goes}
use dalila.Cluster.Loops.{Joins}
use dalila.Cluster.Probes.{probe-Goes}

-- A doubt about a member of the table is on its way, and then held against it, or not.
judged-Goes :
    (c : Cluster) (i : NodeId) (t : Tick) (done : Peer × Bool) (target : Member)
    → c.agent i ≡ done.0.agent
    → Elem (mark_rumor target WireMemberState.suspect) c.air
    → Goes c i (judged t done target).agent
unfolding handle_result mark
judged-Goes c i t (p, true) target same heard = Goes-stay c i p.agent same
judged-Goes c i t (p, false) target same heard =
    hears-Goes c i p.agent t.probed (mark_rumor target WireMemberState.suspect) same heard

probed-Goes :
    (c : Cluster) (i : NodeId) (t : Tick) (p : Peer) (o : Option Member)
    → Joins i t.net
    → AllAgents c
    → c.agent i ≡ p.agent
    → ((m : Member) → o ≡ some m → lookup m.id p.agent.table ≡ some m)
    → Goes c i (probed_target t p o).agent
probed-Goes c i t p none joins v same known = Goes-stay c i p.agent same
probed-Goes c i t p (some m) joins v same known =
    let r = mark_rumor m WireMemberState.suspect in
    let (g, w) = says-Goes c i p.agent (r ∷ []) same (λ x. elim [
      | inl e ↦ doubt m.id m WireMemberState.suspect (known m refl) (sym e)
      | inr k ↦ absurd k
    ]) in
    let g' = probe-Goes g.cluster i t.choose t.net p m joins (Run-AllAgents g.run v) g.agent in
    Goes-trans g (
      Goes-trans g' (
        judged-Goes g'.cluster i t (probe t.choose t.net p m) m g'.agent
          (g'.air r (w r (inl refl)))))

reaped-Goes :
    (c : Cluster) (i : NodeId) (now : Instant) (s : Agent)
    → c.agent i ≡ s
    → Goes c i (reaped_agent now s)
reaped-Goes c i now s e =
    subst (λ x. Goes c i (reaped_agent now x)) e
      (record {
        cluster = set_agent c i (reaped_agent now (c.agent i));
        run = next here (reaps i now);
        agent = rw (==_refl i);
        air = λ x k. k;
      })

-- The shuffles of a period are shuffles, and its surroundings are the node's own tasks.
pub record IsTick (i : NodeId) (t : Tick) : Type 0 where
  pub joins : Joins i t.net
  pub shuffles : (l : List NodeId) → Permᴰ (t.shuffle l) l

tick-Goes :
    (c : Cluster) (i : NodeId) (t : Tick) (d : Detector)
    → AllAgents c
    → IsTick i t
    → c.agent i ≡ d.peer.agent
    → Goes c i (tick t d).peer.agent
unfolding tick
tick-Goes c i t d v ticks same =
    let s = d.peer.agent in
    let table = subst IsAgent same (v i) in
    let picked = next_target t.shuffle t.reshuffle s.table d.order in
    let known =
      next_target_lem t.shuffle t.reshuffle s.table s.node.id d.order ticks.shuffles table.table in
    let g = probed-Goes c i t d.peer picked.0 ticks.joins v same (λ m e. (known.0 m e).0) in
    let p = probed_target t d.peer picked.0 in
    let w = subst IsAgent g.agent (Run-AllAgents g.run v i) in
    let g' = sweep_suspects-Goes g.cluster i t.swept p.agent g.agent w in
    Goes-trans g
      (Goes-trans g' (reaped-Goes g'.cluster i t.reaped (sweep_suspects t.swept p.agent) g'.agent))

pub periods-Goes :
    (c : Cluster) (i : NodeId) (ts : List Tick) (d : Detector)
    → AllAgents c
    → All (IsTick i) ts
    → c.agent i ≡ d.peer.agent
    → Goes c i (periods ts d).peer.agent
unfolding periods
periods-Goes c i [] d v all same = Goes-stay c i d.peer.agent same
periods-Goes c i (t ∷ ts) d v (ticks, all) same =
    let g = tick-Goes c i t d v ticks same in
    Goes-trans g (periods-Goes g.cluster i ts (tick t d) (Run-AllAgents g.run v) all g.agent)

-- A detector that runs some periods is among the tasks that another may find at work.
pub periods-Joins :
    (i : NodeId) (net : Surroundings) (ts : List Tick) (order : List NodeId)
    → All (IsTick i) ts
    → ((p : Peer) → net.meanwhile p ≡ (periods ts (record { peer = p; order = order })).peer)
    → Joins i net
periods-Joins i net ts order ticks at_work c p v same =
    subst (λ q. Goes c i q.agent) (sym (at_work p))
      (periods-Goes c i ts (record { peer = p; order = order }) v ticks same)
