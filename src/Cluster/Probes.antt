-- ===== src/Cluster/Probes.antt =====
-- A node's probes, for itself and for others, as runs of the cluster.
use dalila.Base.{
  ℕ, ◌≡◌, sym, ◌∙◌, Bool, true, false, List, [], ◌∷◌, ◌==◌, Bool-cases, inl, inr, Option, none,
  some, if◌then◌else◌,
}
use dalila.Member.{NodeId, SocketAddr, Member}
use dalila.Wire.{WireMember}
use dalila.Node.{identity}
use dalila.Acks.{Channel, next_seq, register}
use dalila.Table.{get, relay_candidates}
use dalila.Udp.{
  Peer, Surroundings, UdpBody, ping, ping_req, ping_req_ack, take_gossip, send_udp, await, give_up,
  send_ping, ask_relays, send_ping_req, indirect_round, or_else, probe, relay_report, relay_to,
  handle_ping_req,
}
use dalila.Udp.Handling.{send_udp-agent}
use dalila.Detector.{indirect_probes}
use dalila.Cluster.{Cluster}
use dalila.Cluster.Handlers.{Goes, Goes-stay, Goes-trans, take_gossip-Goes}
use dalila.Cluster.Moves.{AllAgents, Run-AllAgents}
use dalila.Cluster.Loops.{Joins}

waited-Goes :
    (c : Cluster) (i : NodeId) (net : Surroundings) (p : Peer) (ch : Channel) (seq : ℕ)
    (waits : Bool)
    → Joins i net
    → AllAgents c
    → c.agent i ≡ p.agent
    → Goes c i (if waits then await net p ch seq else give_up p seq).0.agent
waited-Goes c i net p ch seq true joins v same = joins c p v same
waited-Goes c i net p ch seq false joins v same = Goes-stay c i p.agent same

-- A datagram with the gossip that is due.
told-Goes :
    (c : Cluster) (i : NodeId) (net : Surroundings) (p : Peer) (addr : SocketAddr)
    (body : List WireMember → UdpBody)
    → c.agent i ≡ p.agent
    → Goes c i (send_udp net (take_gossip p).0 addr (body (take_gossip p).1)).0.agent
told-Goes c i net p addr body same =
    let (g, w) = take_gossip-Goes c i p same in
    let (p', gossip) = take_gossip p in
    Goes-trans g
      (Goes-stay g.cluster i _ (g.agent ∙ sym (send_udp-agent net p' addr (body gossip))))

send_ping-Goes :
    (c : Cluster) (i : NodeId) (net : Surroundings) (p : Peer) (target : NodeId) (addr : SocketAddr)
    (seq : ℕ)
    → Joins i net
    → AllAgents c
    → c.agent i ≡ p.agent
    → Goes c i (send_ping net p target addr seq).0.agent
unfolding send_ping
send_ping-Goes c i net p target addr seq joins v same =
    let (pending, ch) = register p.pending seq target in
    let body = ping seq (identity p.agent.node) in
    let g = told-Goes c i net (record p { pending = pending }) addr body same in
    let (p', gossip) = take_gossip (record p { pending = pending }) in
    let (p'', taken) = send_udp net p' addr (body gossip) in
    Goes-trans g
      (waited-Goes g.cluster i net p'' ch seq taken joins (Run-AllAgents g.run v) g.agent)

ask_relays-Goes :
    (c : Cluster) (i : NodeId) (net : Surroundings) (p : Peer) (target : NodeId)
    (relays : List Member) (seq : ℕ)
    → c.agent i ≡ p.agent
    → Goes c i (ask_relays net p target relays seq).0.agent
unfolding ask_relays
ask_relays-Goes c i net p target [] seq same = Goes-stay c i p.agent same
ask_relays-Goes c i net p target (relay ∷ relays) seq same =
    let body = ping_req seq (identity p.agent.node) target in
    let g = told-Goes c i net p relay.addr body same in
    let (p', gossip) = take_gossip p in
    let (p'', taken) = send_udp net p' relay.addr (body gossip) in
    Goes-trans g (ask_relays-Goes g.cluster i net p'' target relays seq g.agent)

indirect-Goes :
    (c : Cluster) (i : NodeId) (net : Surroundings) (p : Peer) (target : NodeId)
    (relays : List Member)
    → Joins i net
    → AllAgents c
    → c.agent i ≡ p.agent
    → Goes c i (indirect_round net p target relays).0.agent
unfolding send_ping_req
indirect-Goes c i net p target [] joins v same = Goes-stay c i p.agent same
indirect-Goes c i net p target (relay ∷ relays) joins v same =
    let (pending, seq) = next_seq p.pending in
    let (pending', ch) = register pending seq target in
    let asked = ask_relays net (record p { pending = pending' }) target (relay ∷ relays) seq in
    let g =
      ask_relays-Goes c i net (record p { pending = pending' }) target (relay ∷ relays) seq same in
    Goes-trans g (elim (Bool-cases (asked.1 == 0)) [
      | inl e ↦ rw e (Goes-stay g.cluster i asked.0.agent g.agent)
      | inr e ↦ rw e (joins g.cluster asked.0 (Run-AllAgents g.run v) g.agent)
    ])

or_else-Goes :
    (c : Cluster) (i : NodeId) (direct other : Peer × Bool)
    → c.agent i ≡ direct.0.agent
    → Goes c i other.0.agent
    → Goes c i (or_else direct other).0.agent
or_else-Goes c i (p, true) other same g = Goes-stay c i p.agent same
or_else-Goes c i (p, false) other same g = g

pub probe-Goes :
    (c : Cluster) (i : NodeId) (choose : List Member → List Member) (net : Surroundings) (p : Peer)
    (m : Member)
    → Joins i net
    → AllAgents c
    → c.agent i ≡ p.agent
    → Goes c i (probe choose net p m).0.agent
unfolding probe
probe-Goes c i choose net p m joins v same =
    let (pending, seq) = next_seq p.pending in
    let g = send_ping-Goes c i net (record p { pending = pending }) m.id m.addr seq joins v same in
    let direct = send_ping net (record p { pending = pending }) m.id m.addr seq in
    let relays = relay_candidates choose (direct.0).agent.table m.id indirect_probes in
    Goes-trans g (
      or_else-Goes g.cluster i direct _ g.agent
        (indirect-Goes g.cluster i net direct.0 m.id relays joins (Run-AllAgents g.run v) g.agent))

reported-Goes :
    (c : Cluster) (i : NodeId) (net : Surroundings) (done : Peer × Bool) (seq : ℕ) (target : NodeId)
    (asker : SocketAddr)
    → c.agent i ≡ done.0.agent
    → Goes c i (relay_report net done seq target asker).agent
reported-Goes c i net (p, false) seq target asker same = Goes-stay c i p.agent same
reported-Goes c i net (p, true) seq target asker same =
    told-Goes c i net p asker (ping_req_ack seq (identity p.agent.node) target) same

relayed-Goes :
    (c : Cluster) (i : NodeId) (net : Surroundings) (p : Peer) (seq : ℕ) (target : NodeId)
    (asker : SocketAddr) (o : Option Member)
    → Joins i net
    → AllAgents c
    → c.agent i ≡ p.agent
    → Goes c i (relay_to net p seq target asker o).agent
relayed-Goes c i net p seq target asker none joins v same = Goes-stay c i p.agent same
relayed-Goes c i net p seq target asker (some m) joins v same =
    let (pending, relayed) = next_seq p.pending in
    let g =
      send_ping-Goes c i net (record p { pending = pending }) target m.addr relayed joins v same in
    let done = send_ping net (record p { pending = pending }) target m.addr relayed in
    Goes-trans g (reported-Goes g.cluster i net done seq target asker g.agent)

-- A relayed probe, the task that a receive loop starts, is a run of the cluster.
pub handle_ping_req-Goes :
    (c : Cluster) (i : NodeId) (net : Surroundings) (p : Peer) (seq : ℕ) (target : NodeId)
    (asker : SocketAddr)
    → Joins i net
    → AllAgents c
    → c.agent i ≡ p.agent
    → Goes c i (handle_ping_req net p seq target asker).agent
unfolding handle_ping_req
handle_ping_req-Goes c i net p seq target asker joins v same =
    relayed-Goes c i net p seq target asker (get p.agent.table target) joins v same
