-- ===== src/Udp/Keeping.antt =====
-- What a probe leaves of the agent: whatever a packet's gossip and the other tasks leave of it.
use dalila.Base.{sym, subst, Bool, true, false, List, [], ◌∷◌, if◌then◌else◌, ℕ}
use dalila.Member.{NodeId, SocketAddr, Member}
use dalila.Node.{identity}
use dalila.Acks.{Channel, register, next_seq}
use dalila.Table.{relay_candidates}
use dalila.Gossip.{Agent}
use dalila.Gossip.Apply.{IsAgent}
use dalila.Udp.{
  Peer, Surroundings, ping, ping_req, take_gossip, send_udp, await, give_up, send_ping, ask_relays,
  send_ping_req, indirect_round, or_else, probe,
}
use dalila.Udp.Handling.{take_gossip-IsAgent, send_udp-agent}
use dalila.Detector.{indirect_probes}

module _ (net : Surroundings) (Q : Agent → Type 0)
    (takes : (p : Peer) → Q p.agent → Q (take_gossip p).0.agent)
    (others : (p : Peer) → Q p.agent → Q (net.meanwhile p).agent) where
  end_keeps :
      (p : Peer) (taken : Bool) (ch : Channel) (seq : ℕ)
      → Q p.agent
      → Q (if taken then await net p ch seq else give_up p seq).0.agent
  end_keeps p true ch seq v = others p v
  end_keeps p false ch seq v = v

  send_ping_keeps :
      (p : Peer) (target : NodeId) (addr : SocketAddr) (seq : ℕ)
      → Q p.agent
      → Q (send_ping net p target addr seq).0.agent
  unfolding send_ping
  send_ping_keeps p target addr seq v =
      let (pending, ch) = register p.pending seq target in
      let (p', gossip) = take_gossip (record p { pending = pending }) in
      let body = ping seq (identity p.agent.node) gossip in
      let (p'', taken) = send_udp net p' addr body in
      end_keeps p'' taken ch seq
        (subst Q (sym (send_udp-agent net p' addr body)) (takes (record p { pending = pending }) v))

  ask_relays_keeps :
      (p : Peer) (target : NodeId) (relays : List Member) (seq : ℕ)
      → Q p.agent
      → Q (ask_relays net p target relays seq).0.agent
  unfolding ask_relays
  ask_relays_keeps p target [] seq v = v
  ask_relays_keeps p target (relay ∷ relays) seq v =
      let (p', gossip) = take_gossip p in
      let body = ping_req seq (identity p.agent.node) target gossip in
      ask_relays_keeps (send_udp net p' relay.addr body).0 target relays seq
        (subst Q (sym (send_udp-agent net p' relay.addr body)) (takes p v))

  req_end_keeps :
      (p : Peer) (none_sent : Bool) (ch : Channel) (seq : ℕ)
      → Q p.agent
      → Q (if none_sent then give_up p seq else await net p ch seq).0.agent
  req_end_keeps p true ch seq v = v
  req_end_keeps p false ch seq v = others p v

  send_ping_req_keeps :
      (p : Peer) (target : NodeId) (relays : List Member) (seq : ℕ)
      → Q p.agent
      → Q (send_ping_req net p target relays seq).0.agent
  unfolding send_ping_req
  send_ping_req_keeps p target relays seq v =
      let (pending, ch) = register p.pending seq target in
      let p' = record p { pending = pending } in
      req_end_keeps (ask_relays net p' target relays seq).0 _ ch seq
        (ask_relays_keeps p' target relays seq v)

  indirect_round_keeps :
      (p : Peer) (target : NodeId) (relays : List Member)
      → Q p.agent
      → Q (indirect_round net p target relays).0.agent
  indirect_round_keeps p target [] v = v
  indirect_round_keeps p target (relay ∷ relays) v =
      let (pending, seq) = next_seq p.pending in
      send_ping_req_keeps (record p { pending = pending }) target (relay ∷ relays) seq v

  or_else_keeps : (a b : Peer × Bool) → Q a.0.agent → Q b.0.agent → Q (or_else a b).0.agent
  or_else_keeps (p, true) b v v' = v
  or_else_keeps (p, false) b v v' = v'

  pub probe_keeps :
      (choose : List Member → List Member) (p : Peer) (target : Member)
      → Q p.agent
      → Q (probe choose net p target).0.agent
  unfolding probe
  probe_keeps choose p target v =
      let (pending, seq) = next_seq p.pending in
      let direct = send_ping net (record p { pending = pending }) target.id target.addr seq in
      let relays = relay_candidates choose (direct.0).agent.table target.id indirect_probes in
      let kept = send_ping_keeps (record p { pending = pending }) target.id target.addr seq v in
      or_else_keeps direct (indirect_round net direct.0 target.id relays) kept
        (indirect_round_keeps direct.0 target.id relays kept)

pub probe-IsAgent :
    (net : Surroundings)
    → ((p : Peer) → IsAgent p.agent → IsAgent (net.meanwhile p).agent)
    → (choose : List Member → List Member) (p : Peer) (target : Member) → IsAgent p.agent
    → IsAgent (probe choose net p target).0.agent
probe-IsAgent net others choose p target v =
    probe_keeps net IsAgent take_gossip-IsAgent others choose p target v
