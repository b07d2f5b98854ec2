-- ===== src/Udp/Handling.antt =====
-- What the receive loop does with a datagram.
use dalila.Base.{
  ℕ, ◌<◌, ◌≡◌, ◌≢◌, sym, ap, ◌∙◌, true, false, List, [], ◌∷◌, arith, Elem, inl, subst,
}
use dalila.Member.{Instant, SocketAddr, u32_max, superseding}
use dalila.Wire.{WireIdentity, WireMember, WireMemberState}
use dalila.Node.{LocalNode, refute, identity}
use dalila.Gossip.{Agent, take, apply}
use dalila.Gossip.Apply.{IsAgent, apply-IsAgent}
use dalila.Gossip.News.{apply_doubt}
use dalila.Gossip.Sending.{take-IsQueue}
use dalila.Udp.{
  Peer, Surroundings, UdpBody, ping, ack, ping_req, ping_req_ack, leave, take_gossip, send_udp,
  handle_ping, handle_leave, handle_ack, apply_all, handle_gossip, handle_datagram, leave_rumor,
}

pub apply_all-IsAgent :
    (now : Instant) (s : Agent) (rs : List WireMember) → IsAgent s → IsAgent (apply_all now s rs)
unfolding apply_all
apply_all-IsAgent now s [] v = v
apply_all-IsAgent now s (r ∷ rs) v =
    apply_all-IsAgent now (apply now s r).0 rs (apply-IsAgent now s r v)

pub send_udp-agent :
    (net : Surroundings) (p : Peer) (addr : SocketAddr) (body : UdpBody)
    → (send_udp net p addr body).0.agent ≡ p.agent
send_udp-agent net p addr body = ground arith

pub take_gossip-IsAgent : (p : Peer) → IsAgent p.agent → IsAgent (take_gossip p).0.agent
take_gossip-IsAgent p v = record {
  table = v.table;
  queue = take-IsQueue p.agent.queue v.queue;
  node = v.node;
}

handle_ping-IsAgent :
    (net : Surroundings) (p : Peer) (seq : ℕ) (addr : SocketAddr)
    → IsAgent p.agent
    → IsAgent (handle_ping net p seq addr).agent
unfolding handle_ping
handle_ping-IsAgent net p seq addr v =
    let (p', gossip) = take_gossip p in
    subst IsAgent (sym (send_udp-agent net p' addr (ack seq (identity p.agent.node) gossip)))
      (take_gossip-IsAgent p v)

-- Any datagram, from anyone, leaves a well-formed agent's node, table and queue well formed.
pub handle_datagram-IsAgent :
    (now : Instant) (net : Surroundings) (p : Peer) (addr : SocketAddr) (body : UdpBody)
    → IsAgent p.agent
    → IsAgent (handle_datagram now net p addr body).0.agent
unfolding handle_datagram handle_gossip handle_ack handle_leave
handle_datagram-IsAgent now net p addr (ping seq from gossip) v =
    handle_ping-IsAgent net (handle_gossip now p gossip) seq addr
      (apply_all-IsAgent now p.agent gossip v)
handle_datagram-IsAgent now net p addr (ack seq from gossip) v =
    apply_all-IsAgent now p.agent gossip v
handle_datagram-IsAgent now net p addr (ping_req seq from target gossip) v =
    apply_all-IsAgent now p.agent gossip v
handle_datagram-IsAgent now net p addr (ping_req_ack seq from target gossip) v =
    apply_all-IsAgent now p.agent gossip v
handle_datagram-IsAgent now net p addr (leave from) v =
    apply-IsAgent now p.agent (leave_rumor from) v

refute_above :
    (n : LocalNode) (i : ℕ) → n.leaving ≡ false → i < u32_max → i < (refute n i).0.incarnation
unfolding refute superseding
refute_above n i stays room = ground arith

-- Let the node not be leaving and the socket take every datagram. A ping that carries a doubt about
-- this node, below the largest incarnation, is answered, at the address that it came from, by an
-- ack in which the node has already raised itself above the doubt.
pub ping_doubt_ack :
    (now : Instant) (net : Surroundings) (p : Peer) (addr : SocketAddr) (seq : ℕ)
    (from : WireIdentity) (r : WireMember)
    → r.id ≡ p.agent.node.id
    → r.state ≢ WireMemberState.alive
    → p.agent.node.leaving ≡ false
    → r.incarnation < u32_max
    → ((a : SocketAddr) (body : UdpBody) → net.accepts a body ≡ true)
    → let n' = (refute p.agent.node r.incarnation).0 in
      (r.incarnation < n'.incarnation)
      × ((gossip : List WireMember) × Elem
            (addr, ack seq (identity n') gossip)
            (handle_datagram now net p addr (ping seq from (r ∷ []))).0.sent)
unfolding handle_datagram handle_gossip handle_ping apply_all
ping_doubt_ack now net p addr seq from r own doubt stays room ok =
    let s' = (apply now p.agent r).0 in
    let gossip = (take s'.queue).1 in
    let raised : s'.node ≡ (refute p.agent.node r.incarnation).0 =
      ap (λ x. x.0.node) (apply_doubt now p.agent r own doubt) ∙ rw stays in
    (
      refute_above p.agent.node r.incarnation stays room,
      (
        gossip,
        rw (ok addr (ack seq (identity s'.node) gossip))
            (inl (ap (λ n. (addr, ack seq (identity n) gossip)) raised)),
      ),
    )
