-- ===== src/Cluster/Handlers.antt =====
-- The handlers of one node as runs of the cluster: what they hear is on its way, and what they
-- send.
use dalila.Base.{
  ℕ, ◌≡◌, refl, sym, ap, ◌∙◌, subst, List, [], ◌∷◌, Elem, Bool-cases, inl, inr, ◌⊎◌, ==_refl,
  map-Elem, take-Elem, Elem-perm, sort-perm, sort, take as list_take,
}
use dalila.Member.{Instant, NodeId, SocketAddr}
use dalila.Wire.{WireMember}
use dalila.Node.{identity}
use dalila.Gossip.{Agent, Pending, GossipQueue, apply, take, max_piggyback, fresher}
use dalila.Udp.{
  UdpBody, ping, ack, ping_req, ping_req_ack, leave, Peer, Surroundings, leave_rumor, apply_all,
  take_gossip, send_udp, handle_datagram, handle_gossip, handle_ping, handle_ack, handle_leave,
}
use dalila.Cluster.{Cluster, set_agent, Says, queued, speaks, hears, packs, Run, here, next}
use dalila.Udp.Handling.{send_udp-agent}
use dalila.Cluster.Moves.{Run-append}

abbrev pub Within : List WireMember → Cluster → Type 0
Within rs c = (r : WireMember) → Elem r rs → Elem r c.air

-- The cluster can go on so that node `i` is as `s`.
pub record Goes (c : Cluster) (i : NodeId) (s : Agent) : Type 0 where
  pub cluster : Cluster
  pub run : Run c cluster
  pub agent : cluster.agent i ≡ s
  pub air : (r : WireMember) → Elem r c.air → Elem r cluster.air

pub Goes-stay : (c : Cluster) (i : NodeId) (s : Agent) → c.agent i ≡ s → Goes c i s
Goes-stay c i s e = record { cluster = c; run = here; agent = e; air = λ r k. k }

abbrev pub Goes-trans :
    {c : Cluster} {i : NodeId} {s s' : Agent} (g : Goes c i s) → Goes g.cluster i s' → Goes c i s'
Goes-trans g h = record {
  cluster = h.cluster;
  run = Run-append g.run h.run;
  agent = h.agent;
  air = λ r k. h.air r (g.air r k);
}

pub hears-Goes :
    (c : Cluster) (i : NodeId) (s : Agent) (now : Instant) (r : WireMember)
    → c.agent i ≡ s
    → Elem r c.air
    → Goes c i (apply now s r).0
hears-Goes c i s now r e heard =
    subst (λ x. Goes c i (apply now x r).0) e
      (record {
        cluster = set_agent c i (apply now (c.agent i) r).0;
        run = next here (hears i now r heard);
        agent = rw (==_refl i);
        air = λ x k. k;
      })

-- A list of rumors, each on its way.
pub apply_all-Goes :
    (c : Cluster) (i : NodeId) (s : Agent) (now : Instant) (rs : List WireMember)
    → c.agent i ≡ s
    → Within rs c
    → Goes c i (apply_all now s rs)
unfolding apply_all
apply_all-Goes c i s now [] e w = Goes-stay c i s e
apply_all-Goes c i s now (r ∷ rs) e w =
    let g = hears-Goes c i s now r e (w r (inl refl)) in
    Goes-trans g
      (apply_all-Goes g.cluster i (apply now s r).0 now rs g.agent (λ x k. g.air x (w x (inr k))))

-- Said by node `i`, a list of rumors is on its way.
pub says-Goes :
    (c : Cluster) (i : NodeId) (s : Agent) (rs : List WireMember)
    → c.agent i ≡ s
    → ((r : WireMember) → Elem r rs → Says s r)
    → (g : Goes c i s) × Within rs g.cluster
says-Goes c i s [] e says = (Goes-stay c i s e, λ r k. absurd k)
says-Goes c i s (r ∷ rs) e says =
    let (g, w) = says-Goes c i s rs e (λ x k. says x (inr k)) in
    let said = subst (λ x. Says x r) (sym g.agent) (says r (inl refl)) in
    (
      record {
        cluster = record (g.cluster) { air = r ∷ g.cluster.air };
        run = next g.run (speaks i r said);
        agent = g.agent;
        air = λ x k. inr (g.air x k);
      },
      λ x. elim [ inl h ↦ inl h | inr k ↦ inr (w x k) ],
    )

take-queued :
    (q : GossipQueue) (r : WireMember)
    → Elem r (take q).1
    → (p : Pending) × Elem p q × (r ≡ p.rumor)
unfolding take
take-queued q r k =
    let (p, i, e) =
      map-Elem (λ (p : Pending). p.rumor) (list_take max_piggyback (sort fresher q)) r k in
    (p, Elem-perm p (sort-perm fresher q) (take-Elem max_piggyback (sort fresher q) p i), sym e)

-- Gossip taken out of the queue is said.
pub take_gossip-Goes :
    (c : Cluster) (i : NodeId) (p : Peer)
    → c.agent i ≡ p.agent
    → (g : Goes c i (take_gossip p).0.agent) × Within (take_gossip p).1 g.cluster
take_gossip-Goes c i p e =
    let (g, w) =
      says-Goes c i p.agent (take p.agent.queue).1 e
        (λ r k. let (x, j, f) = take-queued p.agent.queue r k in queued x j f) in
    let s = g.cluster.agent i in
    (
      record {
        cluster = set_agent g.cluster i (record s { queue = (take s.queue).0 });
        run = next g.run (packs i);
        agent = rw (==_refl i, g.agent);
        air = g.air;
      },
      w,
    )

-- The rumors that a datagram carries.
abbrev pub carried : UdpBody → List WireMember
carried (ping seq from gossip) = gossip
carried (ack seq from gossip) = gossip
carried (ping_req seq from target gossip) = gossip
carried (ping_req_ack seq from target gossip) = gossip
carried (leave from) = leave_rumor from ∷ []

send_udp-sent :
    (net : Surroundings) (p : Peer) (addr : SocketAddr) (body : UdpBody) (to : SocketAddr)
    (b : UdpBody)
    → Elem (to, b) (send_udp net p addr body).0.sent
    → Elem (to, b) p.sent ⊎ (body ≡ b)
send_udp-sent net p addr body to b k = elim (Bool-cases (net.accepts addr body)) [
  | inl h ↦ elim (sent_one (rw h at k)) [ inl e ↦ inr e | inr j ↦ inl j ]
  | inr h ↦ inl (rw h at k)
]
  where
    sent_one : Elem (to, b) ((addr, body) ∷ p.sent) → (body ≡ b) ⊎ Elem (to, b) p.sent
    sent_one (inl e) = inl (ap (λ x. x.1) e)
    sent_one (inr j) = inr j

-- The answer to a ping.
handle_ping-Goes :
    (c : Cluster) (i : NodeId) (net : Surroundings) (p : Peer) (seq : ℕ) (addr : SocketAddr)
    → c.agent i ≡ p.agent
    → (g : Goes c i (handle_ping net p seq addr).agent) × ((to : SocketAddr) (b : UdpBody)
        → Elem (to, b) (handle_ping net p seq addr).sent
        → Elem (to, b) p.sent ⊎ Within (carried b) g.cluster)
unfolding handle_ping
handle_ping-Goes c i net p seq addr e =
    let (g, w) = take_gossip-Goes c i p e in
    let (p', gossip) = take_gossip p in
    let body = ack seq (identity p.agent.node) gossip in
    let g' : Goes c i (send_udp net p' addr body).0.agent = record {
      cluster = g.cluster;
      run = g.run;
      agent = g.agent ∙ sym (send_udp-agent net p' addr body);
      air = g.air;
    } in
    (
      g',
      λ to b k. elim (send_udp-sent net p' addr body to b k) [
        | inl j ↦ inl j
        | inr f ↦ inr (subst (λ x. Within (carried x) g.cluster) f w)
      ],
    )

-- If the rumors of a datagram are on their way in a cluster, then the cluster has a run after which
-- node `i` is as `handle_datagram` leaves it; and the rumors of every datagram that was sent
-- meanwhile are on their way after that run.
pub handle_datagram-Goes :
    (c : Cluster) (i : NodeId) (now : Instant) (net : Surroundings) (p : Peer) (addr : SocketAddr)
    (body : UdpBody)
    → c.agent i ≡ p.agent
    → Within (carried body) c
    → let p' = (handle_datagram now net p addr body).0 in
      (g : Goes c i p'.agent) × ((to : SocketAddr) (b : UdpBody)
        → Elem (to, b) p'.sent
        → Elem (to, b) p.sent ⊎ Within (carried b) g.cluster)
unfolding handle_datagram handle_gossip handle_ack handle_leave
handle_datagram-Goes c i now net p addr (ping seq from gossip) e w =
    let g = apply_all-Goes c i p.agent now gossip e w in
    let (h, sent) =
      handle_ping-Goes g.cluster i net (handle_gossip now p gossip) seq addr g.agent in
    (Goes-trans g h, sent)
handle_datagram-Goes c i now net p addr (ack seq from gossip) e w =
    (apply_all-Goes c i p.agent now gossip e w, λ to b k. inl k)
handle_datagram-Goes c i now net p addr (ping_req seq from target gossip) e w =
    (apply_all-Goes c i p.agent now gossip e w, λ to b k. inl k)
handle_datagram-Goes c i now net p addr (ping_req_ack seq from target gossip) e w =
    (apply_all-Goes c i p.agent now gossip e w, λ to b k. inl k)
handle_datagram-Goes c i now net p addr (leave from) e w = (
  hears-Goes c i p.agent now (leave_rumor from) e (w (leave_rumor from) (inl refl)),
  λ to b k. inl k,
)
