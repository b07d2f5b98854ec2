-- ===== src/Examples/Clusters.antt =====
-- The theorems on clusters, on three nodes of which the first and the third have heard of the second.
use dalila.Base.{
  ◌≤◌, ◌<◌, ◌≡◌, ◌+◌, ◌⊎◌, refl, true, false, [], ◌∷◌, some, lookup, insert, arith, Elem, inl, inr,
}
use dalila.Member.{SocketAddr, Member, MemberState, is_unspecified, u32_max}
use dalila.Wire.{WireMember, WireMemberState, join_request}
use dalila.Node.{new, identity, alive_rumor, leave as leave_node}
use dalila.Table.{len, merge, updated, ignored}
use dalila.Table.Order.{belief}
use dalila.Table.Convergence.{merge_all}
use dalila.Gossip.{apply, Pending, retransmit_limit}
use dalila.Detector.{mark_rumor}
use dalila.Cluster.News.{same_news}
use dalila.Cluster.Defence.{doubt_cleared}
use dalila.Udp.{UdpBody, leave_rumor, handle_datagram, ping, Peer, Surroundings}
use dalila.Acks.{no_acks}
use dalila.Health.{health_round}
use dalila.Join.{handle_request, sync_opening, handle_sync_reply}
use dalila.Cluster.{
  Cluster, set_agent, own_record, doubt, speaks, hears, leaves, Run, here, next, IsStart,
}
use dalila.Cluster.Moves.{AllAgents, Run-AllAgents, start-AllAgents}
use dalila.Cluster.Spread.{nobody_ahead, health_spreads, leave_spreads, sync_everywhere}
use dalila.Cluster.Handlers.{Goes, Within, carried, handle_datagram-Goes}
use dalila.Cluster.Requests.{told_by, handle_request-Goes}
use dalila.Examples.{host}

abbrev pub start : Cluster
start = record {
  agent = λ i. record { node = new i (host i) [] []; table = []; queue = [] };
  air = [];
}

pub start-IsStart : IsStart start
start-IsStart = record {
  own_id = λ i. refl;
  first = λ i. refl;
  ready = λ i. refl;
  no_table = λ i. refl;
  no_queue = λ i. refl;
  no_air = refl;
}

abbrev pub hello : WireMember
hello = alive_rumor (new 2 (host 2) [] [])

abbrev pub spoken : Cluster
spoken = record (start) { air = hello ∷ [] }

abbrev pub met_once : Cluster
met_once = set_agent spoken 1 (apply 5 (spoken.agent 1) hello).0

abbrev pub met : Cluster
met = set_agent met_once 3 (apply 6 (met_once.agent 3) hello).0

pub start-met : Run start met
start-met =
    next (next (next here (speaks 2 hello (own_record refl))) (hears 1 5 hello (inl refl)))
      (hears 3 6 hello (inl refl))

abbrev pub second : Member
second = record {
  id = 2;
  addr = host 2;
  incarnation = 0;
  state = MemberState.alive;
  ready = true;
  tags = [];
}

nobody_ahead_example :
    (second.id ≡ 2)
    × (second.addr ≡ host 2)
    × (second.tags ≡ [])
    × (second.incarnation ≤ 0)
    × (second.incarnation ≡ 0 → 0 < u32_max → second.ready ≡ true)
unfolding apply merge lookup is_unspecified insert
nobody_ahead_example = nobody_ahead 1 2 second start-IsStart start-met refl

-- The first node then doubts the second.
abbrev suspicion : WireMember
suspicion = mark_rumor second WireMemberState.suspect

abbrev doubted : Cluster
doubted = record (met) { air = suspicion ∷ met.air }

start-doubted : Run start doubted
unfolding apply merge lookup is_unspecified insert
start-doubted =
    next start-met (speaks 1 suspicion (doubt 2 second WireMemberState.suspect refl refl))

on_air :
    (r : WireMember)
    → Elem r (hello ∷ suspicion ∷ [])
    → Elem r doubted.air × (r.incarnation < u32_max)
on_air r (inl e) = (inr (inl e), ground (arith, e))
on_air r (inr (inl e)) = (inl e, ground (arith, e))
on_air r (inr (inr k)) = absurd k

same_news_example :
    belief (merge_all 7 (doubted.agent 1).table (hello ∷ suspicion ∷ []) 1) 2
    ≡ belief (merge_all 9 (doubted.agent 3).table (suspicion ∷ hello ∷ suspicion ∷ []) 3) 2
unfolding apply merge lookup is_unspecified insert
same_news_example =
    same_news 7 9 1 3 2 hello (hello ∷ suspicion ∷ []) (suspicion ∷ hello ∷ suspicion ∷ [])
      start-IsStart start-doubted (omega arith) (omega arith) refl refl on_air
      (λ r. elim [ inl e ↦ inr (inl e) | inr (inl e) ↦ inl e | inr (inr k) ↦ absurd k ])
      (λ r. elim [
        | inl e ↦ inr (inl e)
        | inr (inl e) ↦ inl e
        | inr (inr (inl e)) ↦ inr (inl e)
        | inr (inr (inr k)) ↦ absurd k
      ])

doubt_cleared_example :
    let s = (apply 7 (doubted.agent 2) suspicion).0 in
    (p : Pending) × Elem p s.queue
    × (p.sends_left ≡ retransmit_limit (len s.table + 1))
    × (p.rumor.state ≡ WireMemberState.alive)
    × (0 < p.rumor.incarnation)
    × ((merge 9 (doubted.agent 1).table p.rumor 1).1 ≡ updated)
    × (belief (merge 9 (doubted.agent 1).table p.rumor 1).0 2 ≡ some p.rumor)
unfolding apply merge lookup is_unspecified insert
doubt_cleared_example =
    doubt_cleared 7 9 2 1 second suspicion start-IsStart start-doubted refl (ground arith)
      (omega arith) refl (omega arith) refl (omega arith)

health_spreads_example :
    let s = health_round (met.agent 2) false in
    (s.node.ready ≡ false)
    × (belief (merge 9 (met.agent 1).table (alive_rumor s.node) 1).0 2 ≡ some (alive_rumor s.node))
unfolding apply merge lookup is_unspecified insert
health_spreads_example =
    health_spreads 2 1 false 9 second start-IsStart start-met refl (λ e. ground (arith, e))
      (omega arith) (omega arith) refl

sync_everywhere_example :
    let (b, reply) = handle_request 8 (met.agent 3) (sync_opening (met.agent 1)) in
    let a = handle_sync_reply 9 (met.agent 1) reply in belief a.table 2 ≡ belief b.table 2
unfolding apply merge lookup is_unspecified insert
sync_everywhere_example =
    sync_everywhere 8 9 1 3 2 second second start-IsStart start-met (omega arith) (omega arith) refl
      refl (omega arith)

-- The second node then leaves.
abbrev pub left : Cluster
left = set_agent met 2 (record (met.agent 2) { node = leave_node (met.agent 2).node })

pub start-left : Run start left
start-left = next start-met (leaves 2)

leave_spreads_example :
    let t = (merge 9 (left.agent 1).table (leave_rumor (identity (left.agent 2).node)) 1).0 in
    ((merge 9 (left.agent 1).table (leave_rumor (identity (left.agent 2).node)) 1).1 ≡ updated)
    × (merge 10 t hello 1 ≡ (t, ignored))
unfolding apply merge lookup is_unspecified insert leave_node
leave_spreads_example =
    leave_spreads 2 1 9 10 second hello start-IsStart start-left refl (omega arith) refl
      (omega arith) here (inl refl) refl

Run-AllAgents_example : AllAgents left
Run-AllAgents_example = Run-AllAgents start-left (start-AllAgents start start-IsStart)

abbrev pub quiet : Surroundings
quiet = record { accepts = λ addr body. true; meanwhile = λ p. p }

abbrev pub first_peer : Peer
first_peer = record { agent = met.agent 1; pending = no_acks; sent = [] }

abbrev ping_in : UdpBody
ping_in = ping 4 (identity (met.agent 2).node) (hello ∷ [])

handle_datagram-Goes_example :
    let p' = (handle_datagram 9 quiet first_peer (host 2) ping_in).0 in
    (g : Goes met 1 p'.agent) × ((to : SocketAddr) (b : UdpBody)
      → Elem (to, b) p'.sent
      → Elem (to, b) first_peer.sent ⊎ Within (carried b) g.cluster)
handle_datagram-Goes_example =
    handle_datagram-Goes met 1 9 quiet first_peer (host 2) ping_in refl
      (λ r. elim [ inl e ↦ inl e | inr k ↦ absurd k ])

handle_request-Goes_example :
    let body = join_request (identity (met.agent 2).node) in
    (g : Goes met 1 (handle_request 9 (met.agent 1) body).0) × Within
      (told_by (handle_request 9 (met.agent 1) body).1)
      g.cluster
handle_request-Goes_example =
    handle_request-Goes met 1 9 (met.agent 1) (join_request (identity (met.agent 2).node)) refl
      (Run-AllAgents start-met (start-AllAgents start start-IsStart) 1)
      (λ r. elim [ inl e ↦ inl e | inr k ↦ absurd k ])
