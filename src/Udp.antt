-- ===== src/Udp.antt =====
-- src/membership/src/udp.rs: the messages between members, what a node does with each, and the probes.
-- `Peer` is the state that the tasks share, with the datagrams that the socket took; a task's calls
-- between two waits are one step.
pub mod Handling
pub mod Keeping
pub mod Leaving
pub mod Probing
pub mod Receiving
use dalila.Base.{
  ℕ, ◌+◌, Bool, true, false, List, [], ◌∷◌, ◌++◌, ◌==◌, if◌then◌else◌, Option, none, some, not,
  ◌||◌,
}
use dalila.Member.{Instant, NodeId, SocketAddr, Member, is_dead}
use dalila.Wire.{WireIdentity, WireMember, WireMemberState, into_member}
use dalila.Node.{identity}
use dalila.Table.{get, members_where, relay_candidates}
use dalila.Gossip.{Agent, take, apply}
use dalila.Acks.{PendingAcks, Channel, next_seq, register, forget, resolve}
use dalila.Detector.{indirect_probes}

pub data UdpBody : Type 0 where
  ping : ℕ → WireIdentity → List WireMember → UdpBody
  ack : ℕ → WireIdentity → List WireMember → UdpBody
  ping_req : ℕ → WireIdentity → NodeId → List WireMember → UdpBody
  ping_req_ack : ℕ → WireIdentity → NodeId → List WireMember → UdpBody
  leave : WireIdentity → UdpBody

pub record Peer : Type 0 where
  pub agent : Agent
  pub pending : PendingAcks
  pub sent : List (SocketAddr × UdpBody)

-- What the code cannot decide by itself: whether a send succeeds, and what the other tasks do while
-- this one waits for an answer, until it comes or the time is over.
pub record Surroundings : Type 0 where
  pub accepts : SocketAddr → UdpBody → Bool
  pub meanwhile : Peer → Peer

-- The gossip that rides on the next packet is taken out of the queue.
abbrev pub take_gossip : Peer → Peer × List WireMember
take_gossip p =
    let (q, gossip) = take p.agent.queue in
    (record p { agent = record (p.agent) { queue = q } }, gossip)

-- `send_udp`: true if the socket took the datagram.
abbrev pub send_udp : Surroundings → Peer → SocketAddr → UdpBody → Peer × Bool
send_udp net p addr body =
    if net.accepts addr body then (record p { sent = (addr, body) ∷ p.sent }, true) else (p, false)

abbrev pub is_answered : Channel → List Channel → Bool
is_answered ch [] = false
is_answered ch (c ∷ cs) = c == ch || is_answered ch cs

-- Wait for the channel, then drop the probe: the end of `ping` and of `ping_req`.
abbrev pub await : Surroundings → Peer → Channel → ℕ → Peer × Bool
await net p ch seq =
    let p' = net.meanwhile p in
    (record p' { pending = forget p'.pending seq }, is_answered ch p'.pending.answered)

abbrev pub give_up : Peer → ℕ → Peer × Bool
give_up p seq = (record p { pending = forget p.pending seq }, false)

unfoldable pub send_ping : Surroundings → Peer → NodeId → SocketAddr → ℕ → Peer × Bool
send_ping net p target addr seq =
    let (pending, ch) = register p.pending seq target in
    let (p', gossip) = take_gossip (record p { pending = pending }) in
    let (p'', taken) = send_udp net p' addr (ping seq (identity p.agent.node) gossip) in
    if taken then await net p'' ch seq else give_up p'' seq

-- The loop over the relays; each packet takes its own gossip. The number of sends that succeeded.
unfoldable pub ask_relays : Surroundings → Peer → NodeId → List Member → ℕ → Peer × ℕ
ask_relays net p target [] seq = (p, 0)
ask_relays net p target (relay ∷ relays) seq =
    let (p', gossip) = take_gossip p in
    let (p'', taken) =
      send_udp net p' relay.addr (ping_req seq (identity p.agent.node) target gossip) in
    let (p''', count) = ask_relays net p'' target relays seq in
    (p''', if taken then count + 1 else count)

unfoldable pub send_ping_req : Surroundings → Peer → NodeId → List Member → ℕ → Peer × Bool
send_ping_req net p target relays seq =
    let (pending, ch) = register p.pending seq target in
    let (p', count) = ask_relays net (record p { pending = pending }) target relays seq in
    if count == 0 then give_up p' seq else await net p' ch seq

abbrev pub indirect_round : Surroundings → Peer → NodeId → List Member → Peer × Bool
indirect_round net p target [] = (p, false)
indirect_round net p target (relay ∷ relays) =
    let (pending, seq) = next_seq p.pending in
    send_ping_req net (record p { pending = pending }) target (relay ∷ relays) seq

abbrev pub or_else : Peer × Bool → Peer × Bool → Peer × Bool
or_else (p, true) other = (p, true)
or_else (p, false) other = other

-- `probe` of the detector: directly, then through up to three relays.
unfoldable pub probe : (List Member → List Member) → Surroundings → Peer → Member → Peer × Bool
probe shuffle net p target =
    let (pending, seq) = next_seq p.pending in
    let direct = send_ping net (record p { pending = pending }) target.id target.addr seq in
    let relays = relay_candidates shuffle (direct.0).agent.table target.id indirect_probes in
    or_else direct (indirect_round net direct.0 target.id relays)

unfoldable pub handle_ping : Surroundings → Peer → ℕ → SocketAddr → Peer
handle_ping net p seq addr =
    let (p', gossip) = take_gossip p in
    (send_udp net p' addr (ack seq (identity p.agent.node) gossip)).0

abbrev pub relay_report : Surroundings → Peer × Bool → ℕ → NodeId → SocketAddr → Peer
relay_report net (p, false) seq target asker = p
relay_report net (p, true) seq target asker =
    let (p', gossip) = take_gossip p in
    (send_udp net p' asker (ping_req_ack seq (identity p.agent.node) target gossip)).0

abbrev pub relay_to : Surroundings → Peer → ℕ → NodeId → SocketAddr → Option Member → Peer
relay_to net p seq target asker none = p
relay_to net p seq target asker (some m) =
    let (pending, relayed) = next_seq p.pending in
    relay_report net (send_ping net (record p { pending = pending }) target m.addr relayed) seq
      target asker

unfoldable pub handle_ping_req : Surroundings → Peer → ℕ → NodeId → SocketAddr → Peer
handle_ping_req net p seq target asker = relay_to net p seq target asker (get p.agent.table target)

abbrev pub leave_rumor : WireIdentity → WireMember
leave_rumor from = record (into_member from) { state = WireMemberState.dead }

unfoldable pub handle_leave : Instant → Peer → WireIdentity → Peer
handle_leave now p from = record p { agent = (apply now p.agent (leave_rumor from)).0 }

unfoldable pub handle_ack : Peer → ℕ → NodeId → Peer
handle_ack p seq subject = record p { pending = resolve p.pending seq subject }

unfoldable pub apply_all : Instant → Agent → List WireMember → Agent
apply_all now s [] = s
apply_all now s (r ∷ rs) = apply_all now (apply now s r).0 rs

unfoldable pub handle_gossip : Instant → Peer → List WireMember → Peer
handle_gossip now p gossip = record p { agent = apply_all now p.agent gossip }

-- A relayed probe runs as a task of its own: it is asked for here, and `handle_ping_req` is the task.
pub data Task : Type 0 where
  relay_probe : ℕ → NodeId → SocketAddr → Task

-- The match in the receive loop: the new state, and the task that it starts.
unfoldable pub handle_datagram :
    Instant → Surroundings → Peer → SocketAddr → UdpBody → Peer × Option Task
handle_datagram now net p addr (ping seq from gossip) =
    (handle_ping net (handle_gossip now p gossip) seq addr, none)
handle_datagram now net p addr (ack seq from gossip) =
    (handle_ack (handle_gossip now p gossip) seq from.id, none)
handle_datagram now net p addr (ping_req seq from target gossip) =
    (handle_gossip now p gossip, some (relay_probe seq target addr))
handle_datagram now net p addr (ping_req_ack seq from target gossip) =
    (handle_ack (handle_gossip now p gossip) seq target, none)
handle_datagram now net p addr (leave from) = (handle_leave now p from, none)

abbrev pub tell_all : Surroundings → Peer → UdpBody → List Member → Peer × ℕ
tell_all net p body [] = (p, 0)
tell_all net p body (m ∷ ms) =
    let (p', taken) = send_udp net p m.addr body in
    let (p'', told) = tell_all net p' body ms in (p'', if taken then told + 1 else told)

unfoldable pub announce_leave : Surroundings → Peer → Peer × ℕ
announce_leave net p =
    tell_all net p (leave (identity p.agent.node))
      (members_where (λ m. not (is_dead m.state)) p.agent.table)
