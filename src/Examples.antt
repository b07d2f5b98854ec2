-- ===== src/Examples.antt =====
-- Small concrete states, on which the theorems are tried out: a node with two members in its table,
-- one of which is suspect, and with two rumors to send.
pub mod Membership
pub mod Agents
pub mod Messages
pub mod Cluster
pub mod Clusters
pub mod Bytes
pub mod Connections
pub mod Starting
mod Repairs
pub mod Wires
pub mod Datagrams
pub mod Program
pub mod Periods
use dalila.Base.{
  ℕ, ◌+◌, ◌*◌, ◌^◌, ◌≤◌, ◌<◌, ◌≡◌, refl, true, false, List, [], ◌∷◌, ◌++◌, ◌==◌, if◌then◌else◌,
  none, some, Option, lookup, length, arith, All, Permᴰ,
}
use dalila.Member.{
  NodeId, Instant, IpAddr, v4, SocketAddr, Member, MemberState, u32_max, is_unspecified,
}
use dalila.Wire.{WireMember, WireMemberState, WireIdentity}
use dalila.Node.{LocalNode, new}
use dalila.Table.{MemberTable}
use dalila.Table.Invariant.{IsTable}
use dalila.Gossip.{Pending, GossipQueue, Agent}
use dalila.Gossip.Counts.{IsQueue}
use dalila.Gossip.Apply.{IsAgent}
use dalila.Acks.{PendingAcks, no_acks}
use dalila.Udp.{Peer}

abbrev pub host : ℕ → SocketAddr
host k = record { ip = v4 (10 * 2 ^ 24 + k); port = 7946 }

abbrev pub us : LocalNode
us = new 1 (host 1) [] ((119 ∷ 101 ∷ 98 ∷ []) ∷ [])

abbrev pub member_b : Member
member_b = record {
  id = 2;
  addr = host 2;
  incarnation = 1;
  state = MemberState.alive;
  ready = true;
  tags = [];
}

abbrev pub member_c : Member
member_c = record {
  id = 3;
  addr = host 3;
  incarnation = 4;
  state = MemberState.suspect 1000;
  ready = true;
  tags = [];
}

abbrev pub two_members : MemberTable
two_members = (2, member_b) ∷ (3, member_c) ∷ []

abbrev pub rumor_of : NodeId → ℕ → WireMemberState → WireMember
rumor_of id incarnation state = record {
  id = id;
  addr = host id;
  incarnation = incarnation;
  state = state;
  ready = true;
  tags = [];
}

abbrev pub two_rumors : GossipQueue
two_rumors =
    record { rumor = rumor_of 2 1 WireMemberState.alive; sends_left = 1 }
    ∷ record { rumor = rumor_of 3 4 WireMemberState.suspect; sends_left = 3 }
    ∷ []

abbrev pub agent : Agent
agent = record { node = us; table = two_members; queue = two_rumors }

abbrev pub peer : Peer
peer = record { agent = agent; pending = no_acks; sent = [] }

pub two_members-IsTable : IsTable 1 two_members
unfolding lookup is_unspecified
two_members-IsTable = record {
  distinct = (refl, (refl, tt));
  others = refl;
  own_key = λ j m e. ground (arith, e);
  reachable = λ j m e. ground (arith, e);
}

pub two_rumors-IsQueue : IsQueue two_rumors
two_rumors-IsQueue = record {
  positive = ((omega arith, omega arith), ((omega arith, omega arith), tt));
  single = λ id. ground arith;
}

pub agent-IsAgent : IsAgent agent
agent-IsAgent = record {
  table = two_members-IsTable;
  queue = two_rumors-IsQueue;
  node = omega arith;
}
