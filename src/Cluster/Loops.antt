-- ===== src/Cluster/Loops.antt =====
-- The receive loop of a node, and the loop of its detector, as runs of the cluster.
use dalila.Base.{◌≡◌, take, ok}
use dalila.Member.{NodeId}
use dalila.Node.{ClusterKey}
use dalila.Auth.{Hmac}
use dalila.Codec.{Codec, decode_payload}
use dalila.Udp.{Peer, Surroundings, UdpBody}
use dalila.Udp.Receiving.{Received, failed, datagram, max_datagram_len}
use dalila.Cluster.{Cluster}
use dalila.Cluster.Moves.{AllAgents}
use dalila.Cluster.Handlers.{Goes, Within, carried}

-- What the other tasks of node `i` do is itself what the node may do.
abbrev pub Joins : NodeId → Surroundings → Type 0
Joins i net =
    (c : Cluster) (p : Peer) → AllAgents c → c.agent i ≡ p.agent → Goes c i (net.meanwhile p).agent

module _ (h : Hmac) (codec : Codec UdpBody) (key : ClusterKey) where
  -- Whatever this key lets through is on its way.
  abbrev pub Heard : Cluster → Received → Type 0
  Heard c failed = Unit
  Heard c (datagram addr bytes) =
      (body : UdpBody)
      → decode_payload h codec key (take max_datagram_len bytes) ≡ ok body
      → Within (carried body) c
