-- ===== src/Detector/Loop.antt =====
-- src/membership/src/detector.rs, `start_udp_detector`: the loop of the detector, a protocol period at a
-- time.
use dalila.Base.{Bool, List, [], ◌∷◌, none, some, Option}
use dalila.Member.{Instant, NodeId, Member}
use dalila.Gossip.{Agent}
use dalila.Udp.{Peer, Surroundings, probe}
use dalila.Detector.{next_target, handle_result, sweep_suspects, reap_dead}

-- What one period does not decide by itself: the shuffles, the network and the other tasks, and what
-- the clock reads at each step.
pub record Tick : Type 0 where
  pub shuffle : List NodeId → List NodeId
  pub reshuffle : List NodeId → List NodeId
  pub choose : List Member → List Member
  pub net : Surroundings
  pub probed : Instant
  pub swept : Instant
  pub reaped : Instant

-- The state of the loop is the shared state and `order`.
pub record Detector : Type 0 where
  pub peer : Peer
  pub order : List NodeId

abbrev pub judged : Tick → Peer × Bool → Member → Peer
judged t (p, acked) target = record p { agent = handle_result t.probed p.agent target acked }

abbrev pub probed_target : Tick → Peer → Option Member → Peer
probed_target t p none = p
probed_target t p (some target) = judged t (probe t.choose t.net p target) target

abbrev pub reaped_agent : Instant → Agent → Agent
reaped_agent now s = record s { table = reap_dead now s.table }

abbrev pub timed_out : Tick → Peer → Peer
timed_out t p = record p { agent = reaped_agent t.reaped (sweep_suspects t.swept p.agent) }

unfoldable pub tick : Tick → Detector → Detector
tick t d =
    let (target, order) = next_target t.shuffle t.reshuffle d.peer.agent.table d.order in
    record { peer = timed_out t (probed_target t d.peer target); order = order }

-- The loop, for as many periods as are listed.
unfoldable pub periods : List Tick → Detector → Detector
periods [] d = d
periods (t ∷ ts) d = periods ts (tick t d)
