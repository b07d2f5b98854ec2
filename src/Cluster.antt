-- ===== src/Cluster.antt =====
-- Several nodes at once: what one says, any other may hear, in any order, often or never, as datagrams
-- and connections have it. A node that is restarted is a new node: `LocalNode::new` draws a new id.
pub mod Facts
pub mod Consistency
pub mod Runs
pub mod Moves
pub mod Spread
pub mod Defence
pub mod News
pub mod Handlers
pub mod Requests
pub mod Wire
pub mod Loops
pub mod Probes
pub mod Periods
use dalila.Base.{ℕ, ◌≡◌, Bool, List, [], ◌∷◌, some, Option, ◌==◌, if◌then◌else◌, lookup, Elem, true}
use dalila.Member.{Instant, NodeId, Member}
use dalila.Wire.{WireMember, WireMemberState, to_wire}
use dalila.Node.{LocalNode, identity, alive_rumor, leave as leave_node}
use dalila.Gossip.{Agent, Pending, apply, take}
use dalila.Detector.{mark_rumor, reap_dead}
use dalila.Udp.{leave_rumor}
use dalila.Health.{health_round}

-- The process with each id, and every rumor that was ever on its way.
pub record Cluster : Type 0 where
  pub agent : NodeId → Agent
  pub air : List WireMember

abbrev pub set_agent : Cluster → NodeId → Agent → Cluster
set_agent c i s = record c { agent = λ j. if j == i then s else c.agent j }

-- What a node may say: its own record, also as a leave; what it has in its table, as it stands there
-- or with a doubt about it, such as the detector's; and what is in its queue.
pub data Says (s : Agent) (r : WireMember) : Type 0 where
  own_record : r ≡ alive_rumor s.node → Says s r
  own_leave : s.node.leaving ≡ true → r ≡ leave_rumor (identity s.node) → Says s r
  entry : (j : NodeId) (m : Member) → lookup j s.table ≡ some m → r ≡ to_wire m → Says s r
  doubt :
      (j : NodeId) (m : Member) (state : WireMemberState)
      → lookup j s.table ≡ some m
      → r ≡ mark_rumor m state
      → Says s r
  queued : (p : Pending) → Elem p s.queue → r ≡ p.rumor → Says s r

-- One step of one node.
pub data Step (c : Cluster) : Cluster → Type 0 where
  speaks :
      (i : NodeId) (r : WireMember) → Says (c.agent i) r → Step c (record c { air = r ∷ c.air })
  hears :
      (i : NodeId) (now : Instant) (r : WireMember)
      → Elem r c.air
      → Step c (set_agent c i (apply now (c.agent i) r).0)
  packs :
      (i : NodeId)
      → Step c (set_agent c i (record (c.agent i) { queue = (take (c.agent i).queue).0 }))
  reaps :
      (i : NodeId) (now : Instant)
      → Step c (set_agent c i (record (c.agent i) { table = reap_dead now (c.agent i).table }))
  checks : (i : NodeId) (answers : Bool) → Step c (set_agent c i (health_round (c.agent i) answers))
  leaves :
      (i : NodeId)
      → Step c (set_agent c i (record (c.agent i) { node = leave_node (c.agent i).node }))

pub data Run (c : Cluster) : Cluster → Type 0 where
  here : Run c c
  next : {d e : Cluster} → Run c d → Step d e → Run c e

-- Nodes that have just started, and know nobody.
pub record IsStart (c : Cluster) : Type 0 where
  pub own_id : (i : NodeId) → (c.agent i).node.id ≡ i
  pub first : (i : NodeId) → (c.agent i).node.incarnation ≡ 0
  pub ready : (i : NodeId) → (c.agent i).node.ready ≡ true
  pub no_table : (i : NodeId) → (c.agent i).table ≡ []
  pub no_queue : (i : NodeId) → (c.agent i).queue ≡ []
  pub no_air : c.air ≡ []
