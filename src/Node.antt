-- ===== src/Node.antt =====
-- src/membership/src/node.rs, `LocalNode`: what this node says of itself. Incarnation, `leaving` and
-- `ready` are only touched under one lock, so each method is one step on the record.
pub mod Steps
pub mod Defence
use dalila.Base.{
  ℕ, Bool, true, false, List, [], ◌∷◌, none, some, Option, leb, ◌&&◌, ◌||◌, text_eq, if◌then◌else◌,
}
use dalila.Member.{NodeId, Incarnation, Text, SocketAddr, superseding}
use dalila.Wire.{WireIdentity, WireMember, WireMemberState}

-- The bytes that the HMAC was keyed with.
abbrev pub ClusterKey : Type 0
ClusterKey = List ℕ

pub record LocalNode : Type 0 where
  pub id : NodeId
  pub addr : SocketAddr
  pub incarnation : Incarnation
  pub leaving : Bool
  pub ready : Bool
  pub key : ClusterKey
  pub tags : List Text

abbrev pub bool_eq : Bool → Bool → Bool
bool_eq true b = b
bool_eq false true = false
bool_eq false false = true

-- `LocalNode::new`. The id is the random one that `Uuid::new_v4` draws.
abbrev pub new : NodeId → SocketAddr → ClusterKey → List Text → LocalNode
new id addr key tags = record {
  id = id;
  addr = addr;
  incarnation = 0;
  leaving = false;
  ready = true;
  key = key;
  tags = tags;
}

abbrev pub any_tag : Text → List Text → Bool
any_tag tag [] = false
any_tag tag (t ∷ ts) = text_eq t tag || any_tag tag ts

abbrev pub has_tag : LocalNode → Text → Bool
has_tag n tag = any_tag tag n.tags

-- Incarnation and readiness, read under one lock.
abbrev pub current : LocalNode → Incarnation × Bool
current n = (n.incarnation, n.ready)

abbrev pub is_ready : LocalNode → Bool
is_ready n = (current n).1

abbrev pub identity : LocalNode → WireIdentity
identity n = record {
  id = n.id;
  addr = n.addr;
  incarnation = (current n).0;
  ready = (current n).1;
  tags = n.tags;
}

unfoldable pub refute : LocalNode → Incarnation → LocalNode × Option Incarnation
refute n rumored =
    if n.leaving
    then (n, none)
    else (let next = if leb n.incarnation rumored then superseding rumored else n.incarnation in
        (record n { incarnation = next }, some next))

unfoldable pub leave : LocalNode → LocalNode
leave n = record n { leaving = true }

unfoldable pub set_ready : LocalNode → Bool → LocalNode × Bool
set_ready n ready =
    if n.leaving || bool_eq n.ready ready
    then (n, false)
    else (record n { incarnation = superseding n.incarnation; ready = ready }, true)

abbrev pub alive_rumor : LocalNode → WireMember
alive_rumor n = record {
  id = n.id;
  addr = n.addr;
  incarnation = (current n).0;
  state = WireMemberState.alive;
  ready = (current n).1;
  tags = n.tags;
}
