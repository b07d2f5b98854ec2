-- ===== src/Member.antt =====
-- The records of src/membership/src/node.rs that describe a peer: `Incarnation`, `MemberState`,
-- `Member`; and the part of `std::net` that they use. A `Uuid` is read as its 128-bit number, of
-- which the code uses equality only, and a `tokio::time::Instant` as milliseconds.
use dalila.Base.{
  ℕ, ◌+◌, ◌-◌, ◌*◌, ◌^◌, Bool, true, false, List, [], ◌==◌, leb, ltb, ◌&&◌, if◌then◌else◌,
}

abbrev pub NodeId : Type 0
NodeId = ℕ

-- `Incarnation(u32)`.
abbrev pub Incarnation : Type 0
Incarnation = ℕ

abbrev pub Instant : Type 0
Instant = ℕ

-- A string is the list of its code points.
abbrev pub Text : Type 0
Text = List ℕ

abbrev pub u32_max : ℕ
u32_max = 2 ^ 32 - 1

-- `saturating_add(1)`.
unfoldable pub superseding : Incarnation → Incarnation
superseding other = if leb u32_max other then u32_max else other + 1

pub data IpAddr : Type 0 where
  v4 v6 : ℕ → IpAddr

-- A V6 address' flow label and scope are left out: `SocketAddr::new` sets both to 0.
pub record SocketAddr : Type 0 where
  pub ip : IpAddr
  pub port : ℕ

-- `0.0.0.0` and `::`.
unfoldable pub is_unspecified : IpAddr → Bool
is_unspecified (v4 a) = a == 0
is_unspecified (v6 a) = a == 0

-- `127.0.0.0/8` and `::1`.
unfoldable pub is_loopback : IpAddr → Bool
is_loopback (v4 a) = leb (127 * 2 ^ 24) a && ltb a (128 * 2 ^ 24)
is_loopback (v6 a) = a == 1

pub data MemberState : Type 0 where
  alive : MemberState
  suspect : Instant → MemberState
  dead : Instant → MemberState

pub record Member : Type 0 where
  pub id : NodeId
  pub addr : SocketAddr
  pub incarnation : Incarnation
  pub state : MemberState
  pub ready : Bool
  pub tags : List Text

-- `matches!(state, MemberState::Dead { .. })`.
abbrev pub is_dead : MemberState → Bool
is_dead alive = false
is_dead (suspect since) = false
is_dead (dead since) = true

-- `matches!(state, MemberState::Alive)`.
abbrev pub is_alive : MemberState → Bool
is_alive alive = true
is_alive (suspect since) = false
is_alive (dead since) = false

-- `Member::alive`.
unfoldable pub alive_member : NodeId → SocketAddr → Incarnation → Member
alive_member id addr incarnation = record {
  id = id;
  addr = addr;
  incarnation = incarnation;
  state = alive;
  ready = true;
  tags = [];
}
