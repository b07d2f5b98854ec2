-- ===== src/Wire.antt =====
-- src/membership/src/wire.rs: what members say of themselves and of one another, the conversions
-- between a rumor and a table entry, and the limits on tags.
pub mod Tags
use dalila.Base.{
  ℕ, [], ◌∷◌, ltb, leb, ◌&&◌, ◌||◌, ◌==◌, not, length, ◌+◌, Result, ok, err, if◌then◌else◌, true,
  false, ℕ, Bool, List,
}
use dalila.Member.{NodeId, Incarnation, Instant, Text, SocketAddr, MemberState, Member}

abbrev pub protocol_version : ℕ
protocol_version = 6

abbrev pub max_tags : ℕ
max_tags = 4

abbrev pub max_tag_len : ℕ
max_tag_len = 16

-- `is_ascii_alphanumeric`, or one of `-`, `_` and `.`, by code point.
abbrev pub tag_char : ℕ → Bool
tag_char c =
    leb 48 c && leb c 57
    || leb 65 c && leb c 90
    || leb 97 c && leb c 122
    || c == 45
    || c == 95
    || c == 46

abbrev pub all_tag_chars : Text → Bool
all_tag_chars [] = true
all_tag_chars (c ∷ cs) = tag_char c && all_tag_chars cs

pub data TagError : Type 0 where
  too_many : ℕ → TagError
  bad_tag : Text → TagError

-- `str::len` counts the bytes of the UTF-8 encoding.
abbrev pub char_len : ℕ → ℕ
char_len c = if ltb c 128 then 1 else if ltb c 2048 then 2 else if ltb c 65536 then 3 else 4

abbrev pub str_len : Text → ℕ
str_len [] = 0
str_len (c ∷ cs) = char_len c + str_len cs

abbrev pub is_empty_text : Text → Bool
is_empty_text [] = true
is_empty_text (c ∷ cs) = false

-- The loop of `check_tags`: the first tag that breaks a limit is the error.
abbrev pub check_each : List Text → Result TagError (Unit {0})
check_each [] = ok tt
check_each (tag ∷ tags) =
    let rest = check_each tags in
    if is_empty_text tag || ltb max_tag_len (str_len tag) || not (all_tag_chars tag)
    then err (bad_tag tag)
    else rest

unfoldable pub check_tags : List Text → Result TagError (Unit {0})
check_tags tags =
    if ltb max_tags (length tags) then err (too_many (length tags)) else check_each tags

pub data WireMemberState : Type 0 where
  alive suspect dead : WireMemberState

pub record WireIdentity : Type 0 where
  pub id : NodeId
  pub addr : SocketAddr
  pub incarnation : Incarnation
  pub ready : Bool
  pub tags : List Text

pub record WireMember : Type 0 where
  pub id : NodeId
  pub addr : SocketAddr
  pub incarnation : Incarnation
  pub state : WireMemberState
  pub ready : Bool
  pub tags : List Text

-- `WireIdentity::into_member`.
abbrev pub into_member : WireIdentity → WireMember
into_member from = record {
  id = from.id;
  addr = from.addr;
  incarnation = from.incarnation;
  state = WireMemberState.alive;
  ready = from.ready;
  tags = from.tags;
}

-- `WireMemberState::from(MemberState)`: the clock stays at home.
abbrev pub to_wire_state : MemberState → WireMemberState
to_wire_state (MemberState.dead since) = WireMemberState.dead
to_wire_state MemberState.alive = WireMemberState.alive
to_wire_state (MemberState.suspect since) = WireMemberState.suspect

-- `WireMember::new`, and `From<Member>`.
abbrev pub to_wire : Member → WireMember
to_wire m = record {
  id = m.id;
  addr = m.addr;
  incarnation = m.incarnation;
  state = to_wire_state m.state;
  ready = m.ready;
  tags = m.tags;
}

-- `MemberState::from(WireMemberState)`. `now` is what `Instant::now()` reads.
abbrev pub from_wire_state : Instant → WireMemberState → MemberState
from_wire_state now WireMemberState.dead = MemberState.dead now
from_wire_state now WireMemberState.alive = MemberState.alive
from_wire_state now WireMemberState.suspect = MemberState.suspect now

-- `Member::from(WireMember)`.
abbrev pub from_wire : Instant → WireMember → Member
from_wire now w = record {
  id = w.id;
  addr = w.addr;
  incarnation = w.incarnation;
  state = from_wire_state now w.state;
  ready = w.ready;
  tags = w.tags;
}

-- The bodies of the TCP messages.
pub data TcpBody : Type 0 where
  join_request : WireIdentity → TcpBody
  join_response : WireIdentity → List WireMember → TcpBody
  members_request : TcpBody
  members_response : WireIdentity → List WireMember → TcpBody
  sync_request : WireIdentity → List WireMember → TcpBody
  sync_response : WireIdentity → List WireMember → TcpBody
