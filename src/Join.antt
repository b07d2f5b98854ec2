-- ===== src/Join.antt =====
-- src/membership/src/join.rs and src/membership/src/sync.rs: what a node does with each TCP message. A
-- request is answered and its news is merged; a response is news only.
pub mod Exchange
pub mod Joining
use dalila.Base.{List, [], ◌∷◌, map, none, some, Option}
use dalila.Member.{Instant}
use dalila.Wire.{
  WireIdentity, WireMember, TcpBody, join_request, join_response, members_request, members_response,
  sync_request, sync_response, to_wire, into_member,
}
use dalila.Node.{identity}
use dalila.Table.{MemberTable, snapshot}
use dalila.Gossip.{Agent, apply}
use dalila.Udp.{apply_all}

-- `table.snapshot().into_iter().map(Into::into)`.
abbrev pub records : MemberTable → List WireMember
records t = map to_wire (snapshot t)

-- The peer's own record first, then all that it knows. The functions `apply` of the two files log, and
-- do no more than `dissemination::apply`.
unfoldable pub absorb : Instant → Agent → WireIdentity → List WireMember → Agent
absorb now s from members = apply_all now (apply now s (into_member from)).0 members

unfoldable pub handle_join_request : Instant → Agent → WireIdentity → Agent × TcpBody
handle_join_request now s from =
    let members = records s.table in
    let s' = (apply now s (into_member from)).0 in (s', join_response (identity s'.node) members)

unfoldable pub handle_join_response : Instant → Agent → WireIdentity → List WireMember → Agent
handle_join_response now s from members = apply_all now (apply now s (into_member from)).0 members

-- The match of the accept loop: the reply, or none if the connection is dropped.
unfoldable pub handle_request : Instant → Agent → TcpBody → Agent × Option TcpBody
handle_request now s (join_request from) =
    let (s', reply) = handle_join_request now s from in (s', some reply)
handle_request now s members_request =
    (s, some (members_response (identity s.node) (records s.table)))
handle_request now s (sync_request from members) =
    let reply = sync_response (identity s.node) (records s.table) in
    (absorb now s from members, some reply)
handle_request now s (join_response from members) = (s, none)
handle_request now s (members_response from members) = (s, none)
handle_request now s (sync_response from members) = (s, none)

-- What `sync_with` sends, and what it does with the reply, if one came.
abbrev pub sync_opening : Agent → TcpBody
sync_opening s = sync_request (identity s.node) (records s.table)

unfoldable pub handle_sync_reply : Instant → Agent → Option TcpBody → Agent
handle_sync_reply now s (some (sync_response from members)) = absorb now s from members
handle_sync_reply now s _ = s

-- What `join_through` does with the reply.
unfoldable pub handle_join_reply : Instant → Agent → Option TcpBody → Agent
handle_join_reply now s (some (join_response from members)) =
    handle_join_response now s from members
handle_join_reply now s _ = s
