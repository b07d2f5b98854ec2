-- ===== src/Udp/Leaving.antt =====
-- A node that goes away on purpose: its leave stands against everything that it ever said.
use dalila.Base.{
  ◌≤◌, ◌<◌, ◌≡◌, ◌≢◌, refl, sym, ap, ◌∙◌, Bool, true, false, List, [], ◌∷◌, ◌==◌, some, lookup,
  arith, ==_refl, Elem, not, inl, inr, length, values, Elem-filter, Elem-values, subst,
}
use dalila.Member.{Instant, NodeId, Member, SocketAddr, u32_max, is_dead}
use dalila.Wire.{WireMember, WireMemberState, to_wire_state}
use dalila.Node.{LocalNode, leave as leave_node, identity, alive_rumor}
use dalila.Node.Steps.{Reach, Reach-Later}
use dalila.Table.{MemberTable, updated, ignored, merge, rank, members_where, overwrite, supersedes}
use dalila.Table.Entry.{lookup-merge, merge-outcome_of, outcome_of}
use dalila.Table.Order.{merge_stale}
use dalila.Udp.{Peer, Surroundings, UdpBody, leave, leave_rumor, announce_leave, tell_all}

-- An "alive" at or below the incarnation of a dead entry is ignored.
stale_alive :
    (later : Instant) (t : MemberTable) (peer : NodeId) (w : WireMember) (d : Member)
    → w.id ≢ peer
    → lookup w.id t ≡ some d
    → rank (to_wire_state d.state) ≡ 2
    → w.incarnation ≤ d.incarnation
    → w.state ≡ WireMemberState.alive
    → merge later t w peer ≡ (t, ignored)
stale_alive later t peer w d other found gone older up =
    let not_own : (w.id == peer) ≡ false = ground (arith, other) in
    let old : outcome_of w (some d) ≡ ignored = ground (arith, up, gone) in
    merge_stale later t w peer (rw found old) ∙ rw not_own

-- Let a node that is in range leave after any calls, and let a peer hold an entry for it that is no
-- newer than what it once said of itself, and not dead. The leave that the node sends is taken; and
-- after it the peer ignores what the node had said of itself then, and what it says of itself after
-- leaving, whatever is called meanwhile.
pub leave_final :
    {n m k : LocalNode} (now later : Instant) (t : MemberTable) (peer : NodeId) (e : Member)
    → n.incarnation ≤ u32_max
    → Reach n m
    → Reach (leave_node m) k
    → n.id ≢ peer
    → lookup n.id t ≡ some e
    → e.incarnation ≤ n.incarnation
    → rank (to_wire_state e.state) < 2
    → let t' = (merge now t (leave_rumor (identity k)) peer).0 in
      ((merge now t (leave_rumor (identity k)) peer).1 ≡ updated)
      × (merge later t' (alive_rumor n) peer ≡ (t', ignored))
      × (merge later t' (alive_rumor k) peer ≡ (t', ignored))
unfolding leave_node
leave_final {n} {m} {k} now later t peer e h r s other found older open_entry =
    let a = Reach-Later h r in
    let b = Reach-Later {n = leave_node m} a.in_range s in
    let final : k.incarnation ≡ m.incarnation = (b.final refl).0 in
    let same : k.id ≡ n.id = b.same_id ∙ a.same_id in
    let at_k : lookup k.id t ≡ some e = ap (λ x. lookup x t) same ∙ found in
    let not_own : (k.id == peer) ≡ false = ground (arith, same, other) in
    let r' = leave_rumor (identity k) in
    let t' = (merge now t r' peer).0 in
    let wins : outcome_of r' (some e) ≡ updated = ground (arith, a.not_back, final) in
    let died = overwrite now r' e in
    let beats : supersedes r' e ≡ true = ground (arith, a.not_back, final) in
    let dead_now : lookup k.id t' ≡ some died =
      lookup-merge now t r' peer k.id ∙ rw (not_own, ==_refl, at_k, beats) in
    (
      merge-outcome_of now t r' peer ∙ rw (not_own, at_k) wins,
      stale_alive later t' peer (alive_rumor n) died other
          (ap (λ x. lookup x t') (sym same) ∙ dead_now) refl (omega (arith, a.not_back, final))
          refl,
      stale_alive later t' peer (alive_rumor k) died (λ x. other (sym same ∙ x)) dead_now refl
          (omega arith) refl,
    )

tell_all-sent :
    (net : Surroundings) (p : Peer) (body : UdpBody) (ms : List Member)
    → ((addr : SocketAddr) → net.accepts addr body ≡ true)
    → ((m : Member) → Elem m ms → Elem (m.addr, body) (tell_all net p body ms).0.sent)
      × ((x : SocketAddr × UdpBody) → Elem x p.sent → Elem x (tell_all net p body ms).0.sent)
      × ((tell_all net p body ms).1 ≡ length ms)
tell_all-sent net p body [] ok = (λ m i. absurd i, λ x i. i, refl)
tell_all-sent net p body (m ∷ ms) ok =
    let p' : Peer = record p { sent = (m.addr, body) ∷ p.sent } in
    let (told, kept, count) = tell_all-sent net p' body ms ok in
    rw (ok m.addr) (
      λ x i. elim i [
        | inl e ↦
            subst (λ y. Elem (y.addr, body) (tell_all net p' body ms).0.sent) e
              (kept (m.addr, body) (inl refl))
        | inr k ↦ told x k
      ],
      λ x i. kept x (inr i),
      omega (arith, count),
    )

-- If the socket takes the datagrams, then every member that is not dead is sent the leave, and the
-- number that is returned counts them.
pub announce_leave_lem :
    (net : Surroundings) (p : Peer) (j : NodeId) (m : Member)
    → ((addr : SocketAddr) (body : UdpBody) → net.accepts addr body ≡ true)
    → lookup j p.agent.table ≡ some m
    → is_dead m.state ≡ false
    → Elem (m.addr, leave (identity p.agent.node)) (announce_leave net p).0.sent
      × ((announce_leave net p).1
          ≡ length (members_where (λ x. not (is_dead x.state)) p.agent.table))
unfolding announce_leave
announce_leave_lem net p j m ok found open_entry =
    let live : Member → Bool = λ x. not (is_dead x.state) in
    let body = leave (identity p.agent.node) in
    let (told, kept, count) =
      tell_all-sent net p body (members_where live p.agent.table) (λ addr. ok addr body) in
    (
      told m (
          Elem-filter live (values p.agent.table) {a = m} (Elem-values j m p.agent.table found)
            (ground (arith, open_entry))),
      count,
    )
