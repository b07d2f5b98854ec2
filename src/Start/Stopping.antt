-- ===== src/Start/Stopping.antt =====
-- What a node does last: it leaves, and says so to every member.
use dalila.Base.{
  ◌≡◌, refl, sym, ap, ◌∙◌, subst, arith, true, false, List, [], ◌∷◌, inl, inr, Bool-cases, some,
  lookup, Elem, not, filter, length,
}
use dalila.Member.{SocketAddr, Member, is_dead}
use dalila.Node.{identity, leave as leave_node}
use dalila.Table.{members_where}
use dalila.Table.Invariant.{IsTable}
use dalila.Table.Queries.{Elem-members_where}
use dalila.Udp.{Peer, Surroundings, UdpBody, leave, send_udp, tell_all, announce_leave}
use dalila.Udp.Handling.{send_udp-agent}
use dalila.Start.{shut_down}

module _ (net : Surroundings) (body : UdpBody) where
  send_udp-keeps :
      (p : Peer) (addr : SocketAddr) (x : SocketAddr × UdpBody)
      → Elem x p.sent
      → Elem x (send_udp net p addr body).0.sent
  send_udp-keeps p addr x i = elim (Bool-cases (net.accepts addr body)) [
    | inl e ↦ rw e (inr i)
    | inr e ↦ rw e i
  ]

  send_udp-tells :
      (p : Peer) (m : Member)
      → net.accepts m.addr body ≡ true
      → Elem (m.addr, body) (send_udp net p m.addr body).0.sent
  send_udp-tells p m w = rw w (inl refl)

  tell_all-keeps :
      (p : Peer) (ms : List Member) (x : SocketAddr × UdpBody)
      → Elem x p.sent
      → Elem x (tell_all net p body ms).0.sent
  tell_all-keeps p [] x i = i
  tell_all-keeps p (m ∷ ms) x i =
      tell_all-keeps (send_udp net p m.addr body).0 ms x (send_udp-keeps p m.addr x i)

  tell_all-tells :
      (p : Peer) (ms : List Member) (m : Member)
      → Elem m ms
      → net.accepts m.addr body ≡ true
      → Elem (m.addr, body) (tell_all net p body ms).0.sent
  tell_all-tells p [] m i w = absurd i
  tell_all-tells p (x ∷ ms) m (inl same) w =
      tell_all-keeps (send_udp net p x.addr body).0 ms (m.addr, body)
        (subst (λ y. Elem (m.addr, body) (send_udp net p y.addr body).0.sent) (sym same)
          (send_udp-tells p m w))
  tell_all-tells p (x ∷ ms) m (inr i) w = tell_all-tells (send_udp net p x.addr body).0 ms m i w

  tell_all-count :
      (p : Peer) (ms : List Member)
      → (tell_all net p body ms).1 ≡ length (filter (λ m. net.accepts m.addr body) ms)
  tell_all-count p [] = refl
  tell_all-count p (m ∷ ms) = elim (Bool-cases (net.accepts m.addr body)) [
    | inl e ↦ rw e (ground (arith, tell_all-count (record p { sent = (m.addr, body) ∷ p.sent }) ms))
    | inr e ↦ rw e (tell_all-count p ms)
  ]

  tell_all-agent : (p : Peer) (ms : List Member) → (tell_all net p body ms).0.agent ≡ p.agent
  tell_all-agent p [] = refl
  tell_all-agent p (m ∷ ms) =
      tell_all-agent (send_udp net p m.addr body).0 ms ∙ send_udp-agent net p m.addr body

-- After a node with a well-formed table shuts down, it is leaving; and every member that its table
-- holds and does not hold as dead has been sent the node's own leave, if the socket takes that
-- datagram.
pub shut_down_lem :
    (net : Surroundings) (p : Peer)
    → IsTable p.agent.node.id p.agent.table
    → let gone = leave (identity p.agent.node) in
      ((shut_down net p).0.agent.node.leaving ≡ true)
      × ((m : Member)
          → lookup m.id p.agent.table ≡ some m
          → is_dead m.state ≡ false
          → net.accepts m.addr gone ≡ true
          → Elem (m.addr, gone) (shut_down net p).0.sent)
unfolding shut_down announce_leave leave_node
shut_down_lem net p v =
    let gone = leave (identity p.agent.node) in
    let ms = members_where (λ m. not (is_dead m.state)) p.agent.table in
    (
      ap (λ s. s.node.leaving) (tell_all-agent net gone _ ms),
      λ m e up w.
          tell_all-tells net gone _ ms m
            ((Elem-members_where (λ m. not (is_dead m.state)) p.agent.table p.agent.node.id m v).1
              (e, rw up refl))
            w,
    )

-- Those who are told that the node leaves: the members not held as dead to whom the socket takes it.
abbrev pub told_of : Surroundings → Peer → List Member
told_of net p =
    filter (λ m. net.accepts m.addr (leave (identity p.agent.node)))
      (members_where (λ m. not (is_dead m.state)) p.agent.table)

pub shut_down-count : (net : Surroundings) (p : Peer) → (shut_down net p).1 ≡ length (told_of net p)
unfolding shut_down announce_leave leave_node
shut_down-count net p =
    tell_all-count net (leave (identity p.agent.node)) _
      (members_where (λ m. not (is_dead m.state)) p.agent.table)
