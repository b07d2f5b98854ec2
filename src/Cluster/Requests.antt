-- ===== src/Cluster/Requests.antt =====
-- What a node does with a request over TCP, and what its detector does, as runs of the cluster.
use dalila.Base.{
  ◌≡◌, refl, sym, List, [], ◌∷◌, map, none, some, Option, Elem, inl, inr, values, values-Elem,
  map-Elem,
}
use dalila.Member.{Instant, NodeId, Member}
use dalila.Wire.{
  WireMember, WireMemberState, TcpBody, join_request, join_response, members_request,
  members_response, sync_request, sync_response, to_wire, into_member,
}
use dalila.Node.{identity}
use dalila.Table.{members_where}
use dalila.Table.Invariant.{IsTable}
use dalila.Table.Queries.{Elem-members_where}
use dalila.Gossip.{Agent, apply}
use dalila.Gossip.Apply.{IsAgent}
use dalila.Join.{records, absorb, handle_join_request, handle_request}
use dalila.Detector.{mark, mark_rumor, mark_all_dead, sweep_suspects, suspect_expired}
use dalila.Cluster.{Cluster, Says, own_record, entry, doubt}
use dalila.Cluster.Handlers.{
  Goes, Goes-stay, Goes-trans, hears-Goes, says-Goes, apply_all-Goes, Within,
}

-- The rumors that a TCP message carries.
abbrev pub told : TcpBody → List WireMember
told (join_request from) = into_member from ∷ []
told (join_response from members) = into_member from ∷ members
told members_request = []
told (members_response from members) = into_member from ∷ members
told (sync_request from members) = into_member from ∷ members
told (sync_response from members) = into_member from ∷ members

abbrev pub told_by : Option TcpBody → List WireMember
told_by none = []
told_by (some body) = told body

says_records :
    (s : Agent) (me : NodeId) (r : WireMember)
    → IsTable me s.table
    → Elem r (records s.table)
    → Says s r
says_records s me r v k =
    let (m, i, e) = map-Elem to_wire (values s.table) r k in
    let (j, found) = values-Elem m s.table v.distinct i in entry j m found (sym e)

says_all :
    (s : Agent) (r : WireMember)
    → IsAgent s
    → Elem r (into_member (identity s.node) ∷ records s.table)
    → Says s r
says_all s r v (inl e) = own_record (sym e)
says_all s r v (inr k) = says_records s s.node.id r v.table k

-- If the rumors of a TCP message are on their way in a cluster, and node `i` is well formed, then
-- the cluster has a run after which that node is as `handle_request` leaves it, and the rumors of
-- its reply, if it gives one, are on their way.
pub handle_request-Goes :
    (c : Cluster) (i : NodeId) (now : Instant) (s : Agent) (body : TcpBody)
    → c.agent i ≡ s
    → IsAgent s
    → Within (told body) c
    → (g : Goes c i (handle_request now s body).0) × Within
        (told_by (handle_request now s body).1)
        g.cluster
unfolding handle_request handle_join_request absorb
handle_request-Goes c i now s (join_request from) e v w =
    let (g, known) =
      says-Goes c i s (records s.table) e (λ r. says_records s s.node.id r v.table) in
    let h = hears-Goes g.cluster i s now (into_member from) g.agent (g.air _ (w _ (inl refl))) in
    let s' = (apply now s (into_member from)).0 in
    let (k, own) =
      says-Goes h.cluster i s' (into_member (identity s'.node) ∷ []) h.agent
        (λ r. elim [ inl f ↦ own_record (sym f) | inr f ↦ absurd f ]) in
    (
      Goes-trans g (Goes-trans h k),
      λ r. elim [ inl f ↦ own r (inl f) | inr f ↦ k.air r (h.air r (known r f)) ],
    )
handle_request-Goes c i now s members_request e v w =
    says-Goes c i s (into_member (identity s.node) ∷ records s.table) e (λ r. says_all s r v)
handle_request-Goes c i now s (sync_request from members) e v w =
    let (g, known) =
      says-Goes c i s (into_member (identity s.node) ∷ records s.table) e (λ r. says_all s r v) in
    let h = hears-Goes g.cluster i s now (into_member from) g.agent (g.air _ (w _ (inl refl))) in
    let k =
      apply_all-Goes h.cluster i (apply now s (into_member from)).0 now members h.agent
        (λ r f. h.air r (g.air r (w r (inr f)))) in
    (Goes-trans g (Goes-trans h k), λ r f. k.air r (h.air r (known r f)))
handle_request-Goes c i now s (join_response from members) e v w =
    (Goes-stay c i s e, λ r k. absurd k)
handle_request-Goes c i now s (members_response from members) e v w =
    (Goes-stay c i s e, λ r k. absurd k)
handle_request-Goes c i now s (sync_response from members) e v w =
    (Goes-stay c i s e, λ r k. absurd k)

mark_all_dead-Goes :
    (c : Cluster) (i : NodeId) (now : Instant) (s : Agent) (ms : List Member)
    → c.agent i ≡ s
    → Within (map (λ m. mark_rumor m WireMemberState.dead) ms) c
    → Goes c i (mark_all_dead now s ms)
unfolding mark_all_dead mark
mark_all_dead-Goes c i now s [] e w = Goes-stay c i s e
mark_all_dead-Goes c i now s (m ∷ ms) e w =
    let r = mark_rumor m WireMemberState.dead in
    let g = hears-Goes c i s now r e (w r (inl refl)) in
    Goes-trans g (
      mark_all_dead-Goes g.cluster i now (apply now s r).0 ms g.agent
        (λ x k. g.air x (w x (inr k))))

-- A sweep of a well-formed agent is a run of the cluster.
pub sweep_suspects-Goes :
    (c : Cluster) (i : NodeId) (now : Instant) (s : Agent)
    → c.agent i ≡ s
    → IsAgent s
    → Goes c i (sweep_suspects now s)
unfolding sweep_suspects
sweep_suspects-Goes c i now s e v =
    let expired = λ (m : Member). suspect_expired now m.state in
    let ms = members_where expired s.table in
    let (g, w) = says-Goes c i s (map (λ m. mark_rumor m WireMemberState.dead) ms) e (λ r k.
      let (m, j, f) = map-Elem (λ m. mark_rumor m WireMemberState.dead) ms r k in
      let (found, h) = (Elem-members_where expired s.table s.node.id m v.table).0 j in
      doubt m.id m WireMemberState.dead found (sym f)) in
    Goes-trans g (mark_all_dead-Goes g.cluster i now s ms g.agent w)
