-- ===== src/Join/Joining.antt =====
-- What a node knows when it has joined.
use dalila.Base.{
  ◌≡◌, ◌≢◌, sym, ◌∙◌, subst, true, false, arith, List, [], ◌∷◌, some, lookup, contains_key, Elem,
  Elem-map, Elem-values, values, inl, inr,
}
use dalila.Member.{Instant, NodeId, Member, is_unspecified, is_dead}
use dalila.Wire.{WireIdentity, WireMember, WireMemberState, join_request, to_wire, into_member}
use dalila.Node.{identity}
use dalila.Node.Steps.{Reach-Later}
use dalila.Table.{MemberTable, merge, contains}
use dalila.Table.Entry.{lookup-merge}
use dalila.Table.Convergence.{merge_all}
use dalila.Gossip.{Agent, apply}
use dalila.Gossip.Apply.{IsAgent, apply-table, apply-Reach}
use dalila.Gossip.News.{apply-id}
use dalila.Join.{
  records, handle_join_request, handle_join_response, handle_request, handle_join_reply,
}
use dalila.Join.Exchange.{apply_all-table}

contains-merge :
    (now : Instant) (t : MemberTable) (r : WireMember) (me j : NodeId)
    → contains t j ≡ true
    → contains (merge now t r me).0 j ≡ true
unfolding contains_key
contains-merge now t r me j h = ground (arith, lookup-merge now t r me j, h)

merge_makes :
    (now : Instant) (t : MemberTable) (r : WireMember) (me : NodeId)
    → r.id ≢ me
    → is_unspecified r.addr.ip ≡ false
    → r.state ≢ WireMemberState.dead
    → contains (merge now t r me).0 r.id ≡ true
unfolding contains_key
merge_makes now t r me other reachable lives =
    ground (arith, lookup-merge now t r me r.id, other, reachable, lives)

contains-merge_all :
    (now : Instant) (t : MemberTable) (rs : List WireMember) (me j : NodeId)
    → contains t j ≡ true
    → contains (merge_all now t rs me) j ≡ true
unfolding merge_all
contains-merge_all now t [] me j h = h
contains-merge_all now t (r ∷ rs) me j h =
    contains-merge_all now (merge now t r me).0 rs me j (contains-merge now t r me j h)

merge_all_makes :
    (now : Instant) (t : MemberTable) (rs : List WireMember) (me : NodeId) (r : WireMember)
    → Elem r rs
    → r.id ≢ me
    → is_unspecified r.addr.ip ≡ false
    → r.state ≢ WireMemberState.dead
    → contains (merge_all now t rs me) r.id ≡ true
unfolding merge_all
merge_all_makes now t [] me r i other reachable lives = absurd i
merge_all_makes now t (s ∷ rs) me r (inl e) other reachable lives =
    contains-merge_all now (merge now t s me).0 rs me r.id (
      subst (λ x. contains (merge now t x me).0 r.id ≡ true) (sym e)
        (merge_makes now t r me other reachable lives))
merge_all_makes now t (s ∷ rs) me r (inr i) other reachable lives =
    merge_all_makes now (merge now t s me).0 rs me r i other reachable lives

table_after_join :
    (now : Instant) (s : Agent) (from : WireIdentity) (members : List WireMember)
    → (handle_join_response now s from members).table
      ≡ merge_all now (merge now s.table (into_member from) s.node.id).0 members s.node.id
unfolding handle_join_response
table_after_join now s from members =
    apply_all-table now (apply now s (into_member from)).0 members
    ∙ rw (apply-table now s (into_member from), apply-id now s (into_member from))

told_lives : (m : Member) → is_dead m.state ≡ false → (to_wire m).state ≢ WireMemberState.dead
told_lives m h = ground (arith, h)

-- Let a well-formed seed and a joiner with another id both advertise an address that is not
-- unspecified, and let the reply to the joiner's request arrive. Then the seed has the joiner in
-- its table, the joiner has the seed in its own, and with it every member other than itself that
-- the seed held and did not hold as dead.
pub join_complete :
    (now later : Instant) (seed joiner : Agent) (j : NodeId) (m : Member)
    → IsAgent seed
    → seed.node.id ≢ joiner.node.id
    → is_unspecified seed.node.addr.ip ≡ false
    → is_unspecified joiner.node.addr.ip ≡ false
    → lookup j seed.table ≡ some m
    → j ≢ joiner.node.id
    → is_dead m.state ≡ false
    → let (seed', reply) = handle_request now seed (join_request (identity joiner.node)) in
      let joiner' = handle_join_reply later joiner reply in
      (contains seed'.table joiner.node.id ≡ true)
      × (contains joiner'.table seed.node.id ≡ true)
      × (contains joiner'.table j ≡ true)
unfolding handle_request handle_join_reply handle_join_request
join_complete now later seed joiner j m v apart reach_s reach_j e other lives =
    let s' = (apply now seed (into_member (identity joiner.node))).0 in
    let from = identity s'.node in
    let ms = records seed.table in
    let own : m.id ≡ j = v.table.own_key j m e in
    let a = Reach-Later v.node (apply-Reach now seed (into_member (identity joiner.node))) in
    let heard_seed = (merge later joiner.table (into_member from) joiner.node.id).0 in
    let made : contains heard_seed from.id ≡ true =
      merge_makes later joiner.table (into_member from) joiner.node.id
        (λ h. apart (sym a.same_id ∙ h)) (rw a.same_addr reach_s)
        (λ h. absurd (ground (arith, h))) in
    (
      rw (apply-table now seed (into_member (identity joiner.node))) (
          merge_makes now seed.table (into_member (identity joiner.node)) seed.node.id
            (λ h. apart (sym h)) reach_j (λ h. absurd (ground (arith, h)))),
      rw (table_after_join later joiner from ms) (
          contains-merge_all later heard_seed ms joiner.node.id seed.node.id
            (subst (λ x. contains heard_seed x ≡ true) a.same_id made)),
      rw (table_after_join later joiner from ms) (
          subst (λ x. contains (merge_all later heard_seed ms joiner.node.id) x ≡ true) own
            (merge_all_makes later heard_seed ms joiner.node.id (to_wire m)
              (Elem-map to_wire (values seed.table) m (Elem-values j m seed.table e))
              (λ h. other (sym own ∙ h)) (v.table.reachable j m e) (told_lives m lives))),
    )
