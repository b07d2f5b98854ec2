-- ===== src/Join/Exchange.antt =====
-- What an exchange of whole tables does, and that every message leaves the agent in order.
use dalila.Base.{
  ◌≡◌, ◌≢◌, refl, sym, ap, ◌∙◌, arith, List, [], ◌∷◌, none, some, Option, ◌==◌, if◌then◌else◌,
  lookup, IsMap, Bool-cases, inl, inr,
}
use dalila.Member.{Instant, NodeId, Member}
use dalila.Wire.{
  WireIdentity, WireMember, TcpBody, join_request, join_response, members_request, members_response,
  sync_request, sync_response, to_wire, into_member,
}
use dalila.Node.{identity}
use dalila.Table.{MemberTable, merge}
use dalila.Table.Order.{belief, rank_inj}
use dalila.Table.Invariant.{IsTable}
use dalila.Table.Convergence.{
  Agree, hear, hear_about, hear_all, merge_all, belief-merge_all, belief-merge,
}
use dalila.Gossip.{Agent, apply}
use dalila.Gossip.Apply.{IsAgent, apply-IsAgent, apply-table}
use dalila.Gossip.News.{apply-id}
use dalila.Udp.{apply_all}
use dalila.Udp.Handling.{apply_all-IsAgent}
use dalila.Join.{
  records, absorb, handle_join_request, handle_request, sync_opening, handle_sync_reply,
}

-- A run of `apply` changes the table as a run of `merge` does.
pub apply_all-table :
    (now : Instant) (s : Agent) (rs : List WireMember)
    → (apply_all now s rs).table ≡ merge_all now s.table rs s.node.id
unfolding apply_all merge_all
apply_all-table now s [] = refl
apply_all-table now s (r ∷ rs) =
    apply_all-table now (apply now s r).0 rs ∙ rw (apply-table now s r, apply-id now s r)

-- Whatever arrives over TCP, from anyone, leaves a well-formed agent's node, table and queue well
-- formed.
pub handle_request-IsAgent :
    (now : Instant) (s : Agent) (body : TcpBody) → IsAgent s → IsAgent (handle_request now s body).0
unfolding handle_request handle_join_request absorb
handle_request-IsAgent now s (join_request from) v = apply-IsAgent now s (into_member from) v
handle_request-IsAgent now s members_request v = v
handle_request-IsAgent now s (sync_request from members) v =
    apply_all-IsAgent now _ members (apply-IsAgent now s (into_member from) v)
handle_request-IsAgent now s (join_response from members) v = v
handle_request-IsAgent now s (members_response from members) v = v
handle_request-IsAgent now s (sync_response from members) v = v

-- Every entry says whose it is.
abbrev Own : MemberTable → Type 0
Own t = (j : NodeId) (m : Member) → lookup j t ≡ some m → m.id ≡ j

abbrev heard : NodeId → NodeId → Option Member → WireMember → WireMember
heard me j none w = w
heard me j (some m) w = if j == me then w else hear (to_wire m) w

heard_own :
    (me j : NodeId) (m : Member) (w : WireMember)
    → m.id ≡ j
    → hear_about me j (to_wire m) w ≡ heard me j (some m) w
heard_own me j m w e = ground (arith, e)

heard_other :
    (me j : NodeId) (m : Member) (w : WireMember) → m.id ≢ j → hear_about me j (to_wire m) w ≡ w
heard_other me j m w h = ground (arith, h)

Own-rest :
    (k : NodeId) (m : Member) (t : MemberTable) → IsMap ((k, m) ∷ t) → Own ((k, m) ∷ t) → Own t
unfolding lookup
Own-rest k m t v own j x e = own j x (ground (arith, e, v.0))

-- Of a whole table, a belief about `j` hears the entry of `j`, and no other.
hear_all-records :
    (me j : NodeId) (t : MemberTable) (w : WireMember)
    → IsMap t
    → Own t
    → hear_all me j (records t) w ≡ heard me j (lookup j t) w
unfolding hear_all lookup
hear_all-records me j [] w v own = refl
hear_all-records me j ((k, m) ∷ t) w v own =
    let own_id : m.id ≡ k = own k m (ground arith) in
    let ih = hear_all-records me j t (hear_about me j (to_wire m) w) v.1 (Own-rest k m t v own) in
    elim (Bool-cases (k == j)) [
      | inl e ↦
          let gone : lookup j t ≡ none = ground (arith, v.0, e) in
          ih ∙ rw (gone, e) (heard_own me j m w (ground (arith, e, own_id)))
      | inr e ↦
          ih
          ∙ rw e (ap (heard me j (lookup j t)) (heard_other me j m w (ground (arith, e, own_id))))
    ]

belief-absorb :
    (now : Instant) (s : Agent) (from : WireIdentity) (members : List WireMember) (j : NodeId)
    (m : Member)
    → lookup j s.table ≡ some m
    → from.id ≢ j
    → belief (absorb now s from members).table j ≡ some (hear_all s.node.id j members (to_wire m))
unfolding absorb
belief-absorb now s from members j m e other =
    ap (λ t. belief t j) (apply_all-table now (apply now s (into_member from)).0 members)
    ∙ rw (apply-table now s (into_member from), apply-id now s (into_member from))
        (belief-merge_all now (merge now s.table (into_member from) s.node.id).0 members s.node.id j
          (to_wire m)
          (belief-merge now s.table (into_member from) s.node.id j m e
            ∙ ap some (ground (arith, other))))

hear_sym : (r s : WireMember) → r.id ≡ s.id → r.addr ≡ s.addr → Agree r s → hear r s ≡ hear s r
hear_sym r s same where_ agree = ground (arith, agree, rank_inj r.state s.state)

-- One node sends its whole table to another, which answers with its own, and no other news reaches
-- either meanwhile. Both tables are well formed. Then of each third member that both hold at one
-- address, and of whose app the two entries say the same if their incarnation and state are the
-- same, both believe the same afterwards.
pub sync_agrees :
    (now later : Instant) (a b : Agent) (j : NodeId) (m m' : Member)
    → IsTable a.node.id a.table
    → IsTable b.node.id b.table
    → a.node.id ≢ j
    → b.node.id ≢ j
    → lookup j a.table ≡ some m
    → lookup j b.table ≡ some m'
    → m.addr ≡ m'.addr
    → Agree (to_wire m) (to_wire m')
    → let (b', reply) = handle_request now b (sync_opening a) in
      let a' = handle_sync_reply later a reply in belief a'.table j ≡ belief b'.table j
unfolding handle_request handle_sync_reply
sync_agrees now later a b j m m' v v' third third' e e' reached agree =
    let at_b : belief (absorb now b (identity a.node) (records a.table)).table j
        ≡ some (hear (to_wire m) (to_wire m')) =
      belief-absorb now b (identity a.node) (records a.table) j m' e' third
      ∙ ap some (
          hear_all-records b.node.id j a.table (to_wire m') v.distinct v.own_key
          ∙ rw e (ground arith)) in
    let at_a : belief (absorb later a (identity b.node) (records b.table)).table j
        ≡ some (hear (to_wire m') (to_wire m)) =
      belief-absorb later a (identity b.node) (records b.table) j m e third'
      ∙ ap some (
          hear_all-records a.node.id j b.table (to_wire m) v'.distinct v'.own_key
          ∙ rw e' (ground arith)) in
    let same : m.id ≡ m'.id = v.own_key j m e ∙ sym (v'.own_key j m' e') in
    at_a
    ∙ ap some
        (hear_sym (to_wire m') (to_wire m) (sym same) (sym reached) (ground (arith, agree, same)))
    ∙ sym at_b
