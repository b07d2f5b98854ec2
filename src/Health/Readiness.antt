-- ===== src/Health/Readiness.antt =====
-- What a change of the app's readiness does, at home and at a peer.
use dalila.Base.{
  ◌+◌, ◌≡◌, ◌≢◌, ◌≤◌, ◌<◌, refl, Bool, true, false, arith, some, lookup, Elem, ◌||◌, Bool-cases,
  inl, inr,
}
use dalila.Member.{Instant, NodeId, Member, u32_max, superseding}
use dalila.Node.{LocalNode, set_ready, alive_rumor, bool_eq}
use dalila.Table.{MemberTable, updated, merge, len}
use dalila.Table.Entry.{lookup-merge, merge-outcome_of}
use dalila.Table.Order.{belief}
use dalila.Gossip.{Agent}
use dalila.Gossip.Counts.{push-IsQueue}
use dalila.Gossip.Apply.{IsAgent}
use dalila.Gossip.News.{fresh, Elem-push}
use dalila.Health.{health_round, told}
use dalila.Node.Steps.{Reach, NodeStep}
use dalila.Base.{sym, subst, false, true}

-- An answer of the app that differs from the one before, of a node that is not leaving and is below
-- the largest incarnation: the node takes the answer and queues its own record with it, and at
-- every peer other than itself whose entry for it is no newer than the node was before, that record
-- is taken, and the answer with it.
pub health_reaches :
    (s : Agent) (answers : Bool) (now : Instant) (t : MemberTable) (peer : NodeId) (m : Member)
    → s.node.leaving ≡ false
    → s.node.ready ≢ answers
    → s.node.incarnation < u32_max
    → s.node.id ≢ peer
    → lookup s.node.id t ≡ some m
    → m.incarnation ≤ s.node.incarnation
    → let s' = health_round s answers in
      (s'.node.ready ≡ answers)
      × Elem (fresh (alive_rumor s'.node) (len s.table + 1)) s'.queue
      × ((merge now t (alive_rumor s'.node) peer).1 ≡ updated)
      × (belief (merge now t (alive_rumor s'.node) peer).0 s.node.id
          ≡ some (record (alive_rumor s'.node) { id = m.id; addr = m.addr }))
unfolding health_round set_ready superseding
health_reaches s answers now t peer m stays differs room other e older =
    let n' = record (s.node) { incarnation = s.node.incarnation + 1; ready = answers } in
    let changed : set_ready s.node answers ≡ (n', true) = ground (arith, stays, differs, room) in
    rw changed (
      refl,
      Elem-push s.queue (alive_rumor n') (len s.table + 1),
      ground (arith, merge-outcome_of now t (alive_rumor n') peer, e),
      ground (arith, lookup-merge now t (alive_rumor n') peer s.node.id, e),
    )

-- A round of the check keeps node, table and queue well formed.
pub health_round-IsAgent :
    (s : Agent) (answers : Bool) → IsAgent s → IsAgent (health_round s answers)
unfolding health_round set_ready superseding
health_round-IsAgent s answers v =
    elim (Bool-cases (s.node.leaving || bool_eq s.node.ready answers)) [
      | inl h ↦ rw h v
      | inr h ↦ rw h (record {
        table = v.table;
        queue = push-IsQueue s.queue _ (len s.table + 1) v.queue;
        node = ground arith;
      })
    ]

-- The node moves as its own methods allow.
pub health_round-Reach : (s : Agent) (answers : Bool) → Reach s.node (health_round s answers).node
unfolding health_round
health_round-Reach s answers =
    subst (Reach s.node) (sym (told-node s (set_ready s.node answers)))
      (Reach.next Reach.here (NodeStep.sets_ready answers))
  where
    told-node : (s : Agent) (a : LocalNode × Bool) → (told s a).node ≡ a.0
    told-node s (n, false) = refl
    told-node s (n, true) = refl
