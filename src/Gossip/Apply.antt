-- ===== src/Gossip/Apply.antt =====
-- `apply`: what a rumor does to the node, the table and the queue.
use dalila.Base.{◌+◌, ◌≤◌, ◌≡◌, refl, sym, some, none, Option, subst}
use dalila.Member.{Instant, Incarnation, u32_max}
use dalila.Wire.{WireMember}
use dalila.Node.{LocalNode, refute, alive_rumor}
use dalila.Node.Steps.{NodeStep, Reach, Reach-Later}
use dalila.Table.{MergeOutcome, ignored, added, updated, merge, len}
use dalila.Table.Invariant.{IsTable, merge-IsTable}
use dalila.Gossip.{Agent, announce, react, apply}
use dalila.Gossip.Counts.{IsQueue, push-IsQueue}

-- Node, table and queue in order.
pub record IsAgent (s : Agent) : Type 0 where
  pub table : IsTable s.node.id s.table
  pub queue : IsQueue s.queue
  pub node : s.node.incarnation ≤ u32_max

announce-table : (s : Agent) (a : LocalNode × Option Incarnation) → (announce s a).table ≡ s.table
announce-table s (n, none) = refl
announce-table s (n, some now) = refl

react-table : (s : Agent) (r : WireMember) (o : MergeOutcome) → (react s r o).table ≡ s.table
react-table s r ignored = refl
react-table s r added = refl
react-table s r updated = refl
react-table s r (MergeOutcome.refute i) = announce-table s (refute s.node i)

announce-node : (s : Agent) (a : LocalNode × Option Incarnation) → (announce s a).node ≡ a.0
announce-node s (n, none) = refl
announce-node s (n, some now) = refl

react-Reach : (s : Agent) (r : WireMember) (o : MergeOutcome) → Reach s.node (react s r o).node
react-Reach s r ignored = Reach.here
react-Reach s r added = Reach.here
react-Reach s r updated = Reach.here
react-Reach s r (MergeOutcome.refute i) =
    subst (Reach s.node) (sym (announce-node s (refute s.node i)))
      (Reach.next Reach.here (NodeStep.refutes i))

announce-IsQueue :
    (s : Agent) (a : LocalNode × Option Incarnation)
    → IsQueue s.queue
    → IsQueue (announce s a).queue
announce-IsQueue s (n, none) v = v
announce-IsQueue s (n, some now) v = push-IsQueue s.queue (alive_rumor n) (len s.table + 1) v

react-IsQueue :
    (s : Agent) (r : WireMember) (o : MergeOutcome) → IsQueue s.queue → IsQueue (react s r o).queue
react-IsQueue s r ignored v = v
react-IsQueue s r added v = push-IsQueue s.queue r (len s.table + 1) v
react-IsQueue s r updated v = push-IsQueue s.queue r (len s.table + 1) v
react-IsQueue s r (MergeOutcome.refute i) v = announce-IsQueue s (refute s.node i) v

-- `apply` changes the table as `merge` does.
pub apply-table :
    (now : Instant) (s : Agent) (r : WireMember)
    → (apply now s r).0.table ≡ (merge now s.table r s.node.id).0
unfolding apply
apply-table now s r =
    let (t, o) = merge now s.table r s.node.id in react-table (record s { table = t }) r o

-- The node itself moves as its own methods allow.
pub apply-Reach : (now : Instant) (s : Agent) (r : WireMember) → Reach s.node (apply now s r).0.node
unfolding apply
apply-Reach now s r =
    let (t, o) = merge now s.table r s.node.id in react-Reach (record s { table = t }) r o

apply-IsQueue :
    (now : Instant) (s : Agent) (r : WireMember) → IsQueue s.queue → IsQueue (apply now s r).0.queue
unfolding apply
apply-IsQueue now s r v =
    let (t, o) = merge now s.table r s.node.id in react-IsQueue (record s { table = t }) r o v

-- Whatever rumor comes in, a well-formed agent stays well formed.
pub apply-IsAgent :
    (now : Instant) (s : Agent) (r : WireMember) → IsAgent s → IsAgent (apply now s r).0
apply-IsAgent now s r v =
    let later = Reach-Later v.node (apply-Reach now s r) in
    record {
      table =
          subst (λ id. IsTable id (apply now s r).0.table) (sym later.same_id)
            (subst (IsTable s.node.id) (sym (apply-table now s r))
              (merge-IsTable now s.table r s.node.id v.table));
      queue = apply-IsQueue now s r v.queue;
      node = later.in_range;
    }
