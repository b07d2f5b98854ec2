-- ===== src/Cluster/Moves.antt =====
-- What the runs of a cluster keep: each node's identity, its incarnation's direction, and the order
-- of its table and queue.
use dalila.Base.{◌≡◌, arith, ◌==◌, Bool-cases, inl, inr, ==_iff}
use dalila.Member.{NodeId}
use dalila.Node.{leave as leave_node}
use dalila.Node.Steps.{Later, Later-trans, Reach, NodeStep, Reach-Later}
use dalila.Table.Invariant.{empty-IsTable}
use dalila.Gossip.{Agent}
use dalila.Gossip.Sending.{take-IsQueue}
use dalila.Gossip.Apply.{IsAgent, apply-IsAgent, apply-Reach}
use dalila.Detector.Failure.{reap_dead-IsTable}
use dalila.Health.Readiness.{health_round-Reach, health_round-IsAgent}
use dalila.Cluster.{
  Cluster, set_agent, Step, speaks, hears, packs, reaps, checks, leaves, Run, here, next, IsStart,
}

-- Every node with its table and queue is well formed.
abbrev pub AllAgents : Cluster → Type 0
AllAgents c = (i : NodeId) → IsAgent (c.agent i)

set_agent-AllAgents :
    (c : Cluster) (i : NodeId) (s : Agent) → AllAgents c → IsAgent s → AllAgents (set_agent c i s)
set_agent-AllAgents c i s v w j = elim (Bool-cases (j == i)) [ inl e ↦ rw e w | inr e ↦ rw e (v j) ]

set_agent-Later :
    (c : Cluster) (i : NodeId) (s : Agent) (j : NodeId)
    → AllAgents c
    → Later (c.agent i).node s.node
    → Later (c.agent j).node ((set_agent c i s).agent j).node
set_agent-Later c i s j v later = elim (Bool-cases (j == i)) [
  | inl e ↦ let same : j ≡ i = (==_iff j i).0 e in rw (e, same) later
  | inr e ↦ rw e (Reach-Later (v j).node Reach.here)
]

Step-AllAgents : {c d : Cluster} → Step c d → AllAgents c → AllAgents d
unfolding leave_node
Step-AllAgents (speaks i r says) v = v
Step-AllAgents {c} (hears i now r heard) v =
    set_agent-AllAgents c i _ v (apply-IsAgent now (c.agent i) r (v i))
Step-AllAgents {c} (packs i) v = set_agent-AllAgents c i _ v (record {
  table = (v i).table;
  queue = take-IsQueue (c.agent i).queue (v i).queue;
  node = (v i).node;
})
Step-AllAgents {c} (reaps i now) v = set_agent-AllAgents c i _ v (record {
  table = reap_dead-IsTable now (c.agent i).table (c.agent i).node.id (v i).table;
  queue = (v i).queue;
  node = (v i).node;
})
Step-AllAgents {c} (checks i answers) v =
    set_agent-AllAgents c i _ v (health_round-IsAgent (c.agent i) answers (v i))
Step-AllAgents {c} (leaves i) v =
    let s = record (c.agent i) { node = leave_node (c.agent i).node } in
    set_agent-AllAgents c i s v
      (record { table = (v i).table; queue = (v i).queue; node = (v i).node })

Step-Later :
    {c d : Cluster}
    → Step c d
    → AllAgents c
    → (j : NodeId) → Later (c.agent j).node (d.agent j).node
Step-Later (speaks i r says) v j = Reach-Later (v j).node Reach.here
Step-Later {c} (hears i now r heard) v j =
    set_agent-Later c i _ j v (Reach-Later (v i).node (apply-Reach now (c.agent i) r))
Step-Later {c} (packs i) v j = set_agent-Later c i _ j v (Reach-Later (v i).node Reach.here)
Step-Later {c} (reaps i now) v j = set_agent-Later c i _ j v (Reach-Later (v i).node Reach.here)
Step-Later {c} (checks i answers) v j =
    set_agent-Later c i _ j v (Reach-Later (v i).node (health_round-Reach (c.agent i) answers))
Step-Later {c} (leaves i) v j =
    set_agent-Later c i _ j v (Reach-Later (v i).node (Reach.next Reach.here NodeStep.leaves))

-- If every node is well formed (its table, its queue and the range of its incarnation), then so is
-- every node after any run of the cluster.
pub Run-AllAgents : {c d : Cluster} → Run c d → AllAgents c → AllAgents d
Run-AllAgents here v = v
Run-AllAgents (next r s) v = Step-AllAgents s (Run-AllAgents r v)

-- Every node stays the same process, and moves only forward.
pub Run-Later :
    {c d : Cluster} → Run c d → AllAgents c → (j : NodeId) → Later (c.agent j).node (d.agent j).node
Run-Later here v j = Reach-Later (v j).node Reach.here
Run-Later (next r s) v j = Later-trans (Run-Later r v j) (Step-Later s (Run-AllAgents r v) j)

pub start-AllAgents : (c : Cluster) → IsStart c → AllAgents c
start-AllAgents c v i = record {
  table = rw (v.no_table i) (empty-IsTable (c.agent i).node.id);
  queue = rw (v.no_queue i) (record { positive = tt; single = λ id. omega arith });
  node = omega (arith, v.first i);
}

pub Run-append : {c d f : Cluster} → Run c d → Run d f → Run c f
Run-append r here = r
Run-append r (next q s) = next (Run-append r q) s
