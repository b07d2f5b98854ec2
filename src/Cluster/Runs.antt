-- ===== src/Cluster/Runs.antt =====
-- The runs of a cluster and its consistency.
use dalila.Base.{subst, true, arith, lookup, Elem, inl, inr}
use dalila.Node.{leave as leave_node}
use dalila.Node.Steps.{leaves as leaves_step, Reach, Reach-Later}
use dalila.Gossip.{apply, take}
use dalila.Gossip.Apply.{apply-Reach}
use dalila.Detector.{reap_dead}
use dalila.Health.{health_round}
use dalila.Health.Readiness.{health_round-Reach}
use dalila.Cluster.{
  Cluster, set_agent, Step, speaks, hears, packs, reaps, checks, leaves, Run, here, next, IsStart,
}
use dalila.Cluster.Facts.{
  apply-OfAgent, reap_dead-OfTable, take-OfQueue, health_round-OfAgent, Says-OfRumor,
}
use dalila.Cluster.Consistency.{
  Answers, InPlace, InTime, Fits, IsConsistent, answers_now, own_record_fits,
  set_agent-IsConsistent, Known-on, own_now, rumor_on,
}

-- A step keeps the cluster consistent; the answers given before stand.
Step-IsConsistent :
    {c d : Cluster} (said : Answers)
    → Step c d
    → IsConsistent c said
    → (said' : Answers) × IsConsistent d said'
Step-IsConsistent {c} said (speaks i r says) v = (
  said,
  record {
    own_id = v.own_id;
    in_range = v.in_range;
    own_answer = v.own_answer;
    agents = v.agents;
    air = λ x k. elim k as (λ _. Fits c said x) [
      | inl e ↦ subst (Fits c said) e (
          Says-OfRumor (InPlace c) (InTime c said) (c.agent i) r (v.agents i)
            (own_record_fits c said v.own_id v.own_answer i) says)
      | inr k' ↦ v.air x k'
    ];
  },
)
Step-IsConsistent {c} said (hears i now r heard) v =
    let s = (apply now (c.agent i) r).0 in
    let later = Reach-Later (v.in_range i) (apply-Reach now (c.agent i) r) in
    (
      answers_now said i s.node,
      set_agent-IsConsistent c said i s v later (
          apply-OfAgent (InPlace (set_agent c i s))
            (InTime (set_agent c i s) (answers_now said i s.node)) now (c.agent i) r
            (Known-on c said i s v later) (rumor_on c said i s v later r (v.air r heard))
            (own_now c said i s v later)),
    )
Step-IsConsistent {c} said (packs i) v =
    let s = record (c.agent i) { queue = (take (c.agent i).queue).0 } in
    let later = Reach-Later (v.in_range i) Reach.here in
    let old = Known-on c said i s v later in
    (
      answers_now said i s.node,
      set_agent-IsConsistent c said i s v later (record {
        table = old.table;
        queue =
            take-OfQueue (InPlace (set_agent c i s))
              (InTime (set_agent c i s) (answers_now said i s.node)) (c.agent i).queue old.queue;
      }),
    )
Step-IsConsistent {c} said (reaps i now) v =
    let s = record (c.agent i) { table = reap_dead now (c.agent i).table } in
    let later = Reach-Later (v.in_range i) Reach.here in
    let old = Known-on c said i s v later in
    (
      answers_now said i s.node,
      set_agent-IsConsistent c said i s v later (record {
        table =
            reap_dead-OfTable (InPlace (set_agent c i s))
              (InTime (set_agent c i s) (answers_now said i s.node)) now (c.agent i).table
              old.table;
        queue = old.queue;
      }),
    )
Step-IsConsistent {c} said (checks i answers) v =
    let s = health_round (c.agent i) answers in
    let later = Reach-Later (v.in_range i) (health_round-Reach (c.agent i) answers) in
    (
      answers_now said i s.node,
      set_agent-IsConsistent c said i s v later (
          health_round-OfAgent (InPlace (set_agent c i s))
            (InTime (set_agent c i s) (answers_now said i s.node)) (c.agent i) answers
            (Known-on c said i s v later) (own_now c said i s v later)),
    )
Step-IsConsistent {c} said (leaves i) v =
    let s = record (c.agent i) { node = leave_node (c.agent i).node } in
    let later = Reach-Later (v.in_range i) (Reach.next Reach.here leaves_step) in
    let old = Known-on c said i s v later in
    (
      answers_now said i s.node,
      set_agent-IsConsistent c said i s v later (record { table = old.table; queue = old.queue }),
    )

start-IsConsistent : (c : Cluster) → IsStart c → IsConsistent c (λ j k. true)
unfolding lookup
start-IsConsistent c v = record {
  own_id = v.own_id;
  in_range = λ i. omega (arith, v.first i);
  own_answer = λ i h. v.ready i;
  agents = λ i. record {
    table = λ j m e. absurd (ground (arith, rw (v.no_table i) at e));
    queue = λ p k. absurd (subst (Elem p) (v.no_queue i) k);
  };
  air = λ r k. absurd (subst (Elem r) v.no_air k);
}

-- However nodes that have just started speak and hear, the cluster stays consistent.
pub Run-IsConsistent :
    {c d : Cluster} → IsStart c → Run c d → (said : Answers) × IsConsistent d said
Run-IsConsistent {c} v here = (λ j k. true, start-IsConsistent c v)
Run-IsConsistent v (next r s) = let (said, w) = Run-IsConsistent v r in Step-IsConsistent said s w
