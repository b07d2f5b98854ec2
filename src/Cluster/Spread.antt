-- ===== src/Cluster/Spread.antt =====
-- What the consistency of a cluster gives: how far rumors can be ahead, and what is taken where it
-- is heard.
use dalila.Base.{
  ◌≡◌, ◌≢◌, ◌≤◌, ◌<◌, sym, ap, ◌∙◌, subst, Bool, true, false, arith, some, ◌==◌, lookup, Elem,
  ==_refl,
}
use dalila.Member.{Instant, NodeId, Member, u32_max}
use dalila.Wire.{WireMember, to_wire, to_wire_state}
use dalila.Node.{LocalNode, identity, alive_rumor}
use dalila.Node.Steps.{Reach-Later}
use dalila.Table.{merge, updated, ignored, rank, overwrite, supersedes}
use dalila.Table.Entry.{lookup-merge, merge-outcome_of, outcome_of}
use dalila.Table.Order.{belief, merge_stale}
use dalila.Table.Convergence.{Agree}
use dalila.Udp.{leave_rumor}
use dalila.Health.{health_round}
use dalila.Health.Readiness.{health_reaches, health_round-Reach}
use dalila.Join.{handle_request, sync_opening, handle_sync_reply}
use dalila.Join.Exchange.{sync_agrees}
use dalila.Cluster.{Cluster, Run, IsStart}
use dalila.Cluster.Consistency.{Answers, Fits}
use dalila.Cluster.Runs.{Run-IsConsistent}
use dalila.Cluster.Moves.{Run-AllAgents, Run-Later, Run-append, start-AllAgents}

-- Let nodes that have just started, and know nobody, say, hear, check, reap, pack and leave, in any
-- order, any number of times. Then an entry in a node's table for another id is under its subject's
-- id, has the address and the tags of the process with that id, and is at no later incarnation than
-- that process; and if it is at the same one, below the largest, it has that process's readiness.
pub nobody_ahead :
    {c d : Cluster} (i j : NodeId) (m : Member)
    → IsStart c
    → Run c d
    → lookup j (d.agent i).table ≡ some m
    → let n = (d.agent j).node in
      (m.id ≡ j)
      × (m.addr ≡ n.addr)
      × (m.tags ≡ n.tags)
      × (m.incarnation ≤ n.incarnation)
      × (m.incarnation ≡ n.incarnation → n.incarnation < u32_max → m.ready ≡ n.ready)
nobody_ahead {d = d} i j m v run e =
    let (said, w) = Run-IsConsistent v run in
    let (named, fits) = (w.agents i).table j m e in
    let (at, known) = fits in
    let (old, tagged, told) = known in
    let n = λ (x : NodeId). (d.agent x).node in
    (
      named,
      at ∙ ap (λ x. (n x).addr) named,
      tagged ∙ ap (λ x. (n x).tags) named,
      subst (λ x. m.incarnation ≤ (n x).incarnation) named old,
      λ same small.
          told (omega (arith, same, small))
          ∙ (ap (λ x. said x m.incarnation) named)
          ∙ ap (said j) same
          ∙ sym (w.own_answer j small),
    )

pub Fits-Agree :
    (c : Cluster) (said : Answers) (r s : WireMember)
    → Fits c said r
    → Fits c said s
    → r.incarnation < u32_max
    → Agree r s
Fits-Agree c said r s f g small same k e = (
  f.1.2 small
      ∙ ap (λ x. said x r.incarnation) same
      ∙ ap (said s.id) k
      ∙ sym (g.1.2 (omega (arith, k, small))),
  f.1.1 ∙ ap (λ x. (c.agent x).node.tags) same ∙ sym g.1.1,
)

pub at_home :
    (n : LocalNode) (m : Member)
    → m.id ≡ n.id
    → m.addr ≡ n.addr
    → record (alive_rumor n) { id = m.id; addr = m.addr } ≡ alive_rumor n
at_home n m e f = rw (e, f)

-- Let nodes that have just started, and know nobody, say, hear, check, reap, pack and leave, in any
-- order, any number of times. Then let a node that is not leaving and is below the largest
-- incarnation have an answer from its app that is not its readiness. After a round of the health
-- check the node has that readiness; and any other node that has an entry for it, when it merges
-- the record that the node gives of itself, believes that record.
pub health_spreads :
    {c d : Cluster} (i k : NodeId) (answers : Bool) (now : Instant) (m : Member)
    → IsStart c
    → Run c d
    → (d.agent i).node.leaving ≡ false
    → (d.agent i).node.ready ≢ answers
    → (d.agent i).node.incarnation < u32_max
    → i ≢ k
    → lookup i (d.agent k).table ≡ some m
    → let s = health_round (d.agent i) answers in
      (s.node.ready ≡ answers)
      × (belief (merge now (d.agent k).table (alive_rumor s.node) k).0 i
          ≡ some (alive_rumor s.node))
health_spreads {d = d} i k answers now m v run stays differs small other e =
    let same = (Run-IsConsistent v run).1.own_id i in
    let (named, at, tagged, old, told) = nobody_ahead k i m v run e in
    let s = health_round (d.agent i) answers in
    let a = Reach-Later (omega (arith, small)) (health_round-Reach (d.agent i) answers) in
    let (took, queued, outcome, believed) =
      health_reaches (d.agent i) answers now (d.agent k).table k m stays differs small
        (λ h. other (sym same ∙ h)) (ap (λ x. lookup x (d.agent k).table) same ∙ e) old in
    (
      took,
      subst
          (λ x.
            belief (merge now (d.agent k).table (alive_rumor s.node) k).0 x
            ≡ some (alive_rumor s.node))
          same
          (believed
            ∙ ap some (at_home s.node m (named ∙ sym same ∙ sym a.same_id) (at ∙ sym a.same_addr))),
    )

-- Let nodes that have just started, and know nobody, say, hear, check, reap, pack and leave, in any
-- order, any number of times. Then let a node be leaving, and let another node have an entry for it
-- that is not dead. That node takes the leave as an update; and the table that the leave makes
-- ignores, as it is, every rumor about the node that is on its way then or after any further run.
pub leave_spreads :
    {c d f : Cluster} (i k : NodeId) (now later : Instant) (m : Member) (r : WireMember)
    → IsStart c
    → Run c d
    → (d.agent i).node.leaving ≡ true
    → i ≢ k
    → lookup i (d.agent k).table ≡ some m
    → rank (to_wire_state m.state) < 2
    → Run d f
    → Elem r f.air
    → r.id ≡ i
    → let t = (merge now (d.agent k).table (leave_rumor (identity (d.agent i).node)) k).0 in
      ((merge now (d.agent k).table (leave_rumor (identity (d.agent i).node)) k).1 ≡ updated)
      × (merge later t r k ≡ (t, ignored))
leave_spreads {c} {d} {f} i k now later m r v run gone other e open_entry more flying about =
    let same = (Run-IsConsistent v run).1.own_id i in
    let (named, at, tagged, old, told) = nobody_ahead k i m v run e in
    let all_d = Run-AllAgents run (start-AllAgents c v) in
    let still = (Run-Later more all_d i).final gone in
    let (said, w) = Run-IsConsistent v (Run-append run more) in
    let bound : r.incarnation ≤ (d.agent i).node.incarnation = omega (
      arith,
      subst (λ x. r.incarnation ≤ (f.agent x).node.incarnation) about (w.air r flying).1.0,
      still.0,
    ) in
    let bye = leave_rumor (identity (d.agent i).node) in
    let t = (merge now (d.agent k).table bye k).0 in
    let found : lookup bye.id (d.agent k).table ≡ some m =
      ap (λ x. lookup x (d.agent k).table) same ∙ e in
    let not_own : (bye.id == k) ≡ false = ground (arith, same, other) in
    let beats : supersedes bye m ≡ true = ground (arith, old, open_entry) in
    let at_bye : lookup bye.id t ≡ some (overwrite now bye m) =
      lookup-merge now (d.agent k).table bye k bye.id ∙ rw (not_own, ==_refl, found, beats) in
    let died : lookup r.id t ≡ some (overwrite now bye m) =
      ap (λ x. lookup x t) (about ∙ sym same) ∙ at_bye in
    let stale : outcome_of r (lookup r.id t) ≡ ignored = rw died (ground (arith, bound)) in
    let not_k : (r.id == k) ≡ false = ground (arith, about, other) in
    (
      merge-outcome_of now (d.agent k).table bye k ∙ rw (not_own, found, beats),
      merge_stale later t r k stale ∙ rw not_k,
    )

-- Let nodes that have just started, and know nobody, say, hear, check, reap, pack and leave, in any
-- order, any number of times. When a node then asks another for a sync, and absorbs the reply
-- before either hears anything else, the two believe the same of every third member that both held
-- before, if its entry at the first was below the largest incarnation.
pub sync_everywhere :
    {c d : Cluster} (now later : Instant) (i k j : NodeId) (m m' : Member)
    → IsStart c
    → Run c d
    → i ≢ j
    → k ≢ j
    → lookup j (d.agent i).table ≡ some m
    → lookup j (d.agent k).table ≡ some m'
    → m.incarnation < u32_max
    → let (b, reply) = handle_request now (d.agent k) (sync_opening (d.agent i)) in
      let a = handle_sync_reply later (d.agent i) reply in belief a.table j ≡ belief b.table j
sync_everywhere {c} {d} now later i k j m m' v run third third' e e' small =
    let (said, w) = Run-IsConsistent v run in
    let all = Run-AllAgents run (start-AllAgents c v) in
    let (named, at, tagged, old, told) = nobody_ahead i j m v run e in
    let (named', at', tagged', old', told') = nobody_ahead k j m' v run e' in
    sync_agrees now later (d.agent i) (d.agent k) j m m' (all i).table (all k).table
      (λ h. third (sym (w.own_id i) ∙ h)) (λ h. third' (sym (w.own_id k) ∙ h)) e e' (at ∙ sym at')
      (Fits-Agree d said (to_wire m) (to_wire m') ((w.agents i).table j m e).1
        ((w.agents k).table j m' e').1 small)
