-- ===== src/Detector/Failure.antt =====
-- A member that crashes: suspected when a probe fails, dead when the suspicion lasts, forgotten in the
-- end.
use dalila.Base.{
  ℕ, ◌+◌, ◌-◌, ◌≤◌, ◌<◌, ◌≡◌, ◌∷◌, [], refl, ◌∙◌, arith, ◌==◌, inr, ◌≢◌, true, false, Bool, List,
  lookup, some, none, Elem, map,
}
use dalila.Member.{Instant, NodeId, Member, MemberState}
use dalila.Wire.{WireMemberState, to_wire_state}
use dalila.Table.Invariant.{IsTable, remove_ids-IsTable}
use dalila.Table.{MemberTable, members_where, len, newer, rank}
use dalila.Table.Entry.{merge-outcome_of}
use dalila.Gossip.{Agent}
use dalila.Gossip.Apply.{IsAgent, apply-IsAgent}
use dalila.Gossip.News.{fresh, apply_news, apply-outcome}
use dalila.Detector.{
  mark, mark_rumor, mark_all_dead, handle_result, sweep_suspects, reap_dead, suspicion_timeout,
  reap_timeout, dead_expired,
}
use dalila.Detector.Timers.{died, lookup-mark, sweep_suspects_lem, lookup-reap_dead, one_of}

abbrev pub suspected : Instant → Member → Member
suspected now m = record m { state = MemberState.suspect now }

-- A failed probe of an alive member makes it suspect from now on, at the incarnation that it has, and
-- queues that for the cluster.
pub handle_result_suspects :
    (now : Instant) (s : Agent) (m : Member)
    → IsAgent s
    → lookup m.id s.table ≡ some m
    → m.state ≡ MemberState.alive
    → let s' = handle_result now s m false in
      (lookup m.id s'.table ≡ some (suspected now m))
      × Elem (fresh (mark_rumor m WireMemberState.suspect) (len s'.table + 1)) s'.queue
unfolding handle_result mark
handle_result_suspects now s m v e up =
    let r = mark_rumor m WireMemberState.suspect in
    let other : (m.id == s.node.id) ≡ false = ground (arith, v.table.others, e) in
    (
      lookup-mark now s m WireMemberState.suspect m.id ∙ rw (other, e) (ground (arith, up)),
      ((apply_news now s r).1 (
          inr (
            apply-outcome now s r
            ∙ merge-outcome_of now s.table r s.node.id
            ∙ rw (other, e) (ground (arith, up))))).0,
    )

doubt_again :
    (i : ℕ) (state : MemberState)
    → state ≢ MemberState.alive
    → newer i 1 i (rank (to_wire_state state)) ≡ false
doubt_again i MemberState.alive h = absurd (h refl)
doubt_again i (MemberState.suspect since) h = ground arith
doubt_again i (MemberState.dead since) h = ground arith

-- A failed probe of a well-formed agent's member that is suspect or dead already changes nothing:
-- the clock that runs keeps its start.
pub handle_result_keeps_clock :
    (now : Instant) (s : Agent) (m : Member)
    → IsAgent s
    → lookup m.id s.table ≡ some m
    → m.state ≢ MemberState.alive
    → handle_result now s m false ≡ s
unfolding handle_result mark
handle_result_keeps_clock now s m v e doubted =
    let r = mark_rumor m WireMemberState.suspect in
    let other : (m.id == s.node.id) ≡ false = ground (arith, v.table.others, e) in
    (apply_news now s r).0 (
      apply-outcome now s r
      ∙ merge-outcome_of now s.table r s.node.id
      ∙ rw (other, e, doubt_again m.incarnation m.state doubted))

pub mark-IsAgent :
    (now : Instant) (s : Agent) (m : Member) (state : WireMemberState)
    → IsAgent s
    → IsAgent (mark now s m state).0
unfolding mark
mark-IsAgent now s m state v = apply-IsAgent now s (mark_rumor m state) v

mark_all_dead-IsAgent :
    (now : Instant) (s : Agent) (ms : List Member) → IsAgent s → IsAgent (mark_all_dead now s ms)
unfolding mark_all_dead
mark_all_dead-IsAgent now s [] v = v
mark_all_dead-IsAgent now s (m ∷ ms) v =
    mark_all_dead-IsAgent now (mark now s m WireMemberState.dead).0 ms
      (mark-IsAgent now s m WireMemberState.dead v)

-- A sweep keeps the agent well formed.
pub sweep_suspects-IsAgent :
    (now : Instant) (s : Agent) → IsAgent s → IsAgent (sweep_suspects now s)
unfolding sweep_suspects
sweep_suspects-IsAgent now s v = mark_all_dead-IsAgent now s _ v

-- Forgetting the long dead leaves a table in order.
pub reap_dead-IsTable :
    (now : Instant) (t : MemberTable) (me : NodeId) → IsTable me t → IsTable me (reap_dead now t)
unfolding reap_dead
reap_dead-IsTable now t me v =
    remove_ids-IsTable t me (map (λ m. m.id) (members_where (λ m. dead_expired now m.state) t)) v

pub handle_result-IsAgent :
    (now : Instant) (s : Agent) (m : Member) (acked : Bool)
    → IsAgent s
    → IsAgent (handle_result now s m acked)
unfolding handle_result
handle_result-IsAgent now s m true v = v
handle_result-IsAgent now s m false v = mark-IsAgent now s m WireMemberState.suspect v

-- Of a well-formed agent's member that is alive, and of which no other news comes: a failed probe
-- makes it suspect; a sweep before the suspicion timeout leaves it so; a sweep after it declares it
-- dead; and a reap when the reap timeout has passed since then forgets it.
pub crash_forgotten :
    (probed early swept reaped : Instant) (s : Agent) (m : Member)
    → IsAgent s
    → lookup m.id s.table ≡ some m
    → m.state ≡ MemberState.alive
    → early - probed < suspicion_timeout
    → suspicion_timeout ≤ swept - probed
    → reap_timeout ≤ reaped - swept
    → let s₁ = handle_result probed s m false in
      let s₂ = sweep_suspects swept s₁ in
      (lookup m.id (sweep_suspects early s₁).table ≡ some (suspected probed m))
      × (lookup m.id s₂.table ≡ some (died swept m))
      × (lookup m.id (reap_dead reaped s₂.table) ≡ none)
crash_forgotten probed early swept reaped s m v e up h1 h2 h3 =
    let s₁ = handle_result probed s m false in
    let v₁ = handle_result-IsAgent probed s m false v in
    let e₁ = (handle_result_suspects probed s m v e up).0 in
    let s₂ = sweep_suspects swept s₁ in
    let v₂ = sweep_suspects-IsAgent swept s₁ v₁ in
    let e₂ : lookup m.id s₂.table ≡ some (died swept m) =
      (sweep_suspects_lem swept s₁ m.id v₁).0 (suspected probed m) e₁ (ground arith) in
    (
      (sweep_suspects_lem early s₁ m.id v₁).1 (λ x k. rw (one_of k e₁) (ground arith)) ∙ e₁,
      e₂,
      (lookup-reap_dead reaped s₂.table s₂.node.id m.id v₂.table).0 (died swept m) e₂
          (ground arith),
    )
