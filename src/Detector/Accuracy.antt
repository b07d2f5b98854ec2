-- ===== src/Detector/Accuracy.antt =====
-- What a protocol period does to the members: whom it comes to suspect, and whom it leaves alone.
use dalila.Base.{
  ◌≡◌, ◌≢◌, refl, ◌∙◌, subst, arith, Bool, true, false, List, [], ◌∷◌, none, some, Option, lookup,
  Bool-cases, inl, inr, ◌==◌, ◌⊎◌, ◌-◌, ◌<◌,
}
use dalila.Member.{Instant, NodeId, Member, MemberState}
use dalila.Wire.{WireMemberState}
use dalila.Gossip.{Agent}
use dalila.Gossip.Apply.{IsAgent}
use dalila.Udp.{Peer, probe}
use dalila.Udp.Keeping.{probe-IsAgent}
use dalila.Detector.{
  next_target, handle_result, sweep_suspects, suspect_expired, dead_expired, suspicion_timeout,
}
use dalila.Detector.Failure.{
  handle_result-IsAgent, sweep_suspects-IsAgent, handle_result_suspects, reap_dead-IsTable,
  suspected,
}
use dalila.Detector.Timers.{lookup-mark, sweep_suspects_lem, lookup-reap_dead, one_of}
use dalila.Detector.Loop.{
  Tick, Detector, judged, probed_target, reaped_agent, timed_out, tick, periods,
}

-- The tasks that run while a period waits keep the agent in order.
abbrev pub Keeps : Tick → Type 0
Keeps t = (p : Peer) → IsAgent p.agent → IsAgent (t.net.meanwhile p).agent

reaped-IsAgent : (now : Instant) (s : Agent) → IsAgent s → IsAgent (reaped_agent now s)
reaped-IsAgent now s v = record {
  table = reap_dead-IsTable now s.table s.node.id v.table;
  queue = v.queue;
  node = v.node;
}

pub probed-IsAgent :
    (t : Tick) (p : Peer) (target : Option Member)
    → Keeps t
    → IsAgent p.agent
    → IsAgent (probed_target t p target).agent
probed-IsAgent t p none keeps v = v
probed-IsAgent t p (some m) keeps v =
    handle_result-IsAgent t.probed _ m _ (probe-IsAgent t.net keeps t.choose p m v)

pub tick-IsAgent :
    (t : Tick) (d : Detector) → Keeps t → IsAgent d.peer.agent → IsAgent (tick t d).peer.agent
unfolding tick
tick-IsAgent t d keeps v =
    reaped-IsAgent t.reaped _ (sweep_suspects-IsAgent t.swept _ (probed-IsAgent t d.peer _ keeps v))

abbrev pub AllKeep : List Tick → Type 0
AllKeep [] = Unit
AllKeep (t ∷ ts) = Keeps t × AllKeep ts

-- If the tasks that run while a period waits keep the agent well formed, for each of some periods,
-- then these periods keep it well formed.
pub periods-IsAgent :
    (ts : List Tick) (d : Detector)
    → AllKeep ts
    → IsAgent d.peer.agent
    → IsAgent (periods ts d).peer.agent
unfolding periods
periods-IsAgent [] d keeps v = v
periods-IsAgent (t ∷ ts) d (keep, keeps) v =
    periods-IsAgent ts (tick t d) keeps (tick-IsAgent t d keep v)

-- The timeouts of a period leave a member alone that is alive, or that has been suspect for less
-- than the timeout.
pub timeouts_spare :
    (t : Tick) (p : Peer) (j : NodeId) (m : Member)
    → IsAgent p.agent
    → lookup j p.agent.table ≡ some m
    → suspect_expired t.swept m.state ≡ false
    → dead_expired t.reaped m.state ≡ false
    → lookup j (timed_out t p).agent.table ≡ some m
timeouts_spare t p j m v e young fresh =
    let swept : lookup j (sweep_suspects t.swept p.agent).table ≡ some m =
      (sweep_suspects_lem t.swept p.agent j v).1
        (λ m' e'. subst (λ x. suspect_expired t.swept x.state ≡ false) (one_of e e') young)
      ∙ e in
    (lookup-reap_dead t.reaped (sweep_suspects t.swept p.agent).table _ j
        (sweep_suspects-IsAgent t.swept p.agent v).table).1
      (λ m' e'. subst (λ x. dead_expired t.reaped x.state ≡ false) (one_of swept e') fresh)
    ∙ swept

-- A result leaves every member but an unanswered target as it is.
pub handle_result_spares :
    (now : Instant) (s : Agent) (target : Member) (acked : Bool) (j : NodeId)
    → (acked ≡ true) ⊎ (target.id ≢ j)
    → lookup j (handle_result now s target acked).table ≡ lookup j s.table
unfolding handle_result
handle_result_spares now s target true j why = refl
handle_result_spares now s target false j (inl e) = absurd (cc)
handle_result_spares now s target false j (inr other) =
    let no_match : (target.id == j) ≡ false = ground (arith, other) in
    lookup-mark now s target WireMemberState.suspect j
    ∙ elim (Bool-cases (target.id == s.node.id)) [
      | inl e ↦ rw e refl
      | inr e ↦ rw (e, no_match) refl
    ]

-- Let a period have a target, let the agent be well formed, and let the tasks that run meanwhile
-- keep it so. Every member that is alive when the probe is over, and is not the target or the probe
-- succeeded, is in the table unchanged at the period's end. If the probe failed, the target was
-- alive, its entry is still the same then, and the sweep comes within the suspicion timeout, then
-- the target is suspect at the end, since the probe.
pub tick_verdict :
    (t : Tick) (d : Detector) (target : Member)
    → Keeps t
    → IsAgent d.peer.agent
    → (next_target t.shuffle t.reshuffle d.peer.agent.table d.order).0 ≡ some target
    → let (p, acked) = probe t.choose t.net d.peer target in
      ((j : NodeId) (m : Member)
        → lookup j p.agent.table ≡ some m
        → m.state ≡ MemberState.alive
        → (acked ≡ true) ⊎ (target.id ≢ j)
        → lookup j (tick t d).peer.agent.table ≡ some m)
      × (lookup target.id p.agent.table ≡ some target
          → target.state ≡ MemberState.alive
          → acked ≡ false
          → t.swept - t.probed < suspicion_timeout
          → lookup target.id (tick t d).peer.agent.table ≡ some (suspected t.probed target))
unfolding tick
tick_verdict t d target keeps v picked =
    let p = (probe t.choose t.net d.peer target).0 in
    let acked = (probe t.choose t.net d.peer target).1 in
    let w = probe-IsAgent t.net keeps t.choose d.peer target v in
    (
      λ j m e up why. rw picked (
          timeouts_spare t (judged t (p, acked) target) j m
            (handle_result-IsAgent t.probed p.agent target acked w)
            (handle_result_spares t.probed p.agent target acked j why ∙ e) (rw up refl)
            (rw up refl)),
      λ e up silent soon. rw picked (
          timeouts_spare t (judged t (p, acked) target) target.id (suspected t.probed target)
            (handle_result-IsAgent t.probed p.agent target acked w)
            (rw silent ((handle_result_suspects t.probed p.agent target w e up).0)) (ground arith)
            refl),
    )
