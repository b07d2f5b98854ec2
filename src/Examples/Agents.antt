-- ===== src/Examples/Agents.antt =====
-- The theorems on the queue, on `apply` and on the detector, on concrete states.
use dalila.Base.{◌≡◌, refl, false, [], none, some, lookup, arith}
use dalila.Member.{NodeId}
use dalila.Wire.{WireMember, WireMemberState}
use dalila.Gossip.Counts.{budget, sends}
use dalila.Gossip.Sending.{packets, packets_drain}
use dalila.Detector.{handle_result, sweep_suspects, reap_dead}
use dalila.Detector.Timers.{died}
use dalila.Detector.Failure.{suspected, crash_forgotten}
use dalila.Examples.{member_b, rumor_of, two_rumors, agent, two_rumors-IsQueue, agent-IsAgent}

packets_drain_example :
    ((packets 4 two_rumors).0 ≡ [])
    × ((id : NodeId) → sends id (packets 4 two_rumors).1 ≡ budget id two_rumors)
packets_drain_example = packets_drain 4 two_rumors two_rumors-IsQueue (omega arith)

abbrev doubt_b : WireMember
doubt_b = rumor_of 2 1 WireMemberState.suspect

crash_forgotten_example :
    let s₁ = handle_result 1000 agent member_b false in
    let s₂ = sweep_suspects 6000 s₁ in
    (lookup 2 (sweep_suspects 5999 s₁).table ≡ some (suspected 1000 member_b))
    × (lookup 2 s₂.table ≡ some (died 6000 member_b))
    × (lookup 2 (reap_dead 36000 s₂.table) ≡ none)
unfolding lookup
crash_forgotten_example =
    crash_forgotten 1000 5999 6000 36000 agent member_b agent-IsAgent refl refl (omega arith)
      (omega arith) (omega arith)
