-- ===== src/Examples/Periods.antt =====
-- The theorems on the periods of a detector and on tables, on concrete states.
use dalila.Base.{
  Permᴰ, ◌<◌, ◌-◌, subst, sym, ap, ◌≤◌, length, ◌≡◌, refl, arith, false, List, [], ◌∷◌, none,
  lookup, insert, remove, sort,
}
use dalila.Base.Permᴰ
use dalila.Member.{Instant, is_unspecified}
use dalila.Wire.{WireMember, WireMemberState}
use dalila.Gossip.{apply, take}
use dalila.Acks.{register, resolve, next_seq, forget}
use dalila.Table.{MemberTable, merge}
use dalila.Table.Invariant.{IsTable}
use dalila.Table.Abstract.{Same, merge_each}
use dalila.Udp.{probe, send_ping, send_ping_req, ask_relays}
use dalila.Detector.{
  reap_timeout, next_target, pop_live, handle_result, mark, mark_all_dead, sweep_suspects,
  reap_dead,
}
use dalila.Detector.Loop.{Tick, Detector, tick}
use dalila.Detector.Detection.{IsSilent, AllSilent, Suspects, periods-Suspects}
use dalila.Detector.Death.{IsQuiet, Buries, periods-Buries}
use dalila.Gossip.Apply.{IsAgent}
use dalila.Proxy.{backends}
use dalila.Proxy.Hashing.{backends-merge_each}
use dalila.Examples.{
  us, member_b, member_c, two_members, two_members-IsTable, rumor_of, peer, agent-IsAgent,
}
use dalila.Examples.Clusters.{first_peer}
use dalila.Examples.Starting.{period}

abbrev first_detector : Detector
first_detector = record { peer = first_peer; order = [] }

abbrev fresh_detector : Detector
fresh_detector = record { peer = peer; order = [] }

silent :
    (d : Detector)
    → length d.peer.agent.table ≤ 2
    → (probe period.choose period.net d.peer member_b).1 ≡ false
    → IsSilent 2 member_b 2 period d
silent d small unanswered = record {
  keeps = λ p v. v;
  no_news = λ p e. e;
  shuffles = λ l. Permᴰ.refl l;
  small = small;
  unanswered = unanswered;
  soon = omega arith;
}

all_silent : AllSilent 2 member_b 2 (period ∷ period ∷ period ∷ []) fresh_detector
unfolding tick next_target pop_live probe send_ping send_ping_req ask_relays handle_result mark
    mark_all_dead sweep_suspects reap_dead apply merge lookup insert remove is_unspecified take sort
    register resolve next_seq forget
all_silent = (
  silent fresh_detector (omega arith) refl,
  (
    silent (tick period fresh_detector) (omega arith) refl,
    (silent (tick period (tick period fresh_detector)) (omega arith) refl, tt),
  ),
)

periods-Suspects_example : Suspects 2 member_b 2 (period ∷ period ∷ period ∷ []) fresh_detector
unfolding lookup
periods-Suspects_example =
    periods-Suspects 2 member_b 2 (period ∷ period ∷ period ∷ []) fresh_detector all_silent
      agent-IsAgent refl refl (omega arith)

abbrev last_period : Tick
last_period = record (period) { probed = 8000; swept = 9000; reaped = 9000 }

quiet :
    (t : Tick)
    → t.net.meanwhile ≡ (λ p. p)
    → t.shuffle ≡ (λ l. l)
    → t.reaped - t.swept < reap_timeout
    → IsQuiet 2 t
quiet t idle same prompt = record {
  keeps = λ p v. subst (λ f. IsAgent (f p).agent) (sym idle) v;
  no_news = λ p. ap (λ f. lookup 2 (f p).agent.table) idle;
  shuffles = λ l. subst (λ f. Permᴰ (f l) l) (sym same) (Permᴰ.refl l);
  prompt = prompt;
}

quiet_period : IsQuiet 2 period
quiet_period = quiet period refl refl (omega arith)

periods-Buries_example :
    Buries 2 (period ∷ period ∷ period ∷ last_period ∷ []) fresh_detector member_b
unfolding lookup
periods-Buries_example =
    periods-Buries 2 2 (period ∷ period ∷ period ∷ []) last_period fresh_detector member_b
      all_silent
      (
        quiet_period,
        (quiet_period, (quiet_period, (quiet last_period refl refl (omega arith), tt))),
      )
      (omega arith, (omega arith, (omega arith, tt))) agent-IsAgent refl refl (omega arith)

abbrev turned : MemberTable
turned = (3, member_c) ∷ (2, member_b) ∷ []

turned-IsTable : IsTable 1 turned
unfolding lookup is_unspecified
turned-IsTable = record {
  distinct = (refl, (refl, tt));
  others = refl;
  own_key = λ j m e. ground (arith, e);
  reachable = λ j m e. ground (arith, e);
}

two_members-turned : Same two_members turned
unfolding lookup
two_members-turned j = ground arith

abbrev news : List (Instant × WireMember)
news = (7, rumor_of 2 5 WireMemberState.dead) ∷ (8, rumor_of 4 0 WireMemberState.alive) ∷ []

backends-merge_each_example :
    ((merge_each news 1 two_members).1 ≡ (merge_each news 1 turned).1)
    × (backends us (merge_each news 1 two_members).0 8080 none
        ≡ backends us (merge_each news 1 turned).0 8080 none)
backends-merge_each_example =
    backends-merge_each us two_members turned 1 8080 none news two_members-IsTable turned-IsTable
      two_members-turned
