-- ===== src/Detector/Detection.antt =====
-- How soon the detector suspects a member that does not answer.
use dalila.Base.{
  ℕ, ◌+◌, ◌-◌, ◌≤◌, ◌<◌, ◌≡◌, refl, sym, ap, ◌∙◌, subst, arith, ◌==◌, Bool-cases, inl, inr, ◌⊎◌,
  false, List, [], ◌∷◌, ◌++◌, lookup, some, Permᴰ, length, ==_iff,
}
use dalila.Member.{NodeId, Member, MemberState}
use dalila.Gossip.Apply.{IsAgent}
use dalila.Udp.{Peer, probe}
use dalila.Udp.Keeping.{probe_keeps}
use dalila.Detector.{next_target, suspicion_timeout}
use dalila.Detector.Failure.{suspected}
use dalila.Detector.Rotation.{next_target_lem}
use dalila.Detector.Waiting.{wait, wait-bound, next_target-Nears}
use dalila.Detector.Accuracy.{Keeps, tick-IsAgent, tick_verdict}
use dalila.Detector.Loop.{Tick, Detector, tick, periods}

module _ (j : NodeId) (m : Member) (n : ℕ) where
  -- A period in which no news of the member comes, the table has at most `n` entries when it starts,
  -- a probe of the member fails, and the sweep comes within the suspicion timeout.
  pub record IsSilent (t : Tick) (d : Detector) : Type 0 where
    pub keeps : Keeps t
    pub no_news :
        (p : Peer)
        → lookup j p.agent.table ≡ some m
        → lookup j (t.net.meanwhile p).agent.table ≡ some m
    pub shuffles : (l : List NodeId) → Permᴰ (t.shuffle l) l
    pub small : length d.peer.agent.table ≤ n
    pub unanswered : (probe t.choose t.net d.peer m).1 ≡ false
    pub soon : t.swept - t.probed < suspicion_timeout

  abbrev pub AllSilent : List Tick → Detector → Type 0
  AllSilent [] d = Unit
  AllSilent (t ∷ ts) d = IsSilent t d × AllSilent ts (tick t d)

  -- After some of the periods, the member is suspect.
  pub record Suspects (ts : List Tick) (d : Detector) : Type 0 where
    pub before : List Tick
    pub at : Tick
    pub rest : List Tick
    pub split : ts ≡ before ++ (at ∷ rest)
    pub suspect :
        lookup j (periods (before ++ (at ∷ [])) d).peer.agent.table ≡ some (suspected at.probed m)

  module _ (t : Tick) (d : Detector) (v : IsSilent t d) (w : IsAgent d.peer.agent)
      (e : lookup j d.peer.agent.table ≡ some m) (up : m.state ≡ MemberState.alive) where
    kept : (k : Member) → lookup j (probe t.choose t.net d.peer k).0.agent.table ≡ some m
    kept k =
        probe_keeps t.net (λ a. lookup j a.table ≡ some m) (λ p f. f) v.no_news t.choose d.peer k e

    target_suspected :
        (next_target t.shuffle t.reshuffle d.peer.agent.table d.order).0 ≡ some m
        → lookup j (tick t d).peer.agent.table ≡ some (suspected t.probed m)
    target_suspected hit =
        let own : m.id ≡ j = w.table.own_key j m e in
        let after = (probe t.choose t.net d.peer m).0.agent.table in
        subst (λ x. lookup x (tick t d).peer.agent.table ≡ some (suspected t.probed m)) own
          ((tick_verdict t d m v.keeps w hit).1 (ap (λ x. lookup x after) own ∙ kept m) up
            v.unanswered v.soon)

    -- The period makes the member suspect, or leaves it as it is and comes nearer to it.
    silent_tick :
        (lookup j (tick t d).peer.agent.table ≡ some (suspected t.probed m))
        ⊎ ((lookup j (tick t d).peer.agent.table ≡ some m)
            × (wait n j (tick t d).order < wait n j d.order))
    unfolding tick
    silent_tick =
        let table = d.peer.agent.table in
        elim (next_target-Nears t.shuffle t.reshuffle n table j m d.order v.shuffles e (rw up refl)
          v.small) [
            | inl hit ↦ inl (target_suspected hit)
            | inr (k, hit, less) ↦
                let found : lookup k.id table ≡ some k =
                  ((next_target_lem t.shuffle t.reshuffle table d.peer.agent.node.id d.order
                      v.shuffles w.table).0
                    k hit).0 in
                elim (Bool-cases (k.id == j)) [
                  | inl own ↦
                      let same : k.id ≡ j = (==_iff k.id j).0 own in
                      let one : some k ≡ some m = sym found ∙ ap (λ x. lookup x table) same ∙ e in
                      inl (target_suspected (hit ∙ one))
                  | inr other ↦ inr (
                    (tick_verdict t d k v.keeps w hit).0 j m (kept k) up
                        (inr (ground (arith, other))),
                    less,
                  )
                ]
          ]

  later-Suspects :
      (t : Tick) (ts : List Tick) (d : Detector) → Suspects ts (tick t d) → Suspects (t ∷ ts) d
  unfolding periods
  later-Suspects t ts d s = record {
    before = t ∷ s.before;
    at = s.at;
    rest = s.rest;
    split = ap (◌∷◌ t) s.split;
    suspect = s.suspect;
  }

  waiting-Suspects :
      (ts : List Tick) (d : Detector)
      → AllSilent ts d
      → IsAgent d.peer.agent
      → lookup j d.peer.agent.table ≡ some m
      → m.state ≡ MemberState.alive
      → wait n j d.order < length ts
      → Suspects ts d
  unfolding periods
  waiting-Suspects [] d silent w e up long = absurd (omega (arith, long))
  waiting-Suspects (t ∷ ts) d (v, silent) w e up long = elim (silent_tick t d v w e up) [
    | inl hit ↦ record { before = []; at = t; rest = ts; split = refl; suspect = hit }
    | inr (same, less) ↦ later-Suspects t ts d (
        waiting-Suspects ts (tick t d) silent (tick-IsAgent t d v.keeps w) same up
          (omega (arith, less, long)))
  ]

  -- Let a well-formed agent have `m` alive as member `j`, and let there be more periods than the
  -- order has ids left and the table entries at the most. If at each period the table has at most
  -- `n` entries at its start, its shuffle permutes, what the other tasks do meanwhile keeps the
  -- agent well formed and brings no news of `j`, a probe of `m` would fail, and the sweep comes
  -- within the suspicion timeout of the probe, then one of the periods makes `j` suspect.
  pub periods-Suspects :
      (ts : List Tick) (d : Detector)
      → AllSilent ts d
      → IsAgent d.peer.agent
      → lookup j d.peer.agent.table ≡ some m
      → m.state ≡ MemberState.alive
      → length d.order + n < length ts
      → Suspects ts d
  periods-Suspects ts d silent w e up long =
      waiting-Suspects ts d silent w e up (omega (arith, wait-bound n j d.order, long))
