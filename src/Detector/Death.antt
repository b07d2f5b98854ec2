-- ===== src/Detector/Death.antt =====
-- How a member that does not answer comes to be dead.
use dalila.Base.{
  ℕ, ◌+◌, ◌-◌, ◌≤◌, ◌<◌, ◌≡◌, ◌≢◌, refl, sym, ap, ◌∙◌, subst, arith, ◌==◌, Bool-cases, inl, inr,
  Bool, true, false, List, [], ◌∷◌, ◌++◌, All, lookup, some, none, Option, Permᴰ, length, ==_iff,
}
use dalila.Member.{Instant, NodeId, Member, MemberState}
use dalila.Gossip.Apply.{IsAgent}
use dalila.Udp.{Peer, probe}
use dalila.Udp.Keeping.{probe_keeps, probe-IsAgent}
use dalila.Detector.{
  next_target, sweep_suspects, suspect_expired, dead_expired, suspicion_timeout, reap_timeout,
}
use dalila.Detector.Failure.{suspected, handle_result_keeps_clock, sweep_suspects-IsAgent}
use dalila.Detector.Timers.{died, sweep_suspects_lem, lookup-reap_dead, one_of}
use dalila.Detector.Rotation.{next_target_lem}
use dalila.Detector.Accuracy.{
  Keeps, tick-IsAgent, probed-IsAgent, timeouts_spare, handle_result_spares,
}
use dalila.Detector.Detection.{AllSilent, periods-Suspects}
use dalila.Detector.Loop.{Tick, Detector, judged, probed_target, tick, periods}

module _ (j : NodeId) where
  -- A period in which no news of the member comes, and whose reap follows its sweep soon.
  pub record IsQuiet (t : Tick) : Type 0 where
    pub keeps : Keeps t
    pub no_news : (p : Peer) → lookup j (t.net.meanwhile p).agent.table ≡ lookup j p.agent.table
    pub shuffles : (l : List NodeId) → Permᴰ (t.shuffle l) l
    pub prompt : t.reaped - t.swept < reap_timeout

  module _ (m : Member) (since : Instant) where
    -- A result, of whomever, leaves the suspect as it is.
    judged_suspect :
        (t : Tick) (done : Peer × Bool) (k : Member)
        → IsAgent done.0.agent
        → lookup j done.0.agent.table ≡ some (suspected since m)
        → (k.id ≡ j → k ≡ suspected since m)
        → lookup j (judged t done k).agent.table ≡ some (suspected since m)
    judged_suspect t (p, true) k w e same =
        handle_result_spares t.probed p.agent k true j (inl refl) ∙ e
    judged_suspect t (p, false) k w e same = elim (Bool-cases (k.id == j)) [
      | inl own ↦
          let here : k.id ≡ j = (==_iff k.id j).0 own in
          let found : lookup k.id p.agent.table ≡ some k =
            ap (λ x. lookup x p.agent.table) here ∙ e ∙ ap some (sym (same here)) in
          let doubted : k.state ≢ MemberState.alive = λ h. absurd (cc) in
          ap (λ s. lookup j s.table) (handle_result_keeps_clock t.probed p.agent k w found doubted)
          ∙ e
      | inr other ↦
          handle_result_spares t.probed p.agent k false j (inr (ground (arith, other))) ∙ e
    ]

    module _ (t : Tick) (d : Detector) (v : IsQuiet t) (w : IsAgent d.peer.agent)
        (e : lookup j d.peer.agent.table ≡ some (suspected since m)) where
      probed_suspect :
          (o : Option Member)
          → (next_target t.shuffle t.reshuffle d.peer.agent.table d.order).0 ≡ o
          → lookup j (probed_target t d.peer o).agent.table ≡ some (suspected since m)
      probed_suspect none picked = e
      probed_suspect (some k) picked =
          let table = d.peer.agent.table in
          let known =
            next_target_lem t.shuffle t.reshuffle table d.peer.agent.node.id d.order v.shuffles
              w.table in
          let found : lookup k.id table ≡ some k = (known.0 k picked).0 in
          judged_suspect t (probe t.choose t.net d.peer k) k
            (probe-IsAgent t.net v.keeps t.choose d.peer k w)
            (probe_keeps t.net (λ s. lookup j s.table ≡ some (suspected since m)) (λ p f. f)
              (λ p f. v.no_news p ∙ f) t.choose d.peer k e)
            (λ own. one_of (ap (λ x. lookup x table) (sym own) ∙ found) e)

      -- The period leaves the suspect as it is, until the sweep that finds its time over.
      quiet_tick :
          (suspect_expired t.swept (MemberState.suspect since) ≡ true
            → lookup j (tick t d).peer.agent.table ≡ some (died t.swept (suspected since m)))
          × (suspect_expired t.swept (MemberState.suspect since) ≡ false
              → lookup j (tick t d).peer.agent.table ≡ some (suspected since m))
      unfolding tick
      quiet_tick =
          let o = (next_target t.shuffle t.reshuffle d.peer.agent.table d.order).0 in
          let p = probed_target t d.peer o in
          let held = probed_suspect o refl in
          let wp = probed-IsAgent t d.peer o v.keeps w in
          let gone = died t.swept (suspected since m) in
          (
            λ over.
                let swept =
                  (sweep_suspects_lem t.swept p.agent j wp).0 (suspected since m) held over in
                (lookup-reap_dead t.reaped (sweep_suspects t.swept p.agent).table _ j
                    (sweep_suspects-IsAgent t.swept p.agent wp).table).1
                  (λ m' e'.
                    subst (λ x. dead_expired t.reaped x.state ≡ false) (one_of swept e')
                      (ground (arith, v.prompt)))
                ∙ swept,
            λ young. timeouts_spare t p j (suspected since m) wp held young refl,
          )

  -- After some of the periods, the member is dead: the sweep of one of them found the suspicion's time
  -- over.
  record Dies (ts : List Tick) (d : Detector) (m : Member) (since : Instant) : Type 0 where
    wait : List Tick
    at : Tick
    rest : List Tick
    split : ts ≡ wait ++ (at ∷ rest)
    over : suspicion_timeout ≤ at.swept - since
    dead : lookup j (periods (wait ++ (at ∷ [])) d).peer.agent.table ≡ some (died at.swept m)

  later-Dies :
      (t : Tick) (ts : List Tick) (d : Detector) (m : Member) (since : Instant)
      → Dies ts (tick t d) m since
      → Dies (t ∷ ts) d m since
  unfolding periods
  later-Dies t ts d m since b = record {
    wait = t ∷ b.wait;
    at = b.at;
    rest = b.rest;
    split = ap (◌∷◌ t) b.split;
    over = b.over;
    dead = b.dead;
  }

  -- A suspect whose time is over at some sweep is dead by then.
  suspect-Dies :
      (ts : List Tick) (t : Tick) (later : List Tick) (d : Detector) (m : Member) (since : Instant)
      → All IsQuiet (ts ++ (t ∷ later))
      → IsAgent d.peer.agent
      → lookup j d.peer.agent.table ≡ some (suspected since m)
      → suspicion_timeout ≤ t.swept - since
      → Dies (ts ++ (t ∷ later)) d m since
  unfolding periods
  suspect-Dies [] t later d m since (v, all) w e over = record {
    wait = [];
    at = t;
    rest = later;
    split = refl;
    over = over;
    dead = (quiet_tick m since t d v w e).0 (ground (arith, over));
  }
  suspect-Dies (u ∷ ts) t later d m since (v, all) w e over =
      elim (Bool-cases (suspect_expired u.swept (MemberState.suspect since))) [
        | inl now ↦ record {
          wait = [];
          at = u;
          rest = ts ++ (t ∷ later);
          split = refl;
          over = ground (arith, now);
          dead = (quiet_tick m since u d v w e).0 now;
        }
        | inr young ↦ later-Dies u (ts ++ (t ∷ later)) d m since (
            suspect-Dies ts t later (tick u d) m since all (tick-IsAgent u d v.keeps w)
              ((quiet_tick m since u d v w e).1 young) over)
      ]

  -- One of the periods makes the member suspect, from its probe on; and a later one, whose sweep comes
  -- at least the suspicion timeout after that probe, makes it dead, from that sweep on.
  pub record Buries (ts : List Tick) (d : Detector) (m : Member) : Type 0 where
    pub before : List Tick
    pub doubter : Tick
    pub wait : List Tick
    pub at : Tick
    pub rest : List Tick
    pub split : ts ≡ before ++ (doubter ∷ (wait ++ (at ∷ rest)))
    pub suspect :
        lookup j (periods (before ++ (doubter ∷ [])) d).peer.agent.table
        ≡ some (suspected doubter.probed m)
    pub over : suspicion_timeout ≤ at.swept - doubter.probed
    pub dead :
        lookup j (periods (before ++ (doubter ∷ (wait ++ (at ∷ [])))) d).peer.agent.table
        ≡ some (died at.swept m)

  -- From a period that makes the member suspect.
  after-Buries :
      (before : List Tick) (at : Tick) (rest : List Tick) (t : Tick) (d : Detector) (m : Member)
      → All IsQuiet ((before ++ (at ∷ rest)) ++ (t ∷ []))
      → IsAgent d.peer.agent
      → lookup j (periods (before ++ (at ∷ [])) d).peer.agent.table ≡ some (suspected at.probed m)
      → suspicion_timeout ≤ t.swept - at.probed
      → Buries ((before ++ (at ∷ rest)) ++ (t ∷ [])) d m
  unfolding periods
  after-Buries [] at rest t d m (v, all) w e over =
      let b =
        suspect-Dies rest t [] (tick at d) m at.probed all (tick-IsAgent at d v.keeps w) e over in
      record {
        before = [];
        doubter = at;
        wait = b.wait;
        at = b.at;
        rest = b.rest;
        split = ap (◌∷◌ at) b.split;
        suspect = e;
        over = b.over;
        dead = b.dead;
      }
  after-Buries (u ∷ before) at rest t d m (v, all) w e over =
      let b = after-Buries before at rest t (tick u d) m all (tick-IsAgent u d v.keeps w) e over in
      record {
        before = u ∷ b.before;
        doubter = b.doubter;
        wait = b.wait;
        at = b.at;
        rest = b.rest;
        split = ap (◌∷◌ u) b.split;
        suspect = b.suspect;
        over = b.over;
        dead = b.dead;
      }

  All-middle :
      (P : Tick → Type 0) (before : List Tick) (at : Tick) (rest : List Tick)
      → All P (before ++ (at ∷ rest))
      → P at
  All-middle P [] at rest (p, all) = p
  All-middle P (u ∷ before) at rest (p, all) = All-middle P before at rest all

  -- Let a well-formed agent have `m` alive as member `j`. Let it run first more periods than the
  -- order has ids left and the table entries at the most, in each of which the table has at most
  -- `n` entries at its start, a probe of `m` would fail, and the sweep comes within the suspicion
  -- timeout of the probe; and then one more, whose sweep comes at least the suspicion timeout after
  -- each of those probes. If in every period the shuffle permutes, what the other tasks do
  -- meanwhile keeps the agent well formed and does not change the entry of `j`, and the reap
  -- follows the sweep within the reap timeout, then one of the periods makes `j` suspect from its
  -- probe on, and a later one, whose sweep comes at least the suspicion timeout after that probe,
  -- leaves `j` dead from that sweep on.
  pub periods-Buries :
      (n : ℕ) (ts : List Tick) (t : Tick) (d : Detector) (m : Member)
      → AllSilent j m n ts d
      → All IsQuiet (ts ++ (t ∷ []))
      → All (λ u. suspicion_timeout ≤ t.swept - u.probed) ts
      → IsAgent d.peer.agent
      → lookup j d.peer.agent.table ≡ some m
      → m.state ≡ MemberState.alive
      → length d.order + n < length ts
      → Buries (ts ++ (t ∷ [])) d m
  periods-Buries n ts t d m silent quiet over w e up long =
      let s = periods-Suspects j m n ts d silent w e up long in
      subst (λ x. Buries (x ++ (t ∷ [])) d m) (sym s.split)
        (after-Buries s.before s.at s.rest t d m
          (subst (λ x. All IsQuiet (x ++ (t ∷ []))) s.split quiet) w s.suspect
          (All-middle (λ u. suspicion_timeout ≤ t.swept - u.probed) s.before s.at s.rest
            (subst (λ x. All (λ (u : Tick). suspicion_timeout ≤ t.swept - u.probed) x) s.split
              over)))
