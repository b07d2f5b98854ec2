-- ===== src/Cluster/Consistency.antt =====
-- What holds of every rumor in the cluster: it names a node's address and tags as they are, no
-- incarnation is ahead of the node's own, and for each incarnation there is one answer of its app.
use dalila.Base.{
  ◌≡◌, ◌≤◌, ◌<◌, refl, sym, ap, ◌∙◌, subst, Bool, arith, List, ◌==◌, ◌&&◌, if◌then◌else◌, Elem,
  Bool-cases, inl, inr, ==_refl, ==_iff,
}
use dalila.Member.{NodeId, SocketAddr, Incarnation, Text, u32_max}
use dalila.Wire.{WireMember}
use dalila.Node.{LocalNode, alive_rumor}
use dalila.Node.Steps.{Later, Reach, Reach-Later}
use dalila.Gossip.{Agent}
use dalila.Cluster.{Cluster, set_agent}
use dalila.Cluster.Facts.{OfRumor, OfAgent, OfRumor-mono, OfAgent-mono}

-- Which answer of its app each node gave at each incarnation.
abbrev pub Answers : Type 0
Answers = NodeId → Incarnation → Bool

abbrev pub InPlace : Cluster → NodeId → SocketAddr → Type 0
InPlace c j a = a ≡ (c.agent j).node.addr

-- At its largest value an incarnation can no longer tell two answers apart.
abbrev pub InTime : Cluster → Answers → NodeId → Incarnation → Bool → List Text → Type 0
InTime c said j k ready tags =
    (k ≤ (c.agent j).node.incarnation)
    × (tags ≡ (c.agent j).node.tags)
    × (k < u32_max → ready ≡ said j k)

abbrev pub Fits : Cluster → Answers → WireMember → Type 0
Fits c said r = OfRumor (InPlace c) (InTime c said) r

pub record IsConsistent (c : Cluster) (said : Answers) : Type 0 where
  pub own_id : (i : NodeId) → (c.agent i).node.id ≡ i
  pub in_range : (i : NodeId) → (c.agent i).node.incarnation ≤ u32_max
  pub own_answer :
      (i : NodeId)
      → (c.agent i).node.incarnation < u32_max
      → (c.agent i).node.ready ≡ said i (c.agent i).node.incarnation
  pub agents : (i : NodeId) → OfAgent (InPlace c) (InTime c said) (c.agent i)
  pub air : (r : WireMember) → Elem r c.air → Fits c said r

-- The answers given, when node `i` is as `n` now.
abbrev pub answers_now : Answers → NodeId → LocalNode → Answers
answers_now said i n j k = if j == i && k == n.incarnation then n.ready else said j k

-- A node's own record fits.
pub own_record_fits :
    (c : Cluster) (said : Answers)
    → ((i : NodeId) → (c.agent i).node.id ≡ i)
    → ((i : NodeId)
        → (c.agent i).node.incarnation < u32_max
        → (c.agent i).node.ready ≡ said i (c.agent i).node.incarnation)
    → (j : NodeId) → Fits c said (alive_rumor (c.agent j).node)
own_record_fits c said ids answers j =
    let n = (c.agent j).node in
    (
      subst (λ x. n.addr ≡ (c.agent x).node.addr) (sym (ids j)) refl,
      subst (λ x. InTime c said x n.incarnation n.ready n.tags) (sym (ids j))
          (omega arith, refl, answers j),
    )

abbrev Known : Cluster → Answers → Agent → Type 0
Known c said s = OfAgent (InPlace c) (InTime c said) s

module _ (c : Cluster) (said : Answers) (i : NodeId) (s : Agent) (v : IsConsistent c said)
    (later : Later (c.agent i).node s.node) where
  abbrev pub now_said : Answers
  now_said = answers_now said i s.node

  abbrev pub after : Cluster
  after = set_agent c i s

  moved : (j : NodeId) → Later (c.agent j).node (after.agent j).node
  moved j = elim (Bool-cases (j == i)) [
    | inl e ↦ let same : j ≡ i = (==_iff j i).0 e in rw (e, same) later
    | inr e ↦ rw e (Reach-Later (v.in_range j) Reach.here)
  ]

  said_before :
      (j : NodeId) (k : Incarnation)
      → k ≤ (c.agent j).node.incarnation
      → k < u32_max
      → said j k ≡ now_said j k
  said_before j k old small = elim (Bool-cases (j == i && k == s.node.incarnation)) [
    | inl e ↦
        let same : j ≡ i = ground (arith, e) in
        let here_k : k ≡ s.node.incarnation = ground (arith, e) in
        let old_i : k ≤ (c.agent i).node.incarnation =
          subst (λ x. k ≤ (c.agent x).node.incarnation) same old in
        let still : s.node.incarnation ≡ (c.agent i).node.incarnation =
          omega (arith, old_i, here_k, later.not_back) in
        rw e (
          ap (λ x. said x k) same
          ∙ ap (said i) (here_k ∙ still)
          ∙ sym (v.own_answer i (omega (arith, here_k, still, small)))
          ∙ sym (later.paired still (omega (arith, here_k, still, small))))
    | inr e ↦ rw e
  ]

  place_on : (j : NodeId) (a : SocketAddr) → InPlace c j a → InPlace after j a
  place_on j a e = e ∙ sym (moved j).same_addr

  time_on :
      (j : NodeId) (k : Incarnation) (b : Bool) (ts : List Text)
      → InTime c said j k b ts
      → InTime after now_said j k b ts
  time_on j k b ts (old, tagged, told) = (
    omega (arith, old, (moved j).not_back),
    tagged ∙ sym (moved j).same_tags,
    λ small. told small ∙ said_before j k old small,
  )

  own_id_on : (j : NodeId) → (after.agent j).node.id ≡ j
  own_id_on j = (moved j).same_id ∙ v.own_id j

  own_answer_on :
      (j : NodeId)
      → (after.agent j).node.incarnation < u32_max
      → (after.agent j).node.ready ≡ now_said j (after.agent j).node.incarnation
  own_answer_on j small = elim (Bool-cases (j == i)) [
    | inl e ↦ rw (e, ==_refl)
    | inr e ↦ rw e (v.own_answer j (rw e at small))
  ]

  own_fits : (j : NodeId) → Fits after now_said (alive_rumor (after.agent j).node)
  own_fits = own_record_fits after now_said own_id_on own_answer_on

  pub set_agent-IsConsistent : Known after now_said s → IsConsistent after now_said
  set_agent-IsConsistent known = record {
    own_id = own_id_on;
    in_range = λ j. (moved j).in_range;
    own_answer = own_answer_on;
    agents = λ j. elim (Bool-cases (j == i)) [
      | inl e ↦ rw e known
      | inr e ↦ rw e (
          OfAgent-mono (InPlace c) (InPlace after) (InTime c said) (InTime after now_said) place_on
            time_on (c.agent j) (v.agents j))
    ];
    air = λ r k.
        OfRumor-mono (InPlace c) (InPlace after) (InTime c said) (InTime after now_said) place_on
          time_on r (v.air r k);
  }

  -- What the node knew before still fits, and so does its own record, as it is now.
  pub Known-on : Known after now_said (c.agent i)
  Known-on =
      OfAgent-mono (InPlace c) (InPlace after) (InTime c said) (InTime after now_said) place_on
        time_on (c.agent i) (v.agents i)

  pub own_now : Fits after now_said (alive_rumor s.node)
  own_now =
      let same : (after.agent i).node ≡ s.node = rw (==_refl i) in
      subst (λ n. Fits after now_said (alive_rumor n)) same (own_fits i)

  pub rumor_on : (r : WireMember) → Fits c said r → Fits after now_said r
  rumor_on r f =
      OfRumor-mono (InPlace c) (InPlace after) (InTime c said) (InTime after now_said) place_on
        time_on r f
