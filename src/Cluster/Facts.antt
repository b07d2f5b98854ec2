-- ===== src/Cluster/Facts.antt =====
-- If a fact holds of all that a node knows and of each rumor that it hears, it holds of all that it
-- knows afterwards. The fact is about whom a rumor names, not about the state that it gives.
use dalila.Base.{
  ℕ, ◌+◌, ◌≡◌, refl, sym, ◌∙◌, subst, Bool, true, false, arith, List, [], ◌∷◌, ◌++◌, map, filter,
  none, some, Option, ◌==◌, ◌&&◌, not, lookup, remove, lookup-remove, Elem, Bool-cases, inl, inr,
  take as list_take, drop, ltb, ◌||◌, append-Elem, filter-Elem, map-Elem, take-Elem, drop-Elem,
  Elem-perm, sort-perm, sort,
}
use dalila.Member.{is_unspecified, Instant, NodeId, SocketAddr, Incarnation, Text, Member}
use dalila.Wire.{WireMember, to_wire}
use dalila.Node.{LocalNode, refute, alive_rumor, set_ready}
use dalila.Table.{
  MemberTable, MergeOutcome, ignored, added, updated, merge, supersedes, overwrite, remove_ids, len,
  is_dead_rumor, members_where,
}
use dalila.Table.Entry.{lookup-merge, entry_after}
use dalila.Gossip.{
  Agent, Pending, GossipQueue, apply, react, announce, push, take, sent_once, fresher,
  max_piggyback, retransmit_limit,
}
use dalila.Gossip.Apply.{apply-table}
use dalila.Detector.{reap_dead, dead_expired}
use dalila.Health.{health_round, told}
use dalila.Cluster.{Says, own_record, own_leave, entry, doubt, queued}

some_inj : {x y : Member} → some x ≡ some y → x ≡ y
some_inj e = ground (arith, e)

module _ (A : NodeId → SocketAddr → Type 0)
    (F : NodeId → Incarnation → Bool → List Text → Type 0) where
  abbrev pub OfRumor : WireMember → Type 0
  OfRumor r = A r.id r.addr × F r.id r.incarnation r.ready r.tags

  -- Every entry is its id's, and the fact holds of it.
  abbrev pub OfTable : MemberTable → Type 0
  OfTable t = (j : NodeId) (m : Member) → lookup j t ≡ some m → (m.id ≡ j) × OfRumor (to_wire m)

  abbrev pub OfQueue : GossipQueue → Type 0
  OfQueue q = (p : Pending) → Elem p q → OfRumor p.rumor

  abbrev OfEntry : NodeId → Member → Type 0
  OfEntry j m = (m.id ≡ j) × OfRumor (to_wire m)

  overwrite-OfEntry :
      (now : Instant) (r : WireMember) (j : NodeId) (m : Member)
      → r.id ≡ j
      → OfRumor r
      → OfEntry j m
      → OfEntry j (overwrite now r m)
  overwrite-OfEntry now r j m named f old =
      (old.0, (old.1.0, subst (λ k. F k r.incarnation r.ready r.tags) (named ∙ sym old.0) f.1))

  entry_after-OfEntry :
      (now : Instant) (r : WireMember) (j : NodeId) (o : Option Member) (m : Member)
      → r.id ≡ j
      → OfRumor r
      → ((m' : Member) → o ≡ some m' → OfEntry j m')
      → entry_after now r o ≡ some m
      → OfEntry j m
  entry_after-OfEntry now r j none m named f old e =
      elim (Bool-cases (is_unspecified r.addr.ip || is_dead_rumor r.state)) [
        | inl h ↦ absurd (ground (arith, rw h at e))
        | inr h ↦ subst (OfEntry j) (some_inj (rw h at e)) (named, f)
      ]
  entry_after-OfEntry now r j (some m') m named f old e = elim (Bool-cases (supersedes r m')) [
    | inl h ↦
        subst (OfEntry j) (some_inj (rw h at e))
          (overwrite-OfEntry now r j m' named f (old m' refl))
    | inr h ↦ subst (OfEntry j) (some_inj (rw h at e)) (old m' refl)
  ]

  pub merge-OfTable :
      (now : Instant) (t : MemberTable) (r : WireMember) (me : NodeId)
      → OfTable t
      → OfRumor r
      → OfTable (merge now t r me).0
  merge-OfTable now t r me old f j m e = elim (Bool-cases (not (r.id == me) && r.id == j)) [
    | inl hit ↦
        entry_after-OfEntry now r j (lookup j t) m (ground (arith, hit)) f (old j)
          (rw (lookup-merge now t r me j, hit) at e)
    | inr miss ↦ old j m (rw (lookup-merge now t r me j, miss) at e)
  ]

  pub remove_ids-OfTable :
      (t : MemberTable) (ids : List NodeId) → OfTable t → OfTable (remove_ids t ids)
  remove_ids-OfTable t [] old = old
  remove_ids-OfTable t (id ∷ ids) old =
      remove_ids-OfTable (remove id t) ids
        (λ j m e. old j m (ground (arith, lookup-remove id j t, e)))

  pub reap_dead-OfTable : (now : Instant) (t : MemberTable) → OfTable t → OfTable (reap_dead now t)
  unfolding reap_dead
  reap_dead-OfTable now t old =
      remove_ids-OfTable t (map (λ m. m.id) (members_where (λ m. dead_expired now m.state) t)) old

  pub push-OfQueue :
      (q : GossipQueue) (r : WireMember) (n : ℕ) → OfQueue q → OfRumor r → OfQueue (push q r n)
  unfolding push
  push-OfQueue q r n old f p i =
      elim (append-Elem (filter (λ x. not (x.rumor.id == r.id)) q)
        (record { rumor = r; sends_left = retransmit_limit n } ∷ []) p i) [
          | inl k ↦ old p (filter-Elem (λ x. not (x.rumor.id == r.id)) q {a = p} k).0
          | inr (inl e) ↦ subst (λ x. OfRumor x.rumor) e f
          | inr (inr h) ↦ absurd h
        ]

  pub take-OfQueue : (q : GossipQueue) → OfQueue q → OfQueue (take q).0
  unfolding take
  take-OfQueue q old p i =
      let sorted = sort fresher q in
      let batch = list_take max_piggyback sorted in
      let rest = drop max_piggyback sorted in
      let (j, h) = filter-Elem (λ x. ltb 0 x.sends_left) (map sent_once batch ++ rest) {a = p} i in
      let from_sorted =
        λ (x : Pending) (k : Elem x sorted). old x (Elem-perm x (sort-perm fresher q) k) in
      elim (append-Elem (map sent_once batch) rest p j) [
        | inl k ↦
            let (x, kx, e) = map-Elem sent_once batch p k in
            subst (λ y. OfRumor y.rumor) e (from_sorted x (take-Elem max_piggyback sorted x kx))
        | inr k ↦ from_sorted p (drop-Elem max_piggyback sorted p k)
      ]

  pub record OfAgent (s : Agent) : Type 0 where
    pub table : OfTable s.table
    pub queue : OfQueue s.queue

  react-OfQueue :
      (s : Agent) (r : WireMember) (o : MergeOutcome)
      → OfQueue s.queue
      → OfRumor r
      → OfRumor (alive_rumor (react s r o).node)
      → OfQueue (react s r o).queue
  react-OfQueue s r ignored old f own = old
  react-OfQueue s r added old f own = push-OfQueue s.queue r (len s.table + 1) old f
  react-OfQueue s r updated old f own = push-OfQueue s.queue r (len s.table + 1) old f
  react-OfQueue s r (MergeOutcome.refute i) old f own = announce-OfQueue s (refute s.node i) old own
    where
      announce-OfQueue :
          (s : Agent) (a : LocalNode × Option Incarnation)
          → OfQueue s.queue
          → OfRumor (alive_rumor (announce s a).node)
          → OfQueue (announce s a).queue
      announce-OfQueue s (n, none) old own = old
      announce-OfQueue s (n, some k) old own =
          push-OfQueue s.queue (alive_rumor n) (len s.table + 1) old own

  -- What a node knows after a rumor, if the fact holds of its own record then.
  pub apply-OfAgent :
      (now : Instant) (s : Agent) (r : WireMember)
      → OfAgent s
      → OfRumor r
      → OfRumor (alive_rumor (apply now s r).0.node)
      → OfAgent (apply now s r).0
  unfolding apply
  apply-OfAgent now s r old f own =
      let (t, o) = merge now s.table r s.node.id in
      record {
        table =
            subst OfTable (sym (apply-table now s r))
              (merge-OfTable now s.table r s.node.id old.table f);
        queue = react-OfQueue (record s { table = t }) r o old.queue f own;
      }

  pub health_round-OfAgent :
      (s : Agent) (answers : Bool)
      → OfAgent s
      → OfRumor (alive_rumor (health_round s answers).node)
      → OfAgent (health_round s answers)
  unfolding health_round
  health_round-OfAgent s answers old own = told-OfAgent (set_ready s.node answers) own
    where
      told-OfAgent :
          (a : LocalNode × Bool) → OfRumor (alive_rumor (told s a).node) → OfAgent (told s a)
      told-OfAgent (n, false) own = record { table = old.table; queue = old.queue }
      told-OfAgent (n, true) own = record {
        table = old.table;
        queue = push-OfQueue s.queue (alive_rumor n) (len s.table + 1) old.queue own;
      }

  -- All that a node says, if the fact holds of its own record.
  pub Says-OfRumor :
      (s : Agent) (r : WireMember) → OfAgent s → OfRumor (alive_rumor s.node) → Says s r → OfRumor r
  Says-OfRumor s r old own (own_record e) = subst OfRumor (sym e) own
  Says-OfRumor s r old own (own_leave h e) = subst OfRumor (sym e) own
  Says-OfRumor s r old own (entry j m e e') = subst OfRumor (sym e') (old.table j m e).1
  Says-OfRumor s r old own (doubt j m state e e') = subst OfRumor (sym e') (old.table j m e).1
  Says-OfRumor s r old own (queued p i e) = subst OfRumor (sym e) (old.queue p i)

module _ (A A' : NodeId → SocketAddr → Type 0)
    (F F' : NodeId → Incarnation → Bool → List Text → Type 0)
    (place : (j : NodeId) (a : SocketAddr) → A j a → A' j a)
    (time : (j : NodeId) (k : Incarnation) (b : Bool) (ts : List Text)
      → F j k b ts
      → F' j k b ts) where
  pub OfRumor-mono : (r : WireMember) → OfRumor A F r → OfRumor A' F' r
  OfRumor-mono r f = (place r.id r.addr f.0, time r.id r.incarnation r.ready r.tags f.1)

  pub OfAgent-mono : (s : Agent) → OfAgent A F s → OfAgent A' F' s
  OfAgent-mono s f = record {
    table = λ j m e. let (named, g) = f.table j m e in (named, OfRumor-mono (to_wire m) g);
    queue = λ p i. OfRumor-mono p.rumor (f.queue p i);
  }
