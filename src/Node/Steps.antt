-- ===== src/Node/Steps.antt =====
-- Every order in which the tasks of one process can call the node's methods.
use dalila.Base.{ℕ, ◌≡◌, ◌≤◌, ◌<◌, sym, ◌∙◌, Bool, true, arith}
use dalila.Member.{Incarnation, u32_max, superseding}
use dalila.Node.{LocalNode, refute, leave, set_ready, alive_rumor}
use dalila.Table.Convergence.{Agree}

-- One call, by any task.
pub data NodeStep (n : LocalNode) : LocalNode → Type 0 where
  refutes : (rumored : Incarnation) → NodeStep n (refute n rumored).0
  leaves : NodeStep n (leave n)
  sets_ready : (ready : Bool) → NodeStep n (set_ready n ready).0

pub data Reach (n : LocalNode) : LocalNode → Type 0 where
  here : Reach n n
  next : {m k : LocalNode} → Reach n m → NodeStep m k → Reach n k

-- What no call changes, and what moves one way only. The readiness changes with the incarnation,
-- unless that has no room left; a node that is leaving changes nothing any more.
pub record Later (n n' : LocalNode) : Type 0 where
  pub same_id : n'.id ≡ n.id
  pub same_addr : n'.addr ≡ n.addr
  pub same_tags : n'.tags ≡ n.tags
  pub same_key : n'.key ≡ n.key
  pub not_back : n.incarnation ≤ n'.incarnation
  pub paired : n'.incarnation ≡ n.incarnation → n.incarnation < u32_max → n'.ready ≡ n.ready
  pub still_leaving : n.leaving ≡ true → n'.leaving ≡ true
  pub final : n.leaving ≡ true → (n'.incarnation ≡ n.incarnation) × (n'.ready ≡ n.ready)
  pub in_range : n'.incarnation ≤ u32_max

pub NodeStep-Later : {n n' : LocalNode} → NodeStep n n' → n.incarnation ≤ u32_max → Later n n'
unfolding refute leave set_ready superseding
NodeStep-Later (refutes rumored) h = ground arith
NodeStep-Later leaves h = ground arith
NodeStep-Later (sets_ready ready) h = ground arith

squeeze : {a b c : ℕ} → a ≤ b → b ≤ c → c ≡ a → b ≡ a
squeeze h k e = omega arith

pub Later-trans : {n m k : LocalNode} → Later n m → Later m k → Later n k
Later-trans a b = record {
  same_id = b.same_id ∙ a.same_id;
  same_addr = b.same_addr ∙ a.same_addr;
  same_tags = b.same_tags ∙ a.same_tags;
  same_key = b.same_key ∙ a.same_key;
  not_back = omega (arith, a.not_back, b.not_back);
  paired = λ e h.
      let e' = squeeze a.not_back b.not_back e in
      b.paired (e ∙ sym e') (omega (arith, e')) ∙ a.paired e' h;
  still_leaving = λ e. b.still_leaving (a.still_leaving e);
  final =
      λ e. let (f, g) = a.final e in let (f', g') = b.final (a.still_leaving e) in (f' ∙ f, g' ∙ g);
  in_range = b.in_range;
}

-- However the tasks' calls interleave, from an incarnation in range: identity, address, tags and
-- key stay, the incarnation never falls and stays in range, the readiness is the same if the
-- incarnation is, below its largest value, and a node that is leaving goes on leaving and changes
-- neither.
pub Reach-Later : {n m : LocalNode} → n.incarnation ≤ u32_max → Reach n m → Later n m
Reach-Later {n} h here = ground arith
Reach-Later h (next r s) = let a = Reach-Later h r in Later-trans a (NodeStep-Later s a.in_range)

-- The record that a node below the largest incarnation gives of itself agrees with every one that
-- it gives later: at one incarnation, they say the same of its app.
pub alive_rumor-Agree :
    {n m : LocalNode} → n.incarnation < u32_max → Reach n m → Agree (alive_rumor n) (alive_rumor m)
alive_rumor-Agree h r same e f =
    let a = Reach-Later (omega arith) r in (sym (a.paired (sym e) h), sym a.same_tags)
