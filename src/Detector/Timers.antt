-- ===== src/Detector/Timers.antt =====
-- The two timers: suspects that nobody cleared in time become dead, the long dead are dropped, and
-- nobody else is touched.
use dalila.Base.{
  ◌≡◌, refl, sym, ap, ◌∙◌, arith, ◌==◌, not, ◌&&◌, if◌then◌else◌, Bool-cases, inl, inr, ◌≢◌, true,
  false, Bool, List, [], ◌∷◌, Elem, All, Elem-All, lookup, some, none, Option, subst, map, Elem-map,
  map-Elem, values, Elem-filter, Elem-values,
}
use dalila.Member.{Instant, NodeId, Member, MemberState}
use dalila.Wire.{WireMemberState}
use dalila.Table.{MemberTable, members_where, remove_ids}
use dalila.Table.Entry.{lookup-merge, entry_after}
use dalila.Table.Invariant.{IsTable}
use dalila.Table.Queries.{Elem-members_where}
use dalila.Table.Reaping.{lookup-remove_ids}
use dalila.Gossip.{Agent}
use dalila.Gossip.Apply.{IsAgent, apply-table}
use dalila.Gossip.News.{apply-id}
use dalila.Detector.{
  mark, mark_rumor, mark_all_dead, sweep_suspects, reap_dead, suspect_expired, dead_expired,
}

-- The entry under `j` after a mark.
pub lookup-mark :
    (now : Instant) (s : Agent) (m : Member) (state : WireMemberState) (j : NodeId)
    → lookup j (mark now s m state).0.table ≡ (
        if not (m.id == s.node.id) && m.id == j
        then entry_after now (mark_rumor m state) (lookup j s.table)
        else lookup j s.table)
unfolding mark
lookup-mark now s m state j =
    ap (lookup j) (apply-table now s (mark_rumor m state))
    ∙ lookup-merge now s.table (mark_rumor m state) s.node.id j

pub mark-id :
    (now : Instant) (s : Agent) (m : Member) (state : WireMemberState)
    → (mark now s m state).0.node.id ≡ s.node.id
unfolding mark
mark-id now s m state = apply-id now s (mark_rumor m state)

-- What a member that is declared dead at `now` looks like.
abbrev pub died : Instant → Member → Member
died now m = record m { state = MemberState.dead now }

-- Marking members other than `j` leaves `j` alone.
mark_all_dead-others :
    (now : Instant) (s : Agent) (ms : List Member) (j : NodeId)
    → All (λ m. m.id ≢ j) ms
    → lookup j (mark_all_dead now s ms).table ≡ lookup j s.table
unfolding mark_all_dead
mark_all_dead-others now s [] j h = refl
mark_all_dead-others now s (m ∷ ms) j h =
    mark_all_dead-others now (mark now s m WireMemberState.dead).0 ms j h.1
    ∙ lookup-mark now s m WireMemberState.dead j
    ∙ ground (arith, h.0)

-- Every member of the list that bears this id is this very member.
abbrev Only : Member → List Member → Type 0
Only m0 = All (λ m. m.id ≡ m0.id → m ≡ m0)

mark_again :
    (now : Instant) (m0 m : Member)
    → m ≡ m0
    → entry_after now (mark_rumor m WireMemberState.dead) (some (died now m0)) ≡ some (died now m0)
mark_again now m0 m e = rw e (ground arith)

mark_first :
    (now : Instant) (m0 m : Member)
    → m ≡ m0
    → suspect_expired now m0.state ≡ true
    → entry_after now (mark_rumor m WireMemberState.dead) (some m0) ≡ some (died now m0)
mark_first now m0 m e h = rw e (ground arith)

-- A member that was declared dead stays as it is.
mark_all_dead_stays :
    (now : Instant) (s : Agent) (ms : List Member) (m0 : Member)
    → Only m0 ms
    → lookup m0.id s.table ≡ some (died now m0)
    → lookup m0.id (mark_all_dead now s ms).table ≡ some (died now m0)
unfolding mark_all_dead
mark_all_dead_stays now s [] m0 o e = e
mark_all_dead_stays now s (m ∷ ms) m0 o e =
    mark_all_dead_stays now (mark now s m WireMemberState.dead).0 ms m0 o.1 (
      lookup-mark now s m WireMemberState.dead m0.id
      ∙ elim (Bool-cases (not (m.id == s.node.id) && m.id == m0.id)) [
        | inl hit ↦ rw (hit, e) (mark_again now m0 m (o.0 (ground arith)))
        | inr miss ↦ rw (miss, e)
      ])

mark_all_dead_dies :
    (now : Instant) (s : Agent) (ms : List Member) (m0 : Member)
    → Only m0 ms
    → m0.id ≢ s.node.id
    → suspect_expired now m0.state ≡ true
    → lookup m0.id s.table ≡ some m0
    → Elem m0 ms
    → lookup m0.id (mark_all_dead now s ms).table ≡ some (died now m0)
unfolding mark_all_dead
mark_all_dead_dies now s [] m0 o other h e i = absurd i
mark_all_dead_dies now s (m ∷ ms) m0 o other h e (inl here) =
    let own : (not (m.id == s.node.id) && m.id == m0.id) ≡ true = rw here (ground (arith, other)) in
    mark_all_dead_stays now (mark now s m WireMemberState.dead).0 ms m0 o.1
      (lookup-mark now s m WireMemberState.dead m0.id ∙ rw (own, e) (mark_first now m0 m here h))
mark_all_dead_dies now s (m ∷ ms) m0 o other h e (inr i) =
    elim (Bool-cases (not (m.id == s.node.id) && m.id == m0.id)) [
      | inl hit ↦ mark_all_dead_stays now (mark now s m WireMemberState.dead).0 ms m0 o.1 (
          lookup-mark now s m WireMemberState.dead m0.id
          ∙ rw (hit, e) (mark_first now m0 m (o.0 (ground arith)) h))
      | inr miss ↦
          mark_all_dead_dies now (mark now s m WireMemberState.dead).0 ms m0 o.1
            (λ e'. other (e' ∙ mark-id now s m WireMemberState.dead)) h
            (lookup-mark now s m WireMemberState.dead m0.id ∙ rw (miss, e)) i
    ]

pub one_of {ℓ} : {A : Type ℓ} {o : Option A} {x y : A} → o ≡ some x → o ≡ some y → x ≡ y
one_of h k = cc

-- After a sweep of a well-formed agent, every member that had been suspect for the whole timeout is
-- dead, at the same incarnation and from now on; every other entry is as it was.
pub sweep_suspects_lem :
    (now : Instant) (s : Agent) (j : NodeId)
    → IsAgent s
    → ((m : Member)
        → lookup j s.table ≡ some m
        → suspect_expired now m.state ≡ true
        → lookup j (sweep_suspects now s).table ≡ some (died now m))
      × (((m : Member) → lookup j s.table ≡ some m → suspect_expired now m.state ≡ false)
          → lookup j (sweep_suspects now s).table ≡ lookup j s.table)
unfolding sweep_suspects
sweep_suspects_lem now s j v = (dies, stays)
  where
    over : Member → Bool
    over m = suspect_expired now m.state

    expired :
        (m : Member)
        → Elem m (members_where over s.table)
        → (lookup m.id s.table ≡ some m) × (over m ≡ true)
    expired m = (Elem-members_where over s.table s.node.id m v.table).0

    dies :
        (m : Member)
        → lookup j s.table ≡ some m
        → suspect_expired now m.state ≡ true
        → lookup j (mark_all_dead now s (members_where over s.table)).table ≡ some (died now m)
    dies m e h =
        let key : m.id ≡ j = v.table.own_key j m e in
        let e' : lookup m.id s.table ≡ some m = ap (λ x. lookup x s.table) key ∙ e in
        ap (λ x. lookup x (mark_all_dead now s (members_where over s.table)).table) (sym key)
        ∙ mark_all_dead_dies now s (members_where over s.table) m
            (Elem-All (λ x. x.id ≡ m.id → x ≡ m) (members_where over s.table)
              (λ x i k. one_of (ap (λ y. lookup y s.table) (sym k) ∙ (expired x i).0) e'))
            (λ own. absurd (ground (arith, v.table.others, own, e'))) h e'
            (Elem-filter over (values s.table) {a = m} (Elem-values m.id m s.table e') h)

    stays :
        ((m : Member) → lookup j s.table ≡ some m → suspect_expired now m.state ≡ false)
        → lookup j (mark_all_dead now s (members_where over s.table)).table ≡ lookup j s.table
    stays h = mark_all_dead-others now s (members_where over s.table) j (
        Elem-All (λ x. x.id ≢ j) (members_where over s.table)
          (λ x i k.
            let (e, o) = expired x i in
            absurd (ground (arith, h x (ap (λ y. lookup y s.table) (sym k) ∙ e), o))))

-- A reap of a well-formed table drops the members that have been dead for the whole timeout, and
-- keeps every other entry.
pub lookup-reap_dead :
    (now : Instant) (t : MemberTable) (me j : NodeId)
    → IsTable me t
    → ((m : Member)
        → lookup j t ≡ some m
        → dead_expired now m.state ≡ true
        → lookup j (reap_dead now t) ≡ none)
      × (((m : Member) → lookup j t ≡ some m → dead_expired now m.state ≡ false)
          → lookup j (reap_dead now t) ≡ lookup j t)
unfolding reap_dead
lookup-reap_dead now t me j v = (gone, stays)
  where
    over : Member → Bool
    over m = dead_expired now m.state

    expired : List NodeId
    expired = map (λ m. m.id) (members_where over t)

    gone :
        (m : Member)
        → lookup j t ≡ some m
        → dead_expired now m.state ≡ true
        → lookup j (remove_ids t expired) ≡ none
    gone m e h = (lookup-remove_ids t expired j).0 (
        subst (λ x. Elem x expired) (v.own_key j m e)
          (Elem-map (λ x. x.id) (members_where over t) m
            (Elem-filter over (values t) {a = m} (Elem-values j m t e) h)))

    stays :
        ((m : Member) → lookup j t ≡ some m → dead_expired now m.state ≡ false)
        → lookup j (remove_ids t expired) ≡ lookup j t
    stays h = (lookup-remove_ids t expired j).1 (λ i.
        let (m, k, e) = map-Elem (λ x. x.id) (members_where over t) j i in
        let (found, o) = (Elem-members_where over t me m v).0 k in
        absurd (ground (arith, h m (ap (λ x. lookup x t) (sym e) ∙ found), o)))
