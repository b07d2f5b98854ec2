-- ===== src/Gossip/News.antt =====
-- What `apply` passes on: news that changed the table, once, and an answer to every doubt about this
-- node.
use dalila.Base.{
  ℕ, ◌+◌, ◌≡◌, refl, ap, ◌∙◌, arith, ◌==◌, not, if◌then◌else◌, Bool-cases, inl, inr, ◌⊎◌, ◌≢◌,
  false, [], ◌∷◌, Elem, Elem-append_right, some, none, Option, filter,
}
use dalila.Member.{Instant, NodeId, Incarnation}
use dalila.Wire.{WireMember, WireMemberState}
use dalila.Node.{LocalNode, refute, alive_rumor}
use dalila.Table.{MemberTable, MergeOutcome, ignored, added, updated, merge, merge_self, len}
use dalila.Table.Entry.{merge-outcome_of}
use dalila.Table.Order.{merge_own, merge_stale, merge_twice}
use dalila.Gossip.{Agent, Pending, GossipQueue, push, retransmit_limit, announce, react, apply}
use dalila.Gossip.Apply.{apply-table}

abbrev pub fresh : WireMember → ℕ → Pending
fresh r n = record { rumor = r; sends_left = retransmit_limit n }

pub Elem-push : (q : GossipQueue) (r : WireMember) (n : ℕ) → Elem (fresh r n) (push q r n)
unfolding push
Elem-push q r n =
    Elem-append_right (filter (λ p. not (p.rumor.id == r.id)) q) (fresh r n ∷ []) (fresh r n)
      (inl refl)

pub merge_ignored :
    (now : Instant) (t : MemberTable) (r : WireMember) (me : NodeId)
    → (merge now t r me).1 ≡ ignored
    → (merge now t r me).0 ≡ t
merge_ignored now t r me h = elim (Bool-cases (r.id == me)) [
  | inl own ↦ ap (λ x. x.0) (merge_own now t r me own)
  | inr other ↦ ap (λ x. x.0) (merge_stale now t r me (ground (arith, merge-outcome_of now t r me)))
]

react_news :
    (s : Agent) (r : WireMember) (o : MergeOutcome)
    → (o ≡ ignored → react s r o ≡ s)
      × ((o ≡ added) ⊎ (o ≡ updated)
          → Elem (fresh r (len s.table + 1)) (react s r o).queue × ((react s r o).node ≡ s.node))
react_news s r ignored = (λ h. refl, λ h. absurd (ground arith))
react_news s r added = (λ h. cc, λ h. (Elem-push s.queue r (len s.table + 1), refl))
react_news s r updated = (λ h. cc, λ h. (Elem-push s.queue r (len s.table + 1), refl))
react_news s r (MergeOutcome.refute i) = (λ h. cc, λ h. absurd (ground arith))

-- A rumor that makes or changes an entry is queued, for as many sends as the cluster then wants,
-- and leaves the node alone; a rumor that is ignored changes nothing at all.
pub apply_news :
    (now : Instant) (s : Agent) (r : WireMember)
    → let s' = (apply now s r).0 in
      let o = (apply now s r).1 in
      (o ≡ ignored → s' ≡ s)
      × ((o ≡ added) ⊎ (o ≡ updated)
          → Elem (fresh r (len s'.table + 1)) s'.queue × (s'.node ≡ s.node))
unfolding apply
apply_news now s r =
    let (t, o) = merge now s.table r s.node.id in
    let (same, news) = react_news (record s { table = t }) r o in
    (
      λ h. same h ∙ ap (λ x. record s { table = x }) (merge_ignored now s.table r s.node.id h),
      λ h. rw (apply-table now s r) (news h),
    )

announce_cases :
    (s : Agent) (i : Incarnation)
    → announce s (refute s.node i) ≡ (
        if s.node.leaving then s else (record s {
          node = (refute s.node i).0;
          queue = push s.queue (alive_rumor (refute s.node i).0) (len s.table + 1);
        }))
unfolding refute
announce_cases s i = ground arith

-- A doubt about this node never touches the table. Unless the node is leaving it is answered: the
-- node refutes the doubt's incarnation, and its new record of itself is queued. A node that is
-- leaving lets the doubt stand, and nothing changes.
pub apply_doubt :
    (now : Instant) (s : Agent) (r : WireMember)
    → r.id ≡ s.node.id
    → r.state ≢ WireMemberState.alive
    → let n' = (refute s.node r.incarnation).0 in
      apply now s r ≡ (
        (if s.node.leaving
            then s
            else (record s { node = n'; queue = push s.queue (alive_rumor n') (len s.table + 1) })),
        MergeOutcome.refute r.incarnation,
      )
unfolding apply
apply_doubt now s r own doubt =
    let doubted : merge_self r ≡ MergeOutcome.refute r.incarnation = ground (arith, doubt) in
    rw (merge_own now s.table r s.node.id (ground arith), doubted)
      (ap (λ x. (x, MergeOutcome.refute r.incarnation)) (announce_cases s r.incarnation))

refute-id : (n : LocalNode) (i : Incarnation) → (refute n i).0.id ≡ n.id
unfolding refute
refute-id n i = ground arith

announce-id : (s : Agent) (a : LocalNode × Option Incarnation) → (announce s a).node.id ≡ a.0.id
announce-id s (n, none) = refl
announce-id s (n, some now) = refl

react-id : (s : Agent) (r : WireMember) (o : MergeOutcome) → (react s r o).node.id ≡ s.node.id
react-id s r ignored = refl
react-id s r added = refl
react-id s r updated = refl
react-id s r (MergeOutcome.refute i) = announce-id s (refute s.node i) ∙ refute-id s.node i

-- No rumor changes who this node is.
pub apply-id : (now : Instant) (s : Agent) (r : WireMember) → (apply now s r).0.node.id ≡ s.node.id
unfolding apply
apply-id now s r =
    let (t, o) = merge now s.table r s.node.id in react-id (record s { table = t }) r o

apply_quiet :
    (now : Instant) (s : Agent) (r : WireMember)
    → merge now s.table r s.node.id ≡ (s.table, ignored)
    → apply now s r ≡ (s, ignored)
unfolding apply
apply_quiet now s r h = rw h

-- A rumor about another member is passed on once: to hear it again, at any time, is ignored and
-- changes nothing, and so queues nothing.
pub apply_twice :
    (now later : Instant) (s : Agent) (r : WireMember)
    → r.id ≢ s.node.id
    → apply later (apply now s r).0 r ≡ ((apply now s r).0, ignored)
apply_twice now later s r other =
    let not_own : (r.id == s.node.id) ≡ false = ground (arith, other) in
    apply_quiet later (apply now s r).0 r (
      rw (apply-table now s r, apply-id now s r)
        (merge_twice now later s.table r s.node.id ∙ rw not_own))

-- `apply` returns what `merge` says.
pub apply-outcome :
    (now : Instant) (s : Agent) (r : WireMember)
    → (apply now s r).1 ≡ (merge now s.table r s.node.id).1
unfolding apply
apply-outcome now s r = refl
