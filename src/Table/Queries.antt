-- ===== src/Table/Queries.antt =====
-- What the readers of the table return, and what stays out of it.
use dalila.Base.{
  ℕ, ◌≡◌, ◌∙◌, ap, Bool, true, false, arith, ◌==◌, none, some, Option, ◌&&◌, not, lookup,
  Bool-cases, inl, inr, ◌≢◌, ◌↔◌, List, [], Elem, Elem-values, values-Elem, Elem-filter,
  filter-Elem, Elem-perm, take-Elem, length, length-take, length-perm, values, min, Permᴰ,
}
use dalila.Member.{NodeId, Member, is_dead, is_alive}
use dalila.Table.{MemberTable, members_where, relay_candidates, random_member, ready}
use dalila.Table.Invariant.{IsTable}

-- A well-formed table's entries that pass a test are exactly those found under their own id.
pub Elem-members_where :
    (f : Member → Bool) (t : MemberTable) (me : NodeId) (m : Member)
    → IsTable me t
    → Elem m (members_where f t) ↔ ((lookup m.id t ≡ some m) × (f m ≡ true))
Elem-members_where f t me m v = (into, out_of)
  where
    into : Elem m (members_where f t) → (lookup m.id t ≡ some m) × (f m ≡ true)
    into i =
        let (i', h) = filter-Elem f (values t) {a = m} i in
        let (k, e) = values-Elem m t v.distinct i' in
        (ap (λ x. lookup x t) (v.own_key k m e) ∙ e, h)

    out_of : (lookup m.id t ≡ some m) × (f m ≡ true) → Elem m (members_where f t)
    out_of (e, h) = Elem-filter f (values t) {a = m} (Elem-values m.id m t e) h

-- The proxy's members are exactly the entries that are alive and whose app answers.
pub Elem-ready :
    (t : MemberTable) (me : NodeId) (m : Member)
    → IsTable me t
    → Elem m (ready t) ↔ ((lookup m.id t ≡ some m) × (is_alive m.state ≡ true) × (m.ready ≡ true))
Elem-ready t me m v =
    let (f, g) = Elem-members_where (λ x. is_alive x.state && x.ready) t me m v in
    (λ i. let (e, h) = f i in (e, ground arith, ground arith), λ h. g (h.0, ground arith))

abbrev may_relay : NodeId → Member → Bool
may_relay exclude m = not (m.id == exclude) && not (is_dead m.state)

-- From a well-formed table and with any shuffle, the relays are entries of the table that are not
-- dead and not the target, and there are as many as were asked for, or all that qualify.
pub relay_candidates_lem :
    (shuffle : List Member → List Member) (t : MemberTable) (me exclude : NodeId) (count : ℕ)
    → ((l : List Member) → Permᴰ (shuffle l) l)
    → IsTable me t
    → ((m : Member)
        → Elem m (relay_candidates shuffle t exclude count)
        → (lookup m.id t ≡ some m) × (m.id ≢ exclude) × (is_dead m.state ≡ false))
      × (length (relay_candidates shuffle t exclude count)
          ≡ min count (length (members_where (may_relay exclude) t)))
relay_candidates_lem shuffle t me exclude count p v = (
  λ m i.
      let eligible = members_where (may_relay exclude) t in
      let i' = Elem-perm m (p eligible) (take-Elem count (shuffle eligible) m i) in
      let (e, h) = (Elem-members_where (may_relay exclude) t me m v).0 i' in
      (e, ground arith, ground arith),
  length-take count (shuffle (members_where (may_relay exclude) t))
      ∙ ap (min count) (length-perm (p (members_where (may_relay exclude) t))),
)

-- A partner for a sync is an entry that is not dead, and there is none only if all are dead.
pub random_member_lem :
    (choose : List Member → Option Member) (t : MemberTable) (me : NodeId)
    → ((l : List Member) (m : Member) → choose l ≡ some m → Elem m l)
    → ((l : List Member) → choose l ≡ none → l ≡ [])
    → IsTable me t
    → ((m : Member)
        → random_member choose t ≡ some m
        → (lookup m.id t ≡ some m) × (is_dead m.state ≡ false))
      × (random_member choose t ≡ none
          → (j : NodeId) (m : Member) → lookup j t ≡ some m
          → is_dead m.state ≡ true)
random_member_lem choose t me some_of none_of v = (chosen, nobody)
  where
    live : Member → Bool
    live m = not (is_dead m.state)

    chosen :
        (m : Member)
        → random_member choose t ≡ some m
        → (lookup m.id t ≡ some m) × (is_dead m.state ≡ false)
    chosen m e =
        let (found, h) =
          (Elem-members_where live t me m v).0 (some_of (members_where live t) m e) in
        (found, ground arith)

    nobody :
        random_member choose t ≡ none
        → (j : NodeId) (m : Member) → lookup j t ≡ some m
        → is_dead m.state ≡ true
    nobody e j m found = elim (Bool-cases (is_dead m.state)) [
      | inl d ↦ d
      | inr d ↦ absurd (
          rw (none_of (members_where live t) e) at
            (Elem-filter live (values t) {a = m} (Elem-values j m t found) (ground arith)))
    ]
