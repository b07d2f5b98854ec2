-- ===== src/Table/Convergence.antt =====
-- About a member that a table already holds, the order in which rumors arrive does not matter;
-- about a member that it does not hold, it does.
use dalila.Base.{
  ◌≡◌, ◌≤◌, refl, sym, ◌∙◌, ap, false, arith, ◌==◌, none, some, ◌&&◌, not, if◌then◌else◌, lookup,
  Option-cases, Bool-cases, inl, inr, ◌≢◌, List, [], ◌∷◌, Elem, Elem-perm, Permᴰ,
}
use dalila.Base.Permᴰ
use dalila.Member.{NodeId, Instant, Member, is_unspecified}
use dalila.Wire.{WireMember, WireMemberState, to_wire}
use dalila.Table.{MemberTable, merge, newer, rank, overwrite, supersedes}
use dalila.Table.Entry.{lookup-merge}
use dalila.Table.Order.{belief, rank_inj, to_wire_state-from_wire_state}

-- Two rumors about one member that carry the same incarnation and state say the same of its app.
abbrev pub Agree : WireMember → WireMember → Type 0
Agree r s =
    r.id ≡ s.id
    → r.incarnation ≡ s.incarnation
    → r.state ≡ s.state
    → (r.ready ≡ s.ready) × (r.tags ≡ s.tags)

-- What a belief becomes when a rumor about the member is heard.
abbrev pub hear : WireMember → WireMember → WireMember
hear r w =
    if newer r.incarnation (rank r.state) w.incarnation (rank w.state)
    then record w { incarnation = r.incarnation; state = r.state; ready = r.ready; tags = r.tags }
    else w

abbrev pub hear_about : NodeId → NodeId → WireMember → WireMember → WireMember
hear_about me j r w = if not (r.id == me) && r.id == j then hear r w else w

unfoldable pub hear_all : NodeId → NodeId → List WireMember → WireMember → WireMember
hear_all me j [] w = w
hear_all me j (r ∷ rs) w = hear_all me j rs (hear_about me j r w)

-- The rumors of one message, merged one after another.
unfoldable pub merge_all : Instant → MemberTable → List WireMember → NodeId → MemberTable
merge_all now t [] me = t
merge_all now t (r ∷ rs) me = merge_all now (merge now t r me).0 rs me

hear-to_wire :
    (now : Instant) (r : WireMember) (m : Member)
    → to_wire (if supersedes r m then overwrite now r m else m) ≡ hear r (to_wire m)
hear-to_wire now r m = elim (Bool-cases (supersedes r m)) [
  | inl e ↦ rw (e, to_wire_state-from_wire_state)
  | inr e ↦ rw e
]

pub belief-merge :
    (now : Instant) (t : MemberTable) (r : WireMember) (me j : NodeId) (m : Member)
    → lookup j t ≡ some m
    → belief (merge now t r me).0 j ≡ some (hear_about me j r (to_wire m))
belief-merge now t r me j m e = elim (Bool-cases (not (r.id == me) && r.id == j)) [
  | inl hit ↦ rw (lookup-merge now t r me j, hit, e) (ap some (hear-to_wire now r m))
  | inr miss ↦ rw (lookup-merge now t r me j, miss, e)
]

pub belief-merge_all :
    (now : Instant) (t : MemberTable) (rs : List WireMember) (me j : NodeId) (w : WireMember)
    → belief t j ≡ some w
    → belief (merge_all now t rs me) j ≡ some (hear_all me j rs w)
unfolding merge_all hear_all
belief-merge_all now t [] me j w e = e
belief-merge_all now t (r ∷ rs) me j w e = elim (Option-cases (lookup j t)) [
  | inl gone ↦ absurd (ground (arith, gone))
  | inr (m, found) ↦
      let told : to_wire m ≡ w = ground (arith, found) in
      belief-merge_all now (merge now t r me).0 rs me j (hear_about me j r w)
        (belief-merge now t r me j m found ∙ ap (λ x. some (hear_about me j r x)) told)
]

pub hear_comm :
    (r s w : WireMember) → r.id ≡ s.id → Agree r s → hear r (hear s w) ≡ hear s (hear r w)
hear_comm r s w e agree = ground (arith, agree, rank_inj r.state s.state)

pub hear_about_comm :
    (me j : NodeId) (r s w : WireMember)
    → Agree r s
    → hear_about me j r (hear_about me j s w) ≡ hear_about me j s (hear_about me j r w)
hear_about_comm me j r s w agree = elim (Bool-cases (not (r.id == me) && r.id == j)) [
  | inl h ↦ elim (Bool-cases (not (s.id == me) && s.id == j)) [
    | inl k ↦ rw (h, k) (hear_comm r s w (ground arith) agree)
    | inr k ↦ rw (h, k)
  ]
  | inr h ↦ rw h
]

-- Every two rumors of a message agree.
abbrev pub Consistent : List WireMember → Type 0
Consistent rs = (r s : WireMember) → Elem r rs → Elem s rs → Agree r s

hear_all-perm :
    (me j : NodeId) {rs ss : List WireMember} (w : WireMember)
    → Permᴰ rs ss
    → Consistent rs
    → hear_all me j rs w ≡ hear_all me j ss w
unfolding hear_all
hear_all-perm me j w Permᴰ.nil c = refl
hear_all-perm me j w (Permᴰ.cons {a = r} {b = s} {l₁ = rs} {l₂ = ss} e p) c =
    hear_all-perm me j (hear_about me j r w) p (λ x y i k. c x y (inr i) (inr k))
    ∙ ap (λ x. hear_all me j ss (hear_about me j x w)) e
hear_all-perm me j w (Permᴰ.swap {a = r} {b = s} {a' = s'} {b' = r'} {l = rs} e f) c =
    rw (← e, ← f)
      (ap (hear_all me j rs) (hear_about_comm me j s r w (c s r (inr (inl refl)) (inl refl))))
hear_all-perm me j w (Permᴰ.trans p q) c =
    hear_all-perm me j w p c
    ∙ hear_all-perm me j w q
        (λ x y i k. c x y (Elem-perm x (Permᴰ.symm p) i) (Elem-perm y (Permᴰ.symm p) k))

-- For a member that the table holds, two orders of the same rumors, at whatever times, lead to the
-- same belief, if rumors about one member with one incarnation and state say the same of its app.
pub merge_all-perm :
    (now later : Instant) (t : MemberTable) {rs ss : List WireMember} (me j : NodeId)
    (w : WireMember)
    → belief t j ≡ some w
    → Permᴰ rs ss
    → Consistent rs
    → belief (merge_all now t rs me) j ≡ belief (merge_all later t ss me) j
merge_all-perm now later t {rs} {ss} me j w e p c =
    belief-merge_all now t rs me j w e
    ∙ ap some (hear_all-perm me j w p c)
    ∙ sym (belief-merge_all later t ss me j w e)

abbrev after_both : Instant → MemberTable → WireMember → WireMember → NodeId → MemberTable
after_both now t r s me = (merge now (merge now t r me).0 s me).0

-- Of another node that the table does not hold, at a reachable address, an "alive" and a "dead"
-- that is no older leave a dead entry if the "alive" comes first, and an alive one if it comes
-- last: a "dead" alone makes no entry, so the older news is then believed.
pub merge_order_matters :
    (now : Instant) (t : MemberTable) (a d : WireMember) (me : NodeId)
    → a.id ≡ d.id
    → a.id ≢ me
    → lookup a.id t ≡ none
    → is_unspecified a.addr.ip ≡ false
    → a.state ≡ WireMemberState.alive
    → d.state ≡ WireMemberState.dead
    → a.incarnation ≤ d.incarnation
    → (belief (after_both now t a d me) a.id
        ≡ some (record a {
          incarnation = d.incarnation;
          state = WireMemberState.dead;
          ready = d.ready;
          tags = d.tags;
        }))
      × (belief (after_both now t d a me) a.id ≡ some a)
merge_order_matters now t a d me same other unknown reachable up down later = (
  ground (
    arith,
    lookup-merge now t a me a.id,
    lookup-merge now (merge now t a me).0 d me a.id,
    unknown,
  ),
  ground (
    arith,
    lookup-merge now t d me a.id,
    lookup-merge now (merge now t d me).0 a me a.id,
    unknown,
  ),
)
