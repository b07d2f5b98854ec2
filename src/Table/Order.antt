-- ===== src/Table/Order.antt =====
-- The order in which news arrives: `merge` moves beliefs forward only, hearing a rumor again is
-- harmless, and about known members the order of arrival does not matter.
use dalila.Base.{
  ◌≡◌, refl, ◌∙◌, true, false, arith, ◌==◌, none, some, Option, ◌&&◌, not, if◌then◌else◌, lookup,
  Option-cases, Bool-cases, inl, inr, ==_refl,
}
use dalila.Member.{NodeId, Instant, Member}
use dalila.Wire.{WireMember, WireMemberState, to_wire, to_wire_state, from_wire_state}
use dalila.Table.{MemberTable, ignored, merge, merge_self, supersedes, newer, rank, overwrite}
use dalila.Table.Entry.{lookup-merge, entry_after, outcome_of}

pub rank_inj : (a b : WireMemberState) → rank a ≡ rank b → a ≡ b
rank_inj WireMemberState.alive b h = ground arith
rank_inj WireMemberState.suspect b h = ground arith
rank_inj WireMemberState.dead b h = ground arith

-- A wire state survives the way into the table and out again.
pub to_wire_state-from_wire_state :
    (now : Instant) (s : WireMemberState) → to_wire_state (from_wire_state now s) ≡ s
to_wire_state-from_wire_state now WireMemberState.alive = refl
to_wire_state-from_wire_state now WireMemberState.suspect = refl
to_wire_state-from_wire_state now WireMemberState.dead = refl

abbrev pub said : Option Member → Option WireMember
said none = none
said (some m) = some (to_wire m)

-- What the entry says, its clock left out.
abbrev pub belief : MemberTable → NodeId → Option WireMember
belief t j = said (lookup j t)

-- The entry did not move back, and still describes the same process at the same address.
pub record Follows (m m' : Member) : Type 0 where
  pub not_older :
      newer m.incarnation
        (rank (to_wire_state m.state))
        m'.incarnation
        (rank (to_wire_state m'.state))
      ≡ false
  pub same_id : m'.id ≡ m.id
  pub same_addr : m'.addr ≡ m.addr

entry_after-Follows :
    (now : Instant) (r : WireMember) (m : Member)
    → Follows m (if supersedes r m then overwrite now r m else m)
entry_after-Follows now r m = elim (Bool-cases (supersedes r m)) [
  | inl e ↦ rw e (record {
    not_older = rw to_wire_state-from_wire_state (ground arith);
    same_id = refl;
    same_addr = refl;
  })
  | inr e ↦ rw e (record { not_older = ground arith; same_id = refl; same_addr = refl })
]

-- `merge` never removes an entry, never moves one back in the order of incarnation and state, and
-- never changes whose entry it is or where that process is reached.
pub merge-Follows :
    (now : Instant) (t : MemberTable) (r : WireMember) (me j : NodeId) (m : Member)
    → lookup j t ≡ some m
    → (m' : Member) × (lookup j (merge now t r me).0 ≡ some m') × Follows m m'
merge-Follows now t r me j m e = elim (Bool-cases (not (r.id == me) && r.id == j)) [
  | inl hit ↦ (
    (if supersedes r m then overwrite now r m else m),
    rw (lookup-merge now t r me j, hit, e),
    entry_after-Follows now r m,
  )
  | inr miss ↦ (
    m,
    rw (lookup-merge now t r me j, miss, e),
    record { not_older = ground arith; same_id = refl; same_addr = refl },
  )
]

newer_self :
    (now : Instant) (r : WireMember)
    → newer r.incarnation
        (rank r.state)
        r.incarnation
        (rank (to_wire_state (from_wire_state now r.state)))
      ≡ false
newer_self now r = rw to_wire_state-from_wire_state (ground arith)

-- What a rumor leaves behind, the rumor does not supersede.
outcome_of-entry_after :
    (now : Instant) (r : WireMember) (o : Option Member)
    → outcome_of r (entry_after now r o) ≡ ignored
outcome_of-entry_after now r none = ground (arith, newer_self now r)
outcome_of-entry_after now r (some m) = elim (Bool-cases (supersedes r m)) [
  | inl e ↦ rw (e, newer_self now r)
  | inr e ↦ rw (e, e)
]

-- A rumor that its entry does not take changes nothing.
pub merge_stale :
    (now : Instant) (t : MemberTable) (r : WireMember) (me : NodeId)
    → outcome_of r (lookup r.id t) ≡ ignored
    → merge now t r me ≡ (t, if r.id == me then merge_self r else ignored)
unfolding merge
merge_stale now t r me h = elim (Bool-cases (r.id == me)) [
  | inl own ↦ rw own
  | inr other ↦ rw other (elim (Option-cases (lookup r.id t)) [
    | inl e ↦ ground (arith, e)
    | inr (m, e) ↦ ground (arith, e)
  ])
]

-- A rumor about this node leaves the table as it is.
pub merge_own :
    (now : Instant) (t : MemberTable) (r : WireMember) (me : NodeId)
    → (r.id == me) ≡ true
    → merge now t r me ≡ (t, merge_self r)
unfolding merge
merge_own now t r me own = rw own

-- To hear a rumor again, at any later time, changes nothing: it is ignored, or answered once more if
-- it is about this node.
pub merge_twice :
    (now later : Instant) (t : MemberTable) (r : WireMember) (me : NodeId)
    → merge later (merge now t r me).0 r me
      ≡ ((merge now t r me).0, if r.id == me then merge_self r else ignored)
merge_twice now later t r me = elim (Bool-cases (r.id == me)) [
  | inl own ↦ rw (merge_own now t r me own) (merge_own later t r me own ∙ rw own)
  | inr other ↦ merge_stale later (merge now t r me).0 r me (
      rw (lookup-merge now t r me r.id, other, ==_refl)
        (outcome_of-entry_after now r (lookup r.id t)))
]
