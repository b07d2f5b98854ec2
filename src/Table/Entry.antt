-- ===== src/Table/Entry.antt =====
-- What `merge` does to the table, entry by entry.
use dalila.Base.{
  ◌≡◌, arith, ◌==◌, none, some, Option, ◌&&◌, ◌||◌, not, if◌then◌else◌, lookup, lookup-insert,
  Option-cases, Bool-cases, inl, inr,
}
use dalila.Member.{NodeId, Instant, is_unspecified, Member}
use dalila.Wire.{WireMember, from_wire}
use dalila.Table.{
  MemberTable, MergeOutcome, merge, merge_self, supersedes, overwrite, is_dead_rumor,
}

-- The entry under the rumor's id, after a merge.
abbrev pub entry_after : Instant → WireMember → Option Member → Option Member
entry_after now r none =
    if is_unspecified r.addr.ip || is_dead_rumor r.state then none else some (from_wire now r)
entry_after now r (some m) = some (if supersedes r m then overwrite now r m else m)

-- A merge acts on the one entry that the rumor is about, and a rumor about this node on none.
pub lookup-merge :
    (now : Instant) (t : MemberTable) (r : WireMember) (me j : NodeId)
    → lookup j (merge now t r me).0
      ≡ (if not (r.id == me) && r.id == j then entry_after now r (lookup j t) else lookup j t)
unfolding merge
lookup-merge now t r me j = elim (Bool-cases (r.id == me)) [
  | inl own ↦ rw own
  | inr other ↦ rw other (elim (Option-cases (lookup r.id t)) [
    | inl e ↦ ground (arith, e, lookup-insert r.id j (from_wire now r) t)
    | inr (m, e) ↦ ground (arith, e, lookup-insert r.id j (overwrite now r m) t)
  ])
]

-- What `merge` returns, from the entry that it finds.
abbrev pub outcome_of : WireMember → Option Member → MergeOutcome
outcome_of r none =
    if is_unspecified r.addr.ip || is_dead_rumor r.state
    then MergeOutcome.ignored
    else MergeOutcome.added
outcome_of r (some m) = if supersedes r m then MergeOutcome.updated else MergeOutcome.ignored

pub merge-outcome_of :
    (now : Instant) (t : MemberTable) (r : WireMember) (me : NodeId)
    → (merge now t r me).1 ≡ (if r.id == me then merge_self r else outcome_of r (lookup r.id t))
unfolding merge
merge-outcome_of now t r me = elim (Bool-cases (r.id == me)) [
  | inl own ↦ rw own
  | inr other ↦ rw other (elim (Option-cases (lookup r.id t)) [
    | inl e ↦ ground (arith, e)
    | inr (m, e) ↦ ground (arith, e)
  ])
]
