-- ===== src/Table/Abstract.antt =====
-- The table as the program means it: what each id has, not the order that the hash map holds it in.
use dalila.Base.{◌≡◌, refl, sym, ◌∙◌, List, [], ◌∷◌, lookup}
use dalila.Member.{Instant, NodeId}
use dalila.Wire.{WireMember}
use dalila.Table.{MemberTable, MergeOutcome, merge}
use dalila.Table.Invariant.{IsTable, merge-IsTable}
use dalila.Table.Entry.{lookup-merge, merge-outcome_of}

-- Two tables with the same entries.
abbrev pub Same : MemberTable → MemberTable → Type 0
Same t t' = (j : NodeId) → lookup j t ≡ lookup j t'

pub merge-Same :
    (now : Instant) (t t' : MemberTable) (r : WireMember) (me : NodeId)
    → Same t t'
    → Same (merge now t r me).0 (merge now t' r me).0
merge-Same now t t' r me same j =
    lookup-merge now t r me j ∙ rw (same j) (sym (lookup-merge now t' r me j))

merge_outcomes :
    (now : Instant) (t t' : MemberTable) (r : WireMember) (me : NodeId)
    → Same t t'
    → (merge now t r me).1 ≡ (merge now t' r me).1
merge_outcomes now t t' r me same =
    merge-outcome_of now t r me ∙ rw (same r.id) (sym (merge-outcome_of now t' r me))

-- The merges of some rumors, each at its time, and what came of them.
unfoldable pub merge_each :
    List (Instant × WireMember) → NodeId → MemberTable → MemberTable × List MergeOutcome
merge_each [] me t = (t, [])
merge_each ((now, r) ∷ rs) me t =
    let (t', outcome) = merge now t r me in
    let (t'', outcomes) = merge_each rs me t' in (t'', outcome ∷ outcomes)

pub merge_each-Same :
    (rs : List (Instant × WireMember)) (me : NodeId) (t t' : MemberTable)
    → Same t t'
    → Same (merge_each rs me t).0 (merge_each rs me t').0
      × ((merge_each rs me t).1 ≡ (merge_each rs me t').1)
unfolding merge_each
merge_each-Same [] me t t' same = (same, refl)
merge_each-Same ((now, r) ∷ rs) me t t' same =
    let (later, outcomes) =
      merge_each-Same rs me (merge now t r me).0 (merge now t' r me).0
        (merge-Same now t t' r me same) in
    (later, λ i. merge_outcomes now t t' r me same i ∷ outcomes i)

pub merge_each-IsTable :
    (rs : List (Instant × WireMember)) (me : NodeId) (t : MemberTable)
    → IsTable me t
    → IsTable me (merge_each rs me t).0
unfolding merge_each
merge_each-IsTable [] me t v = v
merge_each-IsTable ((now, r) ∷ rs) me t v =
    merge_each-IsTable rs me (merge now t r me).0 (merge-IsTable now t r me v)
