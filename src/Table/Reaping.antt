-- ===== src/Table/Reaping.antt =====
-- What is dropped stays dropped: a rumor of a death makes no entry.
use dalila.Base.{
  ◌≡◌, refl, ◌∙◌, arith, ◌==◌, none, Option, if◌then◌else◌, lookup, remove, inl, inr, List, [], ◌∷◌,
  Elem, All, lookup-remove, ◌≢◌,
}
use dalila.Member.{NodeId, Instant, Member}
use dalila.Wire.{WireMember, WireMemberState}
use dalila.Table.{MemberTable, merge, remove_ids}
use dalila.Table.Convergence.{merge_all}
use dalila.Table.Entry.{lookup-merge}

remove_ids-none :
    (t : MemberTable) (ids : List NodeId) (j : NodeId)
    → lookup j t ≡ none
    → lookup j (remove_ids t ids) ≡ none
remove_ids-none t [] j e = e
remove_ids-none t (id ∷ ids) j e =
    remove_ids-none (remove id t) ids j (ground (arith, lookup-remove id j t))

kept_self : (id j : NodeId) → id ≢ j → (o : Option Member) → (if id == j then none else o) ≡ o
kept_self id j h o = ground arith

-- The ids that are dropped have no entry any more, and every other id keeps the one it had.
pub lookup-remove_ids :
    (t : MemberTable) (ids : List NodeId) (j : NodeId)
    → (Elem j ids → lookup j (remove_ids t ids) ≡ none)
      × (¬ Elem j ids → lookup j (remove_ids t ids) ≡ lookup j t)
lookup-remove_ids t [] j = (λ i. absurd i, λ h. refl)
lookup-remove_ids t (id ∷ ids) j =
    let (gone, kept) = lookup-remove_ids (remove id t) ids j in
    (
      elim [
        | inl e ↦ remove_ids-none (remove id t) ids j (ground (arith, lookup-remove id j t))
        | inr i ↦ gone i
      ],
      λ h.
          kept (λ i. h (inr i))
          ∙ lookup-remove id j t
          ∙ kept_self id j (λ e. h (inl e)) (lookup j t),
    )

-- However many rumors of deaths arrive, a member without an entry gets none.
pub dead_stays_out :
    (now : Instant) (t : MemberTable) (rs : List WireMember) (me j : NodeId)
    → lookup j t ≡ none
    → All (λ r. r.state ≡ WireMemberState.dead) rs
    → lookup j (merge_all now t rs me) ≡ none
unfolding merge_all
dead_stays_out now t [] me j e h = e
dead_stays_out now t (r ∷ rs) me j e h =
    dead_stays_out now (merge now t r me).0 rs me j
      (ground (arith, lookup-merge now t r me j, e, h.0)) h.1
