-- ===== src/Table/Invariant.antt =====
-- What is true of every table: an entry stands under its own id, no id stands twice, this node has
-- no entry, and no entry has an address that nobody can reach.
use dalila.Base.{
  ◌≡◌, refl, sym, ◌∙◌, false, arith, ◌==◌, none, some, Option, ◌&&◌, not, lookup, remove,
  Option-cases, Bool-cases, inl, inr, List, [], ◌∷◌, IsMap, insert-IsMap, remove-IsMap,
  lookup-remove,
}
use dalila.Member.{NodeId, Instant, Member, is_unspecified}
use dalila.Wire.{WireMember, from_wire}
use dalila.Table.{MemberTable, merge, overwrite, remove_ids}
use dalila.Table.Entry.{lookup-merge, entry_after}

pub record IsTable (me : NodeId) (t : MemberTable) : Type 0 where
  pub distinct : IsMap t
  pub others : lookup me t ≡ none
  pub own_key : (j : NodeId) (m : Member) → lookup j t ≡ some m → m.id ≡ j
  pub reachable : (j : NodeId) (m : Member) → lookup j t ≡ some m → is_unspecified m.addr.ip ≡ false

pub empty-IsTable : (me : NodeId) → IsTable me []
unfolding lookup
empty-IsTable me = record {
  distinct = tt;
  others = refl;
  own_key = λ j m e. cc;
  reachable = λ j m e. cc;
}

merge-IsMap :
    (now : Instant) (t : MemberTable) (r : WireMember) (me : NodeId)
    → IsMap t
    → IsMap (merge now t r me).0
unfolding merge
merge-IsMap now t r me h = elim (Bool-cases (r.id == me)) [
  | inl own ↦ rw own h
  | inr other ↦ rw other (elim (Option-cases (lookup r.id t)) [
    | inl e ↦ ground (arith, e, insert-IsMap r.id (from_wire now r) t h)
    | inr (m, e) ↦ ground (arith, e, insert-IsMap r.id (overwrite now r m) t h)
  ])
]

-- The entry that a rumor leaves stands under the rumor's id and can be reached.
entry_after-IsGood :
    (now : Instant) (r : WireMember) (o : Option Member) (m : Member)
    → ((m' : Member) → o ≡ some m' → (m'.id ≡ r.id) × (is_unspecified m'.addr.ip ≡ false))
    → entry_after now r o ≡ some m
    → (m.id ≡ r.id) × (is_unspecified m.addr.ip ≡ false)
entry_after-IsGood now r none m h e = ground arith
entry_after-IsGood now r (some m') m h e = ground (arith, h m' refl)

-- Whatever it hears, `merge` keeps the table well formed.
pub merge-IsTable :
    (now : Instant) (t : MemberTable) (r : WireMember) (me : NodeId)
    → IsTable me t
    → IsTable me (merge now t r me).0
merge-IsTable now t r me v = record {
  distinct = merge-IsMap now t r me v.distinct;
  others = ground (arith, lookup-merge now t r me me, v.others);
  own_key = λ j m e. (good j m e).0;
  reachable = λ j m e. (good j m e).1;
}
  where
    good :
        (j : NodeId) (m : Member)
        → lookup j (merge now t r me).0 ≡ some m
        → (m.id ≡ j) × (is_unspecified m.addr.ip ≡ false)
    good j m e = elim (Bool-cases (not (r.id == me) && r.id == j)) [
      | inl hit ↦
          let here : r.id ≡ j = ground arith in
          let (k, u) =
            entry_after-IsGood now r (lookup j t) m
              (λ m' e'. (v.own_key j m' e' ∙ sym here, v.reachable j m' e'))
              (ground (arith, lookup-merge now t r me j)) in
          (k ∙ here, u)
      | inr miss ↦
          let old : lookup j t ≡ some m = ground (arith, lookup-merge now t r me j) in
          (v.own_key j m old, v.reachable j m old)
    ]

remove-IsTable : (t : MemberTable) (me id : NodeId) → IsTable me t → IsTable me (remove id t)
remove-IsTable t me id v = record {
  distinct = remove-IsMap id t v.distinct;
  others = ground (arith, lookup-remove id me t, v.others);
  own_key = λ j m e. v.own_key j m (ground (arith, lookup-remove id j t));
  reachable = λ j m e. v.reachable j m (ground (arith, lookup-remove id j t));
}

-- To drop entries keeps the table well formed.
pub remove_ids-IsTable :
    (t : MemberTable) (me : NodeId) (ids : List NodeId)
    → IsTable me t
    → IsTable me (remove_ids t ids)
remove_ids-IsTable t me [] v = v
remove_ids-IsTable t me (id ∷ ids) v =
    remove_ids-IsTable (remove id t) me ids (remove-IsTable t me id v)
