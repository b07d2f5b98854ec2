-- ===== src/Examples/Membership.antt =====
-- The theorems on the table and on the node, on concrete states.
use dalila.Base.{◌<◌, ◌≡◌, refl, [], ◌∷◌, some, lookup, arith, inl, inr}
use dalila.Member.{u32_max, is_unspecified}
use dalila.Wire.{WireMember, WireMemberState}
use dalila.Node.{refute, leave, alive_rumor}
use dalila.Node.Steps.{Reach, refutes, leaves, here, next}
use dalila.Node.Defence.{refute_clears, refute_saturated}
use dalila.Table.{MemberTable, ignored, updated, merge}
use dalila.Table.Order.{belief}
use dalila.Table.Convergence.{Consistent, merge_order_matters}
use dalila.Examples.{us, member_c, two_members, rumor_of}

abbrev doubt_b : WireMember
doubt_b = rumor_of 2 1 WireMemberState.suspect

abbrev clears_b : WireMember
clears_b = rumor_of 2 2 WireMemberState.alive

two_news-Consistent : Consistent (doubt_b ∷ clears_b ∷ [])
two_news-Consistent r s (inl e) (inl f) i j k = ground arith
two_news-Consistent r s (inl e) (inr (inl f)) i j k = absurd (ground arith)
two_news-Consistent r s (inr (inl e)) (inl f) i j k = absurd (ground arith)
two_news-Consistent r s (inr (inl e)) (inr (inl f)) i j k = ground arith
two_news-Consistent r s (inl e) (inr (inr f)) i j k = absurd f
two_news-Consistent r s (inr (inl e)) (inr (inr f)) i j k = absurd f
two_news-Consistent r s (inr (inr e)) f i j k = absurd e

merge_order_matters_example :
    (belief
        (merge 8
          (merge 8 two_members (rumor_of 7 0 WireMemberState.alive) 1).0
          (rumor_of 7 0 WireMemberState.dead)
          1).0
        7
      ≡ some (rumor_of 7 0 WireMemberState.dead))
    × (belief
          (merge 8
            (merge 8 two_members (rumor_of 7 0 WireMemberState.dead) 1).0
            (rumor_of 7 0 WireMemberState.alive)
            1).0
          7
        ≡ some (rumor_of 7 0 WireMemberState.alive))
unfolding lookup is_unspecified
merge_order_matters_example =
    merge_order_matters 8 two_members (rumor_of 7 0 WireMemberState.alive)
      (rumor_of 7 0 WireMemberState.dead) 1 refl (omega arith) refl refl refl refl (omega arith)

doubted_and_left : Reach us (leave (refute us 5).0)
doubted_and_left = next (next here (refutes 5)) leaves

abbrev peer_table : MemberTable
peer_table = (1, record (member_c) { id = 1; incarnation = 0 }) ∷ []

refute_clears_example :
    let n' = (refute us 0).0 in
    ((refute us 0).1 ≡ some n'.incarnation)
    × (0 < n'.incarnation)
    × ((merge 9 peer_table (alive_rumor n') 2).1 ≡ updated)
    × (belief (merge 9 peer_table (alive_rumor n') 2).0 1
        ≡ some (record (alive_rumor n') { id = 1; addr = member_c.addr }))
unfolding lookup
refute_clears_example =
    refute_clears us 0 9 peer_table 2 (record (member_c) { id = 1; incarnation = 0 }) refl
      (omega arith) (omega arith) refl (omega arith)

abbrev top_table : MemberTable
top_table = (1, record (member_c) { id = 1; incarnation = u32_max }) ∷ []

refute_saturated_example :
    merge 9 top_table (alive_rumor (refute us u32_max).0) 2 ≡ (top_table, ignored)
unfolding lookup
refute_saturated_example =
    refute_saturated 9 top_table 2 (record (member_c) { id = 1; incarnation = u32_max })
      (omega arith) (next here (refutes u32_max)) (omega arith) refl refl (omega arith)
