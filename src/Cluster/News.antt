-- ===== src/Cluster/News.antt =====
-- What nodes of a cluster that have heard the same believe.
use dalila.Base.{◌≡◌, ◌≢◌, ◌<◌, ◌∙◌, sym, ap, arith, List, some, Elem}
use dalila.Member.{Instant, NodeId, u32_max}
use dalila.Wire.{WireMember}
use dalila.Table.Order.{belief}
use dalila.Table.Convergence.{merge_all, belief-merge_all}
use dalila.Table.Hearing.{Within, hear_all_same, hear_all_third}
use dalila.Cluster.{Cluster, Run, IsStart}
use dalila.Cluster.Runs.{Run-IsConsistent}
use dalila.Cluster.Spread.{Fits-Agree}

-- Let nodes that have just started, and know nobody, say, hear, check, reap, pack and leave, in any
-- order, any number of times. Let two of them believe the same of a third member. If each then
-- merges the same rumors, which are on their way and below the largest incarnation, in any order
-- and any of them any number of times, they believe the same of that member afterwards.
pub same_news :
    {c d : Cluster} (now later : Instant) (i k j : NodeId) (w : WireMember)
    (rs ss : List WireMember)
    → IsStart c
    → Run c d
    → i ≢ j
    → k ≢ j
    → belief (d.agent i).table j ≡ some w
    → belief (d.agent k).table j ≡ some w
    → ((r : WireMember) → Elem r rs → Elem r d.air × (r.incarnation < u32_max))
    → Within rs ss
    → Within ss rs
    → belief (merge_all now (d.agent i).table rs i) j
      ≡ belief (merge_all later (d.agent k).table ss k) j
same_news {d = d} now later i k j w rs ss v run third third' e e' flying into back =
    let (said, g) = Run-IsConsistent v run in
    belief-merge_all now (d.agent i).table rs i j w e
    ∙ ap some (
        hear_all_same i j rs ss w into back (λ r s a b.
          let (fly, small) = flying r a in
          Fits-Agree d said r s (g.air r fly) (g.air s (flying s b).0) small)
        ∙ hear_all_third i k j ss w (ground (arith, third)) (ground (arith, third')))
    ∙ sym (belief-merge_all later (d.agent k).table ss k j w e')
