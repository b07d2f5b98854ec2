-- ===== src/Examples/Cluster.antt =====
-- The theorem on joins, on two concrete nodes.
use dalila.Base.{◌≡◌, refl, true, [], lookup, arith}
use dalila.Member.{is_unspecified}
use dalila.Wire.{join_request}
use dalila.Node.{new, identity}
use dalila.Table.{contains}
use dalila.Gossip.{Agent}
use dalila.Join.{handle_request, handle_join_reply}
use dalila.Join.Joining.{join_complete}
use dalila.Examples.{host, member_b, agent, agent-IsAgent}

abbrev joiner : Agent
joiner = record { node = new 9 (host 9) [] []; table = []; queue = [] }

join_complete_example :
    let (seed', reply) = handle_request 5 agent (join_request (identity (joiner.node))) in
    let joiner' = handle_join_reply 6 joiner reply in
    (contains seed'.table 9 ≡ true)
    × (contains joiner'.table 1 ≡ true)
    × (contains joiner'.table 2 ≡ true)
unfolding lookup is_unspecified
join_complete_example =
    join_complete 5 6 agent joiner 2 member_b agent-IsAgent (omega arith) refl refl refl
      (omega arith) refl
