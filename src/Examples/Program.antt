-- ===== src/Examples/Program.antt =====
-- The theorems on `execute`, in a world where everything can be bound and nobody answers.
use dalila.Base.{
  ℕ, List, ◌∷◌, ◌++◌, ◌*◌, ◌+◌, ◌^◌, ◌≡◌, ◌<◌, refl, true, false, [], none, some, All, IsSorted,
}
use dalila.Start.{Config, shut_down}
use dalila.Start.Program.{World, execute, prepare, enter, work, finish, ◌>>=◌, no_seed}
use dalila.Start.Phases.{phase, in_order}
use dalila.Start.Phases.Execute.{execute-IsSorted}
use dalila.Start.Failing.Execute.{execute_fails}
use dalila.Start.Ending.{remains, replay}
use dalila.Start.Ending.Execute.{replay-execute}
use dalila.Member.{is_unspecified}
use dalila.Wire.{check_tags, protocol_version}
use dalila.Connection.{join, try_seeds, join_through, ask}
use dalila.Udp.{announce_leave}
use dalila.Examples.{peer}
use dalila.Examples.Bytes.{short_codec}
use dalila.Examples.Messages.{zeros, plain_mac}
use dalila.Frame.{received, to_be}
use dalila.Examples.Connections.{silent_net}
use dalila.Examples.Starting.{config, mute}

abbrev world : World
world = record {
  id = 1;
  bind_tcp = λ addr. some addr;
  bind_udp = λ addr. true;
  bind_proxy = λ addr. true;
  bind_api = λ addr. true;
  local_addr = λ addr. true;
  network = silent_net;
  clock = 5;
  until_signal = λ s. peer;
  signal = true;
  sends = mute;
}

execute-IsSorted_example : IsSorted in_order (execute plain_mac short_codec world config).0
execute-IsSorted_example = execute-IsSorted plain_mac short_codec world config

execute_fails_example : All (λ x. phase x < 3) (execute plain_mac short_codec world config).0
unfolding execute prepare enter ◌>>=◌ is_unspecified check_tags join try_seeds join_through ask
execute_fails_example = execute_fails plain_mac short_codec world config no_seed refl

-- The first node of a cluster, with a health check.
abbrev alone : Config
alone = record (config) { seeds = []; backend_port = some 8080 }

replay-execute_example :
    replay (remains [] false none) (execute plain_mac short_codec world alone).0
    ≡ remains [] true (some 2)
unfolding execute prepare enter work finish ◌>>=◌ is_unspecified check_tags shut_down announce_leave
replay-execute_example = replay-execute plain_mac short_codec world alone 2 refl

-- The second node takes the join of the first.
abbrev welcome : List ℕ
welcome = to_be 38 ++ protocol_version ∷ 0 ∷ 2 ∷ (10 * 2 ^ 24 + 2) ∷ 7946 ∷ 0 ∷ zeros 32

abbrev joining : World
joining = record (world) {
  network = record {
    connects = λ addr. true;
    returns = λ addr bytes. some (received welcome ∷ []);
  };
}

abbrev untagged : Config
untagged = record (config) { tags = [] }
