-- ===== src/Examples/Starting.antt =====
-- The theorems on the start and the stop of a node, its detector's periods, the listing's labels and
-- the API, on concrete states.
use dalila.Base.{
  List, map, Permᴰ, ◌-◌, ◌<◌, ◌≡◌, ◌≢◌, ◌⊎◌, refl, true, false, Bool, [], ◌∷◌, none, some, lookup,
  sort, arith, Elem,
}
use dalila.Member.{NodeId, SocketAddr, Member, MemberState, Text, is_dead}
use dalila.Node.{identity}
use dalila.Udp.{Surroundings, leave, probe}
use dalila.Detector.{next_target, pop_live, suspicion_timeout}
use dalila.Detector.Failure.{suspected}
use dalila.Detector.Loop.{Tick, Detector, tick}
use dalila.Detector.Accuracy.{tick_verdict}
use dalila.Start.{Config, shut_down}
use dalila.Start.Stopping.{shut_down_lem}
use dalila.Proxy as Proxy
use dalila.Proxy.{forward, Client, serve_clients}
use dalila.Proxy.Rounds.{serve_clients-perm}
use dalila.Api.{Api, Filter, addrs, backends, forward-backends}
use dalila.Examples.{us, host, member_b, two_members, peer, agent-IsAgent, two_members-IsTable}

abbrev web : Text
web = 119 ∷ 101 ∷ 98 ∷ []

-- Nothing answers, and nothing else happens meanwhile.
abbrev pub mute : Surroundings
mute = record { accepts = λ addr body. true; meanwhile = λ p. p }

abbrev pub period : Tick
period = record {
  shuffle = λ ids. ids;
  reshuffle = λ ids. ids;
  choose = λ ms. ms;
  net = mute;
  probed = 2000;
  swept = 3200;
  reaped = 3200;
}

abbrev detector : Detector
detector = record { peer = peer; order = 2 ∷ [] }

tick_verdict_example :
    let (p, acked) = probe period.choose period.net peer member_b in
    ((j : NodeId) (m : Member)
      → lookup j p.agent.table ≡ some m
      → m.state ≡ MemberState.alive
      → (acked ≡ true) ⊎ (2 ≢ j)
      → lookup j (tick period detector).peer.agent.table ≡ some m)
    × (lookup 2 p.agent.table ≡ some member_b
        → MemberState.alive ≡ MemberState.alive
        → acked ≡ false
        → 3200 - 2000 < suspicion_timeout
        → lookup 2 (tick period detector).peer.agent.table ≡ some (suspected 2000 member_b))
unfolding next_target pop_live lookup
tick_verdict_example = tick_verdict period detector member_b (λ p v. v) agent-IsAgent refl

abbrev pub config : Config
config = record {
  bind = host 1;
  advertise = none;
  seeds = host 2 ∷ [];
  key = none;
  tags = web ∷ [];
  backend_port = none;
  proxy = none;
  api = none;
}

shut_down_lem_example :
    let gone = leave (identity us) in
    ((shut_down mute peer).0.agent.node.leaving ≡ true)
    × ((m : Member)
        → lookup m.id two_members ≡ some m
        → is_dead m.state ≡ false
        → true ≡ true
        → Elem (m.addr, gone) (shut_down mute peer).0.sent)
shut_down_lem_example = shut_down_lem mute peer two_members-IsTable

abbrev api : Api
api = record { node = us; table = two_members; backend_port = 8080 }

abbrev everyone : Filter
everyone = record { tag = none }

abbrev pub takes : SocketAddr → Bool
takes a = true

forward-backends_example :
    let (chosen, next') = forward takes us two_members 8080 none 3 in
    let listed = addrs (backends api everyone) in
    ((a : SocketAddr) → chosen ≡ some a → Elem a listed × (takes a ≡ true))
    × (chosen ≡ none → (a : SocketAddr) → Elem a listed → takes a ≡ false)
unfolding backends Proxy.backends sort
forward-backends_example = forward-backends takes api everyone 3 (omega arith)

abbrev client : Client
client = record { accepts = takes; node = us; table = two_members }

serve_clients-perm_example :
    (chosen : List SocketAddr) × ((serve_clients 7946 none 3 (client ∷ client ∷ [])).0
      ≡ map some chosen)
    × Permᴰ chosen (host 1 ∷ host 2 ∷ [])
unfolding Proxy.backends sort
serve_clients-perm_example =
    serve_clients-perm 7946 none (host 1) (host 2 ∷ []) 3 (client ∷ client ∷ [])
      ((refl, λ a. refl), ((refl, λ a. refl), tt)) refl (omega arith)
