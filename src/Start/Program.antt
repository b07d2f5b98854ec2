-- ===== src/Start/Program.antt =====
-- src/commands/start.rs, `execute` as a whole: what it does to the system, in order, and where it can
-- fail. What the system answers is `World`.
use dalila.Base.{
  ℕ, Bool, true, false, List, [], ◌∷◌, ◌++◌, if◌then◌else◌, Option, none, some, Result, ok, err,
}
use dalila.Member.{Instant, NodeId, SocketAddr}
use dalila.Wire.{TcpBody, check_tags}
use dalila.Node.{LocalNode, ClusterKey, new}
use dalila.Gossip.{Agent}
use dalila.Auth.{Hmac}
use dalila.Codec.{Codec}
use dalila.Connection.{Network, join}
use dalila.Udp.{Peer, Surroundings}
use dalila.Start.{
  StartError, Config, unwrap_or, check_addr, tags_error, key_of, new_agent, shut_down,
}

-- What `execute` spawns.
pub data Task : Type 0 where
  accept_loop udp_loop health_check proxy api detector sync_loop : Task

-- What `execute` does that something outside can see.
pub data Event : Type 0 where
  listens : SocketAddr → Event
  opens : SocketAddr → Event
  starts : Task → Event
  joins : List SocketAddr → Event
  leaves : Event
  aborts : Task → Event
  announces : ℕ → Event

pub data ExecuteError : Type 0 where
  refused : StartError → ExecuteError
  no_listener no_socket no_local_addr : SocketAddr → ExecuteError
  no_seed no_signal : ExecuteError

-- The answers of the system. `bind_tcp` is `bind` and `local_addr` of the node's own listener: a
-- failure of either ends `execute` there. `bind_proxy` and `bind_api` are whether theirs succeed. `until_signal` is what the tasks make of the agent until the
-- signal comes, and `signal` is whether it can be waited for.
pub record World : Type 0 where
  pub id : NodeId
  pub bind_tcp : SocketAddr → Option SocketAddr
  pub bind_udp : SocketAddr → Bool
  pub bind_proxy : SocketAddr → Bool
  pub bind_api : SocketAddr → Bool
  pub local_addr : SocketAddr → Bool
  pub network : Network
  pub clock : Instant
  pub until_signal : Agent → Peer
  pub signal : Bool
  pub sends : Surroundings

-- A computation that acts, and may fail: what it did stays done.
abbrev pub Traced : Type 0 → Type 0
Traced A = List Event × Result ExecuteError A

module _ {A : Type 0} where
  abbrev pub pure : A → Traced A
  pure a = ([], ok a)

  abbrev pub fail : ExecuteError → Traced A
  fail e = ([], err e)

  abbrev pub checked : Result StartError A → Traced A
  checked (ok a) = pure a
  checked (err e) = fail (refused e)

module _ {A B : Type 0} where
  infixl 5 ◌>>=◌
  unfoldable pub ◌>>=◌ : Traced A → (A → Traced B) → Traced B
  (es, err e) >>= next = (es, err e)
  (es, ok a) >>= next = (es ++ (next a).0, (next a).1)

abbrev pub emit : Event → Traced (Unit {0})
emit e = (e ∷ [], ok tt)

abbrev pub bound : SocketAddr → Option SocketAddr → Traced SocketAddr
bound addr none = fail (no_listener addr)
bound addr (some got) = (listens addr ∷ [], ok got)

abbrev pub open_socket : World → SocketAddr → Traced (Unit {0})
open_socket w addr = if w.bind_udp addr then emit (opens addr) else fail (no_socket addr)

-- A listener for the proxy or the API, if one is configured.
abbrev pub listen_for : (SocketAddr → Bool) → Option SocketAddr → Traced (Unit {0})
listen_for binds none = pure tt
listen_for binds (some addr) = if binds addr then emit (listens addr) else fail (no_listener addr)

abbrev pub proxy_addr : Config → Option SocketAddr
proxy_addr cfg = elim cfg.proxy [ none ↦ none | some p ↦ some p.listen ]

abbrev pub api_addr : Config → Option SocketAddr
api_addr cfg = elim cfg.api [ none ↦ none | some a ↦ some a.listen ]

-- The checks, and then the sockets: the key and the address that the listener got.
unfoldable pub prepare : World → Config → Traced (ClusterKey × SocketAddr)
prepare w cfg = do
  _ ← checked (check_addr cfg)
  _ ← checked (tags_error (check_tags cfg.tags))
  key ← checked (key_of cfg.key)
  got ← bound cfg.bind (w.bind_tcp cfg.bind)
  _ ← open_socket w got
  _ ← listen_for w.bind_proxy (proxy_addr cfg)
  _ ← listen_for w.bind_api (api_addr cfg)
  pure (key, got)

abbrev pub start_each : {A : Type 0} → Task → Option A → Traced (Unit {0})
start_each task none = pure tt
start_each task (some a) = emit (starts task)

abbrev pub accepted : List SocketAddr → Agent × Bool → Traced Agent
accepted seeds (s, true) = (joins seeds ∷ [], ok s)
accepted seeds (s, false) = (joins seeds ∷ [], err no_seed)

-- `start_proxy` or `start_api`, whose listener is asked for its address first: the proxy's for the log
-- line, so not if the log leaves that out, and then `local_addr` is true of it.
abbrev pub start_side : World → Task → Option SocketAddr → Traced (Unit {0})
start_side w task none = pure tt
start_side w task (some addr) =
    if w.local_addr addr then emit (starts task) else fail (no_local_addr addr)

abbrev pub abort_each : {A : Type 0} → Task → Option A → Traced (Unit {0})
abort_each task none = pure tt
abort_each task (some a) = emit (aborts task)

module _ (h : Hmac) (c : Codec TcpBody) where
  abbrev pub join_through_seeds : World → Agent → List SocketAddr → Traced Agent
  join_through_seeds w s [] = pure s
  join_through_seeds w s (seed ∷ seeds) =
      accepted (seed ∷ seeds) (join h c s.node.key w.network w.clock s (seed ∷ seeds))

  -- The loops that a joining node needs, and the join.
  unfoldable pub enter : World → Config → LocalNode → Traced Agent
  enter w cfg node = do
    _ ← emit (starts accept_loop)
    _ ← emit (starts udp_loop)
    _ ← start_each health_check cfg.backend_port
    join_through_seeds w (new_agent node) cfg.seeds

-- `shutdown_signal`.
abbrev pub wait : World → Traced (Unit {0})
wait w = if w.signal then pure tt else fail no_signal

-- The other tasks, and then the wait for a signal.
unfoldable pub work : World → Config → Traced (Unit {0})
work w cfg = do
  _ ← start_side w proxy (proxy_addr cfg)
  _ ← start_side w api (api_addr cfg)
  _ ← emit (starts detector)
  _ ← emit (starts sync_loop)
  wait w

-- The end: the node leaves, its tasks are aborted, and the others are told.
unfoldable pub finish : World → Config → Agent → Traced ℕ
finish w cfg s = do
  _ ← emit leaves
  _ ← emit (aborts accept_loop)
  _ ← emit (aborts udp_loop)
  _ ← emit (aborts detector)
  _ ← emit (aborts sync_loop)
  _ ← abort_each proxy cfg.proxy
  _ ← abort_each api cfg.api
  _ ← abort_each health_check cfg.backend_port
  let (peer, told) = shut_down w.sends (w.until_signal s)
  _ ← emit (announces told)
  pure told

unfoldable pub execute : Hmac → Codec TcpBody → World → Config → Traced ℕ
execute h c w cfg = do
  (key, got) ← prepare w cfg
  s ← enter h c w cfg (new w.id (unwrap_or cfg.advertise got) key cfg.tags)
  _ ← work w cfg
  finish w cfg s
