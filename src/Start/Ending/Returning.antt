-- ===== src/Start/Ending/Returning.antt =====
-- What a run of `execute` that ends well has been through.
use dalila.Base.{◌≡◌, ◌≤◌, true, false, List, [], ◌∷◌, some, ok, length, All, Elem}
use dalila.Member.{SocketAddr, is_unspecified}
use dalila.Wire.{TcpBody, join_request, max_tags}
use dalila.Wire.Tags.{GoodTag}
use dalila.Node.{ClusterKey, identity}
use dalila.Gossip.{Agent}
use dalila.Auth.{Hmac}
use dalila.Codec.{Codec}
use dalila.Connection.{join_through}
use dalila.Start.{Config, unwrap_or}
use dalila.Start.Checks.{Keyed}
use dalila.Start.Program.{World}

-- What a node has that `prepare` let through, with the address that its listener got.
pub record Prepared (w : World) (cfg : Config) (key : ClusterKey) (got : SocketAddr) : Type 0 where
  pub listening : w.bind_tcp cfg.bind ≡ some got
  pub opened : w.bind_udp got ≡ true
  pub reachable : is_unspecified (unwrap_or cfg.advertise got).ip ≡ false
  pub few : length cfg.tags ≤ max_tags
  pub tagged : All GoodTag cfg.tags
  pub keyed : Keyed cfg.key key

module _ (h : Hmac) (c : Codec TcpBody) where
  -- How an agent is in the cluster: alone if no seed was given, else as one of the seeds took it.
  abbrev pub Joined : World → Agent → List SocketAddr → Agent → Type 0
  Joined w s [] s' = s' ≡ s
  Joined w s (seed ∷ seeds) s' =
      (one : SocketAddr) × Elem one (seed ∷ seeds)
      × (join_through h c s.node.key w.network w.clock s (join_request (identity s.node)) one
          ≡ ok s')
