-- ===== src/Start.antt =====
-- src/commands/start.rs: what is checked before a node starts, and how it stops. The tasks that it
-- starts in between are the other modules.
pub mod Checks
pub mod Stopping
pub mod Program
pub mod Phases
pub mod Failing
pub mod Ending
use dalila.Base.{
  List, [], Option, none, some, Bool, true, if◌then◌else◌, Result, ok, err, ◌>>=◌, ℕ, ◌∷◌,
}
use dalila.Member.{Instant, NodeId, SocketAddr, Text, is_unspecified}
use dalila.Wire.{TcpBody, TagError, check_tags}
use dalila.Node.{LocalNode, ClusterKey, new, leave as leave_node}
use dalila.Auth.{Hmac, AuthError, from_secret, no_key}
use dalila.Gossip.{Agent}
use dalila.Codec.{Codec}
use dalila.Connection.{Network, join}
use dalila.Udp.{Peer, Surroundings, announce_leave}

pub data StartError : Type 0 where
  unreachable_advertise unreachable_bind : SocketAddr → StartError
  bad_tags : TagError → StartError
  bad_key : AuthError → StartError

-- `proxy::Config`.
pub record ProxyConfig : Type 0 where
  pub listen : SocketAddr
  pub backend_port : ℕ
  pub to : Option Text

-- `api::Config`.
pub record ApiConfig : Type 0 where
  pub listen : SocketAddr
  pub backend_port : ℕ

pub record Config : Type 0 where
  pub bind : SocketAddr
  pub advertise : Option SocketAddr
  pub seeds : List SocketAddr
  pub key : Option (List ℕ)
  pub tags : List Text
  pub backend_port : Option ℕ
  pub proxy : Option ProxyConfig
  pub api : Option ApiConfig

-- `advertise.unwrap_or(…)`.
abbrev pub unwrap_or : Option SocketAddr → SocketAddr → SocketAddr
unwrap_or none d = d
unwrap_or (some a) d = a

abbrev pub reject_addr : SocketAddr → Option SocketAddr → StartError
reject_addr bind none = unreachable_bind bind
reject_addr bind (some a) = unreachable_advertise a

abbrev pub check_addr : Config → Result StartError (Unit {0})
check_addr cfg =
    if is_unspecified (unwrap_or cfg.advertise cfg.bind).ip
    then err (reject_addr cfg.bind cfg.advertise)
    else ok tt

abbrev pub tags_error : Result TagError (Unit {0}) → Result StartError (Unit {0})
tags_error (ok u) = ok u
tags_error (err e) = err (bad_tags e)

abbrev pub key_error : Result AuthError ClusterKey → Result StartError ClusterKey
key_error (ok k) = ok k
key_error (err e) = err (bad_key e)

abbrev pub key_of : Option (List ℕ) → Result StartError ClusterKey
key_of none = ok no_key
key_of (some secret) = key_error (from_secret secret)

-- `MemberTable::new` and `GossipQueue::new`.
abbrev pub new_agent : LocalNode → Agent
new_agent node = record { node = node; table = []; queue = [] }

-- The end of `execute`: the node leaves before it says so to the others.
unfoldable pub shut_down : Surroundings → Peer → Peer × ℕ
shut_down net p =
    announce_leave net (record p { agent = record (p.agent) { node = leave_node (p.agent.node) } })
