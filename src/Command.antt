-- ===== src/Command.antt =====
-- src/cli.rs, src/commands.rs and src/commands/members.rs: what the command line asks for, and the listing of
-- a running node's members. clap, which reads the arguments, is a crate; what it promises about them is
-- `Required`.
pub mod Config
pub mod Labels
pub mod Listing
pub mod Printing
use dalila.Base.{
  ℕ, Bool, true, false, List, [], ◌∷◌, ◌++◌, if◌then◌else◌, map, sort, Option, none, some, Result,
  ok, err, ◌>>=◌, ◌≢◌,
}
use dalila.Member.{NodeId, Incarnation, SocketAddr, Text}
use dalila.Wire.{TcpBody, WireIdentity, WireMember, WireMemberState}
use dalila.Node.{ClusterKey}
use dalila.Auth.{Hmac, AuthError, from_secret, no_key}
use dalila.Codec.{Codec}
use dalila.Connection.{Network, AskError, fetch_members}
use dalila.Proxy.{addr_le}
use dalila.Start as Start

pub record StartArgs : Type 0 where
  pub bind : SocketAddr
  pub advertise : Option SocketAddr
  pub join : List SocketAddr
  pub key : Option (List ℕ)
  pub tags : List Text
  pub proxy : Option SocketAddr
  pub proxy_to : Option Text
  pub backend_port : Option ℕ
  pub api : Option SocketAddr

pub record MembersArgs : Type 0 where
  pub addr : SocketAddr
  pub key : Option (List ℕ)

-- `Command`, and so `Cli`.
pub data Command : Type 0 where
  start : StartArgs → Command
  members : MembersArgs → Command

-- `requires` of clap: it refuses a command line with the first option and without the second.
pub record Required (args : StartArgs) : Type 0 where
  pub for_proxy : args.proxy ≢ none → args.backend_port ≢ none
  pub for_proxy_to : args.proxy_to ≢ none → args.proxy ≢ none
  pub for_api : args.api ≢ none → args.backend_port ≢ none

abbrev pub zip : {A B : Type 0} → Option A → Option B → Option (A × B)
zip (some a) (some b) = some (a, b)
zip (some a) none = none
zip none b = none

abbrev pub map_some : {A B : Type 0} → (A → B) → Option A → Option B
map_some f none = none
map_some f (some a) = some (f a)

-- `From<StartArgs> for Config`.
unfoldable pub start_config : StartArgs → Start.Config
start_config args = record {
  bind = args.bind;
  advertise = args.advertise;
  seeds = args.join;
  key = args.key;
  tags = args.tags;
  backend_port = args.backend_port;
  proxy =
      map_some (λ p. record { listen = p.0; backend_port = p.1; to = args.proxy_to })
        (zip args.proxy args.backend_port);
  api =
      map_some (λ p. record { listen = p.0; backend_port = p.1 }) (zip args.api args.backend_port);
}

-- `From<MembersArgs> for Config` of the listing.
pub record MembersConfig : Type 0 where
  pub addr : SocketAddr
  pub key : Option (List ℕ)

abbrev pub members_config : MembersArgs → MembersConfig
members_config args = record { addr = args.addr; key = args.key }

-- `dispatch`: what each command runs.
abbrev pub dispatch : {R : Type 0} → (Start.Config → R) → (MembersConfig → R) → Command → R
dispatch run_start run_members (start args) = run_start (start_config args)
dispatch run_start run_members (members args) = run_members (members_config args)

-- `tags.join(",")`.
abbrev pub comma : ℕ
comma = 44

abbrev pub join_tags : List Text → Text
join_tags [] = []
join_tags (tag ∷ []) = tag
join_tags (tag ∷ other ∷ tags) = tag ++ comma ∷ join_tags (other ∷ tags)

-- A lone dash stands for no tags.
unfoldable pub tags_label : List Text → Text
tags_label [] = 45 ∷ []
tags_label (tag ∷ tags) = join_tags (tag ∷ tags)

-- "alive", "suspect" and "dead".
abbrev pub state_text : WireMemberState → Text
state_text WireMemberState.alive = 97 ∷ 108 ∷ 105 ∷ 118 ∷ 101 ∷ []
state_text WireMemberState.suspect = 115 ∷ 117 ∷ 115 ∷ 112 ∷ 101 ∷ 99 ∷ 116 ∷ []
state_text WireMemberState.dead = 100 ∷ 101 ∷ 97 ∷ 100 ∷ []

-- ", app down".
abbrev pub app_down : Text
app_down = 44 ∷ 32 ∷ 97 ∷ 112 ∷ 112 ∷ 32 ∷ 100 ∷ 111 ∷ 119 ∷ 110 ∷ []

-- " (queried)".
abbrev pub queried : Text
queried = 32 ∷ 40 ∷ 113 ∷ 117 ∷ 101 ∷ 114 ∷ 105 ∷ 101 ∷ 100 ∷ 41 ∷ []

unfoldable pub state_label : WireMemberState → Bool → Text
state_label state ready = if ready then state_text state else state_text state ++ app_down

-- A row of the listing. How an id, an address or a number is written is `to_string`'s matter, so the
-- row keeps these as they are.
pub record Row : Type 0 where
  pub id : NodeId
  pub addr : SocketAddr
  pub incarnation : Incarnation
  pub tags : Text
  pub state : Text

abbrev pub member_row : WireMember → Row
member_row m = record {
  id = m.id;
  addr = m.addr;
  incarnation = m.incarnation;
  tags = tags_label m.tags;
  state = state_label m.state m.ready;
}

abbrev pub queried_row : WireIdentity → Row
queried_row from = record {
  id = from.id;
  addr = from.addr;
  incarnation = from.incarnation;
  tags = tags_label from.tags;
  state = state_label WireMemberState.alive from.ready ++ queried;
}

pub data MembersError : Type 0 where
  bad_key : AuthError → MembersError
  unanswered : AskError → MembersError

abbrev pub key_of : Option (List ℕ) → Result MembersError ClusterKey
key_of none = ok no_key
key_of (some secret) = elim (from_secret secret) [ ok key ↦ ok key | err e ↦ err (bad_key e) ]

abbrev pub fetch_error :
    Result AskError (WireIdentity × List WireMember)
    → Result MembersError (WireIdentity × List WireMember)
fetch_error (ok reply) = ok reply
fetch_error (err e) = err (unanswered e)

-- The rows that `execute` prints under the heading, the queried node's first.
abbrev pub rows : WireIdentity × List WireMember → List Row
rows (from, found) = queried_row from ∷ map member_row (sort (λ a b. addr_le a.addr b.addr) found)

unfoldable pub list_members :
    Hmac → Codec TcpBody → Network → MembersConfig → Result MembersError (List Row)
list_members h c net cfg = do
  key ← key_of cfg.key
  reply ← fetch_error (fetch_members h c key net cfg.addr)
  ok (rows reply)
