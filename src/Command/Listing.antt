-- ===== src/Command/Listing.antt =====
-- The listing of a running node, from the command to the node's table.
use dalila.Base.{
  ℕ, ◌≡◌, refl, Bool, true, List, ◌∷◌, map, sort, ok, IsSorted, sort-perm, sort-IsSorted, Permᴰ,
}
use dalila.Member.{Instant}
use dalila.Wire.{TcpBody, members_request, members_response, WireMember}
use dalila.Node.{ClusterKey, identity}
use dalila.Gossip.{Agent}
use dalila.Auth.{Hmac}
use dalila.Codec.{Codec}
use dalila.Join.{records}
use dalila.Connection.{Network}
use dalila.Connection.Exchange.{Fits, Carried, fetch_members_served}
use dalila.Proxy.{addr_le}
use dalila.Proxy.Addresses.{addr_total, addr_trans}
use dalila.Command.{MembersConfig, key_of, member_row, queried_row, list_members}

abbrev pub by_addr : WireMember → WireMember → Bool
by_addr a b = addr_le a.addr b.addr

module _ (h : Hmac) (c : Codec TcpBody) (key : ClusterKey) (accepts : List ℕ → Bool)
    (clock : ℕ → Instant) where
  -- Let the command have the key of a node, let the network carry its request to that node's
  -- serving task, which takes every write, and the reply back, and let both messages fit into a
  -- frame. Then the listing is a row for the node itself, followed by one row for each entry of the
  -- node's table, in the order of their addresses.
  pub list_members_served :
      (net : Network) (cfg : MembersConfig) (node : Agent)
      → key_of cfg.key ≡ ok key
      → (fits : Fits h c key accepts clock members_request)
      → Fits h c key accepts clock (members_response (identity node.node) (records node.table))
      → Carried h c key accepts clock net cfg.addr node fits.bytes
      → ((bytes : List ℕ) → accepts bytes ≡ true)
      → (found : List WireMember) × (list_members h c net cfg
          ≡ ok (queried_row (identity node.node) ∷ map member_row found))
        × Permᴰ found (records node.table)
        × IsSorted by_addr found
  unfolding list_members
  list_members_served net cfg node keyed fits fits' link w = (
    sort by_addr (records node.table),
    rw (keyed, fetch_members_served h c key accepts clock net node cfg.addr fits fits' link w) refl,
    sort-perm by_addr (records node.table),
    sort-IsSorted by_addr (λ a b. addr_total a.addr b.addr)
        (λ a b d. addr_trans a.addr b.addr d.addr) (records node.table),
  )
