-- ===== src/Api.antt =====
-- src/api.rs: the list of backends for another proxy, over HTTP. axum is a crate: the handler's arguments
-- are what it takes from the request.
use dalila.Base.{
  ℕ, ◌+◌, ◌^◌, ◌≤◌, ◌≡◌, refl, ap, Bool, true, false, List, [], ◌∷◌, map, Option, none, some,
  length, Elem,
}
use dalila.Member.{SocketAddr, Text}
use dalila.Node.{LocalNode}
use dalila.Table.{MemberTable}
use dalila.Proxy as Proxy
use dalila.Proxy.{forward}
use dalila.Proxy.Turns.{forward_lem}

-- What a handler needs.
pub record Api : Type 0 where
  pub node : LocalNode
  pub table : MemberTable
  pub backend_port : ℕ

-- `?tag=web`.
pub record Filter : Type 0 where
  pub tag : Option Text

pub record Backend : Type 0 where
  pub addr : SocketAddr

abbrev entry : SocketAddr → Backend
entry addr = record { addr = addr }

unfoldable pub backends : Api → Filter → List Backend
backends api filter = map entry (Proxy.backends api.node api.table api.backend_port filter.tag)

abbrev pub addrs : List Backend → List SocketAddr
addrs bs = map (λ b. b.addr) bs

addrs-entry : (xs : List SocketAddr) → addrs (map entry xs) ≡ xs
addrs-entry [] = refl
addrs-entry (x ∷ xs) = ap (◌∷◌ x) (addrs-entry xs)

addrs-backends :
    (api : Api) (filter : Filter)
    → addrs (backends api filter) ≡ Proxy.backends api.node api.table api.backend_port filter.tag
unfolding backends
addrs-backends api filter = addrs-entry _

-- As long as the counter and the number of listed backends together stay within 2 ^ 64, the
-- built-in proxy with the API's node, table, port and tag gives a client one of the backends that
-- the API lists, which accepts it, and turns the client away only if all that are listed refuse.
pub forward-backends :
    (accepts : SocketAddr → Bool) (api : Api) (filter : Filter) (next : ℕ)
    → next + length (addrs (backends api filter)) ≤ 2 ^ 64
    → let (chosen, next') = forward accepts api.node api.table api.backend_port filter.tag next in
      let listed = addrs (backends api filter) in
      ((a : SocketAddr) → chosen ≡ some a → Elem a listed × (accepts a ≡ true))
      × (chosen ≡ none → (a : SocketAddr) → Elem a listed → accepts a ≡ false)
forward-backends accepts api filter next small = rw (addrs-backends api filter) (
    forward_lem accepts api.node api.table api.backend_port filter.tag next
      (rw (addrs-backends api filter) at small))
