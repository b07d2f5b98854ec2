-- ===== src/Proxy.antt =====
-- src/proxy.rs, and the handler of src/api.rs: which backends a client's connection is tried on.
pub mod Addresses
pub mod Backends
pub mod Turns
pub mod Rounds
pub mod Hashing
use dalila.Base.{
  ℕ, zero, suc, ◌+◌, ◌-◌, ◌%◌, ◌^◌, Bool, true, false, List, [], ◌∷◌, ◌++◌, ◌==◌, ltb, leb, ◌&&◌,
  ◌||◌, if◌then◌else◌, map, filter, sort, none, some, Option, length, not,
}
use dalila.Member.{IpAddr, v4, v6, SocketAddr, Text, Member}
use dalila.Node.{LocalNode, is_ready, has_tag, any_tag}
use dalila.Table.{MemberTable, ready}

-- `Ord` for `IpAddr`: every V4 address stands before every V6 one.
abbrev pub ip_lt : IpAddr → IpAddr → Bool
ip_lt (v4 a) (v4 b) = ltb a b
ip_lt (v4 a) (v6 b) = true
ip_lt (v6 a) (v4 b) = false
ip_lt (v6 a) (v6 b) = ltb a b

abbrev pub ip_eq : IpAddr → IpAddr → Bool
ip_eq (v4 a) (v4 b) = a == b
ip_eq (v4 a) (v6 b) = false
ip_eq (v6 a) (v4 b) = false
ip_eq (v6 a) (v6 b) = a == b

-- `Ord` for `SocketAddr`: the address first, then the port.
abbrev pub addr_le : SocketAddr → SocketAddr → Bool
addr_le a b = ip_lt a.ip b.ip || ip_eq a.ip b.ip && leb a.port b.port

abbrev pub addr_eq : SocketAddr → SocketAddr → Bool
addr_eq a b = ip_eq a.ip b.ip && a.port == b.port

-- `dedup` after an entry `x`: what repeats the entry before it goes.
abbrev pub dedup_after : SocketAddr → List SocketAddr → List SocketAddr
dedup_after x [] = []
dedup_after x (y ∷ ys) = let rest = dedup_after y ys in if addr_eq x y then rest else y ∷ rest

abbrev pub dedup : List SocketAddr → List SocketAddr
dedup [] = []
dedup (x ∷ xs) = x ∷ dedup_after x xs

-- `tag.is_none_or(…)` over a member's tags.
abbrev pub carries : Option Text → List Text → Bool
carries none tags = true
carries (some tag) tags = any_tag tag tags

abbrev pub backend_of : ℕ → SocketAddr → SocketAddr
backend_of port addr = record { ip = addr.ip; port = port }

abbrev pub candidates : LocalNode → MemberTable → ℕ → Option Text → List SocketAddr
candidates n t port tag =
    map (λ m. backend_of port m.addr) (filter (λ m. carries tag m.tags) (ready t))
    ++ (if is_ready n && carries tag n.tags then backend_of port n.addr ∷ [] else [])

unfoldable pub backends : LocalNode → MemberTable → ℕ → Option Text → List SocketAddr
backends n t port tag = dedup (sort addr_le (candidates n t port tag))

-- `addrs[i % addrs.len()]`; there is no such entry only in an empty list.
abbrev pub nth : SocketAddr → List SocketAddr → ℕ → SocketAddr
nth d [] i = d
nth d (x ∷ xs) i = if i == 0 then x else nth d xs (i - 1)

-- The tries of `forward` from the `i`-th on: `left` of them. The sum wraps around as a `usize` does.
unfoldable pub tries_from : SocketAddr → List SocketAddr → ℕ → ℕ → ℕ → List SocketAddr
tries_from d addrs start i zero = []
tries_from d addrs start i (suc left) =
    nth d addrs ((start + i) % 2 ^ 64 % length addrs) ∷ tries_from d addrs start (i + 1) left

abbrev pub first_accepting : (SocketAddr → Bool) → List SocketAddr → Option SocketAddr
first_accepting accepts [] = none
first_accepting accepts (x ∷ xs) =
    let rest = first_accepting accepts xs in if accepts x then some x else rest

-- The order in which a connection tries the backends. `start` is the counter's value.
abbrev pub tries : List SocketAddr → ℕ → List SocketAddr
tries [] start = []
tries (x ∷ xs) start = tries_from x (x ∷ xs) start 0 (length (x ∷ xs))

-- `forward`: the backend that takes the connection, if any, and the counter for the next client.
unfoldable pub forward :
    (SocketAddr → Bool) → LocalNode → MemberTable → ℕ → Option Text → ℕ → Option SocketAddr × ℕ
forward accepts n t port tag next =
    (first_accepting accepts (tries (backends n t port tag) next), (next + 1) % 2 ^ 64)

-- A client as it comes: which backends would accept it, and the node and the table at that time.
pub record Client : Type 0 where
  pub accepts : SocketAddr → Bool
  pub node : LocalNode
  pub table : MemberTable

-- The loop of `start_proxy`, in the order in which the clients take the counter.
unfoldable pub serve_clients : ℕ → Option Text → ℕ → List Client → List (Option SocketAddr) × ℕ
serve_clients port tag next [] = ([], next)
serve_clients port tag next (client ∷ clients) =
    let (chosen, next') = forward client.accepts client.node client.table port tag next in
    let (rest, last) = serve_clients port tag next' clients in (chosen ∷ rest, last)
