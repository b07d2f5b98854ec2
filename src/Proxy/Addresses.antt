-- ===== src/Proxy/Addresses.antt =====
-- The order of socket addresses is total, transitive and antisymmetric.
use dalila.Base.{◌≡◌, refl, true, false, arith, inl, inr, ◌⊎◌}
use dalila.Member.{IpAddr, v4, v6, SocketAddr}
use dalila.Proxy.{ip_lt, ip_eq, addr_le, addr_eq}

ip_eq-eq : (a b : IpAddr) → ip_eq a b ≡ true → a ≡ b
ip_eq-eq (v4 a) (v4 b) h = ground arith
ip_eq-eq (v4 a) (v6 b) h = cc
ip_eq-eq (v6 a) (v4 b) h = cc
ip_eq-eq (v6 a) (v6 b) h = ground arith

pub addr_eq-eq : (a b : SocketAddr) → addr_eq a b ≡ true → a ≡ b
addr_eq-eq a b h =
    let e : a.ip ≡ b.ip = ip_eq-eq a.ip b.ip (ground arith) in
    let f : a.port ≡ b.port = ground arith in λ i. record { ip = e i; port = f i }

ip_total :
    (a b : IpAddr)
    → (ip_lt a b ≡ true) ⊎ ((ip_lt b a ≡ true) ⊎ (ip_eq a b ≡ true) × (ip_eq b a ≡ true))
ip_total (v4 a) (v4 b) = ground arith
ip_total (v4 a) (v6 b) = inl refl
ip_total (v6 a) (v4 b) = inr (inl refl)
ip_total (v6 a) (v6 b) = ground arith

pub addr_total : (a b : SocketAddr) → addr_le a b ≡ false → addr_le b a ≡ true
addr_total a b h = ground (arith, ip_total a.ip b.ip)

ip_trans : (a b c : IpAddr) → ip_lt a b ≡ true → ip_lt b c ≡ true → ip_lt a c ≡ true
ip_trans (v4 a) (v4 b) (v4 c) h k = ground arith
ip_trans (v4 a) (v4 b) (v6 c) h k = refl
ip_trans (v4 a) (v6 b) (v4 c) h k = cc
ip_trans (v4 a) (v6 b) (v6 c) h k = refl
ip_trans (v6 a) (v4 b) c h k = cc
ip_trans (v6 a) (v6 b) (v4 c) h k = cc
ip_trans (v6 a) (v6 b) (v6 c) h k = ground arith

pub addr_trans : (a b c : SocketAddr) → addr_le a b ≡ true → addr_le b c ≡ true → addr_le a c ≡ true
addr_trans a b c h k =
    ground (arith, ip_trans a.ip b.ip c.ip, ip_eq-eq a.ip b.ip, ip_eq-eq b.ip c.ip)

ip_antisymm : (a b : IpAddr) → ip_lt a b ≡ true → ip_lt b a ≡ true → ⊥
ip_antisymm (v4 a) (v4 b) h k = ground arith
ip_antisymm (v4 a) (v6 b) h k = cc
ip_antisymm (v6 a) (v4 b) h k = cc
ip_antisymm (v6 a) (v6 b) h k = ground arith

ip_irrefl : (a b : IpAddr) → ip_lt a b ≡ true → ip_eq b a ≡ true → ⊥
ip_irrefl (v4 a) (v4 b) h k = ground arith
ip_irrefl (v4 a) (v6 b) h k = cc
ip_irrefl (v6 a) (v4 b) h k = cc
ip_irrefl (v6 a) (v6 b) h k = ground arith

ip_eq_comm : (a b : IpAddr) → ip_eq a b ≡ ip_eq b a
ip_eq_comm (v4 a) (v4 b) = ground arith
ip_eq_comm (v4 a) (v6 b) = refl
ip_eq_comm (v6 a) (v4 b) = refl
ip_eq_comm (v6 a) (v6 b) = ground arith

pub addr_antisymm :
    (a b : SocketAddr) → addr_le a b ≡ true → addr_le b a ≡ true → addr_eq a b ≡ true
addr_antisymm a b h k =
    ground
      (arith, ip_antisymm a.ip b.ip, ip_irrefl a.ip b.ip, ip_irrefl b.ip a.ip, ip_eq_comm a.ip b.ip)

ip_refl : (a : IpAddr) → ip_eq a a ≡ true
ip_refl (v4 a) = ground arith
ip_refl (v6 a) = ground arith

pub addr_eq_of : (a b : SocketAddr) → a ≡ b → addr_eq a b ≡ true
addr_eq_of a b e = rw e (ground (arith, ip_refl b.ip))
