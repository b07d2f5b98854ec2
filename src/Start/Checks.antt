-- ===== src/Start/Checks.antt =====
-- What the checks let through: an address that peers can connect to, tags within the limits, a key.
use dalila.Base.{
  ℕ, ◌≡◌, ◌≤◌, refl, false, arith, List, none, some, Option, length, Result, ok, err, Bool-cases,
  inl, inr, ltb,
}
use dalila.Member.{SocketAddr, is_unspecified}
use dalila.Wire.{TagError}
use dalila.Node.{ClusterKey}
use dalila.Auth.{from_secret, min_secret_len, no_key}
use dalila.Start.{Config, unwrap_or, check_addr, tags_error, key_of}

pub tags_error-ok :
    (r : Result TagError (Unit {0})) (u : Unit {0}) → tags_error r ≡ ok u → r ≡ ok tt
tags_error-ok (ok u) v e = refl
tags_error-ok (err x) v e = cc

-- The key of a node: the secret that it was given, which is long enough, or no key.
abbrev pub Keyed : Option (List ℕ) → ClusterKey → Type 0
Keyed none key = key ≡ no_key
Keyed (some secret) key = (key ≡ secret) × (min_secret_len ≤ length secret)

pub key_of-Keyed : (o : Option (List ℕ)) (key : ClusterKey) → key_of o ≡ ok key → Keyed o key
unfolding from_secret
key_of-Keyed none key e = cc
key_of-Keyed (some secret) key e = elim (Bool-cases (ltb (length secret) min_secret_len)) [
  | inl short ↦ absurd (ground (arith, rw short at e))
  | inr long ↦ let e' = rw long at e in (ground (arith, e'), ground (arith, long))
]

pub reached :
    (cfg : Config) (bound : SocketAddr) (u : Unit {0})
    → bound.ip ≡ cfg.bind.ip
    → check_addr cfg ≡ ok u
    → is_unspecified (unwrap_or cfg.advertise bound).ip ≡ false
reached cfg bound u here e =
    elim (Bool-cases (is_unspecified (unwrap_or cfg.advertise cfg.bind).ip)) [
      | inl h ↦ absurd (ground (arith, rw h at e))
      | inr h ↦ advertised cfg.advertise h
    ]
  where
    advertised :
        (o : Option SocketAddr)
        → is_unspecified (unwrap_or o cfg.bind).ip ≡ false
        → is_unspecified (unwrap_or o bound).ip ≡ false
    advertised none h = rw here h
    advertised (some a) h = h
