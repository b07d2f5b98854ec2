-- ===== src/Codec.antt =====
-- What a TCP frame and a datagram have in common: the protocol version, the body in postcard's
-- encoding, and the tag. postcard is a crate: it comes in as an interface.
use dalila.Base.{
  ℕ, ◌≡◌, refl, ap, ◌∙◌, List, [], ◌∷◌, ◌==◌, if◌then◌else◌, Option, none, some, arith, Result, ok,
  err, ◌>>=◌, Option-cases, subst, inl, inr, >>=-eq-ok,
}
use dalila.Node.{ClusterKey}
use dalila.Wire.{protocol_version}
use dalila.Auth.{Hmac, AuthError, seal, open_sealed}
use dalila.Auth.Sealing.{open_sealed-seal, open_sealed-eq-ok}

-- `to_allocvec` and `from_bytes` of a pair of a byte and a body. postcard writes a byte as itself and
-- a pair one part after the other, and reads back what it wrote.
pub record Codec (A : Type 0) : Type 0 where
  pub to_allocvec : ℕ × A → Option (List ℕ)
  pub from_bytes : List ℕ → Option (ℕ × A)
  pub version_first :
      (v : ℕ) (a : A) (bytes : List ℕ)
      → to_allocvec (v, a) ≡ some bytes
      → (rest : List ℕ) × (bytes ≡ v ∷ rest)
  pub from_bytes-to_allocvec :
      (x : ℕ × A) (bytes : List ℕ) → to_allocvec x ≡ some bytes → from_bytes bytes ≡ some x

pub data FrameError : Type 0 where
  unencodable too_long oversized empty_payload malformed incomplete io_error : FrameError
  wrong_version : ℕ → FrameError
  unauthentic : AuthError → FrameError

-- The match on `payload.first()`.
abbrev pub check_version : List ℕ → Result FrameError (Unit {0})
check_version [] = err empty_payload
check_version (v ∷ rest) = if v == protocol_version then ok tt else err (wrong_version v)

abbrev pub authentic : Result AuthError (List ℕ) → Result FrameError (List ℕ)
authentic (ok message) = ok message
authentic (err e) = err (unauthentic e)

authentic-eq-ok :
    (r : Result AuthError (List ℕ)) (message : List ℕ) → authentic r ≡ ok message → r ≡ ok message
authentic-eq-ok (ok m) message e = ground (arith, e)
authentic-eq-ok (err x) message e = cc

module _ {A : Type 0} (h : Hmac) (c : Codec A) (key : ClusterKey) where
  abbrev pub sealed_of : Option (List ℕ) → Result FrameError (List ℕ)
  sealed_of none = err unencodable
  sealed_of (some payload) = ok (seal h key payload)

  abbrev pub body_of : Option (ℕ × A) → Result FrameError A
  body_of none = err malformed
  body_of (some (v, body)) = ok body

  unfoldable pub encode_payload : A → Result FrameError (List ℕ)
  encode_payload body = sealed_of (c.to_allocvec (protocol_version, body))

  unfoldable pub decode_payload : List ℕ → Result FrameError A
  decode_payload payload = do
    _ ← check_version payload
    message ← authentic (open_sealed h key payload)
    body_of (c.from_bytes message)

  seal-first : (rest : List ℕ) → check_version (seal h key (protocol_version ∷ rest)) ≡ ok tt
  unfolding seal
  seal-first rest = refl

  decode_sealed :
      (bytes : List ℕ) (body : A)
      → c.to_allocvec (protocol_version, body) ≡ some bytes
      → decode_payload (seal h key bytes) ≡ ok body
  unfolding decode_payload
  decode_sealed bytes body e =
      let (rest, first) = c.version_first protocol_version body bytes e in
      let starts : check_version (seal h key bytes) ≡ ok tt =
        ap (λ b. check_version (seal h key b)) first ∙ seal-first rest in
      rw (starts, open_sealed-seal h key bytes, c.from_bytes-to_allocvec _ bytes e)

  -- A payload is read back as the body that it was made from.
  pub decode_payload-encode_payload :
      (bytes : List ℕ) (body : A) → encode_payload body ≡ ok bytes → decode_payload bytes ≡ ok body
  unfolding encode_payload
  decode_payload-encode_payload bytes body e =
      elim (Option-cases (c.to_allocvec (protocol_version, body))) [
        | inl x ↦ absurd (ground (arith, x))
        | inr (b, x) ↦
            let made : seal h key b ≡ bytes = ground (arith, x) in
            subst (λ p. decode_payload p ≡ ok body) made (decode_sealed b body x)
      ]

  abbrev opened_body : List ℕ → Result FrameError A
  opened_body payload = authentic (open_sealed h key payload) >>= λ m. body_of (c.from_bytes m)

  body_of-eq-ok :
      (o : Option (ℕ × A)) (body : A) → body_of o ≡ ok body → (v : ℕ) × (o ≡ some (v, body))
  body_of-eq-ok none body e = cc
  body_of-eq-ok (some (v, b)) body e = (v, ground (arith, e))

  -- If a body is read from a payload, then the key sealed that payload, it begins with our version,
  -- and the body is what its message parses to.
  pub decode_payload-eq-ok :
      (payload : List ℕ) (body : A)
      → decode_payload payload ≡ ok body
      → (message : List ℕ) × (v : ℕ) × (payload ≡ seal h key message)
        × (c.from_bytes message ≡ some (v, body))
        × (check_version payload ≡ ok tt)
  unfolding decode_payload
  decode_payload-eq-ok payload body e =
      let (u, versioned, e₁) = >>=-eq-ok (check_version payload) (λ _. opened_body payload) e in
      let (message, opened, e₂) =
        >>=-eq-ok (authentic (open_sealed h key payload)) (λ m. body_of (c.from_bytes m)) e₁ in
      let (v, read) = body_of-eq-ok (c.from_bytes message) body e₂ in
      (
        message,
        v,
        open_sealed-eq-ok h key payload message
            (authentic-eq-ok (open_sealed h key payload) message opened),
        read,
        versioned,
      )
