-- ===== src/Auth.antt =====
-- src/membership/src/auth.rs: the cluster key, and the tag at the end of every message. HMAC-SHA256 is
-- the crate's: it comes in as an interface. Bytes are numbers.
pub mod Sealing
use dalila.Base.{
  ℕ, ◌-◌, ◌≡◌, Bool, List, [], ◌∷◌, ◌++◌, ltb, if◌then◌else◌, length, take, drop, text_eq, Result,
  ok, err,
}
use dalila.Node.{ClusterKey}

abbrev pub tag_len : ℕ
tag_len = 32

abbrev pub min_secret_len : ℕ
min_secret_len = 32

-- `Hmac<Sha256>` by key and message. Its tags have 32 bytes; `verify_slice` accepts the tag itself
-- and nothing else.
pub record Hmac : Type 0 where
  pub mac : ClusterKey → List ℕ → List ℕ
  pub length-mac : (key : ClusterKey) (message : List ℕ) → length (mac key message) ≡ tag_len

pub data AuthError : Type 0 where
  secret_too_short no_room_for_tag failed_authentication : AuthError

-- `secret` as its bytes, which is what `len` counts.
unfoldable pub from_secret : List ℕ → Result AuthError ClusterKey
from_secret secret = if ltb (length secret) min_secret_len then err secret_too_short else ok secret

-- `ClusterKey::none`.
abbrev pub no_key : ClusterKey
no_key = []

module _ (h : Hmac) where
  unfoldable pub seal : ClusterKey → List ℕ → List ℕ
  seal key message = message ++ h.mac key message

  unfoldable pub open_sealed : ClusterKey → List ℕ → Result AuthError (List ℕ)
  open_sealed key sealed =
      if ltb (length sealed) tag_len
      then err no_room_for_tag
      else (let split = length sealed - tag_len in
          let message = take split sealed in
          let tag = drop split sealed in
          if text_eq (h.mac key message) tag then ok message else err failed_authentication)
