-- ===== src/Auth/Sealing.antt =====
-- A message passes exactly if it is one that the key sealed.
use dalila.Base.{
  ℕ, ◌+◌, ◌-◌, ◌≡◌, refl, ap, ◌∙◌, false, List, ◌++◌, ltb, if◌then◌else◌, length, take, drop,
  text_eq, text_eq_iff, ok, err, arith, length-append, take-length-append, drop-length-append,
  take-append-drop,
}
use dalila.Node.{ClusterKey}
use dalila.Auth.{Hmac, failed_authentication, tag_len, seal, open_sealed}

module _ (h : Hmac) (key : ClusterKey) where
  opened :
      (sealed message tag : List ℕ)
      → sealed ≡ message ++ tag
      → length tag ≡ tag_len
      → open_sealed h key sealed
        ≡ (if text_eq (h.mac key message) tag then ok message else err failed_authentication)
  unfolding open_sealed
  opened sealed message tag e l =
      let n : length sealed ≡ length message + length tag =
        ap length e ∙ length-append message tag in
      let long : ltb (length sealed) tag_len ≡ false = ground (arith, n, l) in
      let split : length sealed - tag_len ≡ length message = omega (arith, n, l) in
      rw (long, split, e, take-length-append message tag, drop-length-append message tag)

  -- What was sealed is opened, byte for byte.
  pub open_sealed-seal : (message : List ℕ) → open_sealed h key (seal h key message) ≡ ok message
  unfolding seal
  open_sealed-seal message =
      opened (message ++ h.mac key message) message (h.mac key message) refl
        (h.length-mac key message)
      ∙ rw ((text_eq_iff (h.mac key message) (h.mac key message)).1 refl)

  -- Only what this key sealed is opened: the message and its tag, with no byte changed.
  pub open_sealed-eq-ok :
      (sealed message : List ℕ)
      → open_sealed h key sealed ≡ ok message
      → sealed ≡ seal h key message
  unfolding open_sealed seal
  open_sealed-eq-ok sealed message e =
      let split = length sealed - tag_len in
      let parts = take-append-drop split sealed in
      let tags = text_eq_iff (h.mac key (take split sealed)) (drop split sealed) in
      ground (arith, e, parts, tags)
