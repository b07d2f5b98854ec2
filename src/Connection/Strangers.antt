-- ===== src/Connection/Strangers.antt =====
-- A connection from someone without the key.
use dalila.Base.{
  ℕ, suc, ◌+◌, ◌≡◌, ◌≢◌, refl, sym, ap, ◌∙◌, subst, Bool, false, List, [], ◌∷◌, ◌++◌, ltb, length,
  take, drop, Option, none, some, Result, ok, err, arith, ◌⊎◌, Bool-cases, inl, inr, length-take,
  take-append-drop,
}
use mathlib.Core.List.{append_assoc}
use dalila.Member.{Instant}
use dalila.Wire.{TcpBody}
use dalila.Node.{ClusterKey}
use dalila.Gossip.{Agent}
use dalila.Auth.{Hmac, seal}
use dalila.Codec.{Codec, FrameError, decode_payload, decode_payload-eq-ok}
use dalila.Frame.{Read, received, failed, from_be, max_frame_len, read_frame, parse_frame, whole}
use dalila.Frame.Streaming.{delivered}
use dalila.Connection.Reading.{Found-cases, waits, found, fails, at_end-ne-frame}
use dalila.Connection.{Served, closed, dropped, serve, answered}

-- The stream begins with a frame that the key sealed.
abbrev pub Sealed : Hmac → ClusterKey → List ℕ → Type 0
Sealed h key stream =
    (prefix : List ℕ) × (message : List ℕ) × (rest : List ℕ) × (length prefix ≡ 4)
    × (stream ≡ prefix ++ (seal h key message ++ rest))

module _ {A : Type 0} (h : Hmac) (c : Codec A) (key : ClusterKey) where
  Sealed-more : (buffer bytes : List ℕ) → Sealed h key buffer → Sealed h key (buffer ++ bytes)
  Sealed-more buffer bytes (prefix, message, rest, n, e) = (
    prefix,
    message,
    rest ++ bytes,
    n,
    ap (λ b. b ++ bytes) e
        ∙ append_assoc prefix (seal h key message ++ rest) bytes
        ∙ ap (prefix ++◌) (append_assoc (seal h key message) rest bytes),
  )

  decoded-Sealed :
      (n : ℕ) (buffer : List ℕ) (r : Result FrameError A) (body : A)
      → decode_payload h c key (take n (drop 4 buffer)) ≡ r
      → whole h c key r ≡ ok (some body)
      → ltb (length buffer) 4 ≡ false
      → Sealed h key buffer
  decoded-Sealed n buffer (err x) body e w more = absurd (cc)
  decoded-Sealed n buffer (ok b) body e w more =
      let (message, v, sealed, read, versioned) =
        decode_payload-eq-ok h c key (take n (drop 4 buffer)) b e in
      (
        take 4 buffer,
        message,
        drop n (drop 4 buffer),
        ground (arith, length-take 4 buffer, more),
        sym (take-append-drop 4 buffer)
            ∙ ap (take 4 buffer ++◌) (
                sym (take-append-drop n (drop 4 buffer))
                ∙ ap (λ p. p ++ drop n (drop 4 buffer)) sealed),
      )

  parse_frame-Sealed :
      (buffer : List ℕ) (body : A)
      → (parse_frame h c key buffer).1 ≡ ok (some body)
      → Sealed h key buffer
  unfolding parse_frame
  parse_frame-Sealed buffer body e = elim (Bool-cases (ltb (length buffer) 4)) [
    | inl tiny ↦ absurd (ground (arith, rw tiny at e))
    | inr more ↦ elim (Bool-cases (ltb max_frame_len (from_be buffer))) [
      | inl over ↦ absurd (ground (arith, rw (more, over) at e))
      | inr within ↦ elim (Bool-cases (ltb (length buffer) (from_be buffer + 4))) [
        | inl short ↦ absurd (ground (arith, rw (more, within, short) at e))
        | inr done ↦
            decoded-Sealed (from_be buffer) buffer _ body refl (rw (more, within, done) at e) more
      ]
    ]
  ]

  read_frame-Sealed :
      (buffer : List ℕ) (reads : List Read) (body : A)
      → (read_frame h c key buffer reads).result ≡ ok (some body)
      → Sealed h key (buffer ++ delivered reads)
  unfolding read_frame
  read_frame-Sealed buffer [] body e = elim (Found-cases h c key buffer) [
    | waits p ↦ absurd (at_end-ne-frame h c key buffer body (rw p at e))
    | found left b p n ↦ Sealed-more buffer [] (parse_frame-Sealed buffer b (ap (λ x. x.1) p))
    | fails left x p ↦ absurd (ground (arith, rw p at e))
  ]
  read_frame-Sealed buffer (failed ∷ reads) body e = elim (Found-cases h c key buffer) [
    | waits p ↦ absurd (ground (arith, rw p at e))
    | found left b p n ↦
        Sealed-more buffer (delivered reads) (parse_frame-Sealed buffer b (ap (λ x. x.1) p))
    | fails left x p ↦ absurd (ground (arith, rw p at e))
  ]
  read_frame-Sealed buffer (received [] ∷ reads) body e = elim (Found-cases h c key buffer) [
    | waits p ↦ absurd (at_end-ne-frame h c key buffer body (rw p at e))
    | found left b p n ↦
        Sealed-more buffer (delivered reads) (parse_frame-Sealed buffer b (ap (λ x. x.1) p))
    | fails left x p ↦ absurd (ground (arith, rw p at e))
  ]
  read_frame-Sealed buffer (received (b ∷ bs) ∷ reads) body e = elim (Found-cases h c key buffer) [
    | waits p ↦
        subst (Sealed h key) (append_assoc buffer (b ∷ bs) (delivered reads))
          (read_frame-Sealed (buffer ++ b ∷ bs) reads body (rw p at e))
    | found left x p n ↦
        Sealed-more buffer (b ∷ bs ++ delivered reads)
          (parse_frame-Sealed buffer x (ap (λ x. x.1) p))
    | fails left x p ↦ absurd (ground (arith, rw p at e))
  ]

module _ (h : Hmac) (c : Codec TcpBody) (key : ClusterKey) (accepts : List ℕ → Bool)
    (clock : ℕ → Instant) where
  abbrev pub Untouched : Agent → Served → Type 0
  Untouched s v =
      (v.agent ≡ s)
      × (v.written ≡ [])
      × ((v.ending ≡ closed) ⊎ ((e : FrameError) × (v.ending ≡ dropped e)))

  answered-Untouched :
      (now : Instant) (s : Agent) (r : Result FrameError (Option TcpBody)) (more : Agent → Served)
      → ((body : TcpBody) → r ≢ ok (some body))
      → Untouched s (answered h c key accepts clock now s r more)
  answered-Untouched now s (ok none) more m = (refl, refl, inl refl)
  answered-Untouched now s (err e) more m = (refl, refl, inr (e, refl))
  answered-Untouched now s (ok (some body)) more m = absurd (m body refl)

  -- If what a connection's reads deliver does not begin with four bytes and a payload that our key
  -- sealed, then the task leaves the agent as it was, writes nothing, and ends with the connection
  -- closed or dropped.
  pub serve_stranger :
      (fuel i : ℕ) (s : Agent) (reads : List Read)
      → ¬ Sealed h key (delivered reads)
      → Untouched s (serve h c key accepts clock (suc fuel) i s [] reads)
  unfolding serve
  serve_stranger fuel i s reads stranger =
      answered-Untouched (clock i) s _ _
        (λ body e. stranger (read_frame-Sealed h c key [] reads body e))
