-- ===== src/Connection/Reading.antt =====
-- What reading a frame leaves behind.
use dalila.Base.{
  ℕ, ◌+◌, ◌≤◌, ◌≡◌, ◌≢◌, refl, false, List, [], ◌∷◌, ◌++◌, ltb, length, take, drop, none, some,
  Result, ok, err, arith, Bool-cases, inl, inr, length-append, length-drop,
}
use dalila.Node.{ClusterKey}
use dalila.Auth.{Hmac}
use dalila.Codec.{Codec, FrameError, decode_payload}
use dalila.Frame.{max_frame_len, from_be, Read, received, failed, parse_frame, read_frame, at_end}
use dalila.Frame.Streaming.{delivered, AllData}

ltb-false : (a b : ℕ) → ltb a b ≡ false → b ≤ a
ltb-false a b e = ground arith

module _ {A : Type 0} (h : Hmac) (c : Codec A) (key : ClusterKey) where
  pub at_end-ne-frame : (buffer : List ℕ) (body : A) → at_end h c key buffer ≢ ok (some body)
  at_end-ne-frame [] body e = cc
  at_end-ne-frame (x ∷ buffer) body e = cc

  -- What may come of looking for a frame: it is not all there, it is there, or it is bad.
  pub data Found (buffer : List ℕ) : Type 0 where
    waits : parse_frame h c key buffer ≡ (buffer, ok none) → Found buffer
    found :
        (left : List ℕ) (body : A)
        → parse_frame h c key buffer ≡ (left, ok (some body))
        → length left + 4 ≤ length buffer
        → Found buffer
    fails :
        (left : List ℕ) (e : FrameError) → parse_frame h c key buffer ≡ (left, err e) → Found buffer

  decoded-Found :
      (buffer : List ℕ) (r : Result FrameError A)
      → decode_payload h c key (take (from_be buffer) (drop 4 buffer)) ≡ r
      → ltb (length buffer) 4 ≡ false
      → ltb max_frame_len (from_be buffer) ≡ false
      → ltb (length buffer) (from_be buffer + 4) ≡ false
      → Found buffer
  unfolding parse_frame
  decoded-Found buffer (ok body) e more within done =
      found (drop (from_be buffer) (drop 4 buffer)) body (rw (more, within, done, e)) (
        omega (
          arith,
          length-drop (from_be buffer) (drop 4 buffer),
          length-drop 4 buffer,
          ltb-false (length buffer) (from_be buffer + 4) done,
        ))
  decoded-Found buffer (err x) e more within done =
      fails (drop (from_be buffer) (drop 4 buffer)) x (rw (more, within, done, e))

  pub Found-cases : (buffer : List ℕ) → Found buffer
  unfolding parse_frame
  Found-cases buffer = elim (Bool-cases (ltb (length buffer) 4)) [
    | inl tiny ↦ waits (rw tiny)
    | inr more ↦ elim (Bool-cases (ltb max_frame_len (from_be buffer))) [
      | inl over ↦ fails buffer FrameError.oversized (rw (more, over))
      | inr within ↦ elim (Bool-cases (ltb (length buffer) (from_be buffer + 4))) [
        | inl short ↦ waits (rw (more, within, short))
        | inr done ↦ decoded-Found buffer _ refl more within done
      ]
    ]
  ]

  -- A frame that is read takes its prefix at least from the bytes to come.
  pub read_frame-shrinks :
      (buffer : List ℕ) (reads : List Read) (body : A)
      → let g = read_frame h c key buffer reads in
        g.result ≡ ok (some body)
        → length g.buffer + length (delivered g.reads) + 4
          ≤ length buffer + length (delivered reads)
  unfolding read_frame
  read_frame-shrinks buffer [] body e = elim (Found-cases buffer) [
    | waits p ↦ absurd (at_end-ne-frame buffer body (rw p at e))
    | found left b p n ↦ rw p (omega (arith, n))
    | fails left x p ↦ absurd (ground (arith, rw p at e))
  ]
  read_frame-shrinks buffer (failed ∷ reads) body e = elim (Found-cases buffer) [
    | waits p ↦ absurd (ground (arith, rw p at e))
    | found left b p n ↦ rw p (omega (arith, n))
    | fails left x p ↦ absurd (ground (arith, rw p at e))
  ]
  read_frame-shrinks buffer (received [] ∷ reads) body e = elim (Found-cases buffer) [
    | waits p ↦ absurd (at_end-ne-frame buffer body (rw p at e))
    | found left b p n ↦ rw p (omega (arith, n))
    | fails left x p ↦ absurd (ground (arith, rw p at e))
  ]
  read_frame-shrinks buffer (received (b ∷ bs) ∷ reads) body e = elim (Found-cases buffer) [
    | waits p ↦ rw p (
        omega (
          arith,
          read_frame-shrinks (buffer ++ b ∷ bs) reads body (rw p at e),
          length-append buffer (b ∷ bs),
          length-append (b ∷ bs) (delivered reads),
        ))
    | found left x p n ↦ rw p (omega (arith, n))
    | fails left x p ↦ absurd (ground (arith, rw p at e))
  ]

  -- The reads that are left are reads that there were.
  pub read_frame-AllData :
      (buffer : List ℕ) (reads : List Read)
      → AllData reads
      → AllData (read_frame h c key buffer reads).reads
  unfolding read_frame
  read_frame-AllData buffer [] d = elim (Found-cases buffer) [
    | waits p ↦ rw p tt
    | found left b p n ↦ rw p tt
    | fails left x p ↦ rw p tt
  ]
  read_frame-AllData buffer (failed ∷ reads) d = absurd d
  read_frame-AllData buffer (received [] ∷ reads) d = absurd d
  read_frame-AllData buffer (received (b ∷ bs) ∷ reads) d = elim (Found-cases buffer) [
    | waits p ↦ rw p (read_frame-AllData (buffer ++ b ∷ bs) reads d)
    | found left x p n ↦ rw p d
    | fails left x p ↦ rw p d
  ]
