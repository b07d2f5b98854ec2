-- ===== src/Frame/Streaming.antt =====
-- Frames come out of the stream as they went in, however the network cuts the bytes.
use dalila.Base.{
  ℕ, ◌+◌, ◌^◌, ◌≤◌, ◌<◌, ◌≡◌, ◌≢◌, refl, sym, ap, ◌∙◌, true, false, List, [], ◌∷◌, ◌++◌, ltb, leb,
  length, take, drop, none, some, Result, ok, err, >>=-eq-ok, arith, Bool-cases, inl, inr,
  length-append, take-length-append, drop-length-append,
}
use mathlib.Core.List.{append_assoc}
use dalila.Node.{ClusterKey}
use dalila.Auth.{Hmac}
use dalila.Codec.{Codec, FrameError, encode_payload, decode_payload, decode_payload-encode_payload}
use dalila.Frame.{
  max_frame_len, from_be, to_be, Read, received, failed, write_frame, parse_frame, read_frame,
  framed, whole,
}

pub from_be-to_be : (n : ℕ) (rest : List ℕ) → n < 2 ^ 32 → from_be (to_be n ++ rest) ≡ n
from_be-to_be n rest h = omega arith

module _ {A : Type 0} (h : Hmac) (c : Codec A) (key : ClusterKey) where
  -- What was written is the payload's length and the payload.
  write_frame-parts :
      (body : A) (bytes : List ℕ)
      → write_frame h c key body ≡ ok bytes
      → (payload : List ℕ) × (encode_payload h c key body ≡ ok payload)
        × (bytes ≡ to_be (length payload) ++ payload)
        × (length payload < 2 ^ 32)
  unfolding write_frame
  write_frame-parts body bytes e =
      let (payload, made, e₁) = >>=-eq-ok (encode_payload h c key body) (framed h c key) e in
      elim (Bool-cases (leb (2 ^ 32) (length payload))) [
        | inl long ↦ absurd (ground (arith, long, e₁))
        | inr short ↦ (payload, made, ground (arith, short, e₁), ground (arith, short))
      ]

  -- A frame at the front of the buffer is taken off it, whatever follows.
  pub parse_frame-write_frame :
      (body : A) (bytes rest : List ℕ)
      → write_frame h c key body ≡ ok bytes
      → length bytes ≤ max_frame_len + 4
      → parse_frame h c key (bytes ++ rest) ≡ (rest, ok (some body))
  unfolding parse_frame
  parse_frame-write_frame body bytes rest e small =
      let (payload, made, e₁, fits) = write_frame-parts body bytes e in
      let whole : bytes ++ rest ≡ to_be (length payload) ++ (payload ++ rest) =
        ap (λ b. b ++ rest) e₁ in
      let n : length bytes ≡ 4 + length payload = ap length e₁ ∙ omega arith in
      let announced : from_be (bytes ++ rest) ≡ length payload =
        ap from_be whole ∙ from_be-to_be (length payload) (payload ++ rest) fits in
      let long : ltb (length (bytes ++ rest)) 4 ≡ false =
        ground (arith, length-append bytes rest, n) in
      let allowed : ltb max_frame_len (length payload) ≡ false = ground (arith, n) in
      let complete : ltb (length (bytes ++ rest)) (length payload + 4) ≡ false =
        ground (arith, length-append bytes rest, n) in
      let behind : drop 4 (bytes ++ rest) ≡ payload ++ rest = ap (drop 4) whole in
      rw (
        long,
        announced,
        allowed,
        complete,
        behind,
        take-length-append payload rest,
        drop-length-append payload rest,
        decode_payload-encode_payload h c key payload body made,
      )

from_be-append : (xs ys : List ℕ) → 4 ≤ length xs → from_be (xs ++ ys) ≡ from_be xs
from_be-append (a ∷ b ∷ c ∷ d ∷ xs) ys h = refl
from_be-append [] ys h = absurd (omega arith)
from_be-append (a ∷ []) ys h = absurd (omega arith)
from_be-append (a ∷ b ∷ []) ys h = absurd (omega arith)
from_be-append (a ∷ b ∷ c ∷ []) ys h = absurd (omega arith)

tail_eq : {x y : ℕ} {xs ys : List ℕ} → x ∷ xs ≡ y ∷ ys → (x ≡ y) × (xs ≡ ys)
tail_eq e = (cc, cc)

-- Two ways to cut one list: the shorter front is a part of the longer.
cut :
    (a b c d : List ℕ)
    → a ++ b ≡ c ++ d
    → length c ≤ length a
    → (x : List ℕ) × (a ≡ c ++ x) × (x ++ b ≡ d)
cut a b [] d e h = (a, refl, e)
cut [] b (y ∷ c) d e h = absurd (omega arith)
cut (z ∷ a) b (y ∷ c) d e h =
    let (hd, tl) = tail_eq e in
    let (x, p, q) = cut a b c d tl (omega arith) in (x, (λ i. hd i ∷ p i), q)

-- The bytes that the reads bring, none of which fails or ends the stream.
abbrev pub delivered : List Read → List ℕ
delivered [] = []
delivered (received bytes ∷ reads) = bytes ++ delivered reads
delivered (failed ∷ reads) = delivered reads

abbrev pub AllData : List Read → Type 0
AllData [] = Unit
AllData (received [] ∷ reads) = ⊥
AllData (received (x ∷ bytes) ∷ reads) = AllData reads
AllData (failed ∷ reads) = ⊥

module _ {A : Type 0} (h : Hmac) (c : Codec A) (key : ClusterKey) where
  -- As long as a part of the frame is missing, the buffer is left as it is.
  pub parse_frame_incomplete :
      (body : A) (bytes buffer missing : List ℕ)
      → write_frame h c key body ≡ ok bytes
      → length bytes ≤ max_frame_len + 4
      → bytes ≡ buffer ++ missing
      → length buffer < length bytes
      → parse_frame h c key buffer ≡ (buffer, ok none)
  unfolding parse_frame
  parse_frame_incomplete body bytes buffer missing e small cut_at short =
      let (payload, made, e₁, fits) = write_frame-parts h c key body bytes e in
      let n : length bytes ≡ 4 + length payload = ap length e₁ ∙ omega arith in
      elim (Bool-cases (ltb (length buffer) 4)) [
        | inl tiny ↦ rw tiny
        | inr some_len ↦
            let announced : from_be buffer ≡ length payload =
              sym (from_be-append buffer missing (ground (arith, some_len)))
              ∙ ap from_be (sym cut_at)
              ∙ ap from_be e₁
              ∙ from_be-to_be (length payload) payload fits in
            let allowed : ltb max_frame_len (length payload) ≡ false = ground (arith, n) in
            let waiting : ltb (length buffer) (length payload + 4) ≡ true = ground (arith, n) in
            rw (some_len, announced, allowed, waiting)
      ]

  -- However a frame of allowed length and what follows it are cut into reads, none empty and none
  -- failed, the frame is returned, and the buffer and the reads that are left hold what follows,
  -- not a byte more or less.
  pub read_frame-write_frame :
      (body : A) (bytes buffer rest : List ℕ) (reads : List Read)
      → write_frame h c key body ≡ ok bytes
      → length bytes ≤ max_frame_len + 4
      → AllData reads
      → buffer ++ delivered reads ≡ bytes ++ rest
      → let g = read_frame h c key buffer reads in
        (g.result ≡ ok (some body)) × (g.buffer ++ delivered g.reads ≡ rest)
  unfolding read_frame
  read_frame-write_frame body bytes buffer rest [] e small data_only cut_at =
      let n = ap length cut_at in
      let (x, p, q) =
        cut buffer [] bytes rest cut_at
          (omega (arith, n, length-append buffer [], length-append bytes rest)) in
      rw (p, parse_frame-write_frame h c key body bytes x e small) (refl, q)
  read_frame-write_frame body bytes buffer rest (failed ∷ reads) e small data_only cut_at =
      absurd data_only
  read_frame-write_frame body bytes buffer rest (received [] ∷ reads) e small data_only cut_at =
      absurd data_only
  read_frame-write_frame body bytes buffer rest (received (b ∷ bs) ∷ reads) e small data_only
        cut_at =
      elim (Bool-cases (ltb (length buffer) (length bytes))) [
        | inr enough ↦
            let (x, p, q) =
              cut buffer (b ∷ bs ++ delivered reads) bytes rest cut_at (ground (arith, enough)) in
            rw (p, parse_frame-write_frame h c key body bytes x e small) (refl, q)
        | inl short ↦
            let (y, p, q) =
              cut bytes rest buffer (b ∷ bs ++ delivered reads) (sym cut_at)
                (ground (arith, short)) in
            rw (parse_frame_incomplete body bytes buffer y e small p (ground (arith, short))) (
              read_frame-write_frame body bytes (buffer ++ b ∷ bs) rest reads e small data_only
                (append_assoc buffer (b ∷ bs) (delivered reads) ∙ cut_at))
      ]

  whole-ne-none : (r : Result FrameError A) → whole h c key r ≢ ok none
  whole-ne-none (ok body) e = absurd (ground (arith, e))
  whole-ne-none (err x) e = absurd (ground (arith, e))

  -- A connection never waits with more than the largest frame and its prefix in the buffer.
  pub parse_frame_bounds :
      (buffer left : List ℕ)
      → parse_frame h c key buffer ≡ (left, ok none)
      → (left ≡ buffer) × (length buffer < max_frame_len + 4)
  unfolding parse_frame
  parse_frame_bounds buffer left e = elim (Bool-cases (ltb (length buffer) 4)) [
    | inl tiny ↦ ground (arith, tiny, e)
    | inr more ↦ elim (Bool-cases (ltb max_frame_len (from_be buffer))) [
      | inl over ↦ absurd (ground (arith, more, over, e))
      | inr within ↦ elim (Bool-cases (ltb (length buffer) (from_be buffer + 4))) [
        | inl waits ↦ ground (arith, more, within, waits, e)
        | inr done ↦ absurd (
            whole-ne-none (decode_payload h c key (take (from_be buffer) (drop 4 buffer)))
              (ground (arith, more, within, done, e)))
      ]
    ]
  ]
