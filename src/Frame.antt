-- ===== src/Frame.antt =====
-- src/membership/src/join.rs, `TcpConnection`: frames with a length prefix over a stream of bytes. The
-- state is the buffer; what the socket still gives is a list of reads, and then the end.
pub mod Streaming
use dalila.Base.{
  ℕ, ◌+◌, ◌*◌, ◌/◌, ◌%◌, ◌^◌, Bool, List, [], ◌∷◌, ◌++◌, ltb, leb, if◌then◌else◌, length, take,
  drop, Option, none, some, Result, ok, err, ◌>>=◌,
}
use dalila.Node.{ClusterKey}
use dalila.Auth.{Hmac}
use dalila.Codec.{
  Codec, FrameError, too_long, oversized, incomplete, io_error, encode_payload, decode_payload,
}

abbrev pub max_frame_len : ℕ
max_frame_len = 4 * 1024 * 1024

-- `u32::from_be_bytes` of the first four bytes.
abbrev pub from_be : List ℕ → ℕ
from_be (a ∷ b ∷ c ∷ d ∷ rest) = ((a * 256 + b) * 256 + c) * 256 + d
from_be _ = 0

-- `write_u32`.
abbrev pub to_be : ℕ → List ℕ
to_be n = n / 2 ^ 24 % 256 ∷ n / 2 ^ 16 % 256 ∷ n / 2 ^ 8 % 256 ∷ n % 256 ∷ []

-- A read of the socket: bytes, or an error. The end of the list is the end of the stream.
pub data Read : Type 0 where
  received : List ℕ → Read
  failed : Read

module _ {A : Type 0} (h : Hmac) (c : Codec A) (key : ClusterKey) where
  abbrev framed : List ℕ → Result FrameError (List ℕ)
  framed payload =
      if leb (2 ^ 32) (length payload) then err too_long else ok (to_be (length payload) ++ payload)

  -- The bytes that `write_frame` puts on the stream.
  unfoldable pub write_frame : A → Result FrameError (List ℕ)
  write_frame body = encode_payload h c key body >>= framed

  abbrev pub whole : Result FrameError A → Result FrameError (Option A)
  whole (ok body) = ok (some body)
  whole (err e) = err e

  -- The buffer that is left, and the frame if one is complete.
  unfoldable pub parse_frame : List ℕ → List ℕ × Result FrameError (Option A)
  parse_frame buffer =
      let len = from_be buffer in
      if ltb (length buffer) 4
      then (buffer, ok none)
      else if ltb max_frame_len len
      then (buffer, err oversized)
      else if ltb (length buffer) (len + 4)
      then (buffer, ok none)
      else (drop len (drop 4 buffer), whole (decode_payload h c key (take len (drop 4 buffer))))

  abbrev pub at_end : List ℕ → Result FrameError (Option A)
  at_end [] = ok none
  at_end (x ∷ buffer) = err incomplete

  -- What `read_frame` returns, the buffer that it leaves, and the reads that it did not make.
  pub record Got : Type 0 where
    pub result : Result FrameError (Option A)
    pub buffer : List ℕ
    pub reads : List Read

  -- One round of the loop in `read_frame`: a frame or an error ends it, else `more` goes on.
  abbrev pub round : Result FrameError (Option A) → List ℕ → List Read → Got → Got
  round (ok none) left reads more = more
  round (ok (some body)) left reads more = record {
    result = ok (some body);
    buffer = left;
    reads = reads;
  }
  round (err e) left reads more = record { result = err e; buffer = left; reads = reads }

  -- A read of no bytes is the end of the stream.
  abbrev ended : List ℕ → List Read → Got
  ended left reads = record { result = at_end left; buffer = left; reads = reads }

  unfoldable pub read_frame : List ℕ → List Read → Got
  read_frame buffer [] =
      let (left, found) = parse_frame buffer in round found left [] (ended left [])
  read_frame buffer (failed ∷ reads) =
      let (left, found) = parse_frame buffer in
      round found left (failed ∷ reads)
        (record { result = err io_error; buffer = left; reads = reads })
  read_frame buffer (received [] ∷ reads) =
      let (left, found) = parse_frame buffer in
      round found left (received [] ∷ reads) (ended left reads)
  read_frame buffer (received (x ∷ bytes) ∷ reads) =
      let (left, found) = parse_frame buffer in
      round found left (received (x ∷ bytes) ∷ reads) (read_frame (left ++ x ∷ bytes) reads)
