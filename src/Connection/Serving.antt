-- ===== src/Connection/Serving.antt =====
-- The task behind a connection: when it ends, and what it does with a conversation.
use dalila.Base.{
  ℕ, zero, suc, ◌+◌, ◌≤◌, ◌<◌, ◌≡◌, ◌≢◌, refl, ap, ◌∙◌, Bool, true, List, [], ◌∷◌, ◌++◌, length,
  Option, none, some, Result, ok, err, arith, Bool-cases, inl, inr, length-append,
}
use dalila.Member.{Instant}
use dalila.Wire.{TcpBody}
use dalila.Node.{ClusterKey}
use dalila.Gossip.{Agent}
use dalila.Auth.{Hmac}
use dalila.Codec.{Codec, FrameError}
use dalila.Frame.{Read, max_frame_len, parse_frame, read_frame, write_frame, received, failed}
use dalila.Frame.Streaming.{delivered, AllData, read_frame-write_frame}
use dalila.Join.{handle_request}
use dalila.Connection.{Served, closed, out_of_fuel, serve, answered, replied, written}
use dalila.Connection.Reading.{read_frame-shrinks, read_frame-AllData}

module _ (h : Hmac) (c : Codec TcpBody) (key : ClusterKey) (accepts : List ℕ → Bool)
    (clock : ℕ → Instant) where
  abbrev Ends : Served → Type 0
  Ends v = v.ending ≢ out_of_fuel

  written-Ends :
      (bytes : Result FrameError (List ℕ)) (s : Agent) (more : Agent → Served)
      → ((s' : Agent) → Ends (more s'))
      → Ends (written h c key accepts clock bytes s more)
  written-Ends (err e) s more m = cc
  written-Ends (ok bytes) s more m = elim (Bool-cases (accepts bytes)) [
    | inl e ↦ rw e (m s)
    | inr e ↦ rw e (cc)
  ]

  replied-Ends :
      (a : Agent × Option TcpBody) (more : Agent → Served)
      → ((s : Agent) → Ends (more s))
      → Ends (replied h c key accepts clock a more)
  replied-Ends (s, none) more m = cc
  replied-Ends (s, some reply) more m = written-Ends (write_frame h c key reply) s more m

  answered-Ends :
      (now : Instant) (s : Agent) (r : Result FrameError (Option TcpBody)) (more : Agent → Served)
      → ((body : TcpBody) → r ≡ ok (some body) → (s' : Agent) → Ends (more s'))
      → Ends (answered h c key accepts clock now s r more)
  answered-Ends now s (ok none) more m = cc
  answered-Ends now s (err e) more m = cc
  answered-Ends now s (ok (some body)) more m =
      replied-Ends (handle_request now s body) more (m body refl)

  -- With more fuel than there are bytes in the buffer and in the reads, the task of a connection
  -- ends for another reason than the fuel.
  pub serve_ends :
      (fuel i : ℕ) (s : Agent) (buffer : List ℕ) (reads : List Read)
      → length buffer + length (delivered reads) < fuel
      → (serve h c key accepts clock fuel i s buffer reads).ending ≢ out_of_fuel
  unfolding serve
  serve_ends zero i s buffer reads n = omega arith
  serve_ends (suc fuel) i s buffer reads n =
      let got = read_frame h c key buffer reads in
      answered-Ends (clock i) s got.result
        (λ s'. serve h c key accepts clock fuel (i + 1) s' got.buffer got.reads)
        (λ body e s'.
          serve_ends fuel (i + 1) s' got.buffer got.reads
            (omega (arith, n, read_frame-shrinks h c key buffer reads body e)))

  -- A conversation, request by request: from round `i` and an agent, the bytes that come in, and the
  -- agent and the bytes that have gone out at the end.
  pub data Talk : ℕ → Agent → List ℕ → Agent → List ℕ → Type 0 where
    silence :
        {i : ℕ} {s s'' : Agent} {ins outs : List ℕ}
        → ins ≡ []
        → s'' ≡ s
        → outs ≡ []
        → Talk i s ins s'' outs
    turn :
        {i : ℕ} {s s'' : Agent} {ins outs : List ℕ} (request reply : TcpBody) (s' : Agent)
        (asks answer ins' outs' : List ℕ)
        → write_frame h c key request ≡ ok asks
        → length asks ≤ max_frame_len + 4
        → handle_request (clock i) s request ≡ (s', some reply)
        → write_frame h c key reply ≡ ok answer
        → ins ≡ asks ++ ins'
        → outs ≡ answer ++ outs'
        → Talk (i + 1) s' ins' s'' outs'
        → Talk i s ins s'' outs

  no_bytes :
      (buffer : List ℕ) (reads : List Read)
      → AllData reads
      → buffer ++ delivered reads ≡ []
      → (buffer ≡ []) × (reads ≡ [])
  no_bytes [] [] d e = (refl, refl)
  no_bytes [] (received [] ∷ reads) d e = absurd d
  no_bytes [] (received (x ∷ xs) ∷ reads) d e = absurd (cc)
  no_bytes [] (failed ∷ reads) d e = absurd d
  no_bytes (x ∷ buffer) reads d e = absurd (cc)

  at_silence : read_frame h c key [] [] ≡ record { buffer = []; reads = []; result = ok none }
  unfolding read_frame parse_frame
  at_silence = refl

  -- Let the bytes that come in be a conversation: requests, each framed within the limit, each of
  -- which `handle_request` answers at its round's time with a reply that can be framed. If no read
  -- fails or is empty, every write is taken, and the fuel exceeds the number of bytes, then however
  -- the bytes are cut into reads, the task leaves the agent that the requests in turn leave, writes
  -- the replies' frames in that order, and ends with the connection closed.
  pub serve-Talk :
      {s'' : Agent} {outs : List ℕ} (fuel i : ℕ) (s : Agent) (ins buffer : List ℕ)
      (reads : List Read)
      → Talk i s ins s'' outs
      → AllData reads
      → buffer ++ delivered reads ≡ ins
      → ((bytes : List ℕ) → accepts bytes ≡ true)
      → length ins < fuel
      → serve h c key accepts clock fuel i s buffer reads
        ≡ record { agent = s''; written = outs; ending = closed }
  unfolding serve
  serve-Talk zero i s ins buffer reads talk d e ok_write n = absurd (omega arith)
  serve-Talk (suc fuel) i s ins buffer reads (silence none_in same none_out) d e ok_write n =
      let (no_buffer, no_reads) = no_bytes buffer reads d (e ∙ none_in) in
      rw (no_buffer, no_reads, same, none_out, at_silence) refl
  serve-Talk (suc fuel) i s ins buffer reads
        (turn request reply s' asks answer ins' outs' made small handled answer_made cut_in cut_out
          talk)
        d e ok_write n =
      let got = read_frame h c key buffer reads in
      let (read, left) =
        read_frame-write_frame h c key request asks buffer ins' reads made small d (e ∙ cut_in) in
      let less = read_frame-shrinks h c key buffer reads request read in
      let rest =
        serve-Talk fuel (i + 1) s' ins' got.buffer got.reads talk
          (read_frame-AllData h c key buffer reads d) left ok_write
          (omega (
            arith,
            n,
            less,
            ap length e,
            ap length left,
            length-append buffer (delivered reads),
            length-append got.buffer (delivered got.reads),
          )) in
      rw (read, handled, answer_made, ok_write answer, rest, cut_out)
