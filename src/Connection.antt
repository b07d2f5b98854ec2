-- ===== src/Connection.antt =====
-- src/membership/src/join.rs: a connection from end to end. `serve` is the task that the accept loop
-- starts for a connection; `ask` is what the other side does, in a join, a sync or a query. What the
-- sockets do is an argument.
pub mod Reading
pub mod Serving
pub mod Exchange
pub mod Seeds
pub mod Strangers
use dalila.Base.{
  ℕ, zero, suc, ◌+◌, Bool, true, false, List, [], ◌∷◌, ◌++◌, if◌then◌else◌, Option, none, some,
  Result, ok, err, ◌>>=◌, length,
}
use dalila.Member.{Instant, SocketAddr, Member}
use dalila.Wire.{
  TcpBody, join_request, join_response, members_request, members_response, sync_response,
  WireIdentity, WireMember,
}
use dalila.Node.{ClusterKey, identity}
use dalila.Table.{random_member}
use dalila.Gossip.{Agent}
use dalila.Auth.{Hmac}
use dalila.Codec.{Codec, FrameError}
use dalila.Frame.{Read, Got, read_frame, write_frame}
use dalila.Join.{handle_request, handle_join_response, absorb, sync_opening}

-- How a connection ends: the peer hung up, its bytes were no frame of ours, it sent a response, or
-- the reply could not be written.
pub data Ending : Type 0 where
  closed : Ending
  dropped : FrameError → Ending
  no_request : Ending
  unsent : Ending
  out_of_fuel : Ending

pub record Served : Type 0 where
  pub agent : Agent
  pub written : List ℕ
  pub ending : Ending

-- Why an exchange failed. A reply that does not come in time is a read that fails.
pub data AskError : Type 0 where
  no_connection not_written wrong_reply closed_early : AskError
  bad_frame : FrameError → AskError

-- The network on the side that asks: whether a connection is made, and what comes back for the bytes
-- that are written, unless the write fails.
pub record Network : Type 0 where
  pub connects : SocketAddr → Bool
  pub returns : SocketAddr → List ℕ → Option (List Read)

module _ (h : Hmac) (c : Codec TcpBody) (key : ClusterKey) where
  module _ (accepts : List ℕ → Bool) (clock : ℕ → Instant) where
    -- The reply goes out, if it can be encoded and the socket takes it; a write that fails is taken to
    -- put nothing on the stream.
    abbrev pub written : Result FrameError (List ℕ) → Agent → (Agent → Served) → Served
    written (err e) s more = record { agent = s; written = []; ending = unsent }
    written (ok bytes) s more =
        let rest = more s in
        if accepts bytes
        then (record rest { written = bytes ++ rest.written })
        else (record { agent = s; written = []; ending = unsent })

    abbrev pub replied : Agent × Option TcpBody → (Agent → Served) → Served
    replied (s, none) more = record { agent = s; written = []; ending = no_request }
    replied (s, some reply) more = written (write_frame h c key reply) s more

    -- One round of the loop, after a frame was read.
    abbrev pub answered :
        Instant → Agent → Result FrameError (Option TcpBody) → (Agent → Served) → Served
    answered now s (ok none) more = record { agent = s; written = []; ending = closed }
    answered now s (err e) more = record { agent = s; written = []; ending = dropped e }
    answered now s (ok (some body)) more = replied (handle_request now s body) more

    -- The loop of the task, `i` rounds on.
    unfoldable pub serve : (fuel i : ℕ) → Agent → List ℕ → List Read → Served
    serve zero i s buffer reads = record { agent = s; written = []; ending = out_of_fuel }
    serve (suc fuel) i s buffer reads =
        let got = read_frame h c key buffer reads in
        answered (clock i) s got.result (λ s'. serve fuel (i + 1) s' got.buffer got.reads)

  abbrev pub framed : {A : Type 0} → Result FrameError A → Result AskError A
  framed (ok a) = ok a
  framed (err e) = err (bad_frame e)

  abbrev pub arrived : Option (List Read) → Result AskError (List Read)
  arrived none = err not_written
  arrived (some reads) = ok reads

  -- Connect, write one frame, and read one.
  unfoldable pub ask : Network → SocketAddr → TcpBody → Result AskError (Option TcpBody)
  ask net addr body =
      if net.connects addr
      then (do
        bytes ← framed (write_frame h c key body)
        reads ← arrived (net.returns addr bytes)
        framed (read_frame h c key [] reads).result)
      else err no_connection

  abbrev pub joined : Instant → Agent → Option TcpBody → Result AskError Agent
  joined now s (some (join_response from members)) = ok (handle_join_response now s from members)
  joined now s (some _) = err wrong_reply
  joined now s none = err closed_early

  unfoldable pub join_through :
      Network → Instant → Agent → TcpBody → SocketAddr → Result AskError Agent
  join_through net now s body seed = do reply ← ask net seed body; joined now s reply

  abbrev pub first_joined : Result AskError Agent → Agent × Bool → Agent × Bool
  first_joined (ok s') rest = (s', true)
  first_joined (err e) rest = rest

  -- The loop over the seeds: the agent afterwards, and whether one accepted.
  unfoldable pub try_seeds : Network → Instant → Agent → TcpBody → List SocketAddr → Agent × Bool
  try_seeds net now s body [] = (s, false)
  try_seeds net now s body (seed ∷ seeds) =
      first_joined (join_through net now s body seed) (try_seeds net now s body seeds)

  unfoldable pub join : Network → Instant → Agent → List SocketAddr → Agent × Bool
  join net now s seeds = try_seeds net now s (join_request (identity s.node)) seeds

  abbrev pub fetched : Option TcpBody → Result AskError (WireIdentity × List WireMember)
  fetched (some (members_response from members)) = ok (from, members)
  fetched (some _) = err wrong_reply
  fetched none = err closed_early

  unfoldable pub fetch_members :
      Network → SocketAddr → Result AskError (WireIdentity × List WireMember)
  fetch_members net addr = do reply ← ask net addr members_request; fetched reply

  abbrev pub synced : Instant → Agent → Option TcpBody → Result AskError Agent
  synced now s (some (sync_response from members)) = ok (absorb now s from members)
  synced now s (some _) = err wrong_reply
  synced now s none = err closed_early

  unfoldable pub sync_with : Network → Instant → Agent → Member → Result AskError Agent
  sync_with net now s partner = do reply ← ask net partner.addr (sync_opening s); synced now s reply

  abbrev pub or_same : Agent → Result AskError Agent → Agent
  or_same s (ok s') = s'
  or_same s (err e) = s

  abbrev pub sync_partner : Network → Instant → Agent → Option Member → Agent
  sync_partner net now s none = s
  sync_partner net now s (some partner) = or_same s (sync_with net now s partner)

  -- One turn of the sync loop. `rand`'s choice is an argument.
  unfoldable pub sync_round : (List Member → Option Member) → Network → Instant → Agent → Agent
  sync_round choose net now s = sync_partner net now s (random_member choose s.table)
