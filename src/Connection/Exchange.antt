-- ===== src/Connection/Exchange.antt =====
-- Both ends of a connection together: what the side that asks gets over the wire.
use dalila.Base.{
  ℕ, ◌+◌, ◌≤◌, ◌≡◌, refl, sym, ap, ◌∙◌, Bool, true, List, [], ◌++◌, length, some, ok, arith,
}
use mathlib.Core.List.{append-nil}
use dalila.Member.{Instant, SocketAddr, Member}
use dalila.Wire.{TcpBody, join_request, members_request, members_response, sync_response}
use dalila.Node.{ClusterKey, identity}
use dalila.Gossip.{Agent}
use dalila.Auth.{Hmac}
use dalila.Codec.{Codec}
use dalila.Frame.{Read, max_frame_len, write_frame}
use dalila.Frame.Streaming.{delivered, AllData, read_frame-write_frame}
use dalila.Join.{
  records, handle_join_request, handle_join_reply, handle_request, sync_opening, handle_sync_reply,
}
use dalila.Connection.{Network, serve, closed, ask, join_through, sync_with, fetch_members}
use dalila.Connection.Serving.{serve-Talk, silence, turn}

module _ (h : Hmac) (c : Codec TcpBody) (key : ClusterKey) (accepts : List ℕ → Bool)
    (clock : ℕ → Instant) where
  -- The frame of a message is one that the other side takes.
  pub record Fits (body : TcpBody) : Type 0 where
    pub bytes : List ℕ
    pub made : write_frame h c key body ≡ ok bytes
    pub small : length bytes ≤ max_frame_len + 4

  -- The network takes the bytes to the task that serves a connection to `server`, which stays as it
  -- is until then, and brings back what that task writes. Neither stream fails, and each may be cut
  -- into reads anyhow.
  pub record Carried (net : Network) (addr : SocketAddr) (server : Agent) (sent : List ℕ)
      : Type 0 where
    pub connected : net.connects addr ≡ true
    pub to_server : List Read
    pub all_sent : AllData to_server
    pub sent_bytes : delivered to_server ≡ sent
    pub to_client : List Read
    pub returned : net.returns addr sent ≡ some to_client
    pub all_returned : AllData to_client
    pub reply_bytes :
        delivered to_client
        ≡ (serve h c key accepts clock (length sent + 1) 0 server [] to_server).written

  pub serve_once :
      (server server' : Agent) (body reply : TcpBody) (asks answer : List ℕ) (reads : List Read)
      → write_frame h c key body ≡ ok asks
      → length asks ≤ max_frame_len + 4
      → handle_request (clock 0) server body ≡ (server', some reply)
      → write_frame h c key reply ≡ ok answer
      → AllData reads
      → delivered reads ≡ asks
      → ((bytes : List ℕ) → accepts bytes ≡ true)
      → serve h c key accepts clock (length asks + 1) 0 server [] reads
        ≡ record { agent = server'; written = answer; ending = closed }
  serve_once server server' body reply asks answer reads made small handled answered d e w =
      serve-Talk h c key accepts clock (length asks + 1) 0 server asks [] reads
        (turn body reply server' asks answer [] [] made small handled answered
          (sym (append-nil asks)) (sym (append-nil answer)) (silence refl refl refl))
        d e w (omega arith)

  -- The reply that is read is the reply that the server's handler made.
  pub ask_served :
      (net : Network) (addr : SocketAddr) (server server' : Agent) (body reply : TcpBody)
      (fits : Fits body)
      → Fits reply
      → handle_request (clock 0) server body ≡ (server', some reply)
      → Carried net addr server fits.bytes
      → ((bytes : List ℕ) → accepts bytes ≡ true)
      → ask h c key net addr body ≡ ok (some reply)
  unfolding ask
  ask_served net addr server server' body reply fits fits' handled link w =
      let served =
        serve_once server server' body reply fits.bytes fits'.bytes link.to_server fits.made
          fits.small handled fits'.made link.all_sent link.sent_bytes w in
      let back : delivered link.to_client ≡ fits'.bytes ++ [] =
        link.reply_bytes ∙ ap (λ v. v.written) served ∙ sym (append-nil fits'.bytes) in
      let (read, left) =
        read_frame-write_frame h c key reply fits'.bytes [] [] link.to_client fits'.made fits'.small
          link.all_returned back in
      rw (link.connected, fits.made, link.returned, read) refl

  -- A sync over the wire is the direct exchange of the two tables.
  pub sync_with_served :
      (net : Network) (later : Instant) (a b : Agent) (partner : Member)
      (fits : Fits (sync_opening a))
      → Fits (sync_response (identity b.node) (records b.table))
      → Carried net partner.addr b fits.bytes
      → ((bytes : List ℕ) → accepts bytes ≡ true)
      → sync_with h c key net later a partner
        ≡ ok (handle_sync_reply later a (handle_request (clock 0) b (sync_opening a)).1)
  unfolding sync_with handle_request handle_sync_reply
  sync_with_served net later a b partner fits fits' link w =
      rw (ask_served net partner.addr b _ (sync_opening a) _ fits fits' refl link w) refl

  pub join_through_served :
      (net : Network) (later : Instant) (joiner seed : Agent) (addr : SocketAddr)
      → let (seed', reply) = handle_join_request (clock 0) seed (identity joiner.node) in
        (fits : Fits (join_request (identity joiner.node)))
        → Fits reply
        → Carried net addr seed fits.bytes
        → ((bytes : List ℕ) → accepts bytes ≡ true)
        → join_through h c key net later joiner (join_request (identity joiner.node)) addr
          ≡ ok (handle_join_reply later joiner (some reply))
  unfolding join_through handle_join_request handle_request handle_join_reply
  join_through_served net later joiner seed addr fits fits' link w =
      rw (ask_served net addr seed _ (join_request (identity joiner.node)) _ fits fits' refl link w)
        refl

  pub fetch_members_served :
      (net : Network) (node : Agent) (addr : SocketAddr) (fits : Fits members_request)
      → Fits (members_response (identity node.node) (records node.table))
      → Carried net addr node fits.bytes
      → ((bytes : List ℕ) → accepts bytes ≡ true)
      → fetch_members h c key net addr ≡ ok (identity node.node, records node.table)
  unfolding fetch_members handle_request
  fetch_members_served net node addr fits fits' link w =
      rw (ask_served net addr node node members_request _ fits fits' refl link w) refl
