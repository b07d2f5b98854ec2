-- ===== src/Udp/Receiving.antt =====
-- src/membership/src/udp.rs, `start_udp_loop`: the receive loop, an arrival at a time. A datagram is a
-- frame of its own.
use dalila.Base.{
  ℕ, ◌≡◌, ◌≢◌, ◌≤◌, refl, List, [], ◌∷◌, ◌++◌, length, take, take-all, Option, none, some, Result,
  ok, err,
}
use dalila.Member.{Instant, SocketAddr}
use dalila.Node.{ClusterKey}
use dalila.Auth.{Hmac, seal}
use dalila.Codec.{
  Codec, FrameError, encode_payload, decode_payload, decode_payload-encode_payload,
  decode_payload-eq-ok,
}
use dalila.Udp.{Peer, Surroundings, UdpBody, Task, handle_datagram}

abbrev pub max_datagram_len : ℕ
max_datagram_len = 1400

-- What `recv_from` gives: an error, or the bytes of a datagram.
pub data Received : Type 0 where
  failed : Received
  datagram : SocketAddr → List ℕ → Received

-- One round of the loop: what arrives, and what the clock reads and the network does then. The other
-- tasks act while this one waits for it.
pub record Arrival : Type 0 where
  pub received : Received
  pub now : Instant
  pub net : Surroundings

abbrev pub started : Option Task → List Task
started none = []
started (some task) = task ∷ []

abbrev pub handled : Arrival → Peer → SocketAddr → UdpBody → Peer × List Task
handled a p addr body =
    let (p', task) = handle_datagram a.now a.net p addr body in (p', started task)

abbrev pub and_then : Peer × List Task → (Peer → Peer × List Task) → Peer × List Task
and_then (p, tasks) next = ((next p).0, tasks ++ (next p).1)

module _ (h : Hmac) (c : Codec UdpBody) (key : ClusterKey) where
  abbrev pub accepted : Arrival → Peer → SocketAddr → Result FrameError UdpBody → Peer × List Task
  accepted a p addr (err e) = (p, [])
  accepted a p addr (ok body) = handled a p addr body

  -- What does not fit into the buffer of a datagram is lost.
  abbrev pub received_by : Arrival → Peer → Received → Peer × List Task
  received_by a p failed = (p, [])
  received_by a p (datagram addr bytes) =
      accepted a p addr (decode_payload h c key (take max_datagram_len bytes))

  -- The loop: the state that it leaves, and the tasks that it has started.
  unfoldable pub udp_loop : List Arrival → Peer → Peer × List Task
  udp_loop [] p = (p, [])
  udp_loop (a ∷ later) p =
      and_then (received_by a (a.net.meanwhile p) a.received) (λ p'. udp_loop later p')

  -- What arrives, and what was said: nothing, where the socket fails or where the datagram is none that
  -- the key sealed.
  pub data Traffic : List Arrival → List (Arrival × Option (SocketAddr × UdpBody)) → Type 0 where
    silence : Traffic [] []
    no_datagram :
        (a : Arrival) {later : List Arrival} {said : List (Arrival × Option (SocketAddr × UdpBody))}
        → a.received ≡ failed
        → Traffic later said
        → Traffic (a ∷ later) ((a, none) ∷ said)
    noise :
        (a : Arrival) (addr : SocketAddr) (bytes : List ℕ) {later : List Arrival}
        {said : List (Arrival × Option (SocketAddr × UdpBody))}
        → a.received ≡ datagram addr bytes
        → ((message : List ℕ) → take max_datagram_len bytes ≢ seal h key message)
        → Traffic later said
        → Traffic (a ∷ later) ((a, none) ∷ said)
    says :
        (a : Arrival) (addr : SocketAddr) (bytes : List ℕ) (body : UdpBody) {later : List Arrival}
        {said : List (Arrival × Option (SocketAddr × UdpBody))}
        → a.received ≡ datagram addr bytes
        → encode_payload h c key body ≡ ok bytes
        → length bytes ≤ max_datagram_len
        → Traffic later said
        → Traffic (a ∷ later) ((a, some (addr, body)) ∷ said)

  -- One handler for each message, in the order of arrival.
  abbrev pub handle_said : Arrival → Option (SocketAddr × UdpBody) → Peer → Peer × List Task
  handle_said a none p = (p, [])
  handle_said a (some (addr, body)) p = handled a p addr body

  unfoldable pub handle_each :
      List (Arrival × Option (SocketAddr × UdpBody)) → Peer → Peer × List Task
  handle_each [] p = (p, [])
  handle_each ((a, said) ∷ rest) p =
      and_then (handle_said a said (a.net.meanwhile p)) (λ p'. handle_each rest p')

  not_sealed :
      (a : Arrival) (p : Peer) (addr : SocketAddr) (bytes : List ℕ) (r : Result FrameError UdpBody)
      → decode_payload h c key bytes ≡ r
      → ((message : List ℕ) → bytes ≢ seal h key message)
      → accepted a p addr r ≡ (p, [])
  not_sealed a p addr bytes (err e) read foreign = refl
  not_sealed a p addr bytes (ok body) read foreign =
      let (message, v, sealed, parsed, versioned) = decode_payload-eq-ok h c key bytes body read in
      absurd (foreign message sealed)

  -- Let each arrival be a failure of the socket, a datagram whose bytes are none that the key
  -- sealed, or the encoding of a message that fits into the buffer. Then the receive loop leaves
  -- the state, and starts the tasks, that handling those messages in turn does; the other arrivals
  -- have no effect but that the other tasks act while the loop waits for them.
  pub udp_loop-Traffic :
      (arrivals : List Arrival) (said : List (Arrival × Option (SocketAddr × UdpBody))) (p : Peer)
      → Traffic arrivals said
      → udp_loop arrivals p ≡ handle_each said p
  unfolding udp_loop handle_each
  udp_loop-Traffic _ _ p silence = refl
  udp_loop-Traffic _ _ p (no_datagram a {later} {said} e rest) =
      rw (e, udp_loop-Traffic later said (a.net.meanwhile p) rest) refl
  udp_loop-Traffic _ _ p (noise a addr bytes {later} {said} e foreign rest) =
      rw
        (
          e,
          not_sealed a (a.net.meanwhile p) addr (take max_datagram_len bytes) _ refl foreign,
          udp_loop-Traffic later said (a.net.meanwhile p) rest,
        )
        refl
  udp_loop-Traffic _ _ p (says a addr bytes body {later} {said} e made fits rest) =
      let p' = (handled a (a.net.meanwhile p) addr body).0 in
      rw
        (
          e,
          take-all max_datagram_len bytes fits,
          decode_payload-encode_payload h c key bytes body made,
          udp_loop-Traffic later said p' rest,
        )
        refl
