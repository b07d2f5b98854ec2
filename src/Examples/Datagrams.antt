-- ===== src/Examples/Datagrams.antt =====
-- The theorems on the loops of a node, on a codec for leaves, and those on tables.
use dalila.Base.{
  true, ℕ, ◌+◌, ◌*◌, ◌^◌, ◌≡◌, ◌≢◌, refl, sym, ap, ◌∙◌, arith, List, [], ◌∷◌, none, some, Option,
  ok, length, length-append, lookup, insert,
}
use dalila.Member.{is_unspecified}
use dalila.Wire.{WireIdentity, protocol_version}
use dalila.Node.{identity, leave as leave_node}
use dalila.Auth.{seal}
use dalila.Codec.{Codec, encode_payload}
use dalila.Gossip.{apply}
use dalila.Table.{merge}
use dalila.Udp.{UdpBody, leave, leave_rumor}
use dalila.Udp.Receiving.{
  Arrival, Received, failed, datagram, udp_loop, handle_each, silence, no_datagram, noise, says,
  udp_loop-Traffic,
}
use dalila.Cluster.{Cluster}
use dalila.Base.Permᴰ
use dalila.Udp.{Surroundings}
use dalila.Detector.Loop.{periods}
use dalila.Examples.Starting.{period}
use dalila.Examples.{host}
use dalila.Examples.Bytes.{
  some_inj, named, before, identity_bytes, identity_bytes-some, before-first,
}
use dalila.Examples.Messages.{zeros, plain_mac}
use dalila.Examples.Clusters.{left, quiet, first_peer}

abbrev encode_leave : ℕ × UdpBody → Option (List ℕ)
encode_leave (v, leave from) = before (v ∷ []) (identity_bytes from)
encode_leave _ = none

abbrev decode_leave : List ℕ → Option (ℕ × UdpBody)
decode_leave (v ∷ id ∷ a ∷ port ∷ n ∷ []) = some (v, leave (named id a port n))
decode_leave _ = none

encode_leave-first :
    (v : ℕ) (body : UdpBody) (bytes : List ℕ)
    → encode_leave (v, body) ≡ some bytes
    → (rest : List ℕ) × (bytes ≡ v ∷ rest)
encode_leave-first v (leave from) bytes e = before-first v [] _ bytes e
encode_leave-first v body bytes e = absurd (cc)

before-some :
    (v : ℕ) (o : Option (List ℕ)) (bytes : List ℕ)
    → before (v ∷ []) o ≡ some bytes
    → (xs : List ℕ) × (o ≡ some xs) × (v ∷ xs ≡ bytes)
before-some v none bytes e = absurd (cc)
before-some v (some xs) bytes e = (xs, refl, some_inj e)

decode_leave-encode_leave :
    (x : ℕ × UdpBody) (bytes : List ℕ) → encode_leave x ≡ some bytes → decode_leave bytes ≡ some x
decode_leave-encode_leave (v, leave from) bytes e =
    let (xs, first, whole) = before-some v (identity_bytes from) bytes e in
    let (a, same, these) = identity_bytes-some from xs first in
    ap decode_leave (sym whole)
    ∙ ap (λ z. decode_leave (v ∷ z)) these
    ∙ ap (λ z. some (v, leave z)) same
decode_leave-encode_leave (v, body) bytes e = absurd (cc)

abbrev leave_codec : Codec UdpBody
leave_codec = record {
  to_allocvec = encode_leave;
  from_bytes = decode_leave;
  version_first = encode_leave-first;
  from_bytes-to_allocvec = decode_leave-encode_leave;
}

abbrev goodbye : WireIdentity
goodbye = identity (left.agent 2).node

abbrev goodbye_bytes : List ℕ
goodbye_bytes = protocol_version ∷ 2 ∷ (10 * 2 ^ 24 + 2) ∷ 7946 ∷ 0 ∷ zeros 32

goodbye_made : encode_payload plain_mac leave_codec [] (leave goodbye) ≡ ok goodbye_bytes
unfolding encode_payload seal leave_node apply merge lookup is_unspecified insert
goodbye_made = refl

abbrev arrival : Received → Arrival
arrival got = record { received = got; now = 9; net = quiet }

abbrev arrivals : List Arrival
arrivals =
    arrival failed
    ∷ arrival (datagram (host 9) (1 ∷ 2 ∷ []))
    ∷ arrival (datagram (host 2) goodbye_bytes)
    ∷ []

not_ours : (message : List ℕ) → (1 ∷ 2 ∷ []) ≢ seal plain_mac [] message
unfolding seal
not_ours message e = omega (arith, ap length e, length-append message (zeros 32))

udp_loop-Traffic_example :
    udp_loop plain_mac leave_codec [] arrivals first_peer
    ≡ handle_each plain_mac leave_codec []
        ((arrival failed, none)
          ∷ (arrival (datagram (host 9) (1 ∷ 2 ∷ [])), none)
          ∷ (arrival (datagram (host 2) goodbye_bytes), some (host 2, leave goodbye))
          ∷ [])
        first_peer
udp_loop-Traffic_example = udp_loop-Traffic plain_mac leave_codec [] arrivals _ first_peer (
    no_datagram (arrival failed) refl (
      noise (arrival (datagram (host 9) (1 ∷ 2 ∷ []))) (host 9) (1 ∷ 2 ∷ []) refl not_ours (
        says (arrival (datagram (host 2) goodbye_bytes)) (host 2) goodbye_bytes (leave goodbye) refl
          goodbye_made (omega arith) silence)))

-- The second node says that it leaves, and then the first hears of it.
abbrev parted : Cluster
parted = record (left) { air = leave_rumor goodbye ∷ left.air }

-- The loop finds the detector at work.
abbrev probing : Surroundings
probing = record {
  accepts = λ addr body. true;
  meanwhile = λ p. (periods (period ∷ []) (record { peer = p; order = [] })).peer;
}

abbrev goodbye_arrives : Arrival
goodbye_arrives = record { received = datagram (host 2) goodbye_bytes; now = 9; net = probing }
