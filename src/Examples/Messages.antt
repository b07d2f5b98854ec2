-- ===== src/Examples/Messages.antt =====
-- The theorems on frames, probes, datagrams and the proxy, on concrete states.
use dalila.Base.{
  ℕ, zero, suc, ◌≡◌, ◌↔◌, refl, true, List, [], ◌∷◌, ◌++◌, none, some, Option, lookup, insert,
  arith, Elem, ok,
}
use dalila.Wire.{WireMember, WireMemberState}
use dalila.Table.{MemberTable}
use dalila.Auth.{Hmac, seal}
use dalila.Codec.{Codec, encode_payload}
use dalila.Frame.{Read, received, write_frame, read_frame}
use dalila.Frame.Streaming.{delivered, read_frame-write_frame}
use dalila.Acks.{PendingAcks, resolves, no_acks, register, resolve, next_seq, run, called}
use dalila.Acks.Invariant.{no_acks-IsPending}
use dalila.Udp.{Peer, Surroundings, handle_ack, probe, send_ping}
use dalila.Udp.Probing.{Reported, probe-Reported}
use dalila.Proxy.{backends}
use dalila.Proxy.Backends.{CanWork, Elem-backends}
use dalila.Examples.{us, host, member_b, two_members, rumor_of, peer, two_members-IsTable}

abbrev pub zeros : ℕ → List ℕ
zeros zero = []
zeros (suc n) = 0 ∷ zeros n

abbrev pub plain_mac : Hmac
plain_mac = record { mac = λ key message. zeros 32; length-mac = λ key message. refl }

abbrev pair_bytes : ℕ × ℕ → Option (List ℕ)
pair_bytes (v, a) = some (v ∷ a ∷ [])

abbrev bytes_pair : List ℕ → Option (ℕ × ℕ)
bytes_pair (v ∷ a ∷ []) = some (v, a)
bytes_pair _ = none

pair_bytes-first :
    (v a : ℕ) (bytes : List ℕ)
    → pair_bytes (v, a) ≡ some bytes
    → (rest : List ℕ) × (bytes ≡ v ∷ rest)
pair_bytes-first v a bytes e = (a ∷ [], ground (arith, e))

bytes_pair-pair_bytes :
    (x : ℕ × ℕ) (bytes : List ℕ) → pair_bytes x ≡ some bytes → bytes_pair bytes ≡ some x
bytes_pair-pair_bytes (v, a) [] e = absurd (ground (arith, e))
bytes_pair-pair_bytes (v, a) (b ∷ []) e = absurd (ground (arith, e))
bytes_pair-pair_bytes (v, a) (b ∷ c ∷ []) e = ground (arith, e)
bytes_pair-pair_bytes (v, a) (b ∷ c ∷ d ∷ l) e = absurd (ground (arith, e))

abbrev plain_codec : Codec ℕ
plain_codec = record {
  to_allocvec = pair_bytes;
  from_bytes = bytes_pair;
  version_first = pair_bytes-first;
  from_bytes-to_allocvec = bytes_pair-pair_bytes;
}

abbrev payload : List ℕ
payload = 6 ∷ 5 ∷ zeros 32

abbrev frame : List ℕ
frame = 0 ∷ 0 ∷ 0 ∷ 34 ∷ payload

abbrev two_reads : List Read
two_reads = received (0 ∷ 34 ∷ []) ∷ received (payload ++ 9 ∷ []) ∷ []

read_frame-write_frame_example :
    let g = read_frame plain_mac plain_codec [] (0 ∷ 0 ∷ []) two_reads in
    (g.result ≡ ok (some 5)) × (g.buffer ++ delivered g.reads ≡ 9 ∷ [])
unfolding write_frame encode_payload seal
read_frame-write_frame_example =
    read_frame-write_frame plain_mac plain_codec [] 5 frame (0 ∷ 0 ∷ []) (9 ∷ []) two_reads refl
      (omega arith) tt refl

abbrev asked : PendingAcks
asked = (register no_acks 4 2).0

abbrev answering : Surroundings
answering = record { accepts = λ addr body. true; meanwhile = λ p. handle_ack p 0 2 }

answering-shared : (p : Peer) → (answering.meanwhile p).pending ≡ run p.pending (resolves 0 2 ∷ [])
unfolding handle_ack run called
answering-shared p = refl

probe-Reported_example :
    (seq : ℕ) × Reported answering (λ p. resolves 0 2 ∷ []) answering-shared seq 2
unfolding probe send_ping handle_ack resolve lookup register insert next_seq
probe-Reported_example =
    probe-Reported answering (λ p. resolves 0 2 ∷ []) answering-shared (λ l. l) peer member_b
      no_acks-IsPending refl

abbrev doubt_us : WireMember
doubt_us = rumor_of 1 0 WireMemberState.suspect

abbrev peer_table : MemberTable
peer_table = (1, record (member_b) { id = 1; incarnation = 0 }) ∷ []

Elem-backends_example :
    Elem (host 2) (backends us two_members 7946 none) ↔ CanWork us two_members 7946 none (host 2)
Elem-backends_example = Elem-backends us two_members 1 7946 none (host 2) two_members-IsTable
