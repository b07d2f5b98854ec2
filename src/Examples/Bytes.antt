-- ===== src/Examples/Bytes.antt =====
-- A codec for joins and listings that name no members and syncs that name one, or, when they ask, two,
-- where every node is alive and ready, and has no tags and an IPv4 address.
use dalila.Base.{
  ℕ, ◌≡◌, refl, sym, ap, ◌∙◌, arith, subst, true, false, Bool, List, [], ◌∷◌, ◌++◌, none, some,
  Option,
}
use dalila.Member.{IpAddr, v4, v6, Text}
use dalila.Wire.{
  WireIdentity, TcpBody, join_request, join_response, members_request, members_response,
  sync_request, sync_response, WireMember, WireMemberState,
}
use dalila.Codec.{Codec}

abbrev plain : ℕ → IpAddr → ℕ → ℕ → Bool → List Text → Option (List ℕ)
plain id (v4 a) port incarnation true [] = some (id ∷ a ∷ port ∷ incarnation ∷ [])
plain id _ port incarnation _ _ = none

abbrev pub named : ℕ → ℕ → ℕ → ℕ → WireIdentity
named id a port incarnation = record {
  id = id;
  addr = record { ip = v4 a; port = port };
  incarnation = incarnation;
  ready = true;
  tags = [];
}

abbrev pub before : List ℕ → Option (List ℕ) → Option (List ℕ)
before xs none = none
before xs (some ys) = some (xs ++ ys)

abbrev pub identity_bytes : WireIdentity → Option (List ℕ)
identity_bytes from =
    plain from.id from.addr.ip from.addr.port from.incarnation from.ready from.tags

abbrev pub member_bytes : WireMember → Option (List ℕ)
member_bytes m = elim m.state [
  | WireMemberState.alive ↦ plain m.id m.addr.ip m.addr.port m.incarnation m.ready m.tags
  | _ ↦ none
]

abbrev pub both : Option (List ℕ) → Option (List ℕ) → Option (List ℕ)
both (some xs) (some ys) = some (xs ++ ys)
both _ _ = none

abbrev pub encode : ℕ × TcpBody → Option (List ℕ)
encode (v, members_request) = some (v ∷ [])
encode (v, join_request from) = before (v ∷ []) (identity_bytes from)
encode (v, join_response from []) = before (v ∷ 0 ∷ []) (identity_bytes from)
encode (v, members_response from []) = before (v ∷ 0 ∷ 0 ∷ []) (identity_bytes from)
encode (v, sync_request from (m ∷ [])) =
    before (v ∷ []) (both (identity_bytes from) (member_bytes m))
encode (v, sync_request from (m ∷ m' ∷ [])) =
    before (v ∷ []) (both (identity_bytes from) (both (member_bytes m) (member_bytes m')))
encode (v, sync_response from (m ∷ [])) =
    before (v ∷ 0 ∷ []) (both (identity_bytes from) (member_bytes m))
encode _ = none

abbrev pub named_member : ℕ → ℕ → ℕ → ℕ → WireMember
named_member id a port incarnation = record {
  id = id;
  addr = record { ip = v4 a; port = port };
  incarnation = incarnation;
  state = WireMemberState.alive;
  ready = true;
  tags = [];
}

abbrev pub decode : List ℕ → Option (ℕ × TcpBody)
decode (v ∷ []) = some (v, members_request)
decode (v ∷ id ∷ a ∷ port ∷ n ∷ []) = some (v, join_request (named id a port n))
decode (v ∷ x ∷ id ∷ a ∷ port ∷ n ∷ []) = some (v, join_response (named id a port n) [])
decode (v ∷ x ∷ y ∷ id ∷ a ∷ port ∷ n ∷ []) = some (v, members_response (named id a port n) [])
decode (v ∷ id ∷ a ∷ port ∷ n ∷ id' ∷ a' ∷ port' ∷ n' ∷ []) =
    some (v, sync_request (named id a port n) (named_member id' a' port' n' ∷ []))
decode (v ∷ x ∷ id ∷ a ∷ port ∷ n ∷ id' ∷ a' ∷ port' ∷ n' ∷ []) =
    some (v, sync_response (named id a port n) (named_member id' a' port' n' ∷ []))
decode (v ∷ id ∷ a ∷ port ∷ n ∷ id' ∷ a' ∷ port' ∷ n' ∷ id'' ∷ a'' ∷ port'' ∷ n'' ∷ []) = some (
  v,
  sync_request (named id a port n)
      (named_member id' a' port' n' ∷ named_member id'' a'' port'' n'' ∷ []),
)
decode _ = none

pub some_inj : {A : Type 0} {a b : A} → some a ≡ some b → a ≡ b
some_inj e = cc

plain-back :
    (f : List ℕ → List ℕ) (g : WireIdentity → ℕ × TcpBody)
    → ((id a port n : ℕ) → decode (f (id ∷ a ∷ port ∷ n ∷ [])) ≡ some (g (named id a port n)))
    → (id : ℕ) (ip : IpAddr) (port n : ℕ) (ready : Bool) (tags : List Text) (xs bytes : List ℕ)
    → ((ys : List ℕ) → f ys ≡ xs ++ ys)
    → before xs (plain id ip port n ready tags) ≡ some bytes
    → decode bytes
      ≡ some (
          g (record {
            id = id;
            addr = record { ip = ip; port = port };
            incarnation = n;
            ready = ready;
            tags = tags;
          }))
plain-back f g back id (v4 a) port n true [] xs bytes same e =
    subst (λ b. decode b ≡ some (g (named id a port n))) (same _ ∙ some_inj e) (back id a port n)
plain-back f g back id (v4 a) port n true (t ∷ ts) xs bytes same e = absurd (cc)
plain-back f g back id (v4 a) port n false tags xs bytes same e = absurd (cc)
plain-back f g back id (v6 a) port n ready tags xs bytes same e = absurd (cc)

-- What was encoded, from its bytes.
plain-some :
    (id : ℕ) (ip : IpAddr) (port n : ℕ) (ready : Bool) (tags : List Text) (xs : List ℕ)
    → plain id ip port n ready tags ≡ some xs
    → (a : ℕ) × (ip ≡ v4 a) × (ready ≡ true) × (tags ≡ []) × (xs ≡ id ∷ a ∷ port ∷ n ∷ [])
plain-some id (v4 a) port n true [] xs e = (a, refl, refl, refl, sym (some_inj e))
plain-some id (v4 a) port n true (t ∷ ts) xs e = absurd (cc)
plain-some id (v4 a) port n false tags xs e = absurd (cc)
plain-some id (v6 a) port n ready tags xs e = absurd (cc)

pub identity_bytes-some :
    (from : WireIdentity) (xs : List ℕ)
    → identity_bytes from ≡ some xs
    → (a : ℕ) × (named from.id a from.addr.port from.incarnation ≡ from)
      × (xs ≡ from.id ∷ a ∷ from.addr.port ∷ from.incarnation ∷ [])
identity_bytes-some from xs e =
    let (a, ip, ready, tags, same) =
      plain-some from.id from.addr.ip from.addr.port from.incarnation from.ready from.tags xs e in
    (
      a,
      sym (λ i. record {
        id = from.id;
        addr = record { ip = ip i; port = from.addr.port };
        incarnation = from.incarnation;
        ready = ready i;
        tags = tags i;
      }),
      same,
    )

member_bytes-some :
    (m : WireMember) (xs : List ℕ)
    → member_bytes m ≡ some xs
    → (a : ℕ) × (named_member m.id a m.addr.port m.incarnation ≡ m)
      × (xs ≡ m.id ∷ a ∷ m.addr.port ∷ m.incarnation ∷ [])
member_bytes-some m xs e = by_state m.state refl
  where
    by_state :
        (st : WireMemberState)
        → m.state ≡ st
        → (a : ℕ) × (named_member m.id a m.addr.port m.incarnation ≡ m)
          × (xs ≡ m.id ∷ a ∷ m.addr.port ∷ m.incarnation ∷ [])
    by_state WireMemberState.alive same_state =
        let (a, ip, ready, tags, same) =
          plain-some m.id m.addr.ip m.addr.port m.incarnation m.ready m.tags xs
            (rw same_state at e) in
        (
          a,
          sym (λ i. record {
            id = m.id;
            addr = record { ip = ip i; port = m.addr.port };
            incarnation = m.incarnation;
            state = same_state i;
            ready = ready i;
            tags = tags i;
          }),
          same,
        )
    by_state WireMemberState.suspect same_state = absurd (ground (arith, rw same_state at e))
    by_state WireMemberState.dead same_state = absurd (ground (arith, rw same_state at e))

both-some :
    (o o' : Option (List ℕ)) (bytes pre : List ℕ)
    → before pre (both o o') ≡ some bytes
    → (xs : List ℕ) × (ys : List ℕ) × (o ≡ some xs) × (o' ≡ some ys) × (pre ++ (xs ++ ys) ≡ bytes)
both-some (some xs) (some ys) bytes pre e = (xs, ys, refl, refl, some_inj e)
both-some (some xs) none bytes pre e = absurd (cc)
both-some none o' bytes pre e = absurd (cc)

sync-back :
    (pre : List ℕ) (g : WireIdentity → WireMember → ℕ × TcpBody) (from : WireIdentity)
    (m : WireMember) (bytes : List ℕ)
    → ((id a port n id' a' port' n' : ℕ)
        → decode (pre ++ (id ∷ a ∷ port ∷ n ∷ id' ∷ a' ∷ port' ∷ n' ∷ []))
          ≡ some (g (named id a port n) (named_member id' a' port' n')))
    → before pre (both (identity_bytes from) (member_bytes m)) ≡ some bytes
    → decode bytes ≡ some (g from m)
sync-back pre g from m bytes back e =
    let (xs, ys, first, second, whole) =
      both-some (identity_bytes from) (member_bytes m) bytes pre e in
    let (a, same, these) = identity_bytes-some from xs first in
    let (a', same', those) = member_bytes-some m ys second in
    ap decode (sym whole)
    ∙ ap (λ z. decode (pre ++ (z ++ ys))) these
    ∙ ap (λ z. decode (pre ++ ((from.id ∷ a ∷ from.addr.port ∷ from.incarnation ∷ []) ++ z))) those
    ∙ back from.id a from.addr.port from.incarnation m.id a' m.addr.port m.incarnation
    ∙ ap (λ z. some (g z (named_member m.id a' m.addr.port m.incarnation))) same
    ∙ ap (λ z. some (g from z)) same'

pub before-first :
    (v : ℕ) (xs : List ℕ) (o : Option (List ℕ)) (bytes : List ℕ)
    → before (v ∷ xs) o ≡ some bytes
    → (rest : List ℕ) × (bytes ≡ v ∷ rest)
before-first v xs none bytes e = absurd (cc)
before-first v xs (some ys) bytes e = (xs ++ ys, sym (some_inj e))

pub encode-first :
    (v : ℕ) (body : TcpBody) (bytes : List ℕ)
    → encode (v, body) ≡ some bytes
    → (rest : List ℕ) × (bytes ≡ v ∷ rest)
encode-first v members_request bytes e = ([], sym (some_inj e))
encode-first v (join_request from) bytes e = before-first v [] _ bytes e
encode-first v (join_response from []) bytes e = before-first v (0 ∷ []) _ bytes e
encode-first v (members_response from []) bytes e = before-first v (0 ∷ 0 ∷ []) _ bytes e
encode-first v (sync_request from (m ∷ [])) bytes e = before-first v [] _ bytes e
encode-first v (sync_request from (m ∷ m' ∷ [])) bytes e = before-first v [] _ bytes e
encode-first v (sync_response from (m ∷ [])) bytes e = before-first v (0 ∷ []) _ bytes e
encode-first v body bytes e = absurd (cc)

pub decode-encode :
    (x : ℕ × TcpBody) (bytes : List ℕ) → encode x ≡ some bytes → decode bytes ≡ some x
decode-encode (v, members_request) bytes e =
    subst (λ b. decode b ≡ some (v, members_request)) (some_inj e) refl
decode-encode (v, join_request from) bytes e =
    plain-back (λ ys. v ∷ ys) (λ i. (v, join_request i)) (λ id a port n. refl) from.id from.addr.ip
      from.addr.port from.incarnation from.ready from.tags (v ∷ []) bytes (λ ys. refl) e
decode-encode (v, join_response from []) bytes e =
    plain-back (λ ys. v ∷ 0 ∷ ys) (λ i. (v, join_response i [])) (λ id a port n. refl) from.id
      from.addr.ip from.addr.port from.incarnation from.ready from.tags (v ∷ 0 ∷ []) bytes
      (λ ys. refl) e
decode-encode (v, members_response from []) bytes e =
    plain-back (λ ys. v ∷ 0 ∷ 0 ∷ ys) (λ i. (v, members_response i [])) (λ id a port n. refl)
      from.id from.addr.ip from.addr.port from.incarnation from.ready from.tags (v ∷ 0 ∷ 0 ∷ [])
      bytes (λ ys. refl) e
decode-encode (v, sync_request from (m ∷ [])) bytes e =
    sync-back (v ∷ []) (λ f x. (v, sync_request f (x ∷ []))) from m bytes
      (λ id a port n id' a' port' n'. refl) e
decode-encode (v, sync_request from (m ∷ m' ∷ [])) bytes e =
    let (xs, rest, first, second, whole) =
      both-some (identity_bytes from) (both (member_bytes m) (member_bytes m')) bytes (v ∷ []) e in
    let (ys, zs, one, two, those) =
      both-some (member_bytes m) (member_bytes m') rest [] (ap (before []) second) in
    let (a, same, these) = identity_bytes-some from xs first in
    let (a', same', this) = member_bytes-some m ys one in
    let (a'', same'', that) = member_bytes-some m' zs two in
    ap decode (sym whole)
    ∙ ap (λ x. decode (v ∷ (xs ++ x))) (sym those)
    ∙ ap (λ x. decode (v ∷ (x ++ (ys ++ zs)))) these
    ∙ ap (λ x. decode (v ∷ from.id ∷ a ∷ from.addr.port ∷ from.incarnation ∷ (x ++ zs))) this
    ∙ ap
        (λ x. decode (
          v ∷ from.id ∷ a ∷ from.addr.port ∷ from.incarnation ∷ m.id ∷ a' ∷ m.addr.port
          ∷ m.incarnation ∷ x))
        that
    ∙ ap some (λ i. (v, sync_request (same i) (same' i ∷ same'' i ∷ [])))
decode-encode (v, sync_response from (m ∷ [])) bytes e =
    sync-back (v ∷ 0 ∷ []) (λ f x. (v, sync_response f (x ∷ []))) from m bytes
      (λ id a port n id' a' port' n'. refl) e
decode-encode (v, body) bytes e = absurd (cc)

abbrev pub short_codec : Codec TcpBody
short_codec = record {
  to_allocvec = encode;
  from_bytes = decode;
  version_first = encode-first;
  from_bytes-to_allocvec = decode-encode;
}
