-- ===== src/Table.antt =====
-- src/membership/src/state.rs: the member table, and `merge`, the one way into it. The lock makes
-- each method one step, so a method is a function from the table to the table.
use dalila.Base.{
  ℕ, Bool, true, false, List, [], ◌∷◌, ◌==◌, none, some, Option, ltb, ◌&&◌, ◌||◌, not, length,
  if◌then◌else◌, HashMap, lookup, insert, remove, contains_key, filter, take, keys, values,
}
pub mod Entry
pub mod Order
pub mod Queries
pub mod Reaping
pub mod Abstract
pub mod Invariant
pub mod Convergence
pub mod Hearing
use dalila.Member.{NodeId, Incarnation, Instant, is_unspecified, is_dead, is_alive, Member}
use dalila.Wire.{WireMember, WireMemberState, to_wire_state, from_wire_state, from_wire}

abbrev pub MemberTable : Type 0
MemberTable = HashMap Member

pub data MergeOutcome : Type 0 where
  ignored added updated : MergeOutcome
  refute : Incarnation → MergeOutcome

abbrev pub rank : WireMemberState → ℕ
rank WireMemberState.alive = 0
rank WireMemberState.suspect = 1
rank WireMemberState.dead = 2

-- The order of the pairs (incarnation, rank), the greater first.
abbrev pub newer : Incarnation → ℕ → Incarnation → ℕ → Bool
newer i r j s = ltb j i || i == j && ltb s r

abbrev pub supersedes : WireMember → Member → Bool
supersedes rumor existing =
    newer rumor.incarnation (rank rumor.state) existing.incarnation
      (rank (to_wire_state existing.state))

abbrev pub is_dead_rumor : WireMemberState → Bool
is_dead_rumor WireMemberState.dead = true
is_dead_rumor _ = false

-- The arm of `merge` for `Entry::Vacant`.
abbrev merge_vacant : Instant → MemberTable → WireMember → MemberTable × MergeOutcome
merge_vacant now t rumor =
    if is_unspecified rumor.addr.ip
    then (t, ignored)
    else if is_dead_rumor rumor.state
    then (t, ignored)
    else (insert rumor.id (from_wire now rumor) t, added)

-- What `merge` writes into an entry that the rumor supersedes. The address stays.
abbrev pub overwrite : Instant → WireMember → Member → Member
overwrite now rumor m = record m {
  incarnation = rumor.incarnation;
  state = from_wire_state now rumor.state;
  ready = rumor.ready;
  tags = rumor.tags;
}

-- The arm of `merge` for `Entry::Occupied`.
abbrev merge_occupied : Instant → MemberTable → WireMember → Member → MemberTable × MergeOutcome
merge_occupied now t rumor m =
    if supersedes rumor m
    then (insert rumor.id (overwrite now rumor m) t, updated)
    else (t, ignored)

-- A rumor about this node itself.
abbrev pub merge_self : WireMember → MergeOutcome
merge_self rumor = elim rumor.state [
  | WireMemberState.alive ↦ ignored
  | _ ↦ refute rumor.incarnation
]

unfoldable pub merge : Instant → MemberTable → WireMember → NodeId → MemberTable × MergeOutcome
merge now t rumor me = if rumor.id == me then (t, merge_self rumor) else elim (lookup rumor.id t) [
  | none ↦ merge_vacant now t rumor
  | some m ↦ merge_occupied now t rumor m
]

abbrev pub get : MemberTable → NodeId → Option Member
get t id = lookup id t

abbrev pub contains : MemberTable → NodeId → Bool
contains t id = contains_key id t

abbrev pub len : MemberTable → ℕ
len t = length t

abbrev pub is_empty : MemberTable → Bool
is_empty t = length t == 0

abbrev pub snapshot : MemberTable → List Member
snapshot t = values t

abbrev pub ids : MemberTable → List NodeId
ids t = keys t

-- `rand`'s shuffle is the argument.
abbrev pub shuffled_ids : (List NodeId → List NodeId) → MemberTable → List NodeId
shuffled_ids shuffle t = shuffle (ids t)

abbrev pub members_where : (Member → Bool) → MemberTable → List Member
members_where f t = filter f (values t)

abbrev pub relay_candidates : (List Member → List Member) → MemberTable → NodeId → ℕ → List Member
relay_candidates shuffle t exclude count =
    take count (shuffle (members_where (λ m. not (m.id == exclude) && not (is_dead m.state)) t))

-- `rand`'s choice from an iterator is the argument.
abbrev pub random_member : (List Member → Option Member) → MemberTable → Option Member
random_member choose t = choose (members_where (λ m. not (is_dead m.state)) t)

-- `MemberTable::remove`, of a list of ids.
abbrev pub remove_ids : MemberTable → List NodeId → MemberTable
remove_ids t [] = t
remove_ids t (id ∷ ids) = remove_ids (remove id t) ids

abbrev pub ready : MemberTable → List Member
ready t = members_where (λ m. is_alive m.state && m.ready) t
