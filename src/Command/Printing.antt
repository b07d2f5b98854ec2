-- ===== src/Command/Printing.antt =====
-- src/commands/members.rs: the lines that the listing prints. Texts are lists of characters; how an id, an
-- address and a number are written is `Display`'s matter.
use dalila.Base.{
  ℕ, zero, suc, ◌+◌, ◌-◌, ◌≤◌, ◌≡◌, refl, ap, ◌∙◌, arith, List, [], ◌∷◌, ◌++◌, All, map, length,
  drop, length-append, Result, ok, ◌>>=◌,
}
use dalila.Member.{NodeId, Incarnation, SocketAddr, Text}
use dalila.Wire.{TcpBody}
use dalila.Auth.{Hmac}
use dalila.Codec.{Codec}
use dalila.Connection.{Network}
use dalila.Command.{Row, MembersConfig, MembersError, list_members}

-- `to_string` of an id, an address and an incarnation.
pub record Display : Type 0 where
  pub id : NodeId → Text
  pub addr : SocketAddr → Text
  pub incarnation : Incarnation → Text

abbrev pub spaces : ℕ → Text
spaces zero = []
spaces (suc n) = 32 ∷ spaces n

-- `{text:<width}`: what is longer is not cut.
abbrev pub pad_left : ℕ → Text → Text
pad_left width text = text ++ spaces (width - length text)

-- `{text:>width}`.
abbrev pub pad_right : ℕ → Text → Text
pad_right width text = spaces (width - length text) ++ text

unfoldable pub print_row : Text → Text → Text → Text → Text → Text
print_row id addr incarnation tags state =
    pad_left 36 id
    ++ (spaces 2
        ++ (pad_left 21 addr
            ++ (spaces 2
                ++ (pad_right 11 incarnation
                    ++ (spaces 2 ++ (pad_left 23 tags ++ (spaces 2 ++ state)))))))

-- "ID", "ADDRESS", "INCARNATION", "TAGS" and "STATE".
abbrev pub heading : Text
heading =
    print_row (73 ∷ 68 ∷ []) (65 ∷ 68 ∷ 68 ∷ 82 ∷ 69 ∷ 83 ∷ 83 ∷ [])
      (73 ∷ 78 ∷ 67 ∷ 65 ∷ 82 ∷ 78 ∷ 65 ∷ 84 ∷ 73 ∷ 79 ∷ 78 ∷ []) (84 ∷ 65 ∷ 71 ∷ 83 ∷ [])
      (83 ∷ 84 ∷ 65 ∷ 84 ∷ 69 ∷ [])

abbrev pub line : Display → Row → Text
line d row =
    print_row (d.id row.id) (d.addr row.addr) (d.incarnation row.incarnation) row.tags row.state

-- The lines that `execute` prints.
unfoldable pub print_members :
    Hmac → Codec TcpBody → Network → Display → MembersConfig → Result MembersError (List Text)
print_members h c net d cfg = do found ← list_members h c net cfg; ok (heading ∷ map (line d) found)

length-spaces : (n : ℕ) → length (spaces n) ≡ n
length-spaces zero = refl
length-spaces (suc n) = omega (arith, length-spaces n)

length-pad_left :
    (width : ℕ) (text : Text) → length text ≤ width → length (pad_left width text) ≡ width
length-pad_left width text h = omega (
  arith,
  h,
  length-append text (spaces (width - length text)),
  length-spaces (width - length text),
)

length-pad_right :
    (width : ℕ) (text : Text) → length text ≤ width → length (pad_right width text) ≡ width
length-pad_right width text h = omega (
  arith,
  h,
  length-append (spaces (width - length text)) text,
  length-spaces (width - length text),
)

-- A first column, passed over.
drop_column :
    (n k : ℕ) (column rest : Text) → length column ≡ n → drop (n + k) (column ++ rest) ≡ drop k rest
drop_column zero k [] rest e =
    let none_more : 0 + k ≡ k = omega arith in ap (λ n. drop n rest) none_more
drop_column zero k (x ∷ xs) rest e = absurd (omega (arith, e))
drop_column (suc n) k [] rest e = absurd (omega (arith, e))
drop_column (suc n) k (x ∷ xs) rest e =
    let one_more : suc n + k ≡ suc (n + k) = omega arith in
    ap (λ l. drop l (x ∷ (xs ++ rest))) one_more ∙ drop_column n k xs rest (omega (arith, e))

-- A row whose fields fit into their columns.
pub record IsAligned (d : Display) (row : Row) : Type 0 where
  pub id : length (d.id row.id) ≤ 36
  pub addr : length (d.addr row.addr) ≤ 21
  pub incarnation : length (d.incarnation row.incarnation) ≤ 11
  pub tags : length row.tags ≤ 23

drop-line : (d : Display) (row : Row) → IsAligned d row → drop 99 (line d row) ≡ row.state
unfolding print_row
drop-line d row v =
    let e = spaces 2 ++ row.state in
    let t = spaces 2 ++ (pad_left 23 row.tags ++ e) in
    let n = spaces 2 ++ (pad_right 11 (d.incarnation row.incarnation) ++ t) in
    let a = spaces 2 ++ (pad_left 21 (d.addr row.addr) ++ n) in
    drop_column 36 63 (pad_left 36 (d.id row.id)) a (length-pad_left 36 (d.id row.id) v.id)
    ∙ drop_column 21 40 (pad_left 21 (d.addr row.addr)) n
        (length-pad_left 21 (d.addr row.addr) v.addr)
    ∙ drop_column 11 27 (pad_right 11 (d.incarnation row.incarnation)) t
        (length-pad_right 11 (d.incarnation row.incarnation) v.incarnation)
    ∙ drop_column 23 2 (pad_left 23 row.tags) e (length-pad_left 23 row.tags v.tags)

drop_lines :
    (d : Display) (found : List Row)
    → All (IsAligned d) found
    → map (drop 99) (map (line d) found) ≡ map (λ (r : Row). r.state) found
drop_lines d [] all = refl
drop_lines d (row ∷ found) (v, all) = λ i. drop-line d row v i ∷ drop_lines d found all i

-- If every row of a listing fits into its columns, then the listing is printed, and the states stand
-- below their heading.
pub print_members-columns :
    (h : Hmac) (c : Codec TcpBody) (net : Network) (d : Display) (cfg : MembersConfig)
    (found : List Row)
    → list_members h c net cfg ≡ ok found
    → All (IsAligned d) found
    → (lines : List Text) × (print_members h c net d cfg ≡ ok lines)
      × (map (drop 99) lines ≡ (83 ∷ 84 ∷ 65 ∷ 84 ∷ 69 ∷ []) ∷ map (λ (r : Row). r.state) found)
unfolding print_members print_row
print_members-columns h c net d cfg found e all = (
  heading ∷ map (line d) found,
  rw e refl,
  ap ((83 ∷ 84 ∷ 65 ∷ 84 ∷ 69 ∷ []) ∷◌) (drop_lines d found all),
)
