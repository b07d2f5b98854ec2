-- ===== src/Wire/Tags.antt =====
-- Which tags a node may start with.
use dalila.Base.{
  ℕ, ◌≡◌, ◌≢◌, ◌≤◌, ◌↔◌, refl, sym, subst, Bool, true, false, arith, List, [], ◌∷◌, ◌||◌, not, ltb,
  length, All, ok, Bool-cases, inl, inr,
}
use dalila.Member.{Text}
use dalila.Wire.{
  check_tags, check_each, max_tags, max_tag_len, all_tag_chars, str_len, is_empty_text, tag_char,
}

-- One to sixteen characters, each a letter, a digit, `-`, `_` or `.`.
abbrev pub GoodTag : Text → Type 0
GoodTag tag = (tag ≢ []) × (length tag ≤ max_tag_len) × All (λ c. tag_char c ≡ true) tag

all_tag_chars-All : (tag : Text) → (all_tag_chars tag ≡ true) ↔ All (λ c. tag_char c ≡ true) tag
all_tag_chars-All [] = (λ h. tt, λ h. refl)
all_tag_chars-All (c ∷ cs) = ground (arith, all_tag_chars-All cs)

-- Allowed characters take one byte each.
str_len-length : (tag : Text) → all_tag_chars tag ≡ true → str_len tag ≡ length tag
str_len-length [] h = refl
str_len-length (c ∷ cs) h = ground (arith, str_len-length cs, h)

abbrev refused : Text → Bool
refused tag = is_empty_text tag || ltb max_tag_len (str_len tag) || not (all_tag_chars tag)

tests_pass :
    (long allowed : Bool) → ((long || not allowed) ≡ false) ↔ ((long ≡ false) × (allowed ≡ true))
tests_pass long allowed = ground arith

not_longer : (n k : ℕ) → (ltb n k ≡ false) ↔ (k ≤ n)
not_longer n k = ground arith

refused-GoodTag : (tag : Text) → (refused tag ≡ false) ↔ GoodTag tag
refused-GoodTag [] = (λ h. cc, λ h. absurd (h.0 refl))
refused-GoodTag (c ∷ cs) =
    let tag = c ∷ cs in
    let (split, join) = tests_pass (ltb max_tag_len (str_len tag)) (all_tag_chars tag) in
    let (fits, long) = not_longer max_tag_len (str_len tag) in
    let (chars, allowed) = all_tag_chars-All tag in
    (
      λ h. (
        λ e. cc,
        subst (λ l. l ≤ max_tag_len) (str_len-length tag (split h).1) (fits (split h).0),
        chars (split h).1,
      ),
      λ h.
          let a = allowed h.2 in
          join (long (subst (λ l. l ≤ max_tag_len) (sym (str_len-length tag a)) h.1), a),
    )

check_each-All : (tags : List Text) → (check_each tags ≡ ok tt) ↔ All GoodTag tags
check_each-All [] = (λ h. tt, λ h. refl)
check_each-All (tag ∷ tags) =
    let (into, out_of) = check_each-All tags in
    let (good, back) = refused-GoodTag tag in
    elim (Bool-cases (refused tag)) [
      | inl e ↦ (λ h. absurd (ground (arith, rw e at h)), λ h. absurd (ground (arith, e, back h.0)))
      | inr e ↦ (λ h. (good e, into (rw e at h)), λ h. rw e (out_of h.1))
    ]

-- A node starts exactly with tags that keep the limits: at most four, each of one to sixteen letters,
-- digits, `-`, `_` or `.`.
pub check_tags_lem :
    (tags : List Text) → (check_tags tags ≡ ok tt) ↔ ((length tags ≤ max_tags) × All GoodTag tags)
unfolding check_tags
check_tags_lem tags =
    let (into, out_of) = check_each-All tags in
    let (few, many) = not_longer max_tags (length tags) in
    elim (Bool-cases (ltb max_tags (length tags))) [
      | inl e ↦ (λ h. absurd (ground (arith, rw e at h)), λ h. absurd (ground (arith, e, many h.0)))
      | inr e ↦ (λ h. (few e, into (rw e at h)), λ h. rw e (out_of h.1))
    ]
