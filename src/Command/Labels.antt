-- ===== src/Command/Labels.antt =====
-- What can be read back from a row of the listing.
use dalila.Base.{
  Bool-cases, inl, inr, if◌then◌else◌, ℕ, ◌≡◌, ◌≢◌, refl, ap, ◌∙◌, Bool, true, false, List, [], ◌∷◌,
  ◌++◌, ◌==◌, if◌then◌else◌, arith, All, ok, length,
}
use dalila.Member.{Text}
use dalila.Wire.{WireMemberState, tag_char, all_tag_chars, check_tags}
use dalila.Wire.Tags.{GoodTag, check_tags_lem}
use dalila.Command.{comma, join_tags, tags_label, state_label}

-- The label names the state and whether the app is up.
pub state_label_inj :
    (a b : WireMemberState) (x y : Bool) → state_label a x ≡ state_label b y → (a ≡ b) × (x ≡ y)
unfolding state_label
state_label_inj WireMemberState.alive WireMemberState.alive true true e = (refl, refl)
state_label_inj WireMemberState.alive WireMemberState.alive false false e = (refl, refl)
state_label_inj WireMemberState.suspect WireMemberState.suspect true true e = (refl, refl)
state_label_inj WireMemberState.suspect WireMemberState.suspect false false e = (refl, refl)
state_label_inj WireMemberState.dead WireMemberState.dead true true e = (refl, refl)
state_label_inj WireMemberState.dead WireMemberState.dead false false e = (refl, refl)
state_label_inj a b x y e = absurd (ground (arith, ap length e))

-- The text up to each comma.
abbrev pub begun : ℕ → List Text → List Text
begun c [] = (c ∷ []) ∷ []
begun c (part ∷ parts) = (c ∷ part) ∷ parts

abbrev pub split : Text → List Text
split [] = [] ∷ []
split (c ∷ cs) = let rest = split cs in if c == comma then [] ∷ rest else begun c rest

plain-comma : (c : ℕ) → tag_char c ≡ true → (c == comma) ≡ false
plain-comma c e = ground arith

split-last : (tag : Text) → all_tag_chars tag ≡ true → split tag ≡ tag ∷ []
split-last [] e = refl
split-last (c ∷ cs) e =
    rw (plain-comma c (ground (arith, e)), split-last cs (ground (arith, e))) refl

split-first :
    (tag rest : Text) → all_tag_chars tag ≡ true → split (tag ++ comma ∷ rest) ≡ tag ∷ split rest
split-first [] rest e = refl
split-first (c ∷ cs) rest e =
    rw (plain-comma c (ground (arith, e)), split-first cs rest (ground (arith, e))) refl

abbrev AllPlain : List Text → Type 0
AllPlain tags = All (λ tag. all_tag_chars tag ≡ true) tags

split-join_tags :
    (tag : Text) (tags : List Text)
    → AllPlain (tag ∷ tags)
    → split (join_tags (tag ∷ tags)) ≡ tag ∷ tags
split-join_tags tag [] (plain, more) = split-last tag plain
split-join_tags tag (other ∷ tags) (plain, more) =
    split-first tag (join_tags (other ∷ tags)) plain
    ∙ ap (◌∷◌ tag) (split-join_tags other tags more)

chars-plain : (tag : Text) → All (λ c. tag_char c ≡ true) tag → all_tag_chars tag ≡ true
chars-plain [] a = refl
chars-plain (c ∷ cs) (one, more) = rw (one, chars-plain cs more) refl

GoodTags-AllPlain : (tags : List Text) → All GoodTag tags → AllPlain tags
GoodTags-AllPlain [] g = tt
GoodTags-AllPlain (tag ∷ tags) (good, more) = (chars-plain tag good.2, GoodTags-AllPlain tags more)

abbrev pub dash : Text
dash = 45 ∷ []

abbrev shown : List Text → List Text
shown [] = dash ∷ []
shown (tag ∷ tags) = tag ∷ tags

split-tags_label :
    (tags : List Text) → check_tags tags ≡ ok tt → split (tags_label tags) ≡ shown tags
unfolding tags_label
split-tags_label [] good = refl
split-tags_label (tag ∷ tags) good =
    split-join_tags tag tags
      (GoodTags-AllPlain (tag ∷ tags) ((check_tags_lem (tag ∷ tags)).0 good).1)

-- The tags that a label stands for.
abbrev pub unlabelled : List Text → List Text
unlabelled ((c ∷ []) ∷ []) = if c == 45 then [] else (c ∷ []) ∷ []
unlabelled parts = parts

abbrev pub read_tags : Text → List Text
read_tags label = unlabelled (split label)

unlabelled-shown : (tags : List Text) → tags ≢ dash ∷ [] → unlabelled (shown tags) ≡ tags
unlabelled-shown [] lone = refl
unlabelled-shown ([] ∷ tags) lone = refl
unlabelled-shown ((c ∷ d ∷ cs) ∷ tags) lone = refl
unlabelled-shown ((c ∷ []) ∷ tag ∷ tags) lone = refl
unlabelled-shown ((c ∷ []) ∷ []) lone = elim (Bool-cases (c == 45)) [
  | inl e ↦ let same : c ≡ 45 = ground (arith, e) in absurd (lone (ap (λ x. (x ∷ []) ∷ []) same))
  | inr e ↦ rw e refl
]

-- The label of tags that a node may start with, split at its commas, gives the tags back, if they
-- are not a lone dash, which is read as no tags.
pub read_tags-tags_label :
    (tags : List Text)
    → check_tags tags ≡ ok tt
    → tags ≢ dash ∷ []
    → read_tags (tags_label tags) ≡ tags
read_tags-tags_label tags good lone =
    ap unlabelled (split-tags_label tags good) ∙ unlabelled-shown tags lone
