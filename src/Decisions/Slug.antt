-- ===== src/Decisions/Slug.antt =====
-- The slug in the name of a decision file: `slugify_decision_title` of
-- packages/nauro-core/src/nauro_core/operations/_decision_transitions.py.
pub mod Laws
pub mod Ends
pub mod Shape
use nauro.Base.{
  ℕ, zero, suc, Bool, true, false, not, ◌&&◌, List, [], ◌∷◌, Text, nat_beq, ltb, leb, length, take,
  contains, strip_by, nat_eq, if◌then◌else◌,
}
use nauro.Sync.Names.{Unicode}

abbrev pub slug_max_length : ℕ
slug_max_length = 60

abbrev pub dash : ℕ
dash = b'-'

-- `text.rsplit(sep, 1)[0]`
unfoldable pub before_last : ℕ → Text → Text
before_last sep [] = []
before_last sep (c ∷ s) =
    let rest = before_last sep s in if nat_beq c sep && not (contains s sep) then [] else c ∷ rest

module _ (unicode : Unicode) where
  -- the loop over the lowered title, with `prev_dash`
  unfoldable pub slug_chars : Bool → Text → Text
  slug_chars prev_dash [] = []
  slug_chars prev_dash (c ∷ title) =
      let after_char = slug_chars false title in
      let after_dash = slug_chars true title in
      if unicode.is_alnum c
      then c ∷ after_char
      else if prev_dash
      then after_dash
      else dash ∷ after_dash

  unfoldable pub slugify_decision_title : Text → Text
  unfolding slug_chars strip_by before_last
  slugify_decision_title title =
      let slug = strip_by (nat_beq dash) (slug_chars false (unicode.lower title)) in
      let truncated = take slug_max_length slug in
      let trimmed = before_last dash truncated in
      if ltb slug_max_length (length slug)
      then if leb 30 (length trimmed) then trimmed else truncated
      else slug
