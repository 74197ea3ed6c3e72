-- ===== src/Questions/Legacy.antt =====
-- packages/nauro-core/src/nauro_core/questions.py: the ids of the old form, which stand for a
-- `datetime`. `datetime.strptime` and `strftime` with the format of such an id are parameters.
use nauro.Base.{
  ℕ, ◌-◌, Bool, true, false, ◌&&◌, [], ◌∷◌, ◌++◌, Option, none, some, Text, codes, nat_beq, length,
  take, drop, all, ◌==◌, if◌then◌else◌, text_eq,
}
use nauro.Questions.Ids.{is_ascii_decimal, parse_q_id}

-- `value[first:last]`
abbrev slice : ℕ → ℕ → Text → Text
slice first last value = take (last - first) (drop first value)

-- the separators and the digits of `YYYY-MM-DD HH:MM UTC`
unfoldable pub has_legacy_shape : Text → Bool
has_legacy_shape value =
    nat_beq (length value) 20
    && slice 4 5 value == codes "-"
    && slice 7 8 value == codes "-"
    && slice 10 11 value == codes " "
    && slice 13 14 value == codes ":"
    && slice 16 20 value == codes " UTC"
    && all is_ascii_decimal (
        slice 0 4 value
        ∷ slice 5 7 value
        ∷ slice 8 10 value
        ∷ slice 11 13 value
        ∷ slice 14 16 value
        ∷ [])

module _ {Stamp : Type 0} (strptime : Text → Option Stamp) (strftime : Stamp → Text) where
  -- the stamp of a value that `validate_legacy_question_id` accepts
  unfoldable pub legacy_question_id : Text → Option Stamp
  legacy_question_id value =
      if has_legacy_shape value
      then elim (strptime value) [
        | none ↦ none
        | some stamp ↦ if strftime stamp == value then some stamp else none
      ]
      else none

  abbrev pub is_question_id : Text → Bool
  is_question_id candidate = elim (parse_q_id candidate) [
    | some number ↦ true
    | none ↦ elim (legacy_question_id candidate) [ some stamp ↦ true | none ↦ false ]
  ]

  -- The loop of `_extract_embedded_id`, one character at a time: `candidate` is what was read since
  -- the last opening bracket.
  unfoldable pub extract_embedded_id : Option Text → Text → Option Text
  extract_embedded_id candidate [] = none
  extract_embedded_id none (c ∷ line) =
      if nat_beq c b'[' then extract_embedded_id (some []) line else extract_embedded_id none line
  extract_embedded_id (some candidate) (c ∷ line) =
      let closed = extract_embedded_id none line in
      let longer = extract_embedded_id (some (candidate ++ c ∷ [])) line in
      if nat_beq c b']' then if is_question_id candidate then some candidate else closed else longer
