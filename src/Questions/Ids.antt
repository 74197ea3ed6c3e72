-- ===== src/Questions/Ids.antt =====
-- packages/nauro-core/src/nauro_core/questions.py: `format_question_id`, `parse_question_id` and
-- `validate_question_id`, with `is_ascii_decimal` of packages/nauro-core/src/nauro_core/parsing.py.
pub mod Digits
use nauro.Base.{
  ℕ, zero, suc, ◌+◌, ◌-◌, ◌*◌, ◌/◌, ◌%◌, ◌≡◌, refl, Bool, true, false, not, ◌&&◌, ◌||◌, List, [],
  ◌∷◌, ◌++◌, map, Option, none, some, Text, codes, lstrip_by, nat_beq, ltb, leb, length, all, ◌==◌,
  if◌then◌else◌, text_eq, Eq, Result, ok, err, ◌>>=◌,
}

-- the requirement that an identifier does not meet
pub data InvalidQuestionIdentifier : Type 0 where
  not_positive too_long not_decimal not_canonical : InvalidQuestionIdentifier

-- The digits of a number in a base, the most significant one first, before the digits `more`;
-- zero has none. The fuel is a bound on the number.
unfoldable pub digits_before : ℕ → ℕ → ℕ → List ℕ → List ℕ
digits_before base zero n more = more
digits_before base (suc fuel) n more =
    let rest = digits_before base fuel (n / base) (n % base ∷ more) in
    if nat_beq n 0 then more else rest

-- `str(n)`
unfoldable pub decimal : ℕ → Text
decimal n = if nat_beq n 0 then codes "0" else map (λ d. 48 + d) (digits_before 10 n n [])

unfoldable pub repeat : ℕ → ℕ → Text
repeat zero c = []
repeat (suc n) c = c ∷ repeat n c

abbrev pub chunk_base : ℕ
chunk_base = 1000000000

-- `f"{chunk:09d}"`
unfoldable pub padded_chunk : ℕ → Text
padded_chunk chunk = let digits = decimal chunk in repeat (9 - length digits) b'0' ++ digits

unfoldable pub join_padded : List ℕ → Text
join_padded [] = []
join_padded (chunk ∷ chunks) = padded_chunk chunk ++ join_padded chunks

-- the chunks from the last one appended on; a positive number has one
unfoldable pub join_chunks : List ℕ → Text
join_chunks [] = []
join_chunks (head ∷ chunks) = decimal head ++ join_padded chunks

unfoldable pub format_positive_ascii_decimal : ℕ → Text
format_positive_ascii_decimal number = join_chunks (digits_before chunk_base number number [])

abbrev pub max_question_id_digits : ℕ
max_question_id_digits = 18

abbrev pub max_question_number : ℕ
max_question_number = 999999999999999999

abbrev pub question_label : ℕ → Text
question_label number = b'Q' ∷ format_positive_ascii_decimal number

unfoldable pub format_question_id : ℕ → Result InvalidQuestionIdentifier Text
format_question_id number =
    if ltb number 1
    then err not_positive
    else if ltb max_question_number number
    then err too_long
    else ok (question_label number)

abbrev pub is_digit : ℕ → Bool
is_digit c = leb b'0' c && leb c b'9'

unfoldable pub is_ascii_decimal : Text → Bool
is_ascii_decimal token = not (token == []) && all is_digit token

-- `number = number * 10 + ord(digit) - ord("0")` over the digits
unfoldable pub read_digits : ℕ → Text → ℕ
read_digits number [] = number
read_digits number (digit ∷ digits) = read_digits (number * 10 + digit - 48) digits

abbrev pub parse_significant : Text → Result InvalidQuestionIdentifier ℕ
parse_significant significant =
    let number = read_digits 0 significant in
    if ltb max_question_id_digits (length significant)
    then err too_long
    else if ltb number 1
    then err not_decimal
    else ok number

unfoldable pub parse_question_id : Text → Result InvalidQuestionIdentifier ℕ
parse_question_id [] = err not_decimal
parse_question_id (first ∷ digits) =
    if nat_beq first b'Q' && is_ascii_decimal digits
    then parse_significant (lstrip_by (nat_beq b'0') digits)
    else err not_decimal

unfoldable pub validate_question_id : Text → Result InvalidQuestionIdentifier Text
validate_question_id value = do
  number ← parse_question_id value
  canonical ← format_question_id number
  if value == canonical then ok canonical else err not_canonical

-- `_parse_q_id`
unfoldable pub parse_q_id : Text → Option ℕ
parse_q_id text = elim (parse_question_id text) [ ok number ↦ some number | err why ↦ none ]

-- `_canonicalize_question_reference`
unfoldable pub canonicalize_question_reference : Text → Text
canonicalize_question_reference value = elim (parse_question_id value >>= format_question_id) [
  | ok canonical ↦ canonical
  | err why ↦ value
]
