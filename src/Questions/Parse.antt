-- ===== src/Questions/Parse.antt =====
-- packages/nauro-core/src/nauro_core/questions.py: `OpenQuestionsFile.parse` and `format`. The cursor
-- of the loop is the list of the lines that are left, and the lines that an entry or a topic took
-- are skipped by number.
pub mod Laws
pub mod Cuts
pub mod Heads
use nauro.Base.{
  ℕ, zero, suc, ◌+◌, Bool, true, false, not, ◌&&◌, ◌||◌, List, [], ◌∷◌, ◌++◌, Option, none, some,
  Text, codes, is_space, split, join, cut, starts_with, strip_by, lstrip_by, rstrip_by, ltb, length,
  drop, ◌==◌, if◌then◌else◌, text_eq, Eq, any,
}
use nauro.Questions.{
  ResolvedRef, QuestionEntry, Block, header_block, prose_block, entry_block, triple_hash_block,
  unparsable_block, OpenQuestionsFile,
}
use nauro.Questions.Ids.{is_ascii_decimal, read_digits, parse_q_id, decimal}
use nauro.Questions.Legacy.{legacy_question_id, extract_embedded_id}
use nauro.Questions.Resolve.{entry_id}

abbrev pub default_header : Text
default_header = codes "# Open Questions"

abbrev pub resolved_prefix_token : Text
resolved_prefix_token = codes "Resolved by D"

abbrev pub resolved_prefix_sep : Text
resolved_prefix_sep = codes " on "

-- what stands before and after the first place where `part` stands in the text
unfoldable pub cut_text : Text → Text → Option (Text × Text)
cut_text part [] = if part == [] then some ([], []) else none
cut_text part (c ∷ text) =
    let rest = cut_text part text in
    if starts_with part (c ∷ text)
    then some ([], drop (length part) (c ∷ text))
    else elim rest [ none ↦ none | some (before, after) ↦ some (c ∷ before, after) ]

abbrev pub is_blank : Text → Bool
is_blank line = strip_by is_space line == []

-- what kind of block a line begins
pub data LineKind : Type 0 where
  section topic dash other : LineKind

unfoldable pub line_kind : Text → LineKind
line_kind line =
    if starts_with (codes "## ") line
    then section
    else if starts_with (codes "### ") line
    then topic
    else if starts_with (codes "- [") line
    then dash
    else other

-- the lines after a topic's head, and the lines after an entry's
unfoldable pub topic_lines : List Text → List Text
topic_lines [] = []
topic_lines (line ∷ lines) =
    let rest = topic_lines lines in
    if is_blank line then [] else elim (line_kind line) [ other ↦ line ∷ rest | _ ↦ [] ]

unfoldable pub continuation_lines : List Text → List Text
continuation_lines [] = []
continuation_lines (line ∷ lines) =
    let rest = continuation_lines lines in if starts_with (codes "  ") line then line ∷ rest else []

-- `_parse_header`: the header, and the lines after it
unfoldable pub parse_header : List Text → Text × List Text
parse_header [] = (default_header, [])
parse_header (line ∷ lines) =
    let rest = parse_header lines in
    if is_blank line
    then rest
    else if starts_with (codes "# ") line && not (starts_with (codes "## ") line)
    then (rstrip_by is_space line, lines)
    else (default_header, line ∷ lines)

abbrev is_resolved_header : (Text → Text) → Text → Bool
is_resolved_header lower line =
    elim (cut_text (codes "resolved") (lower (strip_by is_space line))) [
      | none ↦ false
      | some found ↦ true
    ]

module _ {Day : Type 0} (fromisoformat : Text → Option Day) where
  abbrev pub resolved_ref : Text → Text → Option (ResolvedRef Day)
  resolved_ref num_str date_str =
      if not (is_ascii_decimal num_str)
        || ltb 4300 (length num_str)
        || ltb (read_digits 0 num_str) 1
      then none
      else elim (fromisoformat (strip_by is_space date_str)) [
        | none ↦ none
        | some date ↦ some (record { decision_num = read_digits 0 num_str; date = date })
      ]

  -- `_parse_resolved_prefix` of a text that begins with the token; `int` refuses more than 4300 digits
  unfoldable pub parse_resolved_prefix : Text → Option (ResolvedRef Day)
  parse_resolved_prefix text =
      elim (cut_text resolved_prefix_sep (drop (length resolved_prefix_token) text)) [
        | none ↦ none
        | some (num_str, date_str) ↦ if num_str == [] then none else resolved_ref num_str date_str
      ]

module _ {Stamp Day : Type 0} (strptime : Text → Option Stamp) (strftime : Stamp → Text) where
  abbrev entry_of :
      Option ℕ
      → Option Stamp
      → Option Text
      → Text
      → List Text
      → Option (ResolvedRef Day)
      → QuestionEntry Stamp Day
  entry_of num timestamp source body continuation ref = record {
    num = num;
    timestamp = timestamp;
    body = body;
    continuation = continuation;
    resolved_by = ref;
    source_question_id = source;
  }

  -- from the id and the body of an entry on
  unfoldable pub parse_identified :
      Text → Text → List Text → Option (ResolvedRef Day) → Option (QuestionEntry Stamp Day)
  parse_identified id_str body continuation ref = elim (parse_q_id id_str) [
    | some num ↦ some (entry_of (some num) none (some id_str) body continuation ref)
    | none ↦ elim (legacy_question_id strptime strftime id_str) [
      | none ↦ none
      | some stamp ↦ some (entry_of none (some stamp) none body continuation ref)
    ]
  ]

  abbrev pub parse_identified_after :
      Text × Option Text → List Text → ResolvedRef Day → Option (QuestionEntry Stamp Day)
  parse_identified_after (id_str, none) continuation ref = none
  parse_identified_after (id_str, some body) continuation ref =
      parse_identified id_str (lstrip_by is_space body) continuation (some ref)

  -- from the second bracket of a resolved entry on
  unfoldable pub parse_resolved :
      Option (ResolvedRef Day) → Text → List Text → Option (QuestionEntry Stamp Day)
  parse_resolved none after continuation = none
  parse_resolved (some ref) [] continuation = none
  parse_resolved (some ref) (c ∷ after) continuation =
      if starts_with (codes "[") (c ∷ after)
      then parse_identified_after (cut b']' after) continuation ref
      else none

  unfoldable pub parse_bracketed :
      (Text → Option Day) → Text → Option Text → List Text → Option (QuestionEntry Stamp Day)
  parse_bracketed fromisoformat first_inside none lines = none
  parse_bracketed fromisoformat first_inside (some after) lines =
      let after_first = lstrip_by is_space after in
      if starts_with resolved_prefix_token first_inside
      then parse_resolved (parse_resolved_prefix fromisoformat first_inside) after_first
          (continuation_lines lines)
      else parse_identified first_inside after_first (continuation_lines lines) none

  -- `_parse_entry` of a line that begins with `- [`
  unfoldable pub parse_entry :
      (Text → Option Day) → Text → List Text → Option (QuestionEntry Stamp Day)
  parse_entry fromisoformat line lines =
      let (first_inside, after) = cut b']' (drop 3 line) in
      parse_bracketed fromisoformat first_inside after lines

  abbrev pub flush_prose : List Text → List (Block Stamp Day) → List (Block Stamp Day)
  flush_prose [] blocks = blocks
  flush_prose (line ∷ pending) blocks = prose_block (line ∷ pending) ∷ blocks

  module _ (fromisoformat : Text → Option Day) (lower : Text → Text) where
    -- an entry, or a line that is not one; `go` is the rest of the loop
    unfoldable pub place_entry :
        Option (QuestionEntry Stamp Day)
        → List Text
        → Text
        → (ℕ → List Text → List (Block Stamp Day))
        → List (Block Stamp Day)
    place_entry none pending line go = flush_prose pending (unparsable_block (line ∷ []) ∷ go 0 [])
    place_entry (some e) pending line go =
        flush_prose pending (entry_block e ∷ go (length e.continuation) [])

    -- one round of the loop
    unfoldable pub parse_line :
        LineKind
        → List Text
        → Text
        → List Text
        → (ℕ → List Text → List (Block Stamp Day))
        → List (Block Stamp Day)
    parse_line section pending line lines go =
        flush_prose pending
          (header_block (rstrip_by is_space line) (is_resolved_header lower line) ∷ go 0 [])
    parse_line topic pending line lines go =
        let body = topic_lines lines in
        flush_prose pending (
          triple_hash_block (line ∷ body) (extract_embedded_id strptime strftime none line)
          ∷ go (length body) [])
    parse_line dash pending line lines go =
        place_entry (parse_entry fromisoformat line lines) pending line go
    parse_line other pending line lines go = go 0 (pending ++ line ∷ [])

    unfoldable pub parse_lines : ℕ → List Text → List Text → List (Block Stamp Day)
    parse_lines skip pending [] = flush_prose pending []
    parse_lines (suc skip) pending (line ∷ lines) = parse_lines skip pending lines
    parse_lines zero pending (line ∷ lines) =
        parse_line (line_kind line) pending line lines (λ skip prose. parse_lines skip prose lines)

    unfoldable pub parse : Text → OpenQuestionsFile Stamp Day
    parse content =
        let (header, lines) = parse_header (split 10 content) in
        record { header = header; blocks = parse_lines 0 [] lines }

  module _ (isoformat : Day → Text) where
    abbrev render_id : QuestionEntry Stamp Day → Text
    render_id e = elim e.source_question_id [ some source ↦ source | none ↦ entry_id strftime e ]

    abbrev pub render_head : QuestionEntry Stamp Day → Text
    render_head e =
        let identified = codes "[" ++ render_id e ++ codes "] " ++ e.body in
        elim e.resolved_by [
          | none ↦ codes "- " ++ identified
          | some ref ↦
              codes "- ["
              ++ resolved_prefix_token
              ++ decimal ref.decision_num
              ++ resolved_prefix_sep
              ++ isoformat ref.date
              ++ codes "] "
              ++ identified
        ]

    unfoldable pub render_lines : Block Stamp Day → List Text
    render_lines (header_block text divider) = text ∷ []
    render_lines (prose_block lines) = lines
    render_lines (entry_block e) = render_head e ∷ e.continuation
    render_lines (triple_hash_block lines id) = lines
    render_lines (unparsable_block lines) = lines

    unfoldable pub block_lines : List (Block Stamp Day) → List Text
    block_lines [] = []
    block_lines (b ∷ blocks) = render_lines b ++ block_lines blocks

    unfoldable pub format : OpenQuestionsFile Stamp Day → Text
    format file = join 10 (file.header ∷ block_lines file.blocks)
