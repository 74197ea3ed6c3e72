-- ===== src/Sync/Headings.antt =====
-- packages/nauro/src/nauro/sync/headings.py: the number that a decision's heading claims, and its
-- rewriting. A line is a pair of its content and its end, as `str.splitlines` cuts it.
use nauro.Base.{
  ℕ, Bool, false, not, ◌&&◌, ◌||◌, List, [], ◌∷◌, ◌++◌, Option, none, some, Text, codes, nat_beq,
  leb, length, drop, starts_with, lstrip_by, cut, if◌then◌else◌, text_eq, nat_eq,
}
use nauro.Questions.Ids.{is_ascii_decimal, read_digits}
use nauro.Sync.Names.{padded_number}

abbrev pub Line : Type 0
Line = Text × Text

-- where `str.splitlines` ends a line; a carriage return takes a line feed after it along
abbrev pub ends_line : ℕ → Bool
ends_line c =
    (leb 10 c && leb c 13)
    || (leb 28 c && leb c 30)
    || nat_beq c 133
    || nat_beq c 8232
    || nat_beq c 8233

abbrev first_char : ℕ → List Line → List Line
first_char c [] = (c ∷ [], []) ∷ []
first_char c ((content, end) ∷ lines) = (c ∷ content, end) ∷ lines

abbrev line_end : ℕ → Text → List Line → List Line
line_end c s [] = ([], c ∷ []) ∷ []
line_end c s ((content, end) ∷ lines) =
    if nat_beq c 13 && starts_with (codes "\n") s
    then ([], c ∷ end) ∷ lines
    else ([], c ∷ []) ∷ (content, end) ∷ lines

unfoldable pub splitlines : Text → List Line
splitlines [] = []
splitlines (c ∷ s) =
    let rest = splitlines s in if ends_line c then line_end c s rest else first_char c rest

unfoldable pub join_lines : List Line → Text
join_lines [] = []
join_lines ((content, end) ∷ lines) = content ++ end ++ join_lines lines

abbrev pub em_dash : ℕ
em_dash = 8212

abbrev pub starts_with_separator : Text → Bool
starts_with_separator tail = starts_with (em_dash ∷ []) tail || starts_with (codes "-") tail

abbrev heading_parts : Text × Option Text → Option ℕ
heading_parts (head, none) = none
heading_parts (head, some tail) =
    if is_ascii_decimal head && starts_with_separator tail then some (read_digits 0 head) else none

unfoldable pub heading_line_number : Text → Option ℕ
heading_line_number [] = none
heading_line_number (c ∷ after_hash) =
    let rest = lstrip_by (nat_beq b' ') after_hash in
    if not (nat_beq c b'#')
    then none
    else if nat_beq (length rest) (length after_hash)
    then none
    else heading_parts (cut b' ' rest)

unfoldable pub heading_of_lines : List Line → Option ℕ
heading_of_lines [] = none
heading_of_lines ((content, end) ∷ lines) =
    let rest = heading_of_lines lines in
    elim (heading_line_number content) [ none ↦ rest | some n ↦ some n ]

unfoldable pub heading_number : Text → Option ℕ
heading_number text = heading_of_lines (splitlines text)

abbrev pub heading_prefix : ℕ → Text
heading_prefix number = codes "# " ++ padded_number number

-- the test of `_rewritable_index`, of a line with its end
unfoldable pub is_rewritable : ℕ → Text → Bool
is_rewritable number line =
    starts_with (heading_prefix number ++ b' ' ∷ em_dash ∷ []) line
    || starts_with (heading_prefix number ++ codes " -") line

-- the lines with the first rewritable one rewritten, where there is one
unfoldable pub rewrite_lines : ℕ → ℕ → List Line → Option Text
rewrite_lines old new [] = none
rewrite_lines old new ((content, end) ∷ lines) =
    let line = content ++ end in
    let rest = rewrite_lines old new lines in
    if is_rewritable old line
    then some (heading_prefix new ++ drop (length (heading_prefix old)) line ++ join_lines lines)
    else elim rest [ none ↦ none | some text ↦ some (line ++ text) ]

unfoldable pub has_rewritable_line : ℕ → List Line → Bool
has_rewritable_line number [] = false
has_rewritable_line number ((content, end) ∷ lines) =
    is_rewritable number (content ++ end) || has_rewritable_line number lines

unfoldable pub has_rewritable_heading : Text → ℕ → Bool
has_rewritable_heading text number = has_rewritable_line number (splitlines text)

unfoldable pub rewrite_decision_heading : Text → ℕ → ℕ → Text
rewrite_decision_heading text old new = elim (rewrite_lines old new (splitlines text)) [
  | none ↦ text
  | some rewritten ↦ rewritten
]
