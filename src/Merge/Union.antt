-- ===== src/Merge/Union.antt =====
-- packages/nauro/src/nauro/sync/merge.py: `_parse_sections`, `_dedupe_preserve_order` and
-- `_set_union_markdown`. The texts are the decoded ones: decoding and encoding with
-- `surrogateescape` are inverse to one another and are not modelled here.
pub mod Lines
pub mod Blanks
pub mod Laws
pub mod Documents
use nauro.Base.{
  ℕ, ◌≡◌, Bool, true, false, ◌&&◌, ◌||◌, List, [], ◌∷◌, ◌++◌, Option, none, some, Text, codes,
  starts_with, ends_with, split, join, contains, ◌==◌, if◌then◌else◌, text_eq, nat_eq, Eq, refl,
}

abbrev pub newline : ℕ
newline = 10

pub record Section : Type 0 where
  pub header : Text
  pub body : List Text

-- the local variables of the loop of `_parse_sections`
pub record SectionScan : Type 0 where
  pub preamble : List Text
  pub sections : List Section
  pub current : Option Section

-- `if current_header is not None: sections.append((current_header, current_body))`
unfoldable pub close_section : List Section → Option Section → List Section
close_section sections none = sections
close_section sections (some s) = sections ++ s ∷ []

unfoldable pub scan_body : SectionScan → Option Section → Text → SectionScan
scan_body scan none line = record scan { preamble = scan.preamble ++ line ∷ [] }
scan_body scan (some s) line = record scan {
  current = some (record s { body = s.body ++ line ∷ [] });
}

unfoldable pub scan_line : SectionScan → Text → SectionScan
unfolding close_section scan_body
scan_line scan line =
    if starts_with (codes "## ") line
    then record scan {
      sections = close_section scan.sections scan.current;
      current = some (record { header = line; body = [] });
    }
    else scan_body scan scan.current line

unfoldable pub scan_lines : SectionScan → List Text → SectionScan
scan_lines scan [] = scan
scan_lines scan (line ∷ lines) = scan_lines (scan_line scan line) lines

unfoldable pub parse_sections : List Text → List Text × List Section
unfolding close_section scan_lines scan_line
parse_sections lines =
    let scan = scan_lines (record { preamble = []; sections = []; current = none }) lines in
    (scan.preamble, close_section scan.sections scan.current)

-- the loop of `_dedupe_preserve_order`, with the lines seen so far
unfoldable pub dedupe : List Text → List Text → List Text
dedupe seen [] = []
dedupe seen (line ∷ lines) =
    let pass = dedupe seen lines in
    let fresh = dedupe (line ∷ seen) lines in
    if line == [] then line ∷ pass else if contains seen line then pass else line ∷ fresh

unfoldable pub dedupe_preserve_order : List Text → List Text
unfolding dedupe
dedupe_preserve_order lines = dedupe [] lines

-- One round of the grouping loop: `bodies_by_header` as a list in order of insertion, which is
-- also `section_order`.
unfoldable pub extend_body : Section → List Section → List Section
extend_body s [] = s ∷ []
extend_body s (g ∷ groups) =
    let rest = extend_body s groups in
    if g.header == s.header then record g { body = g.body ++ s.body } ∷ groups else g ∷ rest

unfoldable pub group_sections : List Section → List Section → List Section
unfolding extend_body
group_sections groups [] = groups
group_sections groups (s ∷ sections) = group_sections (extend_body s groups) sections

unfoldable pub emit_sections : List Section → List Text
unfolding dedupe_preserve_order
emit_sections [] = []
emit_sections (s ∷ sections) = s.header ∷ dedupe_preserve_order s.body ++ emit_sections sections

-- `_set_union_markdown` between the splitting and the joining of lines
unfoldable pub union_lines : List Text → List Text → List Text
unfolding parse_sections dedupe_preserve_order group_sections emit_sections
union_lines local_lines remote_lines =
    let (local_preamble, local_sections) = parse_sections local_lines in
    let (remote_preamble, remote_sections) = parse_sections remote_lines in
    let groups = group_sections [] (local_sections ++ remote_sections) in
    dedupe_preserve_order
      (dedupe_preserve_order (local_preamble ++ remote_preamble) ++ emit_sections groups)

-- `if lines and lines[-1] == "": lines = lines[:-1]`
unfoldable pub drop_final_blank : List Text → List Text
drop_final_blank [] = []
drop_final_blank (line ∷ []) = if line == [] then [] else line ∷ []
drop_final_blank (line ∷ next ∷ lines) = line ∷ drop_final_blank (next ∷ lines)

abbrev ends_with_newline : Text → Bool
ends_with_newline = ends_with (newline ∷ [])

unfoldable pub text_lines : Text → List Text
unfolding split drop_final_blank ends_with
text_lines text =
    if ends_with_newline text then drop_final_blank (split newline text) else split newline text

unfoldable pub set_union_markdown : Text → Text → Text
set_union_markdown local remote =
    let result = join newline (union_lines (text_lines local) (text_lines remote)) in
    if ends_with_newline local || ends_with_newline remote then result ++ newline ∷ [] else result
