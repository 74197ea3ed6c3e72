-- ===== src/Merge/Union/Lines.antt =====
-- Counting lines through the steps of the union.
use nauro.Base.{
  ℕ, min, ◌+◌, ◌≡◌, ◌≢◌, refl, List, [], ◌∷◌, ◌++◌, Option, none, some, Text, codes, contains,
  count, count-append, if◌then◌else◌, text_eq, starts_with, arith, inl, inr, Bool-cases,
}
use nauro.Merge.Union.{
  Section, SectionScan, close_section, scan_body, scan_line, scan_lines, parse_sections, dedupe,
  dedupe_preserve_order, extend_body, group_sections, emit_sections,
}

-- The lines of a list of sections, in order.
abbrev pub section_lines : List Section → List Text
section_lines [] = []
section_lines (s ∷ sections) = s.header ∷ s.body ++ section_lines sections

abbrev current_lines : Option Section → List Text
current_lines none = []
current_lines (some s) = s.header ∷ s.body

-- How often a line stands in what the scan holds.
abbrev scanned : Text → SectionScan → ℕ
scanned a scan =
    count a scan.preamble
    + count a (section_lines scan.sections)
    + count a (current_lines scan.current)

pub count-section_lines-append :
    (a : Text) (ss ts : List Section)
    → count a (section_lines (ss ++ ts)) ≡ count a (section_lines ss) + count a (section_lines ts)
unfolding count
count-section_lines-append a [] ts = omega arith
count-section_lines-append a (s ∷ ss) ts = omega (
  arith,
  count-section_lines-append a ss ts,
  count-append a s.body (section_lines (ss ++ ts)),
  count-append a s.body (section_lines ss),
)

count-close_section :
    (a : Text) (ss : List Section) (current : Option Section)
    → count a (section_lines (close_section ss current))
      ≡ count a (section_lines ss) + count a (current_lines current)
unfolding close_section count
count-close_section a ss none = omega arith
count-close_section a ss (some s) =
    omega (arith, count-section_lines-append a ss (s ∷ []), count-append a s.body [])

scanned-scan_body :
    (a : Text) (scan : SectionScan) (current : Option Section) (line : Text)
    → current ≡ scan.current
    → scanned a (scan_body scan current line) ≡ scanned a scan + count a (line ∷ [])
unfolding scan_body count
scanned-scan_body a scan none line e =
    rw (← e) (omega (arith, count-append a scan.preamble (line ∷ [])))
scanned-scan_body a scan (some s) line e =
    rw (← e) (omega (arith, count-append a s.body (line ∷ [])))

scanned-scan_line :
    (a : Text) (scan : SectionScan) (line : Text)
    → scanned a (scan_line scan line) ≡ scanned a scan + count a (line ∷ [])
unfolding scan_line
scanned-scan_line a scan line = elim (Bool-cases (starts_with (codes "## ") line)) [
  | inl header ↦
      rw header (unfold count in omega (arith, count-close_section a scan.sections scan.current))
  | inr body ↦ rw body (scanned-scan_body a scan scan.current line refl)
]

scanned-scan_lines :
    (a : Text) (scan : SectionScan) (lines : List Text)
    → scanned a (scan_lines scan lines) ≡ scanned a scan + count a lines
unfolding scan_lines count
scanned-scan_lines a scan [] = omega arith
scanned-scan_lines a scan (line ∷ lines) =
    omega (arith, scanned-scan_lines a (scan_line scan line) lines, scanned-scan_line a scan line)

-- Splitting a document into sections keeps every line, as often as it stands there.
pub count-parse_sections :
    (a : Text) (lines : List Text)
    → let (preamble, sections) = parse_sections lines in
      count a preamble + count a (section_lines sections) ≡ count a lines
unfolding parse_sections
count-parse_sections a lines =
    let start : SectionScan = record { preamble = []; sections = []; current = none } in
    let scan = scan_lines start lines in
    unfold count in
    omega
      (arith, scanned-scan_lines a start lines, count-close_section a scan.sections scan.current)

-- A blank line passes the deduplication each time.
pub count-dedupe_blank : (seen lines : List Text) → count [] (dedupe seen lines) ≡ count [] lines
unfolding dedupe count
count-dedupe_blank seen [] = refl
count-dedupe_blank seen (line ∷ lines) = ground (
  arith,
  text_eq.beq_iff line [],
  count-dedupe_blank seen lines,
  count-dedupe_blank (line ∷ seen) lines,
)

-- Any other line passes it once, unless it was seen before.
pub count-dedupe :
    (a : Text) (seen lines : List Text)
    → a ≢ []
    → count a (dedupe seen lines) ≡ (if contains seen a then 0 else min 1 (count a lines))
unfolding dedupe count contains
count-dedupe a seen [] h = ground arith
count-dedupe a seen (line ∷ lines) h = ground (
  arith,
  text_eq.beq_iff line [],
  text_eq.beq_iff line a,
  count-dedupe a seen lines h,
  count-dedupe a (line ∷ seen) lines h,
)

-- One more section in the groups: its header and its body are there, and so is what was.
pub count-extend_body :
    (a : Text) (s : Section) (groups : List Section)
    → min 1 (count a (section_lines (extend_body s groups)))
      ≡ min 1 (count a (section_lines groups) + count a (section_lines (s ∷ [])))
unfolding extend_body count
count-extend_body a s [] = omega (arith, count-append a s.body [])
count-extend_body a s (g ∷ groups) = ground (
  arith,
  text_eq.beq_iff g.header s.header,
  count-extend_body a s groups,
  count-append a s.body [],
  count-append a g.body s.body,
  count-append a g.body (section_lines groups),
  count-append a g.body (section_lines (extend_body s groups)),
  count-append a (g.body ++ s.body) (section_lines groups),
)

pub count-group_sections :
    (a : Text) (groups sections : List Section)
    → min 1 (count a (section_lines (group_sections groups sections)))
      ≡ min 1 (count a (section_lines groups) + count a (section_lines sections))
unfolding group_sections
count-group_sections a groups [] = unfold count in omega arith
count-group_sections a groups (s ∷ sections) = omega (
  arith,
  count-group_sections a (extend_body s groups) sections,
  count-extend_body a s groups,
  count-section_lines-append a (s ∷ []) sections,
)

pub count-emit_sections :
    (a : Text) (sections : List Section)
    → a ≢ []
    → min 1 (count a (emit_sections sections)) ≡ min 1 (count a (section_lines sections))
unfolding emit_sections dedupe_preserve_order count contains
count-emit_sections a [] h = refl
count-emit_sections a (s ∷ sections) h = omega (
  arith,
  count-emit_sections a sections h,
  count-append a (dedupe [] s.body) (emit_sections sections),
  count-append a s.body (section_lines sections),
  count-dedupe a [] s.body h,
)
