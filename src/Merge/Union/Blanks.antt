-- ===== src/Merge/Union/Blanks.antt =====
-- The blank lines of a union: none is lost, and none is added.
use nauro.Base.{
  ◌+◌, ◌≡◌, ◌≢◌, refl, true, List, [], ◌∷◌, ◌++◌, Option, none, some, Text, codes, count,
  count-append, text_eq, starts_with, arith, inl, inr, Bool-cases, All, All-append,
}
use nauro.Merge.Union.{
  Section, SectionScan, close_section, scan_body, scan_line, scan_lines, parse_sections, dedupe,
  dedupe_preserve_order, extend_body, group_sections, emit_sections,
}
use nauro.Merge.Union.Lines.{section_lines, count-dedupe_blank}

-- Every section has a header: a section begins at one.
abbrev pub HasHeaders : List Section → Type 0
HasHeaders = All (λ s. s.header ≢ [])

abbrev HasHeader : Option Section → Type 0
HasHeader none = Unit
HasHeader (some s) = s.header ≢ []

close_section-HasHeaders :
    (ss : List Section) (current : Option Section)
    → HasHeaders ss
    → HasHeader current
    → HasHeaders (close_section ss current)
unfolding close_section
close_section-HasHeaders ss none h k = h
close_section-HasHeaders ss (some s) h k = All-append (λ s. s.header ≢ []) ss (s ∷ []) h (k, tt)

header_ne_nil : (line : Text) → starts_with (codes "## ") line ≡ true → line ≢ []
unfolding starts_with
header_ne_nil [] h = cc
header_ne_nil (c ∷ line) h = λ e. cc

abbrev Headed : SectionScan → Type 0
Headed scan = HasHeaders scan.sections × HasHeader scan.current

scan_body-Headed :
    (scan : SectionScan) (current : Option Section) (line : Text)
    → current ≡ scan.current
    → Headed scan
    → Headed (scan_body scan current line)
unfolding scan_body
scan_body-Headed scan none line e h = h
scan_body-Headed scan (some s) line e h = (h.0, rw (← e) at h.1)

scan_line-Headed : (scan : SectionScan) (line : Text) → Headed scan → Headed (scan_line scan line)
unfolding scan_line
scan_line-Headed scan line h = elim (Bool-cases (starts_with (codes "## ") line)) [
  | inl header ↦
      rw header
        (close_section-HasHeaders scan.sections scan.current h.0 h.1, header_ne_nil line header)
  | inr body ↦ rw body (scan_body-Headed scan scan.current line refl h)
]

scan_lines-Headed :
    (scan : SectionScan) (lines : List Text) → Headed scan → Headed (scan_lines scan lines)
unfolding scan_lines
scan_lines-Headed scan [] h = h
scan_lines-Headed scan (line ∷ lines) h =
    scan_lines-Headed (scan_line scan line) lines (scan_line-Headed scan line h)

pub parse_sections-HasHeaders : (lines : List Text) → HasHeaders (parse_sections lines).1
unfolding parse_sections
parse_sections-HasHeaders lines =
    let start : SectionScan = record { preamble = []; sections = []; current = none } in
    let (h, k) = scan_lines-Headed start lines (tt, tt) in
    close_section-HasHeaders (scan_lines start lines).sections (scan_lines start lines).current h k

blank_extend_body :
    (s : Section) (groups : List Section)
    → s.header ≢ []
    → count [] (section_lines (extend_body s groups))
      ≡ count [] (section_lines groups) + count [] (section_lines (s ∷ []))
unfolding extend_body count
blank_extend_body s [] h = omega (arith, count-append [] s.body [])
blank_extend_body s (g ∷ groups) h = ground (
  arith,
  text_eq.beq_iff g.header s.header,
  text_eq.beq_iff s.header [],
  blank_extend_body s groups h,
  count-append [] s.body [],
  count-append [] g.body s.body,
  count-append [] g.body (section_lines groups),
  count-append [] g.body (section_lines (extend_body s groups)),
  count-append [] (g.body ++ s.body) (section_lines groups),
)

pub blank_group_sections :
    (groups sections : List Section)
    → HasHeaders sections
    → count [] (section_lines (group_sections groups sections))
      ≡ count [] (section_lines groups) + count [] (section_lines sections)
unfolding group_sections count
blank_group_sections groups [] h = omega arith
blank_group_sections groups (s ∷ sections) h = omega (
  arith,
  blank_group_sections (extend_body s groups) sections h.1,
  blank_extend_body s groups h.0,
  count-append [] s.body (section_lines sections),
  count-append [] s.body [],
)

pub blank_emit_sections :
    (sections : List Section)
    → count [] (emit_sections sections) ≡ count [] (section_lines sections)
unfolding emit_sections dedupe_preserve_order count
blank_emit_sections [] = refl
blank_emit_sections (s ∷ sections) = omega (
  arith,
  blank_emit_sections sections,
  count-append [] (dedupe [] s.body) (emit_sections sections),
  count-append [] s.body (section_lines sections),
  count-dedupe_blank [] s.body,
)
